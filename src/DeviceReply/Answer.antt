-- ===== src/DeviceReply/Answer.antt =====
-- What `handle_device_reply` tells the user of a reply.
use g7ctrl.Common.{
  All, Bool, Bytes, List, [], ap, append-nil, append_assoc, arith, false, if◌then◌else◌, length,
  length-append, str_eq_refl, subst, suc, sym, take-length, ℕ, ◌++◌, ◌+◌, ◌-◌, ◌<◌, ◌==◌, ◌∙◌, ◌∷◌,
  ◌≡◌, ◌≤◌,
}
use g7ctrl.Common.Int.{pos}
use g7ctrl.Xstr.Copy.{xstrlcat, xstrlcpy_prefix, xstrlcat_fits}
use g7ctrl.Xstr.Split.RoundTrip.{Lacks, join, separated, join-separated}
use g7ctrl.DeviceReply.Parse.{
  Word, Word-chars, ok_reply, cstr-IsChar, extract_devcmd_reply-ok_reply,
}
use g7ctrl.DeviceReply.{
  ends_cmd, ends_tag, prompted, translation, append_fields, response, resp_len, handle_device_reply,
}

-- Fields that fit with their commas are appended whole.
append_fields_fits :
    (resp : Bytes) (fs : List Bytes)
    → length (resp ++ separated b',' fs) < resp_len
    → append_fields resp fs ≡ resp ++ separated b',' fs
unfolding append_fields
append_fields_fits resp [] h = sym (append-nil resp)
append_fields_fits resp (f ∷ fs) h =
    let sizes = length-append resp (b',' ∷ (f ++ separated b',' fs)) in
    let sizes' = length-append f (separated b',' fs) in
    let comma : xstrlcat resp (b',' ∷ []) resp_len ≡ (resp ++ b',' ∷ [], length resp + 1) =
      xstrlcat_fits resp (b',' ∷ []) resp_len (omega (arith, sizes)) in
    let field =
      xstrlcat_fits (resp ++ b',' ∷ []) f resp_len
        (omega (arith, sizes, sizes', length-append resp (b',' ∷ []))) in
    rw (comma, field)
      (append_fields_fits ((resp ++ b',' ∷ []) ++ f) fs
          (subst (λ l. length l < resp_len) (sym (regroup resp f (separated b',' fs))) h)
        ∙ regroup resp f (separated b',' fs))
  where
    regroup : (r f t : Bytes) → ((r ++ b',' ∷ []) ++ f) ++ t ≡ r ++ b',' ∷ (f ++ t)
    regroup r f t = append_assoc (r ++ b',' ∷ []) f t ∙ append_assoc r (b',' ∷ []) (f ++ t)

-- A response that fits 127 bytes is the fields with commas between them.
pub response-join :
    (f : Bytes) (fs : List Bytes)
    → length (f ++ separated b',' fs) < resp_len
    → response (f ∷ fs) ≡ f ++ separated b',' fs
unfolding response
response-join f fs h =
    rw
      (
        xstrlcpy_prefix f resp_len (omega arith),
        take-length (resp_len - 1) f (omega (arith, length-append f (separated b',' fs))),
      )
      (append_fields_fits f fs h)

some_field : (n : ℕ) → suc n == 0 ≡ false
some_field n = ground arith

-- For a reply `$OK:<command>+<tag>=<fields>` with the tag that was sent, the user gets the prompt
-- and the fields with commas between them, and the result is 0. If the translation is switched on,
-- the text that it leaves follows, and the message that the reply cannot be parsed if it fails. The
-- command has 1 to 12 bytes, no `+` and no `=`, the tag at most 5 and no `=` or line end, and there are
-- at most 63 fields without a comma, each shorter than 256 bytes and joined by commas of 1 to 127.
-- Nothing holds a NUL.
pub handle_device_reply-ok_reply :
    (translate : Bool) (stale cmd tag f : Bytes) (fs : List Bytes)
    → Word ends_cmd cmd
    → 0 < length cmd
    → length cmd ≤ 12
    → Word ends_tag tag
    → length tag ≤ 5
    → All (λ f. Lacks b',' f × (length f < 256)) (f ∷ fs)
    → length (f ∷ fs) ≤ 63
    → 0 < length (join b',' (f ∷ fs))
    → length (join b',' (f ∷ fs)) < 128
    → All (λ c. 0 < c) (join b',' (f ∷ fs))
    → handle_device_reply translate stale (ok_reply cmd tag (f ∷ fs)) tag ≡ (
      pos 0,
      prompted (join b',' (f ∷ fs)) ∷ (if translate then translation cmd (f ∷ fs) else []),
    )
unfolding handle_device_reply
handle_device_reply-ok_reply translate stale cmd tag f fs hc pc nc ht nt hf nf long lim chars =
    let parsed =
      extract_devcmd_reply-ok_reply cmd tag (f ∷ fs) hc pc nc ht nt hf nf long (omega arith)
        chars in
    let same = join-separated b',' f fs in
    let answer = response-join f fs (rw same at lim) ∙ sym same in
    rw (parsed, handle_device_reply)
      (rw
        (
          cstr-IsChar tag (Word-chars ends_tag tag ht),
          cstr-IsChar cmd (Word-chars ends_cmd cmd hc),
          str_eq_refl tag,
          some_field (length fs),
        )
        (ap (λ t. (pos 0, prompted t ∷ (if translate then translation cmd (f ∷ fs) else [])))
          answer))
