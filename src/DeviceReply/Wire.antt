-- ===== src/DeviceReply/Wire.antt =====
-- Replies as a device sends them, with a line end, and as they lie in the buffer of a read.
use g7ctrl.Common.{
  All, All-append, Bytes, List, [], ap, append_assoc, arith, cstr, length, length-append, refl,
  some, suc, sym, true, ℕ, ◌++◌, ◌<◌, ◌∙◌, ◌∷◌, ◌≡◌, ◌≢◌, ◌≤◌,
}
use g7ctrl.Xstr.Split.RoundTrip.{Lacks, join}
use g7ctrl.DeviceReply.{ends_cmd, ends_tag, extract_devcmd_reply}
use g7ctrl.DeviceReply.Parse.{Word, ok_memory, ok_reply, extract_devcmd_reply-memory}

abbrev pub crnl : Bytes
crnl = b'\r' ∷ b'\n' ∷ []

-- The text of a package: without a NUL and without a carriage return.
abbrev pub Line : Bytes → Type 0
Line = All (λ c. (0 < c) × (c ≢ b'\r'))

-- A command, a tag and fields that make a reply which fits every buffer on its way.
pub record IsReply (cmd tag : Bytes) (flds : List Bytes) : Type 0 where
  pub cmd_word : Word ends_cmd cmd
  pub cmd_line : Line cmd
  pub cmd_some : 0 < length cmd
  pub cmd_short : length cmd ≤ 12
  pub tag_word : Word ends_tag tag
  pub tag_line : Line tag
  pub tag_short : length tag ≤ 5
  pub fields : All (λ f. Lacks b',' f × (length f < 254)) flds
  pub few : length flds ≤ 63
  pub text_some : 0 < length (join b',' flds)
  pub text_short : length (join b',' flds) < 128
  pub text_line : Line (join b',' flds)

pub Line-chars : (s : Bytes) → Line s → All (λ c. 0 < c) s
Line-chars [] h = tt
Line-chars (c ∷ s) h = (h.0.0, Line-chars s h.1)

pub cstr-append : (s p : Bytes) → All (λ c. 0 < c) s → cstr (s ++ 0 ∷ p) ≡ s
unfolding cstr
cstr-append [] p h = refl
cstr-append (c ∷ s) p h = ground (arith, cstr-append s p h.1)

-- The last field takes the line end with it.
abbrev pub add_crnl : List Bytes → List Bytes
add_crnl [] = []
add_crnl (f ∷ []) = (f ++ crnl) ∷ []
add_crnl (f ∷ g ∷ fs) = f ∷ add_crnl (g ∷ fs)

pub join-add_crnl :
    (f : Bytes) (fs : List Bytes) → join b',' (add_crnl (f ∷ fs)) ≡ join b',' (f ∷ fs) ++ crnl
join-add_crnl f [] = refl
join-add_crnl f (g ∷ []) = sym (append_assoc f (b',' ∷ g) crnl)
join-add_crnl f (g ∷ h ∷ fs) =
    ap (λ l. f ++ b',' ∷ l) (join-add_crnl g (h ∷ fs))
    ∙ sym (append_assoc f (b',' ∷ join b',' (g ∷ h ∷ fs)) crnl)

length-add_crnl : (fs : List Bytes) → length (add_crnl fs) ≡ length fs
length-add_crnl [] = refl
length-add_crnl (f ∷ []) = refl
length-add_crnl (f ∷ g ∷ fs) = ap suc (length-add_crnl (g ∷ fs))

fields-add_crnl :
    (fs : List Bytes)
    → All (λ f. Lacks b',' f × (length f < 254)) fs
    → All (λ f. Lacks b',' f × (length f < 256)) (add_crnl fs)
fields-add_crnl [] h = tt
fields-add_crnl (f ∷ []) h = (
  (
    All-append (λ c. c ≢ b',') f crnl h.0.0 (omega arith, (omega arith, tt)),
    omega (arith, length-append f crnl, h.0.1),
  ),
  tt,
)
fields-add_crnl (f ∷ g ∷ fs) h = ((h.0.0, omega (arith, h.0.1)), fields-add_crnl (g ∷ fs) h.1)

pub add_crnl-fields :
    (fs : List Bytes)
    → All (λ f. Lacks b',' f × (length f < 254)) fs
    → All (λ f. Lacks b',' f × (length f < 256)) fs
add_crnl-fields [] h = tt
add_crnl-fields (f ∷ fs) h = ((h.0.0, omega (arith, h.0.1)), add_crnl-fields fs h.1)

-- A text moved into the last part of a reply.
pub ok_memory-append : (cmd tag p r : Bytes) → ok_memory cmd tag p ++ r ≡ ok_memory cmd tag (p ++ r)
ok_memory-append cmd tag p r =
    ap (λ l. b'$' ∷ b'O' ∷ b'K' ∷ b':' ∷ l)
      (append_assoc cmd (b'+' ∷ (tag ++ b'=' ∷ p)) r
        ∙ ap (λ l. cmd ++ b'+' ∷ l) (append_assoc tag (b'=' ∷ p) r))

-- A reply with its line end, in a buffer that may hold anything behind the NUL.
pub extract_devcmd_reply-wire :
    (cmd tag f : Bytes) (fs : List Bytes) (stale : Bytes)
    → IsReply cmd tag (f ∷ fs)
    → extract_devcmd_reply ((ok_reply cmd tag (f ∷ fs) ++ crnl) ++ 0 ∷ stale)
      ≡ some (record { isok = true; cmd = cmd; tag = tag; flds = add_crnl (f ∷ fs) })
extract_devcmd_reply-wire cmd tag f fs stale r =
    let text = join b',' (f ∷ fs) in
    let size = ap length (join-add_crnl f fs) in
    let sum = length-append text crnl in
    let moved : (ok_reply cmd tag (f ∷ fs) ++ crnl) ++ 0 ∷ stale
        ≡ ok_memory cmd tag ((text ++ crnl) ++ 0 ∷ stale) =
      ap (λ l. l ++ 0 ∷ stale) (ok_memory-append cmd tag text crnl)
      ∙ ok_memory-append cmd tag (text ++ crnl) (0 ∷ stale) in
    let chars =
      All-append (λ c. 0 < c) text crnl (Line-chars text r.text_line)
        (omega arith, (omega arith, tt)) in
    ap extract_devcmd_reply moved
    ∙ extract_devcmd_reply-memory cmd tag (add_crnl (f ∷ fs)) ((text ++ crnl) ++ 0 ∷ stale)
        r.cmd_word r.cmd_some r.cmd_short r.tag_word r.tag_short (fields-add_crnl (f ∷ fs) r.fields)
        (omega (arith, length-add_crnl (f ∷ fs), r.few)) (omega (arith, size, sum))
        (omega (arith, size, sum, r.text_short))
        (cstr-append (text ++ crnl) stale chars ∙ sym (join-add_crnl f fs))

pub ok_reply-Line :
    (cmd tag : Bytes) (flds : List Bytes) → IsReply cmd tag flds → Line (ok_reply cmd tag flds)
ok_reply-Line cmd tag flds r =
    let P = λ (c : ℕ). (0 < c) × (c ≢ b'\r') in
    let tail =
      All-append P tag (b'=' ∷ join b',' flds) r.tag_line
        ((omega arith, omega arith), r.text_line) in
    let rest =
      All-append P cmd (b'+' ∷ (tag ++ b'=' ∷ join b',' flds)) r.cmd_line
        ((omega arith, omega arith), tail) in
    (
      (omega arith, omega arith),
      (
        (omega arith, omega arith),
        ((omega arith, omega arith), ((omega arith, omega arith), rest)),
      ),
    )

-- The whole reply is shorter than 160 bytes.
pub ok_reply-length :
    (cmd tag : Bytes) (flds : List Bytes)
    → IsReply cmd tag flds
    → length (ok_reply cmd tag flds) < 160
ok_reply-length cmd tag flds r = omega (
  arith,
  r.cmd_short,
  r.tag_short,
  r.text_short,
  length-append cmd (b'+' ∷ (tag ++ b'=' ∷ join b',' flds)),
  length-append tag (b'=' ∷ join b',' flds),
)
