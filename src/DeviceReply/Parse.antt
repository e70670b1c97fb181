-- ===== src/DeviceReply/Parse.antt =====
-- What `extract_devcmd_reply` makes of replies in the documented form, and the lengths it lets through.
use g7ctrl.Common.{
  All, Bool, Bool-cases, Bytes, List, [], ap, arith, cstr, drop, false, if◌then◌else◌, inl, inr,
  length, none, refl, some, suc, true, zero, ℕ, ◌++◌, ◌+◌, ◌<◌, ◌==◌, ◌∙◌, ◌∷◌, ◌≡◌, ◌≢◌, ◌≤◌,
}
use g7ctrl.Xstr.Split.{xstrsplitfields}
use g7ctrl.Xstr.Split.RoundTrip.{Lacks, join, xstrsplitfields-join}
use g7ctrl.DeviceReply.{
  head, scan, ends_cmd, ends_tag, extract_fields, split_fields, after_tag, after_cmd, extract_tag,
  extract_cmd, extract_devcmd_reply,
}

-- The scan stops at the first byte that ends it.
scan-append :
    (stop : ℕ → Bool) (max : ℕ) (w p : Bytes)
    → All (λ c. stop c ≡ false) w
    → stop (head p) ≡ true
    → length w + 1 < max
    → scan stop max (w ++ p) ≡ record { taken = w; rest = p; spent = false }
unfolding scan
scan-append stop zero w p h e lt = absurd (omega arith)
scan-append stop (suc max) [] p h e lt =
    rw e (ap (λ b. record { taken = []; rest = p; spent = b }) (nonzero max (omega arith)))
  where
    nonzero : (n : ℕ) → 0 < n → n == 0 ≡ false
    nonzero n h = ground arith
scan-append stop (suc max) (c ∷ w) p h e lt =
    rw (h.0, scan-append stop max w p h.1 e (omega arith)) refl

-- What a scan has read, and how much.
pub scan_lem :
    (stop : ℕ → Bool) (max : ℕ) (p : Bytes)
    → (length (scan stop max p).taken ≤ max)
      × All (λ c. stop c ≡ false) (scan stop max p).taken
      × ((scan stop max p).spent ≡ false → length (scan stop max p).taken + 1 ≢ max)
unfolding scan
scan_lem stop zero p = (omega arith, tt, λ h e. omega arith)
scan_lem stop (suc max) p = elim (Bool-cases (stop (head p))) [
  | inl e ↦ rw e (omega arith, tt, λ h k. ground arith)
  | inr e ↦
      let (l, a, s) = scan_lem stop max (drop 1 p) in
      rw e (omega arith, (e, a), λ h k. s h (omega arith))
]

pub cstr-IsChar : (s : Bytes) → All (λ c. 0 < c) s → cstr s ≡ s
unfolding cstr
cstr-IsChar [] h = refl
cstr-IsChar (c ∷ s) h = ground (arith, cstr-IsChar s h.1)

-- A name or a tag that the scan for it reads whole, and that holds no NUL.
abbrev pub Word : (ℕ → Bool) → Bytes → Type 0
Word stop = All (λ c. (stop c ≡ false) × (0 < c))

Word-stop : (stop : ℕ → Bool) (w : Bytes) → Word stop w → All (λ c. stop c ≡ false) w
Word-stop stop [] h = tt
Word-stop stop (c ∷ w) h = (h.0.0, Word-stop stop w h.1)

pub Word-chars : (stop : ℕ → Bool) (w : Bytes) → Word stop w → All (λ c. 0 < c) w
Word-chars stop [] h = tt
Word-chars stop (c ∷ w) h = (h.0.1, Word-chars stop w h.1)

abbrev pub ok_memory : Bytes → Bytes → Bytes → Bytes
ok_memory cmd tag p = b'$' ∷ b'O' ∷ b'K' ∷ b':' ∷ (cmd ++ b'+' ∷ (tag ++ b'=' ∷ p))

-- `$OK:<COMMAND>+<Tag>=<fields>`
abbrev pub ok_reply : Bytes → Bytes → List Bytes → Bytes
ok_reply cmd tag flds = ok_memory cmd tag (join b',' flds)

fields_join :
    (cmd tag : Bytes) (flds : List Bytes) (p : Bytes)
    → All (λ f. Lacks b',' f × (length f < 256)) flds
    → length flds ≤ 63
    → 0 < length (join b',' flds)
    → length (join b',' flds) < 1024
    → cstr p ≡ join b',' flds
    → extract_fields true cmd tag (b'=' ∷ p)
      ≡ some (record { isok = true; cmd = cmd; tag = tag; flds = flds })
unfolding extract_fields
fields_join cmd tag flds p h n pos lim same =
    ap (λ t. split_fields true cmd tag (xstrsplitfields t b',')) same
    ∙ ap (split_fields true cmd tag) (xstrsplitfields-join flds b',' h n pos lim)

tag_join :
    (cmd tag p : Bytes)
    → Word ends_tag tag
    → length tag ≤ 5
    → extract_tag true cmd (b'+' ∷ (tag ++ b'=' ∷ p)) ≡ extract_fields true cmd tag (b'=' ∷ p)
unfolding extract_tag after_tag
tag_join cmd tag p h n =
    ap (after_tag true cmd)
      (scan-append ends_tag 7 tag (b'=' ∷ p) (Word-stop ends_tag tag h) refl (omega arith))

pub nonempty : (c : ℕ) (w : Bytes) → 0 < c → length (cstr (c ∷ w)) == 0 ≡ false
unfolding cstr
nonempty c w h = ground arith

cmd_join :
    (cmd p : Bytes)
    → Word ends_cmd cmd
    → 0 < length cmd
    → length cmd ≤ 12
    → extract_cmd true (cmd ++ b'+' ∷ p) ≡ extract_tag true cmd (b'+' ∷ p)
unfolding extract_cmd after_cmd
cmd_join cmd p h pos n =
    ap (after_cmd true)
      (scan-append ends_cmd 14 cmd (b'+' ∷ p) (Word-stop ends_cmd cmd h) refl (omega arith))
    ∙ named cmd h pos
  where
    named :
        (cmd : Bytes)
        → Word ends_cmd cmd
        → 0 < length cmd
        → after_cmd true (record { taken = cmd; rest = b'+' ∷ p; spent = false })
          ≡ extract_tag true cmd (b'+' ∷ p)
    named [] h pos = absurd (omega arith)
    named (c ∷ w) h pos =
        ap (λ b. if b then none else extract_tag true (c ∷ w) (b'+' ∷ p)) (nonempty c w h.0.1)

-- The same where the text behind the equals sign is a C string in memory.
pub extract_devcmd_reply-memory :
    (cmd tag : Bytes) (flds : List Bytes) (p : Bytes)
    → Word ends_cmd cmd
    → 0 < length cmd
    → length cmd ≤ 12
    → Word ends_tag tag
    → length tag ≤ 5
    → All (λ f. Lacks b',' f × (length f < 256)) flds
    → length flds ≤ 63
    → 0 < length (join b',' flds)
    → length (join b',' flds) < 1024
    → cstr p ≡ join b',' flds
    → extract_devcmd_reply (ok_memory cmd tag p)
      ≡ some (record { isok = true; cmd = cmd; tag = tag; flds = flds })
unfolding extract_devcmd_reply
extract_devcmd_reply-memory cmd tag flds p hc pos nc ht nt hf nf long lim same =
    cmd_join cmd (tag ++ b'=' ∷ p) hc pos nc
    ∙ tag_join cmd tag p ht nt
    ∙ fields_join cmd tag flds p hf nf long lim same

-- A reply `$OK:<command>+<tag>=<fields>` gives back its command, its tag and its fields: a
-- command of 1 to 12 bytes without `+` and `=`, a tag of at most 5 bytes without `=` and line
-- ends, at most 63 fields, each below 256 bytes and without a comma, of 1 to 1023 bytes together,
-- and no NUL in any of them.
pub extract_devcmd_reply-ok_reply :
    (cmd tag : Bytes) (flds : List Bytes)
    → Word ends_cmd cmd
    → 0 < length cmd
    → length cmd ≤ 12
    → Word ends_tag tag
    → length tag ≤ 5
    → All (λ f. Lacks b',' f × (length f < 256)) flds
    → length flds ≤ 63
    → 0 < length (join b',' flds)
    → length (join b',' flds) < 1024
    → All (λ c. 0 < c) (join b',' flds)
    → extract_devcmd_reply (ok_reply cmd tag flds)
      ≡ some (record { isok = true; cmd = cmd; tag = tag; flds = flds })
extract_devcmd_reply-ok_reply cmd tag flds hc pos nc ht nt hf nf long lim chars =
    extract_devcmd_reply-memory cmd tag flds (join b',' flds) hc pos nc ht nt hf nf long lim
      (cstr-IsChar (join b',' flds) chars)
