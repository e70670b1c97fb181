-- ===== src/DeviceReply/Bounds.antt =====
-- The lengths that `extract_devcmd_reply` lets through.
use g7ctrl.Common.{
  All, Bool, Bool-cases, Bytes, List, Rc, [], arith, cstr, drop, failure, false, get_or,
  if◌then◌else◌, inl, inr, leb, length, none, not, refl, some, success, true, ℕ, ◌&&◌, ◌+◌, ◌==◌,
  ◌∷◌, ◌≡◌, ◌≢◌, ◌≤◌,
}
use g7ctrl.Xstr.Split.{xstrsplitfields}
use g7ctrl.DeviceReply.{
  head, Scan, scan, ends_cmd, ends_tag, DevReply, extract_fields, split_fields, after_tag,
  after_cmd, extract_tag, extract_cmd, extract_devcmd_reply,
}
use g7ctrl.DeviceReply.Parse.{scan_lem}

fields_kept :
    (isok : Bool) (cmd tag p : Bytes) (r : DevReply)
    → extract_fields isok cmd tag p ≡ some r
    → (r.cmd ≡ cmd) × (r.tag ≡ tag)
unfolding extract_fields
fields_kept isok cmd tag p r e =
    elim (Bool-cases (not (head p == 0) && not (head p == b'\r') && not (head p == b'\n'))) [
      | inl t ↦ of_split (xstrsplitfields (cstr (drop 1 p)) b',') (rw t at e)
      | inr t ↦ of_some [] (rw t at e)
    ]
  where
    of_some :
        (flds : List Bytes)
        → some (record { isok = isok; cmd = cmd; tag = tag; flds = flds }) ≡ some r
        → (r.cmd ≡ cmd) × (r.tag ≡ tag)
    of_some flds e =
        let q : r ≡ record { isok = isok; cmd = cmd; tag = tag; flds = flds } = cc in
        rw q (refl, refl)

    of_split :
        (s : Rc × List Bytes) → split_fields isok cmd tag s ≡ some r → (r.cmd ≡ cmd) × (r.tag ≡ tag)
    of_split (failure, flds) e = cc
    of_split (success, flds) e = of_some flds e

-- What is known of a reply that is not refused.
abbrev pub Accepted : DevReply → Type 0
Accepted r = (length r.cmd ≤ 14) × (length r.cmd ≢ 13) × (length r.tag ≤ 7) × (length r.tag ≢ 6)

spent_refused :
    (isok : Bool) (cmd : Bytes) (t : Scan) (r : DevReply)
    → t.spent ≡ true
    → after_tag isok cmd t ≢ some r
unfolding after_tag
spent_refused isok cmd t r x e = let z = rw x at e in cc

not_spent :
    (isok : Bool) (cmd : Bytes) (t : Scan) (r : DevReply)
    → t.spent ≡ false
    → after_tag isok cmd t ≡ some r
    → extract_fields isok cmd t.taken t.rest ≡ some r
unfolding after_tag
not_spent isok cmd t r x e = rw x at e

tag_Accepted :
    (isok : Bool) (cmd p : Bytes) (r : DevReply)
    → length cmd ≤ 14
    → length cmd ≢ 13
    → extract_tag isok cmd p ≡ some r
    → Accepted r
unfolding extract_tag
tag_Accepted isok cmd p r lc nc e = elim (Bool-cases (head p == b'+')) [
  | inl t ↦ of_scan (scan ends_tag 7 (drop 1 p)) (scan_lem ends_tag 7 (drop 1 p)) (rw t at e)
  | inr t ↦
      let (c, g) = fields_kept isok cmd [] p r (rw t at e) in
      rw (c, g) (lc, nc, omega arith, (λ q. omega arith))
]
  where
    of_scan :
        (t : Scan)
        → (length t.taken ≤ 7)
          × All (λ c. ends_tag c ≡ false) t.taken
          × (t.spent ≡ false → length t.taken + 1 ≢ 7)
        → after_tag isok cmd t ≡ some r
        → Accepted r
    of_scan t (l, a, s) e = elim (Bool-cases t.spent) [
      | inl x ↦ absurd (spent_refused isok cmd t r x e)
      | inr x ↦
          let (c, g) = fields_kept isok cmd t.taken t.rest r (not_spent isok cmd t r x e) in
          rw (c, g) (lc, nc, l, (λ q. s x (omega arith)))
    ]

kept :
    (isok : Bool) (c : Scan) (r : DevReply)
    → after_cmd isok c ≡ some r
    → (c.spent ≡ false) × (extract_tag isok c.taken c.rest ≡ some r)
unfolding after_cmd
kept isok c r e = elim (Bool-cases c.spent) [
  | inl x ↦ let z = rw x at e in cc
  | inr x ↦ elim (Bool-cases (head c.rest == b'+' && length (cstr c.taken) == 0)) [
    | inl y ↦ let z = rw (x, y) at e in cc
    | inr y ↦ (x, rw (x, y) at e)
  ]
]

cmd_Accepted : (isok : Bool) (p : Bytes) (r : DevReply) → extract_cmd isok p ≡ some r → Accepted r
unfolding extract_cmd
cmd_Accepted isok p r e = of_scan (scan ends_cmd 14 p) (scan_lem ends_cmd 14 p) e
  where
    of_scan :
        (c : Scan)
        → (length c.taken ≤ 14)
          × All (λ c. ends_cmd c ≡ false) c.taken
          × (c.spent ≡ false → length c.taken + 1 ≢ 14)
        → after_cmd isok c ≡ some r
        → Accepted r
    of_scan c (l, a, s) e =
        let (x, z) = kept isok c r e in
        tag_Accepted isok c.taken c.rest r l (λ q. s x (omega arith)) z

-- A reply that is not refused has a command of at most 14 bytes, but not of 13, and a tag of at
-- most 7 bytes, but not of 6.
pub extract_devcmd_reply_bounds :
    (raw : Bytes) (r : DevReply) → extract_devcmd_reply raw ≡ some r → Accepted r
unfolding extract_devcmd_reply
extract_devcmd_reply_bounds raw r e = elim (Bool-cases (not (head raw == b'$'))) [
  | inl t ↦ let z = rw t at e in cc
  | inr t ↦ branch (drop 1 raw) (rw t at e)
]
  where
    digit :
        (c : ℕ)
        → some (record { isok = false; cmd = []; tag = []; flds = (c ∷ []) ∷ [] }) ≡ some r
        → Accepted r
    digit c e =
        let q : r ≡ record { isok = false; cmd = []; tag = []; flds = (c ∷ []) ∷ [] } = cc in
        rw q (omega arith, (λ x. omega arith), omega arith, (λ x. omega arith))

    error :
        (p : Bytes)
        → (if leb b'0' (get_or p 4 0) && leb (get_or p 4 0) b'9'
            then some (record { isok = false; cmd = []; tag = []; flds = (get_or p 4 0 ∷ []) ∷ [] })
            else extract_cmd false (drop 4 p))
          ≡ some r
        → Accepted r
    error p e = elim (Bool-cases (leb b'0' (get_or p 4 0) && leb (get_or p 4 0) b'9')) [
      | inl t ↦ digit (get_or p 4 0) (rw t at e)
      | inr t ↦ cmd_Accepted false (drop 4 p) r (rw t at e)
    ]

    branch :
        (p : Bytes)
        → (if head p == b'O' && get_or p 1 0 == b'K' && get_or p 2 0 == b':'
            then extract_cmd true (drop 3 p)
            else if head p == b'E'
                && get_or p 1 0 == b'R'
                && get_or p 2 0 == b'R'
                && get_or p 3 0 == b':'
            then (if leb b'0' (get_or p 4 0) && leb (get_or p 4 0) b'9'
                then some
                    (record { isok = false; cmd = []; tag = []; flds = (get_or p 4 0 ∷ []) ∷ [] })
                else extract_cmd false (drop 4 p))
            else none)
          ≡ some r
        → Accepted r
    branch p e =
        elim (Bool-cases (head p == b'O' && get_or p 1 0 == b'K' && get_or p 2 0 == b':')) [
          | inl t ↦ cmd_Accepted true (drop 3 p) r (rw t at e)
          | inr t ↦
              elim (Bool-cases (
                head p == b'E'
                && get_or p 1 0 == b'R'
                && get_or p 2 0 == b'R'
                && get_or p 3 0 == b':')) [
                  | inl u ↦ error p (rw (t, u) at e)
                  | inr u ↦ let z = rw (t, u) at e in cc
                ]
        ]
