-- ===== src/Dict/Replace.antt =====
-- Templates: what the replacement makes of literal text and keys in brackets.
use g7ctrl.Common.{
  All, Bytes, List, [], ap, arith, false, if◌then◌else◌, leb, length, length-append, ltb, min, refl,
  some, suc, take, zero, ℕ, ◌*◌, ◌++◌, ◌+◌, ◌<◌, ◌==◌, ◌∙◌, ◌∷◌, ◌≡◌, ◌≢◌, ◌≤◌,
}
use g7ctrl.Xstr.Split.RoundTrip.{Lacks}
use g7ctrl.Dict.{
  Tuple, Dict, find_tuple, str_case_eq, read_match, replacement, replacement_of, replace_from,
  overrun, too_small, replaced, replace_dict_in_buf, max_dictionary_val_size,
}

-- A template is literal bytes and keys, each with the value it stands for.
pub data Piece : Type 0 where
  lit : ℕ → Piece
  ref : (key val : Bytes) → Piece

-- The text of a template.
abbrev pub render : List Piece → Bytes
render [] = []
render (lit c ∷ ps) = c ∷ render ps
render (ref k v ∷ ps) = b'[' ∷ (k ++ b']' ∷ render ps)

-- The text with the values, each of 1024 bytes at most.
abbrev pub expand : List Piece → Bytes
expand [] = []
expand (lit c ∷ ps) = c ∷ expand ps
expand (ref k v ∷ ps) = take max_dictionary_val_size v ++ expand ps

-- Literal bytes are not `[`; the keys are short enough, have no `]`, and the dictionary has the values.
abbrev pub Known : List Tuple → Piece → Type 0
Known ts (lit c) = c ≢ b'['
Known ts (ref k v) = Lacks b']' k × (length k ≤ 255) × (find_tuple (str_case_eq k) ts ≡ some v)

read_match-append :
    (k s : Bytes) (room : ℕ)
    → Lacks b']' k
    → length k ≤ room
    → read_match room (k ++ b']' ∷ s) ≡ (k, b']' ∷ s)
unfolding read_match
read_match-append [] s zero h le = refl
read_match-append [] s (suc room) h le = refl
read_match-append (c ∷ k) s zero h le = absurd (omega arith)
read_match-append (c ∷ k) s (suc room) h le =
    rw (other c h.0, read_match-append k s room h.1 (omega arith)) refl
  where
    other : (c : ℕ) → c ≢ b']' → c == b']' ≡ false
    other c h = ground arith

replacement-Known :
    (ts : List Tuple) (k v s : Bytes)
    → Known ts (ref k v)
    → replacement ts (k ++ b']' ∷ s) ≡ some (take max_dictionary_val_size v, s)
unfolding replacement replacement_of
replacement-Known ts k v s h =
    ap (replacement_of ts) (read_match-append k s 255 h.0 h.1) ∙ rw h.2 refl

replace_from-render :
    (fuel : ℕ) (ts : List Tuple) (size n : ℕ) (ps : List Piece)
    → All (Known ts) ps
    → length (render ps) ≤ fuel
    → n + length (render ps) ≤ size
    → replace_from fuel ts size n (render ps) ≡ expand ps
unfolding replace_from
replace_from-render zero ts size n [] h f le = refl
replace_from-render (suc fuel) ts size n [] h f le = refl
replace_from-render zero ts size n (lit c ∷ ps) h f le = absurd (omega arith)
replace_from-render zero ts size n (ref k v ∷ ps) h f le = absurd (omega arith)
replace_from-render (suc fuel) ts size n (lit c ∷ ps) h f le =
    rw
      (
        going size n (omega arith),
        other c h.0,
        replace_from-render fuel ts size (n + 1) ps h.1 (omega arith) (omega arith),
      )
      refl
  where
    going : (size n : ℕ) → n < size → leb size n ≡ false
    going size n h = ground arith

    other : (c : ℕ) → c ≢ b'[' → c == b'[' ≡ false
    other c h = ground arith
replace_from-render (suc fuel) ts size n (ref k v ∷ ps) h f le =
    let sizes = length-append k (b']' ∷ render ps) in
    rw (going size n (omega arith), replacement-Known ts k v (render ps) h.0)
      (ap (λ t. take max_dictionary_val_size v ++ t)
        (replace_from-render fuel ts size n ps h.1 (omega (arith, sizes)) (omega (arith, sizes))))
  where
    going : (size n : ℕ) → n < size → leb size n ≡ false
    going size n h = ground arith

-- The length of a template of known keys and 1024 for each entry of the dictionary are below 2 ^
-- 20 together. If the text with the values, each cut to 1024 bytes, is as long as their sum or
-- longer, the copy runs over the heap buffer. Else it is left in the caller's buffer if it is
-- shorter than that, and if not the answer is -1.
pub replace_dict_in_buf-render :
    (dict : Dict) (ps : List Piece) (maxlen : ℕ)
    → All (Known dict.tuples) ps
    → length (render ps) + 1024 * length dict.tuples < 1024 * 1024
    → replace_dict_in_buf dict (render ps) maxlen ≡ (
        if leb (length (render ps) + 1024 * length dict.tuples) (length (expand ps))
        then overrun
        else if ltb (length (expand ps)) maxlen
        then replaced (expand ps)
        else too_small)
unfolding replace_dict_in_buf
replace_dict_in_buf-render dict ps maxlen h lt =
    rw
      (
        short (length (render ps)) (omega arith),
        admitted (length (render ps) + 1024 * length dict.tuples) lt,
        replace_from-render (length (render ps)) dict.tuples
            (length (render ps) + 1024 * length dict.tuples) 0 ps h (omega arith) (omega arith),
      )
      refl
  where
    short : (l : ℕ) → l < 1024 * 1024 → min l (1024 * 1024) ≡ l
    short l h = omega arith

    admitted : (n : ℕ) → n < 1024 * 1024 → leb (1024 * 1024) n ≡ false
    admitted n h = ground arith
