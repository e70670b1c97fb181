-- ===== src/Xstr/Split/RoundTrip.antt =====
-- Splitting against joining with the delimiter.
use g7ctrl.Common.{
  All, Bytes, List, [], ap, append-ne-nil, append-nil, append_assoc, arith, false, get_or,
  if◌then◌else◌, inl, leb, length, refl, suc, success, sym, zero, ℕ, ◌++◌, ◌+◌, ◌-◌, ◌<◌, ◌==◌,
  ◌||◌, ◌∙◌, ◌∷◌, ◌≡◌, ◌≢◌, ◌≤◌, ◌⊎◌,
}
use g7ctrl.Xstr.Split.{
  Copied, copy_field, skip_delim, split_loop, close_fields, xstrsplitfields, max_field_size, last,
}

abbrev pub Lacks : ℕ → Bytes → Type 0
Lacks d = All (λ c. c ≢ d)

-- The fields with the delimiter between them.
abbrev pub join : ℕ → List Bytes → Bytes
join d [] = []
join d (f ∷ []) = f
join d (f ∷ g ∷ fs) = f ++ d ∷ join d (g ∷ fs)

-- Every field behind a delimiter.
abbrev pub separated : ℕ → List Bytes → Bytes
separated d [] = []
separated d (f ∷ fs) = d ∷ (f ++ separated d fs)

pub join-separated : (d : ℕ) (f : Bytes) (fs : List Bytes) → join d (f ∷ fs) ≡ f ++ separated d fs
join-separated d f [] = sym (append-nil f)
join-separated d f (g ∷ fs) = ap (λ l. f ++ d ∷ l) (join-separated d g fs)

-- The inner loop copies what stands before a delimiter, if that is short enough.
copy_field-Lacks :
    (d flen : ℕ) (f s : Bytes)
    → Lacks d f
    → length f < flen
    → copy_field d flen (f ++ d ∷ s) ≡ record { fld = f; rest = d ∷ s; flen = flen - length f }
unfolding copy_field
copy_field-Lacks d zero f s h lt = absurd (omega arith)
copy_field-Lacks d (suc flen) [] s h lt = ground arith
copy_field-Lacks d (suc flen) (c ∷ f) s h lt = ground (arith, copy_field-Lacks d flen f s h.1)

copy_field_end :
    (d flen : ℕ) (f : Bytes)
    → Lacks d f
    → length f < flen
    → copy_field d flen f ≡ record { fld = f; rest = []; flen = flen - length f }
unfolding copy_field
copy_field_end d zero f h lt = absurd (omega arith)
copy_field_end d (suc flen) [] h lt = ground arith
copy_field_end d (suc flen) (c ∷ f) h lt = ground (arith, copy_field_end d flen f h.1)

-- What the inner loop has read is what it gives back, and it stops at the end, at the delimiter, or
-- when the field is full.
pub copy_field_sound :
    (d flen : ℕ) (s : Bytes)
    → let r = copy_field d flen s in
      (s ≡ r.fld ++ r.rest) × Lacks d r.fld × (length r.fld + r.flen ≡ flen)
unfolding copy_field
copy_field_sound d zero s = ground arith
copy_field_sound d (suc flen) [] = ground arith
copy_field_sound d (suc flen) (c ∷ s) = ground (arith, copy_field_sound d flen s)

pub skip-copy_field :
    (d flen : ℕ) (s : Bytes)
    → let r = copy_field d flen s in 0 < r.flen → (r.rest ≡ []) ⊎ (r.rest ≡ d ∷ skip_delim d r.rest)
unfolding copy_field skip_delim
skip-copy_field d zero s h = absurd (omega arith)
skip-copy_field d (suc flen) [] h = inl refl
skip-copy_field d (suc flen) (c ∷ s) h = ground (arith, skip-copy_field d flen s)

last-cons : (c e : ℕ) (f : Bytes) → last (c ∷ e ∷ f) ≡ last (e ∷ f)
last-cons c e f =
    ap (λ k. get_or (c ∷ e ∷ f) k 0) {x = length (c ∷ e ∷ f) - 1} {y = suc (length (e ∷ f) - 1)}
      (omega arith)

last-append : (xs : Bytes) (y : ℕ) (ys : Bytes) → last (xs ++ y ∷ ys) ≡ last (y ∷ ys)
last-append [] y ys = refl
last-append (x ∷ []) y ys = last-cons x y ys
last-append (x ∷ e ∷ xs) y ys = last-cons x e (xs ++ y ∷ ys) ∙ last-append (e ∷ xs) y ys

last-Lacks : (d c : ℕ) (f : Bytes) → Lacks d (c ∷ f) → last (c ∷ f) ≢ d
last-Lacks d c [] h = h.0
last-Lacks d c (e ∷ f) h = rw (last-cons c e f) (last-Lacks d e f h.1)

-- The fields as the loop leaves them, with the empty last one added where the text ends in `d`.
unfoldable pub close : ℕ → Bytes → List Bytes → List Bytes
close d s flds = if d == last s then flds ++ [] ∷ [] else flds

module _ (d : ℕ) where
  pub close_single :
      (c : ℕ) (f : Bytes) → Lacks d (c ∷ f) → close d (c ∷ f) ((c ∷ f) ∷ []) ≡ (c ∷ f) ∷ []
  unfolding close
  close_single c f h = ground (arith, last-Lacks d c f h)

  pub close_ended : (f : Bytes) → close d (f ++ d ∷ []) (f ∷ []) ≡ f ∷ [] ∷ []
  unfolding close
  close_ended f = ground (arith, last-append f d [])

  pub close-cons :
      (f s : Bytes) (c : ℕ) (flds : List Bytes)
      → close d (f ++ d ∷ c ∷ s) (f ∷ flds) ≡ f ∷ close d (c ∷ s) flds
  unfolding close
  close-cons f s c flds = ground (arith, last-append f d (c ∷ s), last-cons d c s)

  -- The fields of `f ++ separated d fs` but for an empty last one.
  open_fields : Bytes → List Bytes → List Bytes
  open_fields [] [] = []
  open_fields (c ∷ f) [] = (c ∷ f) ∷ []
  open_fields f (g ∷ fs) = f ∷ open_fields g fs

  abbrev pub Fits : Bytes → Type 0
  Fits f = Lacks d f × (length f < max_field_size)

  close-open_fields :
      (f : Bytes) (fs : List Bytes)
      → All Fits (f ∷ fs)
      → f ++ separated d fs ≢ []
      → close d (f ++ separated d fs) (open_fields f fs) ≡ f ∷ fs
  unfolding open_fields
  close-open_fields [] [] h ne = absurd (ne refl)
  close-open_fields (c ∷ f) [] h ne = rw append-nil (close_single c f h.0.0)
  close-open_fields f ([] ∷ []) h ne = close_ended f
  close-open_fields f ((c ∷ g) ∷ fs) h ne =
      close-cons f (g ++ separated d fs) c (open_fields (c ∷ g) fs)
      ∙ ap (λ l. f ∷ l) (close-open_fields (c ∷ g) fs h.1 (cc))
  close-open_fields f ([] ∷ g ∷ fs) h ne =
      close-cons f (g ++ separated d fs) d ([] ∷ open_fields g fs)
      ∙ ap (λ l. f ∷ l) (close-open_fields [] (g ∷ fs) h.1 (cc))

  -- One round of the loop.
  split_step :
      (room : ℕ) (s : Bytes) (acc : List Bytes) (r : Copied)
      → s ≢ []
      → copy_field d max_field_size s ≡ r
      → 0 < r.flen
      → 0 < room
      → split_loop (suc room) d s acc ≡ split_loop room d (skip_delim d r.rest) (acc ++ r.fld ∷ [])
  unfolding split_loop
  split_step room [] acc r ne e h hr = absurd (ne refl)
  split_step room (c ∷ s) acc r ne e h hr = rw e (ground arith)

  split_none : (room : ℕ) (acc : List Bytes) → 0 < room → split_loop room d [] acc ≡ (success, acc)
  unfolding split_loop
  split_none zero acc h = absurd (omega arith)
  split_none (suc room) acc h = refl

  skip_at_delim : (s : Bytes) → skip_delim d (d ∷ s) ≡ s
  unfolding skip_delim
  skip_at_delim s = ground arith

  split_loop_fields :
      (room : ℕ) (f : Bytes) (fs acc : List Bytes)
      → All Fits (f ∷ fs)
      → length (f ∷ fs) ≤ room
      → split_loop (suc room) d (f ++ separated d fs) acc ≡ (success, acc ++ open_fields f fs)
  unfolding open_fields skip_delim
  split_loop_fields room [] [] acc h le =
      split_none (suc room) acc (omega arith) ∙ sym (ap (λ l. (success, l)) (append-nil acc))
  split_loop_fields room (c ∷ f) [] acc h le = rw append-nil (
      split_step room (c ∷ f) acc _ (cc) (copy_field_end d max_field_size (c ∷ f) h.0.0 h.0.1)
        (omega arith) (omega arith)
      ∙ split_none room (acc ++ (c ∷ f) ∷ []) (omega arith))
  split_loop_fields zero f (g ∷ fs) acc h le = absurd (omega arith)
  split_loop_fields (suc room) f (g ∷ fs) acc h le =
      split_step (suc room) (f ++ d ∷ (g ++ separated d fs)) acc _ (append-ne-nil f d _)
        (copy_field-Lacks d max_field_size f (g ++ separated d fs) h.0.0 h.0.1) (omega arith)
        (omega arith)
      ∙ rw (skip_at_delim (g ++ separated d fs)) (
          split_loop_fields room g fs (acc ++ f ∷ []) h.1 (omega arith)
          ∙ ap (λ l. (success, l)) (append_assoc acc (f ∷ []) (open_fields g fs)))

length_guard : (n : ℕ) → 0 < n → n < 1024 → (leb 1024 n || n == 0) ≡ false
length_guard n pos lim = ground arith

xstrsplitfields_loop :
    (s : Bytes) (d : ℕ)
    → 0 < length s
    → length s < 1024
    → xstrsplitfields s d ≡ close_fields d s (split_loop 64 d s [])
unfolding xstrsplitfields
xstrsplitfields_loop s d pos lim = rw (length_guard (length s) pos lim)

close_fields-close :
    (d : ℕ) (s : Bytes) (l : List Bytes) → close_fields d s (success, l) ≡ (success, close d s l)
unfolding close_fields close
close_fields-close d s l = refl

-- Splitting the join of fields gives the fields back: at most 63 fields, each below 256 bytes and
-- without the delimiter, whose join is not empty and below 1024 bytes.
pub xstrsplitfields-join :
    (fs : List Bytes) (d : ℕ)
    → All (Fits d) fs
    → length fs ≤ 63
    → 0 < length (join d fs)
    → length (join d fs) < 1024
    → xstrsplitfields (join d fs) d ≡ (success, fs)
xstrsplitfields-join [] d h n pos lim = absurd (omega arith)
xstrsplitfields-join (f ∷ fs) d h n pos lim =
    let text = f ++ separated d fs in
    let same : join d (f ∷ fs) ≡ text = join-separated d f fs in
    let long : 0 < length text = rw same at pos in
    xstrsplitfields_loop (join d (f ∷ fs)) d pos lim
    ∙ rw (same, split_loop_fields d 63 f fs [] h n, close_fields-close)
        (ap (λ l. (success, l)) (close-open_fields d f fs h (ne text long)))
  where
    ne : (t : Bytes) → 0 < length t → t ≢ []
    ne [] z = absurd (omega arith)
    ne (c ∷ t) z = λ q. cc
