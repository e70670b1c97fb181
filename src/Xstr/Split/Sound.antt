-- ===== src/Xstr/Split/Sound.antt =====
-- What a successful `xstrsplitfields` has split.
use g7ctrl.Common.{
  All, All-append, Bytes, List, Rc, [], ap, append-ne-nil, append-nil, append_assoc, arith, failure,
  inl, inr, length, length-append, refl, subst, suc, success, sym, zero, ℕ, ◌++◌, ◌+◌, ◌<◌, ◌∙◌,
  ◌∷◌, ◌≡◌, ◌≢◌, ◌≤◌,
}
use g7ctrl.Xstr.Split.{
  copy_field, skip_delim, split_loop, close_fields, xstrsplitfields, max_field_size,
}
use g7ctrl.Xstr.Split.RoundTrip.{
  Lacks, join, copy_field_sound, skip-copy_field, close, Fits, close_single, close_ended,
  close-cons,
}

module _ (d : ℕ) where
  join-cons : (f : Bytes) (l : List Bytes) → l ≢ [] → join d (f ∷ l) ≡ f ++ d ∷ join d l
  join-cons f [] h = absurd (h refl)
  join-cons f (g ∷ l) h = refl

  -- What a successful loop has added, for the input `s` that it started on.
  record Loops (room : ℕ) (s : Bytes) (new : List Bytes) : Type 0 where
    joined : s ≢ [] → join d (close d s new) ≡ s
    fits : All (Fits d) new
    count : length new < room
    empty : s ≡ [] → new ≡ []

  Loops-last :
      (room c : ℕ) (s fld : Bytes) (new : List Bytes)
      → fld ≡ c ∷ s
      → new ≡ []
      → Fits d fld
      → 0 < room
      → Loops (suc room) (c ∷ s) (fld ∷ new)
  Loops-last room c s fld new e n h hr = record {
    joined = λ _. rw (e, n, close_single d c s (subst (Lacks d) e h.0));
    fits = (h, rw n tt);
    count = rw n (omega arith);
    empty = λ z. cc;
  }

  Loops-cons :
      (room : ℕ) (s fld s'' : Bytes) (new : List Bytes)
      → s ≡ fld ++ d ∷ s''
      → Fits d fld
      → Loops room s'' new
      → Loops (suc room) s (fld ∷ new)
  Loops-cons room s fld s'' new e h l = record {
    joined = λ _. joins s'' e l;
    fits = (h, l.fits);
    count = omega (arith, l.count);
    empty = λ z. absurd (append-ne-nil fld d s'' (sym e ∙ z));
  }
    where
      nonempty : {c : ℕ} {t : Bytes} (u : List Bytes) → join d u ≡ c ∷ t → u ≢ []
      nonempty [] j = cc
      nonempty (f ∷ u) j = λ z. cc

      joins : (t : Bytes) → s ≡ fld ++ d ∷ t → Loops room t new → join d (close d s (fld ∷ new)) ≡ s
      joins [] e l = rw (e, l.empty refl, close_ended d fld)
      joins (c ∷ t) e l =
          let j : join d (close d (c ∷ t) new) ≡ c ∷ t = l.joined (cc) in
          rw
            (
              e,
              close-cons d fld t c new,
              join-cons fld (close d (c ∷ t) new) (nonempty (close d (c ∷ t) new) j),
            )
            (ap (λ u. fld ++ d ∷ u) j)

  split_step_back :
      (room c : ℕ) (s : Bytes) (acc flds : List Bytes)
      → split_loop (suc room) d (c ∷ s) acc ≡ (success, flds)
      → let r = copy_field d max_field_size (c ∷ s) in
        (0 < r.flen)
        × (0 < room)
        × (split_loop room d (skip_delim d r.rest) (acc ++ r.fld ∷ []) ≡ (success, flds))
  unfolding split_loop
  split_step_back room c s acc flds e = ground arith

  split_loop_sound :
      (room : ℕ) (s : Bytes) (acc flds : List Bytes)
      → split_loop room d s acc ≡ (success, flds)
      → (new : List Bytes) × (flds ≡ acc ++ new) × Loops room s new
  unfolding skip_delim
  split_loop_sound zero s acc flds e = unfold split_loop in cc
  split_loop_sound (suc room) [] acc flds e = (
    [],
    ended,
    record { joined = λ ne. absurd (ne refl); fits = tt; count = omega arith; empty = λ _. refl },
  )
    where
      ended : flds ≡ acc ++ []
      ended = unfold split_loop in ground (arith, append-nil acc)
  split_loop_sound (suc room) (c ∷ s) acc flds e =
      let (pos, more, e') = split_step_back room c s acc flds e in
      let (parts, lacks, len) = copy_field_sound d max_field_size (c ∷ s) in
      let (new, flds_eq, l) = split_loop_sound room _ _ flds e' in
      let r = copy_field d max_field_size (c ∷ s) in
      let short : length r.fld < max_field_size = omega arith in
      (
        r.fld ∷ new,
        flds_eq ∙ append_assoc acc (r.fld ∷ []) new,
        elim (skip-copy_field d max_field_size (c ∷ s) pos) [
          | inl stop ↦
              Loops-last room c s r.fld new
                (sym (parts ∙ ap (λ u. r.fld ++ u) stop ∙ append-nil r.fld))
                (l.empty (ap (skip_delim d) stop)) (lacks, short) more
          | inr go ↦
              Loops-cons room (c ∷ s) r.fld (skip_delim d r.rest) new
                (parts ∙ ap (λ u. r.fld ++ u) go) (lacks, short) l
        ],
      )

close_fields_inversion :
    (d : ℕ) (s : Bytes) (r : Rc × List Bytes) (flds : List Bytes)
    → close_fields d s r ≡ (success, flds)
    → (l : List Bytes) × (r ≡ (success, l)) × (flds ≡ close d s l)
unfolding close_fields close
close_fields_inversion d s (failure, l) flds e = cc
close_fields_inversion d s (success, l) flds e = (l, refl, ground arith)

xstrsplitfields_inversion :
    (s : Bytes) (d : ℕ) (flds : List Bytes)
    → xstrsplitfields s d ≡ (success, flds)
    → (s ≢ []) × (close_fields d s (split_loop 64 d s []) ≡ (success, flds))
unfolding xstrsplitfields
xstrsplitfields_inversion [] d flds e = cc
xstrsplitfields_inversion (c ∷ s) d flds e = (λ z. cc, ground arith)

close-Fits :
    (d : ℕ) (s : Bytes) (l : List Bytes)
    → All (Fits d) l
    → All (Fits d) (close d s l) × (length (close d s l) ≤ length l + 1)
unfolding close
close-Fits d s l h =
    ground (arith, All-append (Fits d) l ([] ∷ []) h (omega arith), length-append l ([] ∷ []))

-- A successful split is right: joined by the delimiter the fields are the input, none of them
-- holds the delimiter, each is below 256 bytes, and there are at most 64.
pub xstrsplitfields_sound :
    (s : Bytes) (d : ℕ) (flds : List Bytes)
    → xstrsplitfields s d ≡ (success, flds)
    → (join d flds ≡ s) × All (Fits d) flds × (length flds ≤ 64)
xstrsplitfields_sound s d flds e =
    let (ne, e') = xstrsplitfields_inversion s d flds e in
    let (l, looped, closed) = close_fields_inversion d s (split_loop 64 d s []) flds e' in
    let (new, same, loops) = split_loop_sound d 64 s [] l looped in
    let (fit, count) = close-Fits d s new loops.fits in
    rw (closed, same) (loops.joined ne, fit, omega (arith, loops.count))
