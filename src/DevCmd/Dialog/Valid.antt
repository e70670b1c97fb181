-- ===== src/DevCmd/Dialog/Valid.antt =====
-- What a dialog for arguments that succeeds has gathered, of src/g7cmd.c.
use g7ctrl.Common.{
  Bool, Bool-cases, Bytes, List, Option-cases, [], ap, append-nil, append_assoc, arith, codes, drop,
  false, false≢true, get_or, inl, inr, leb, length, length-append, refl, some, suc, sym, true, zero,
  ℕ, ◌++◌, ◌+◌, ◌<◌, ◌∙◌, ◌∷◌, ◌≡◌, ◌⊎◌,
}
use g7ctrl.DevCmd.Arg.{Arg}
use g7ctrl.DevCmd.Args.{cmdargs_list}
use g7ctrl.DevCmd.Translate.{no_args, no_arg, get_argidx_for_cmdidx}
use g7ctrl.Common.Int.{ℤ, pos, negsuc}
use g7ctrl.DevCmd.Dialog.{
  Input, Asked, Dialog, is_negative, ask_arg, ask_all, append_reply, get_cmd_args,
}
use g7ctrl.Xstr.Copy.{xstrlcat_fits}
use g7ctrl.Xstr.Split.RoundTrip.{separated}
use g7ctrl.DevCmd.Dialog.Answers.{accepts, ask_arg-Good}

Asked-cases :
    (a : Asked)
    → (a ≡ Asked.waits)
      ⊎ (((rc : ℤ) × (rest : List Input) × (a ≡ Asked.stops rc rest))
          ⊎ ((v : Bytes) × (rest : List Input) × (a ≡ Asked.answer v rest)))
Asked-cases Asked.waits = inl refl
Asked-cases (Asked.stops rc rest) = inr (inl (rc, rest, refl))
Asked-cases (Asked.answer v rest) = inr (inr (v, rest, refl))

-- One value for each of the `n` arguments, and one that the dialog takes for it.
abbrev pub Accepted : ℕ → List Arg → List Bytes → Type 0
Accepted zero argl vs = vs ≡ []
Accepted (suc n) argl [] = ⊥
Accepted (suc n) argl (v ∷ vs) =
    (accepts (get_or argl 0 no_arg) v ≡ true) × Accepted n (drop 1 argl) vs

-- The values, each behind a comma but the first.
abbrev pub listed : Bool → List Bytes → Bytes
listed false vs = separated b',' vs
listed true [] = []
listed true (v ∷ vs) = v ++ separated b',' vs

appended :
    (maxlen : ℕ) (first : Bool) (buff v : Bytes) (vs : List Bytes)
    → length buff + length v + 1 < maxlen
    → (length (append_reply maxlen first buff v) < maxlen)
      × (append_reply maxlen first buff v ++ listed false vs ≡ buff ++ listed first (v ∷ vs))
appended maxlen true buff v vs h =
    rw (xstrlcat_fits buff v maxlen (omega arith))
      (omega (arith, length-append buff v), append_assoc buff v (separated b',' vs))
appended maxlen false buff v vs h =
    let n = length-append buff (codes ",") in
    let m = length-append (buff ++ codes ",") v in
    rw
      (
        xstrlcat_fits buff (codes ",") maxlen (omega arith),
        xstrlcat_fits (buff ++ codes ",") v maxlen (omega (arith, n)),
      )
      (
        omega (arith, n, m),
        append_assoc (buff ++ codes ",") v (separated b',' vs)
            ∙ append_assoc buff (codes ",") (v ++ separated b',' vs),
      )

listed-nil : (first : Bool) → listed first [] ≡ []
listed-nil true = refl
listed-nil false = refl

rc_of : Dialog → ℤ
rc_of Dialog.asking = negsuc 0
rc_of (Dialog.ends rc text rest) = rc

text_of : Dialog → Bytes
text_of Dialog.asking = []
text_of (Dialog.ends rc text rest) = text

ask_all_valid :
    (maxlen n : ℕ) (first : Bool) (argl : List Arg) (buff : Bytes) (is : List Input) (text : Bytes)
    (rest : List Input)
    → length buff < maxlen
    → ask_all maxlen n first argl buff is ≡ Dialog.ends (pos 0) text rest
    → (vs : List Bytes) × Accepted n argl vs
      × (text ≡ buff ++ listed first vs)
      × (length text < maxlen)
unfolding ask_all rc_of text_of
ask_all_valid maxlen zero first argl buff is text rest h e =
    let same = sym (ap text_of e) in
    (
      [],
      refl,
      same ∙ sym (append-nil buff) ∙ ap (λ l. buff ++ l) (sym (listed-nil first)),
      omega (arith, ap length same),
    )
ask_all_valid maxlen (suc n) first argl buff is text rest h e =
    let a = get_or argl 0 no_arg in
    let good = ask_arg-Good a is in
    elim (Asked-cases (ask_arg a is)) [
      | inl w ↦
          let z = ap rc_of (rw (w, ask_all) at e) in absurd (false≢true (sym (ap is_negative z)))
      | inr (inl (rc, more, w)) ↦
          let z = ap rc_of (rw (w, ask_all) at e) in
          let g = rw w at good in absurd (false≢true (sym (ap is_negative z) ∙ g))
      | inr (inr (v, more, w)) ↦
          let z = rw (w, ask_all) at e in
          let g = rw w at good in
          elim (Bool-cases (leb maxlen (length buff + length v + 1))) [
            | inl full ↦
                let y = ap rc_of (rw full at z) in absurd (false≢true (sym (ap is_negative y)))
            | inr room ↦
                let y = rw room at z in
                let fits : length buff + length v + 1 < maxlen = ground arith in
                let (vs, ok, shape, small) =
                  ask_all_valid maxlen n false (drop 1 argl) (append_reply maxlen first buff v) more
                    text rest (appended maxlen first buff v [] fits).0 y in
                (v ∷ vs, (g, ok), shape ∙ (appended maxlen first buff v vs fits).1, small)
          ]
    ]

-- When the dialog for a command succeeds, the command has an entry in the argument table, the text is
-- one value for each of its arguments, joined by commas, and shorter than the buffer. A choice is one
-- of those offered or empty, a number is digits or empty, a switch is 0 or 1, or 1 when it is set
-- without asking, and a text or decimal number does not begin with a dot.
pub dialog_valid :
    (cmdidx maxlen : ℕ) (is : List Input) (text : Bytes) (rest : List Input)
    → 0 < maxlen
    → get_cmd_args cmdidx maxlen is ≡ Dialog.ends (pos 0) text rest
    → (argidx : ℕ) × (get_argidx_for_cmdidx cmdidx ≡ some argidx)
      × (vs : List Bytes) × Accepted
          (get_or cmdargs_list argidx no_args).numargs
          (get_or cmdargs_list argidx no_args).argl
          vs
      × (text ≡ listed true vs)
      × (length text < maxlen)
unfolding get_cmd_args rc_of
dialog_valid cmdidx maxlen is text rest h e = elim (Option-cases (get_argidx_for_cmdidx cmdidx)) [
  | inl w ↦
      let z = ap rc_of (rw (w, get_cmd_args) at e) in absurd (false≢true (sym (ap is_negative z)))
  | inr (argidx, w) ↦
      let z = rw (w, get_cmd_args) at e in
      let p = get_or cmdargs_list argidx no_args in
      let (vs, ok, shape, small) = ask_all_valid maxlen p.numargs true p.argl [] is text rest h z in
      (argidx, w, vs, ok, shape, small)
]
