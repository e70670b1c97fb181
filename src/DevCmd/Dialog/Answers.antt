-- ===== src/DevCmd/Dialog/Answers.antt =====
-- What the questions of the dialog for arguments take for an answer, of src/g7cmd.c.
use g7ctrl.Common.{
  Bool, Bool-cases, Bytes, List, [], arith, at_end, codes, false, if◌then◌else◌, inl, inr, not,
  refl, str_eq, true, ℕ, ◌&&◌, ◌||◌, ◌∷◌, ◌≡◌,
}
use g7ctrl.DevCmd.Arg.{ArgType, Arg}
use g7ctrl.Common.Int.{ℤ}
use g7ctrl.DevCmd.Dialog.{
  Input, Asked, get_arg, is_auto, is_switch, is_dot, is_negative, heard, is_value, is_numeric,
  ask_bool, ask_text, ask_int, ask_select, ask_arg, ask_type,
}

-- Whether a value is one that the dialog takes for an argument.
abbrev pub takes : ArgType → Arg → Bytes → Bool
takes ArgType.bool a v = if is_auto a.arglabel then str_eq v (codes "1") else is_switch v
takes ArgType.int a v = at_end v || is_numeric v
takes ArgType.float a v = not (is_dot v)
takes ArgType.string a v = not (is_dot v)
takes ArgType.select a v = at_end v || is_value a.nsel v a.choices

abbrev pub accepts : Arg → Bytes → Bool
accepts a v = takes a.type a v

-- What an answer of the questions satisfies.
abbrev Good : (Bytes → Bool) → Asked → Type 0
Good ok Asked.waits = Unit
Good ok (Asked.stops rc rest) = is_negative rc ≡ true
Good ok (Asked.answer v rest) = ok v ≡ true

heard-Good :
    (ok : Bytes → Bool) (r : ℤ × Bytes) (is : List Input) (go : Asked)
    → (is_dot r.1 ≡ false → Good ok go)
    → Good ok (heard r is go)
heard-Good ok (rc, reply) is go h = elim (Bool-cases (is_negative rc)) [
  | inl e ↦ rw e e
  | inr e ↦ rw e (elim (Bool-cases (is_dot reply)) [ inl d ↦ rw d refl | inr d ↦ rw d (h d) ])
]

ask_bool-Good : (is : List Input) → Good is_switch (ask_bool is)
unfolding ask_bool
ask_bool-Good [] = tt
ask_bool-Good (i ∷ is) =
    let r = get_arg 64 i in
    heard-Good is_switch r is _
      (λ d. elim (Bool-cases (is_switch r.1)) [ inl e ↦ rw e e | inr e ↦ rw e (ask_bool-Good is) ])

ask_text-Good : (is : List Input) → Good (λ v. not (is_dot v)) (ask_text is)
unfolding ask_text
ask_text-Good [] = tt
ask_text-Good (i ∷ is) = heard-Good (λ v. not (is_dot v)) (get_arg 64 i) is _ (λ d. rw d refl)

abbrev numeric : Bytes → Bool
numeric v = at_end v || is_numeric v

ask_int-Good : (isdigit : Bool) (is : List Input) → Good numeric (ask_int isdigit is)
unfolding ask_int
ask_int-Good isdigit [] = tt
ask_int-Good isdigit (i ∷ is) =
    let r = get_arg 64 i in
    elim (Bool-cases (is_negative r.0)) [
      | inl n ↦ rw n n
      | inr n ↦ rw n (elim (Bool-cases (at_end r.1)) [
        | inl e ↦ rw e refl
        | inr e ↦ rw e (elim (Bool-cases (is_dot r.1)) [
          | inl d ↦ rw d refl
          | inr d ↦ rw d (elim (Bool-cases (isdigit && is_numeric r.1)) [
            | inr k ↦ rw k (ask_int-Good false is)
            | inl k ↦ rw k (ground arith)
          ])
        ])
      ])
    ]

ask_select-Good :
    (nsel : ℕ) (cs : List (Bytes × Bytes)) (is : List Input)
    → Good (λ v. at_end v || is_value nsel v cs) (ask_select nsel cs is)
unfolding ask_select
ask_select-Good nsel cs [] = tt
ask_select-Good nsel cs (i ∷ is) =
    let r = get_arg 64 i in
    elim (Bool-cases (is_negative r.0)) [
      | inl n ↦ rw n n
      | inr n ↦ rw n (elim (Bool-cases (at_end r.1)) [
        | inl e ↦ rw e refl
        | inr e ↦ rw e (elim (Bool-cases (is_dot r.1)) [
          | inl d ↦ rw d refl
          | inr d ↦ rw d (elim (Bool-cases (is_value nsel r.1 cs)) [
            | inr k ↦ rw k (ask_select-Good nsel cs is)
            | inl k ↦ rw (k, e) k
          ])
        ])
      ])
    ]

auto-Good :
    (auto : Bool) (is : List Input)
    → Good
        (λ v. if auto then str_eq v (codes "1") else is_switch v)
        (if auto then Asked.answer (codes "1") is else ask_bool is)
unfolding str_eq
auto-Good true is = refl
auto-Good false is = ask_bool-Good is

ask_type-Good : (t : ArgType) (a : Arg) (is : List Input) → Good (takes t a) (ask_type t a is)
unfolding ask_type
ask_type-Good ArgType.bool a is = auto-Good (is_auto a.arglabel) is
ask_type-Good ArgType.int a is = ask_int-Good true is
ask_type-Good ArgType.float a is = ask_text-Good is
ask_type-Good ArgType.string a is = ask_text-Good is
ask_type-Good ArgType.select a is = ask_select-Good a.nsel a.choices is

pub ask_arg-Good : (a : Arg) (is : List Input) → Good (accepts a) (ask_arg a is)
unfolding ask_arg
ask_arg-Good a is = ask_type-Good a.type a is
