-- ===== src/DevCmd/Translate/Complete.antt =====
-- The tables of commands and arguments fit together.
use g7ctrl.Common.{
  Bool, Bytes, Option, Option-cases, Rc, [], ap, arith, failure, false, false≢true, get_or, inl,
  inr, ltb, lt→ltb, none, not, refl, some, str_eq, str_eq→eq, success, sym, table_holds,
  table_holds_lem, true, ℕ, ◌%◌, ◌&&◌, ◌*◌, ◌+◌, ◌/◌, ◌<◌, ◌||◌, ◌∙◌, ◌≡◌,
}
use g7ctrl.DevCmd.Arg.{Arg, CmdArgs}
use g7ctrl.DevCmd.Args.{cmdargs_list}
use g7ctrl.DevCmd.Table.{Handler, command_at}
use g7ctrl.Xstr.Case.{xstricmp}
use g7ctrl.Xstr.Copy.{xstrlcpy}
use g7ctrl.DevCmd.Translate.{
  no_args, no_arg, is_select, get_argidx_for_cmdidx, translate_cmd_argval_to_string,
}

abbrev pub has_argument_table : Handler → Bool
has_argument_table Handler.binary_template = true
has_argument_table Handler.set_template = true
has_argument_table h = false

is_some : Option ℕ → Bool
is_some none = false
is_some (some i) = true

args_found : ℕ → Bool
args_found idx =
    not (has_argument_table (command_at idx).cmdhandler) || is_some (get_argidx_for_cmdidx idx)

args_found_table : table_holds 30 args_found ≡ true
unfolding args_found is_some table_holds command_at get_argidx_for_cmdidx cmdargs_list xstricmp
args_found_table = refl

abbrev pub max_args : ℕ
max_args = 15

abbrev pub max_select : ℕ
max_select = 15

abbrev pub args_at : ℕ → CmdArgs
unfolding cmdargs_list
args_at i = get_or cmdargs_list i no_args

abbrev pub arg_at : ℕ → ℕ → Arg
unfolding cmdargs_list
arg_at i k = get_or (args_at i).argl k no_arg

abbrev pub choice_at : ℕ → ℕ → ℕ → Bytes × Bytes
unfolding cmdargs_list
choice_at i k j = get_or (arg_at i k).choices j ([], [])

same_label : Rc × Option Bytes → Bytes → Bool
same_label (failure, t) selectlabel = false
same_label (success, none) selectlabel = false
same_label (success, some t) selectlabel = str_eq t selectlabel

-- Whether choice `j` of argument `k` of entry `i` is one, and whether it is translated.
is_choice : ℕ → ℕ → ℕ → Bool
unfolding cmdargs_list
is_choice i k j =
    ltb k (args_at i).numargs && is_select (arg_at i k).type && ltb j (arg_at i k).nsel

translated : ℕ → ℕ → ℕ → Bool
unfolding is_choice same_label cmdargs_list
translated i k j =
    not (is_choice i k j)
    || same_label (translate_cmd_argval_to_string (args_at i).srvcmd k (choice_at i k j).0 1024)
        (choice_at i k j).1

choice_translated : ℕ → Bool
choice_translated n = translated (n / 225) (n / 15 % 15) (n % 15)

choices_table : table_holds 3825 choice_translated ≡ true
unfolding choice_translated translated table_holds translate_cmd_argval_to_string xstricmp str_eq
    xstrlcpy
choices_table = refl

-- Every command whose handler takes arguments from the user has an entry in the table of arguments, so
-- the handlers' internal error for a missing one does not occur.
pub arguments_found :
    (idx : ℕ)
    → idx < 30
    → has_argument_table (command_at idx).cmdhandler ≡ true
    → (i : ℕ) × (get_argidx_for_cmdidx idx ≡ some i)
unfolding args_found is_some
arguments_found idx lt h =
    let row = table_holds_lem 30 args_found idx args_found_table lt in
    elim (Option-cases (get_argidx_for_cmdidx idx)) [
      | inl e ↦ let z = rw (args_found, h, e) at row in absurd (false≢true z)
      | inr p ↦ p
    ]

same_label_sound :
    (r : Rc × Option Bytes) (selectlabel : Bytes)
    → same_label r selectlabel ≡ true
    → r ≡ (success, some selectlabel)
unfolding same_label
same_label_sound (failure, t) selectlabel h = cc
same_label_sound (success, none) selectlabel h = cc
same_label_sound (success, some t) selectlabel h =
    ap (λ s. (success, some s)) (str_eq→eq t selectlabel h)

translated_at : (i k j : ℕ) → i < 17 → k < max_args → j < max_select → translated i k j ≡ true
unfolding choice_translated
translated_at i k j hi hk hj =
    let n = i * 225 + k * 15 + j in
    let entry : n / 225 ≡ i = omega arith in
    let argument : n / 15 % 15 ≡ k = omega arith in
    let choice : n % 15 ≡ j = omega arith in
    let row = table_holds_lem 3825 choice_translated n choices_table (omega arith) in
    ap (λ a. translated a k j) (sym entry)
    ∙ ap (λ b. translated (n / 225) b j) (sym argument)
    ∙ ap (λ c. translated (n / 225) (n / 15 % 15) c) (sym choice)
    ∙ row

choice_lem :
    (i k j : ℕ)
    → is_choice i k j ≡ true
    → translated i k j ≡ true
    → same_label
        (translate_cmd_argval_to_string (args_at i).srvcmd k (choice_at i k j).0 1024)
        (choice_at i k j).1
      ≡ true
unfolding translated
choice_lem i k j c t = let z = rw (translated, c) at t in z

-- The value of any of the choices that the table counts for an argument of a command is translated to
-- the label of that choice.
pub choices_translate :
    (i k j : ℕ)
    → i < 17
    → k < max_args
    → j < max_select
    → k < (args_at i).numargs
    → is_select (arg_at i k).type ≡ true
    → j < (arg_at i k).nsel
    → translate_cmd_argval_to_string (args_at i).srvcmd k (choice_at i k j).0 1024
      ≡ (success, some (choice_at i k j).1)
unfolding is_choice
choices_translate i k j hi hk hj num sel n =
    let choice : is_choice i k j ≡ true =
      rw (lt→ltb k (args_at i).numargs num, sel, lt→ltb j (arg_at i k).nsel n) refl in
    same_label_sound (translate_cmd_argval_to_string (args_at i).srvcmd k (choice_at i k j).0 1024)
      (choice_at i k j).1 (choice_lem i k j choice (translated_at i k j hi hk hj))
