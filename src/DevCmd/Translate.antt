-- ===== src/DevCmd/Translate.antt =====
-- The translation of replies into text, of src/g7cmd.c: `translate_cmd_argval_to_string` and
-- `cmdarg_to_text_string`.
use g7ctrl.Common.{
  Bool, Bytes, List, Option, Rc, [], codes, drop, failure, false, get_or, if◌then◌else◌, leb,
  length, map, none, not, replicate, some, str_eq, suc, success, take, true, zero, ℕ, ◌++◌, ◌+◌,
  ◌-◌, ◌==◌, ◌∷◌,
}
pub mod Complete
use g7ctrl.Xstr.Copy.{xstrlcpy, xstrlcat}
use g7ctrl.DevCmd.Arg.{ArgType, Arg, CmdArgs}
use g7ctrl.DevCmd.Args.{cmdargs_list}
use g7ctrl.DevCmd.Table.{
  G7Command, Handler, g7command_list, command_at, find_name, get_cmdidx_from_srvcmd,
  get_srvcmd_from_devcmd, cmd_type_getset_binary,
}

abbrev pub no_args : CmdArgs
no_args = record { srvcmd = []; numargs = 0; argl = [] }

abbrev pub no_arg : Arg
no_arg = record { arglabel = []; argdesc = []; type = ArgType.int; nsel = 0; choices = [] }

unfoldable pub get_argidx_for_cmdidx : ℕ → Option ℕ
unfolding find_name command_at cmdargs_list
get_argidx_for_cmdidx cmdidx =
    find_name (command_at cmdidx).srvcmd (map (λ (a : CmdArgs). a.srvcmd) cmdargs_list) 0

unfoldable pub get_argidx_for_srvcmd : Bytes → Option ℕ
unfolding get_cmdidx_from_srvcmd get_argidx_for_cmdidx
get_argidx_for_srvcmd cmdname = elim (get_cmdidx_from_srvcmd cmdname) [
  | none ↦ none
  | some cmdidx ↦ get_argidx_for_cmdidx cmdidx
]

-- The loop over the first `nsel` choices: the label of the first whose value is `val`.
pub find_choice : ℕ → Bytes → List (Bytes × Bytes) → Option Bytes
find_choice zero val cs = none
find_choice (suc nsel) val [] = none
find_choice (suc nsel) val ((v, selectlabel) ∷ cs) =
    if str_eq val v then some selectlabel else find_choice nsel val cs

abbrev pub is_select : ArgType → Bool
is_select ArgType.select = true
is_select t = false

-- The text for a value of an argument, with the answer.
translate_arg : Arg → Bytes → ℕ → Rc × Bytes
unfolding find_choice
translate_arg a val maxlen =
    if is_select a.type
    then elim (find_choice a.nsel val a.choices) [
      | none ↦ (failure, (xstrlcpy val maxlen).0)
      | some selectlabel ↦ (success, (xstrlcpy selectlabel maxlen).0)
    ]
    else (success, (xstrlcpy val maxlen).0)

-- The answer, and `human_string`, which is left alone when the argument does not exist.
unfoldable pub translate_cmd_argval_to_string : Bytes → ℕ → Bytes → ℕ → Rc × Option Bytes
unfolding get_argidx_for_srvcmd translate_arg cmdargs_list
translate_cmd_argval_to_string cmdname argnum val maxlen = elim (get_argidx_for_srvcmd cmdname) [
  | none ↦ (success, some (xstrlcpy val maxlen).0)
  | some argidx ↦
      let args = get_or cmdargs_list argidx no_args in
      if leb args.numargs argnum
      then (failure, none)
      else (let r = translate_arg (get_or args.argl argnum no_arg) val maxlen in (r.0, some r.1))
]

-- `"%16s: %s\n"`
abbrev pub text_line : Bytes → Bytes → Bytes
text_line label value =
    replicate (16 - length label) b' ' ++ label ++ codes ": " ++ value ++ b'\n' ∷ []

-- The loop over the arguments. `xvstrncat` is `xstrlcat` of the formatted text, cut to 50 KB.
pub add_args : ℕ → List Arg → List Bytes → ℕ → Bytes → Rc × Bytes
unfolding find_choice
add_args zero argl flds maxlen str = (success, str)
add_args (suc n) argl flds maxlen str =
    let a = get_or argl 0 no_arg in
    let val = get_or flds 0 [] in
    let write =
      λ (value : Bytes). (xstrlcat str (take 51199 (text_line a.arglabel value)) maxlen).0 in
    let plain = add_args n (drop 1 argl) (drop 1 flds) maxlen (write val) in
    let chosen =
      λ (selectlabel : Bytes). add_args n (drop 1 argl) (drop 1 flds) maxlen (write selectlabel) in
    if is_select a.type
    then elim (find_choice a.nsel val a.choices) [
      | none ↦ (failure, str)
      | some selectlabel ↦ chosen selectlabel
    ]
    else plain

-- `strcmp` searches by the exact name.
find_exact : Bytes → List Bytes → ℕ → Option ℕ
find_exact name [] i = none
find_exact name (n ∷ ns) i = if str_eq name n then some i else find_exact name ns (i + 1)

unfoldable pub cmdarg_to_text_string : Bytes → ℕ → Bytes → List Bytes → Rc × Bytes
unfolding find_exact add_args cmdargs_list g7command_list get_srvcmd_from_devcmd command_at
cmdarg_to_text_string str maxlen devcmd flds = elim (get_srvcmd_from_devcmd devcmd 15) [
  | none ↦ (failure, str)
  | some srvcmd ↦ elim (find_exact srvcmd (map (λ (a : CmdArgs). a.srvcmd) cmdargs_list) 0) [
    | none ↦ (success, str)
    | some idx ↦ elim (find_exact srvcmd (map (λ (c : G7Command). c.srvcmd) g7command_list) 0) [
      | none ↦ (success, str)
      | some cmdidx ↦
          let args = get_or cmdargs_list idx no_args in
          if (command_at cmdidx).type == cmd_type_getset_binary
          then (if length flds == 1
              then (
                success,
                take (maxlen - 1) (
                    b'\n'
                    ∷ text_line (codes "Status") (
                        if get_or (get_or flds 0 []) 0 0 == b'1' then codes "On" else codes "Off")),
              )
              else (failure, []))
          else if not (length flds == args.numargs)
          then (failure, [])
          else add_args args.numargs args.argl flds maxlen (take (maxlen - 1) (b'\n' ∷ []))
    ]
  ]
]

-- The answer, and what is written to the user, also when the translation fails. The buffer, of zeros
-- at first, can be allocated.
unfoldable pub cmdarg_to_text : Bytes → List Bytes → Rc × Bytes
unfolding cmdarg_to_text_string
cmdarg_to_text devcmd flds = cmdarg_to_text_string [] 1025 devcmd flds
