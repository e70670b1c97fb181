-- ===== src/DevCmd/Dialog.antt =====
-- The dialog in which the daemon asks a user for the arguments of a command, of src/g7cmd.c: `get_arg` and
-- `get_cmd_args`. The prompts are left out.
pub mod Answers
pub mod Valid
pub mod Numbers
use g7ctrl.Common.{
  Bool, Bytes, List, [], at_end, codes, drop, false, get_or, if◌then◌else◌, leb, length, ltb, none,
  some, str_eq, suc, take, true, zero, ℕ, ◌&&◌, ◌+◌, ◌-◌, ◌==◌, ◌||◌, ◌∷◌,
}
use g7ctrl.Common.Int.{ℤ, pos, negsuc}
use g7ctrl.Xstr.Copy.{xstrlcat}
use g7ctrl.Xstr.Trim.{xstrtrim_crnl}
use g7ctrl.DevCmd.Arg.{ArgType, Arg, CmdArgs}
use g7ctrl.DevCmd.Args.{cmdargs_list}
use g7ctrl.DevCmd.Translate.{no_args, no_arg, get_argidx_for_cmdidx}

-- What a wait for the user brings: nothing in five minutes, the end of the connection, an error, or the text
-- that was read, of at most 511 bytes and without NUL.
pub data Input : Type 0 where
  timeout disconnected failed : Input
  text : Bytes → Input

-- `USER_DISCONNECT` is -99.
abbrev pub user_disconnect : ℤ
user_disconnect = negsuc 98

-- The answer and what is left in `arg`.
unfoldable pub get_arg : ℕ → Input → ℤ × Bytes
get_arg maxb timeout = (negsuc 0, [])
get_arg maxb disconnected = (user_disconnect, [])
get_arg maxb failed = (negsuc 0, [])
get_arg maxb (text b) =
    let buffer = xstrtrim_crnl (xstrtrim_crnl b) in
    if ltb maxb (length buffer) then (negsuc 0, []) else (pos 0, take (maxb - 1) buffer)

-- What the questions for an argument lead to: they still wait, they end the dialog with a result, or
-- they have an answer, with what the user sends behind it.
pub data Asked : Type 0 where
  waits : Asked
  stops : ℤ → List Input → Asked
  answer : Bytes → List Input → Asked

abbrev pub is_negative : ℤ → Bool
is_negative (pos n) = false
is_negative (negsuc n) = true

-- `1 <= strlen(reply) && '.' == *reply`
abbrev pub is_dot : Bytes → Bool
is_dot [] = false
is_dot (c ∷ r) = c == b'.'

-- Every question begins in this way.
abbrev pub heard : ℤ × Bytes → List Input → Asked → Asked
heard (rc, reply) is go =
    if is_negative rc then stops rc is else if is_dot reply then stops (negsuc 0) is else go

abbrev pub is_switch : Bytes → Bool
is_switch reply = str_eq reply (codes "0") || str_eq reply (codes "1")

-- The loop for an argument that is on or off.
pub ask_bool : List Input → Asked
unfolding get_arg
ask_bool [] = waits
ask_bool (i ∷ is) =
    let r = get_arg 64 i in
    let again = ask_bool is in heard r is (if is_switch r.1 then answer r.1 is else again)

-- A text or a decimal number is taken as it is.
ask_text : List Input → Asked
unfolding get_arg
ask_text [] = waits
ask_text (i ∷ is) = let r = get_arg 64 i in heard r is (answer r.1 is)

abbrev pub is_numeric : Bytes → Bool
is_numeric [] = true
is_numeric (c ∷ s) = leb b'0' c && leb c b'9' && is_numeric s

-- The loop for a number; `isdigit` keeps its value from round to round.
pub ask_int : Bool → List Input → Asked
unfolding get_arg
ask_int isdigit [] = waits
ask_int isdigit (i ∷ is) =
    let r = get_arg 64 i in
    let again = ask_int false is in
    if is_negative r.0
    then stops r.0 is
    else if at_end r.1
    then answer [] is
    else heard r is (if isdigit && is_numeric r.1 then answer r.1 is else again)

-- Whether the reply is one of the first `nsel` values.
abbrev pub is_value : ℕ → Bytes → List (Bytes × Bytes) → Bool
is_value zero reply cs = false
is_value (suc n) reply [] = false
is_value (suc n) reply ((v, selectlabel) ∷ cs) = str_eq reply v || is_value n reply cs

-- The loop for a choice.
pub ask_select : ℕ → List (Bytes × Bytes) → List Input → Asked
unfolding get_arg
ask_select nsel choices [] = waits
ask_select nsel choices (i ∷ is) =
    let r = get_arg 64 i in
    let again = ask_select nsel choices is in
    if is_negative r.0
    then stops r.0 is
    else if at_end r.1
    then answer [] is
    else heard r is (if is_value nsel r.1 choices then answer r.1 is else again)

abbrev pub is_auto : Bytes → Bool
is_auto arglabel = str_eq (codes "_Enabled") arglabel

-- The `switch` over the type of an argument.
pub ask_type : ArgType → Arg → List Input → Asked
unfolding ask_bool ask_text ask_int ask_select
ask_type ArgType.bool a is = if is_auto a.arglabel then answer (codes "1") is else ask_bool is
ask_type ArgType.int a is = ask_int true is
ask_type ArgType.float a is = ask_text is
ask_type ArgType.string a is = ask_text is
ask_type ArgType.select a is = ask_select a.nsel a.choices is

unfoldable pub ask_arg : Arg → List Input → Asked
unfolding ask_type
ask_arg a is = ask_type a.type a is

-- What the dialog leads to: it still waits, or it ends with a result, the text of the arguments, and what the
-- user sends behind it.
pub data Dialog : Type 0 where
  asking : Dialog
  ends : ℤ → Bytes → List Input → Dialog

-- `if (i > 0) xstrlcat(argbuff, ",", maxlen); xstrlcat(argbuff, reply, maxlen);`
abbrev pub append_reply : ℕ → Bool → Bytes → Bytes → Bytes
append_reply maxlen first argbuff reply =
    if first
    then (xstrlcat argbuff reply maxlen).0
    else (xstrlcat (xstrlcat argbuff (codes ",") maxlen).0 reply maxlen).0

-- The loop over the arguments that are left; `first` is `i == 0`.
pub ask_all : ℕ → ℕ → Bool → List Arg → Bytes → List Input → Dialog
unfolding ask_arg
ask_all maxlen zero first argl argbuff is = ends (pos 0) argbuff is
ask_all maxlen (suc n) first argl argbuff is = elim (ask_arg (get_or argl 0 no_arg) is) [
  | waits ↦ asking
  | stops rc rest ↦ ends rc argbuff rest
  | answer reply rest ↦
      let more =
        ask_all maxlen n false (drop 1 argl) (append_reply maxlen first argbuff reply) rest in
      if leb maxlen (length argbuff + length reply + 1) then ends (negsuc 0) argbuff rest else more
]

-- `argbuff` is empty at the call.
unfoldable pub get_cmd_args : ℕ → ℕ → List Input → Dialog
unfolding ask_all cmdargs_list
get_cmd_args cmdidx maxlen is = elim (get_argidx_for_cmdidx cmdidx) [
  | none ↦ ends (negsuc 0) [] is
  | some argidx ↦
      let p = get_or cmdargs_list argidx no_args in ask_all maxlen p.numargs true p.argl [] is
]
