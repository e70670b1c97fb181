-- ===== src/DevCmd/Exec.antt =====
-- How a command of a user reaches its handler, of src/g7cmd.c: the commands that switch, get, set and do.
pub mod Handlers
pub mod Allowed
pub mod Found
use g7ctrl.Common.{
  Bool, Bytes, List, Option, [], codes, failure, false, get_or, if◌then◌else◌, leb, length, ltb,
  none, some, take, ℕ, ◌&&◌, ◌++◌, ◌+◌, ◌-◌, ◌==◌, ◌||◌, ◌∷◌,
}
use Prim.Native.Nat.{bit_and}
use g7ctrl.Common.Int.{ℤ, pos, negsuc}
use g7ctrl.Xstr.Case.{xstricmp, is_zero}
use g7ctrl.Xstr.Number.{xatoi}
use g7ctrl.DevCmd.Table.{
  Handler, G7Command, g7command_list, command_at, cmd_type_get, cmd_type_getset,
  cmd_type_getset_binary, cmd_type_do, cmd_mode_r,
}
use g7ctrl.DevCmd.Prepare.{
  Handled, cmdidx_setevt, cmd_binary_template, cmd_set_template, cmd_get_template, cmd_do_template,
}

-- `CMD_TYPE_SET`
abbrev cmd_type_set : ℕ
cmd_type_set = 2

-- What a user's command leads to: a template does its work for the entry with this index, a handler of its own
-- is called, or the command is not known, which the user is told.
pub data Executed : Type 0 where
  handled : ℕ → Handled → Executed
  special : ℕ → Handler → Executed
  unknown_command : Executed

-- The search loop: the first entry of a fitting type whose name is equal but for case.
pub find_typed : (ℕ → Bool) → Bytes → List G7Command → ℕ → Option ℕ
find_typed fits name [] i = none
find_typed fits name (c ∷ cs) i =
    if fits c.type && is_zero (xstricmp name c.srvcmd)
    then some i
    else find_typed fits name cs (i + 1)

-- The call of the handler in the table; `dialog` is the result of `get_cmd_args` and what it leaves.
pub call_handler : Handler → ℕ → ℕ → ℤ × Bytes → Executed
call_handler Handler.binary_template i gsflag dialog =
    handled i (cmd_binary_template i gsflag dialog)
call_handler Handler.set_template i gsflag dialog = handled i (cmd_set_template i gsflag dialog)
call_handler Handler.get_template i gsflag dialog = handled i (cmd_get_template gsflag)
call_handler Handler.do_template i gsflag dialog = handled i (cmd_do_template gsflag)
call_handler h i gsflag dialog = special i h

-- The four functions differ in the types and in the flag.
exec_typed : (ℕ → Bool) → Bytes → ℕ → ℤ × Bytes → Executed
unfolding find_typed call_handler g7command_list command_at
exec_typed fits name gsflag dialog = elim (find_typed fits name g7command_list 0) [
  | none ↦ unknown_command
  | some i ↦ call_handler (command_at i).cmdhandler i gsflag dialog
]

abbrev is_binary : ℕ → Bool
is_binary type = cmd_type_getset_binary == type

abbrev is_get : ℕ → Bool
is_get type = cmd_type_get == type || cmd_type_getset_binary == type || cmd_type_getset == type

abbrev is_set : ℕ → Bool
is_set type = cmd_type_set == type || cmd_type_getset == type

abbrev is_do : ℕ → Bool
is_do type = cmd_type_do == type

-- `mode` is `field[2]`.
unfoldable pub exec_binary_command : Bytes → Bytes → ℤ × Bytes → Executed
unfolding exec_typed
exec_binary_command name mode dialog =
    exec_typed is_binary name (if is_zero (xstricmp mode (codes "on")) then 1 else 2) dialog

unfoldable pub exec_get_command : Bytes → ℤ × Bytes → Executed
unfolding exec_typed
exec_get_command name dialog = exec_typed is_get name 0 dialog

unfoldable pub exec_set_command : Bytes → ℤ × Bytes → Executed
unfolding exec_typed
exec_set_command name dialog = exec_typed is_set name 1 dialog

unfoldable pub exec_do_command : Bytes → ℤ × Bytes → Executed
unfolding exec_typed
exec_do_command name dialog = exec_typed is_do name 0 dialog

abbrev is_event_id : ℤ → Bool
is_event_id (pos n) = leb 50 n && leb n 99
is_event_id (negsuc n) = false

unfoldable pub exec_get_gfevt : Bytes → Handled
exec_get_gfevt field =
    if is_event_id (xatoi field).0
    then Handled.prepares cmd_mode_r field
    else Handled.returns (negsuc 0)

-- The text in `url`, or `none` for -1.
unfoldable pub get_googlemap_string : Bytes → Bytes → ℕ → Option Bytes
get_googlemap_string lat lon maxlen =
    if leb 8 (length lat) && leb 8 (length lon)
    then some
        (take (maxlen - 1) (codes "https://www.google.com/maps?q=" ++ lat ++ codes "," ++ lon))
    else none

-- The text in `buf`, or `none` for -1; the byte is a `char`.
unfoldable pub cmd_test_reply_to_text : Bytes → ℕ → Option Bytes
cmd_test_reply_to_text strval maxlen =
    let c = get_or strval 0 0 in
    if ltb c b'0' || ltb b'3' c
    then none
    else some (
        take (maxlen - 1) (
          if c == b'0'
          then codes "PASS"
          else if c == b'1'
          then codes "GSM Failure"
          else if c == b'2'
          then codes "GPS Failure"
          else codes "GSM and GPS failure"))
