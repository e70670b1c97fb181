-- ===== src/Tests/Commands.antt =====
-- Runs of commands from the user to the device and back.
use g7ctrl.Common.{
  All, Bytes, List, Rc, [], arith, codes, failure, false, if◌then◌else◌, leb, length, map, none,
  refl, some, str_eq, success, true, ℕ, ◌++◌, ◌<◌, ◌==◌, ◌∷◌, ◌≡◌, ◌≤◌,
}
use g7ctrl.Xstr.Case.{tolower, xstricmp}
use g7ctrl.Xstr.Utf8.{xmb_strncpy, xmb_inc}
use g7ctrl.Xstr.Copy.{xstrlcat, append_bounded}
use Prim.Native.Nat.{bit_and}
use g7ctrl.Common.Int.{pos, negsuc}
use g7ctrl.Clients.{Client, no_client}
use g7ctrl.CmdQueue.{cmdqueue_init, cmdqueue_match}
use g7ctrl.CmdQueue.Queue.{init-IsValid}
use g7ctrl.DeviceTag.{get_device_tag, get_device_pin}
use g7ctrl.DeviceReply.Parse.{ok_reply}
use g7ctrl.DeviceReply.Wire.{IsReply}
use g7ctrl.Tracker.Events.{handle_data, stream}
use g7ctrl.SendCmd.{Sent, Command, still_connected, send_rawcmd_reply_over_gprs}
use g7ctrl.SendCmd.Answered.{answer, command_answered}
use g7ctrl.SendCmd.Refused.{failed_write_stays}
use g7ctrl.DevCmd.Table.{command_at, get_devcmd_from_srvcmd}
use g7ctrl.DevCmd.Translate.{get_argidx_for_cmdidx, translate_cmd_argval_to_string, is_select}
use g7ctrl.DevCmd.Translate.Complete.{
  arguments_found, choices_translate, has_argument_table, args_at, choice_at, arg_at,
}
use g7ctrl.DevCmd.Prepare.{prefix, device_text, prepare_cmd_to_device, prepared_text}
use g7ctrl.DevCmd.Args.{cmdargs_list}
use g7ctrl.Xstr.Split.RoundTrip.{separated}
use g7ctrl.Presets.{Preset, preset_command, get_preset, built}
use g7ctrl.Presets.Text.{start, written, no_spaces, preset_command_text, Argument}
use g7ctrl.Presets.Run.{failed_at, exec_preset, exec_commands, exec_preset_func, exec_preset_stops}
use g7ctrl.Tests.Device.{tag, cmd, flds, sent, cmd_Word, tag_Word, none_waits, insert_run}

abbrev pub user : Client
user = record no_client {
  cli_socket = 5;
  cli_thread = 9;
  target_socket = pos 7;
  target_deviceid = 3000;
  target_cli_idx = pos 1;
}

abbrev pub tracker : Client
tracker = record no_client { cli_socket = 7; cli_thread = 11; cli_devid = 3000 }

abbrev asked : Command
asked = record {
  cli_info = user;
  cmd = cmd;
  tagbuff = tag;
  maxreply = 0;
  translate = false;
  stale = [];
}

IsReply-fits : IsReply cmd tag flds
IsReply-fits = record {
  cmd_word = cmd_Word;
  cmd_line = omega arith;
  cmd_some = omega arith;
  cmd_short = omega arith;
  tag_word = tag_Word;
  tag_line = omega arith;
  tag_short = omega arith;
  fields = omega arith;
  few = omega arith;
  text_some = omega arith;
  text_short = omega arith;
  text_line = omega arith;
}

pub is_there : still_connected (user ∷ tracker ∷ []) user ≡ true
unfolding still_connected
is_there = refl

command_answered_example :
    let d =
      handle_data 3000
        (record { queue = sent; stored = [] })
        (stream (ok_reply cmd tag flds ∷ []) []) in
    send_rawcmd_reply_over_gprs
      (user ∷ tracker ∷ [])
      100
      cmdqueue_init
      asked
      true
      (record { queue = d.queue; now = 101 } ∷ [])
    ≡ some (answer asked cmdqueue_init cmd flds)
command_answered_example =
    command_answered (user ∷ tracker ∷ []) 100 cmdqueue_init asked 0 sent [] cmd (codes "4.20V")
      (codes "1" ∷ []) [] 101 [] init-IsValid (omega arith) is_there none_waits insert_run
      IsReply-fits

failed_write_stays_example :
    (s : Sent) × (send_rawcmd_reply_over_gprs (user ∷ tracker ∷ []) 100 cmdqueue_init asked false []
      ≡ some s)
    × (s.result ≡ negsuc 0)
    × (s.queue ≡ sent)
    × (cmdqueue_match s.queue 3000 tag ≡ some 0)
failed_write_stays_example =
    failed_write_stays (user ∷ tracker ∷ []) 100 cmdqueue_init asked 0 sent [] init-IsValid
      (omega arith) is_there none_waits insert_run

phone_small : map tolower (codes "PHone") ≡ (command_at 1).srvcmd
unfolding command_at
phone_small = refl

handled_by_table : has_argument_table (command_at 4).cmdhandler ≡ true
unfolding command_at
handled_by_table = refl

arguments_found_example : (i : ℕ) × (get_argidx_for_cmdidx 4 ≡ some i)
arguments_found_example = arguments_found 4 (omega arith) handled_by_table

first_counts :
    (0 < (args_at 0).numargs) × (is_select (arg_at 0 0).type ≡ true) × (2 < (arg_at 0 0).nsel)
unfolding cmdargs_list
first_counts = (omega arith, refl, omega arith)

choices_translate_example :
    translate_cmd_argval_to_string (args_at 0).srvcmd 0 (choice_at 0 0 2).0 1024
    ≡ (success, some (choice_at 0 0 2).1)
choices_translate_example =
    choices_translate 0 0 2 (omega arith) (omega arith) (omega arith) first_counts.0 first_counts.1
      first_counts.2

prepared_text_example : prepare_cmd_to_device 41 1 2 (codes "1,15") ≡ (
  if bit_and 2 (command_at 1).modes == 0
      then none
      else some (
        device_text 2
            (prefix (command_at 1).cmdstr (get_device_tag 41 8).1 (codes "0000"))
            (codes "1,15"),
        (get_device_tag 41 8).1,
      ),
  (get_device_tag 41 8).2,
)
prepared_text_example = prepared_text 41 1 2 (codes "1,15") (omega arith) (omega arith)

start_small : length (start (command_at 1).cmdstr tag (codes "0000")) ≤ 40
unfolding command_at
start_small = omega arith

two_arguments : All Argument (codes "1" ∷ codes " 15" ∷ [])
two_arguments = ((omega arith, omega arith), ((omega arith, omega arith), tt))

preset_command_text_example :
    preset_command
      (written (codes "PHone") (codes "1" ∷ codes " 15" ∷ []) (codes " # on"))
      tag
      (codes "0000")
    ≡ built (
        start (command_at 1).cmdstr tag (codes "0000")
        ++ separated b',' (map no_spaces (codes "1" ∷ codes " 15" ∷ [])))
preset_command_text_example =
    preset_command_text (codes "PHone") 1 tag (codes "0000") (codes "1") (codes " 15" ∷ [])
      (codes " # on") (omega arith) phone_small (omega arith) (omega arith) two_arguments
      (omega arith) (omega arith) (omega (arith, start_small)) (omega (arith, start_small))

-- A world that notes the texts sent, and a device that takes no text of more than 30 bytes.
abbrev send : Bytes → Bytes → List Bytes → Rc × List Bytes
send text label texts =
    if leb (length text) 30 then (success, texts ++ text ∷ []) else (failure, texts)

-- No command here comes to this.
abbrev past_end : Bytes → List Bytes → Rc × List Bytes
past_end text texts = (failure, texts)

abbrev quiet : Preset
quiet = record {
  name = codes "quiet";
  shortdesc = codes "Less reports";
  longdesc = [];
  cmd = codes "phone(1,15)" ∷ codes "sleep(3)" ∷ codes "no_such(1)" ∷ codes "led(0)" ∷ [];
}

quiet_found : get_preset (quiet ∷ []) (codes "quiet") ≡ some quiet
unfolding get_preset str_eq
quiet_found = refl

abbrev two_sent : List Bytes
two_sent = codes "$WP+VLOCATION+0042=0000,1,15" ∷ codes "$WP+SLEEP+0043=0000,3" ∷ []

two_run :
    exec_commands send past_end
      (get_device_pin 16).1
      0
      (codes "phone(1,15)" ∷ codes "sleep(3)" ∷ [])
      41
      []
    ≡ record { result = success; failed = none; tagnbr = 43; world = two_sent }
unfolding exec_commands exec_preset_func get_device_pin get_device_tag preset_command xmb_strncpy
    xmb_inc get_devcmd_from_srvcmd xstricmp xstrlcat append_bounded
two_run = refl

third_fails :
    exec_preset_func send past_end
      (codes "no_such(1)")
      (get_device_tag 43 16).1
      (get_device_pin 16).1
      two_sent
    ≡ (failure, two_sent)
unfolding exec_preset_func get_device_pin get_device_tag preset_command xmb_strncpy xmb_inc
    get_devcmd_from_srvcmd xstricmp
third_fails = refl

exec_preset_stops_example : exec_preset send past_end (quiet ∷ []) (codes "quiet") 41 [] ≡ (
  failure,
  failed_at 2 (codes "quiet"),
  record { result = failure; failed = some 2; tagnbr = (get_device_tag 43 16).2; world = two_sent },
)
exec_preset_stops_example =
    exec_preset_stops send past_end (quiet ∷ []) (codes "quiet") quiet 41 []
      (codes "phone(1,15)" ∷ codes "sleep(3)" ∷ []) (codes "no_such(1)") (codes "led(0)" ∷ []) 43
      two_sent two_sent quiet_found refl two_run third_fails
