-- ===== src/Tests/Get.antt =====
-- A run of the command `get ver` from its name to the answer of the device.
use g7ctrl.Common.{[], ap, arith, codes, false, map, none, refl, some, true, ◌∷◌, ◌≡◌}
use g7ctrl.Xstr.Case.{tolower}
use g7ctrl.Clients.Target.{over_gprs, route}
use g7ctrl.CmdQueue.{CmdQueue, cmdqueue_init, cmdqueue_insert, cmdqueue_match}
use g7ctrl.CmdQueue.Queue.{init-IsValid}
use g7ctrl.DeviceTag.{get_device_tag}
use g7ctrl.DeviceReply.Parse.{ok_reply}
use g7ctrl.DeviceReply.Wire.{IsReply}
use g7ctrl.Tracker.Events.{handle_data, stream}
use g7ctrl.SendCmd.Answered.{answer}
use g7ctrl.Usb.{init_usb_status}
use g7ctrl.DevCmd.Table.{Handler, command_at}
use g7ctrl.DevCmd.Run.{Place, Outcome, raw_command, run_get}
use g7ctrl.DevCmd.Run.Get.{tag_of, question, get_answered}
use g7ctrl.Tests.Commands.{user, tracker, is_there}

abbrev place : Place
place = record {
  clients = user ∷ tracker ∷ [];
  now = 100;
  queue = cmdqueue_init;
  cli_info = user;
  translate = true;
  stale = [];
  written = false;
  glances = [];
  usb = init_usb_status (λ n. []) 0;
  serial = record { opens = false; takes = false; line = none };
}

abbrev asked : CmdQueue
asked = (cmdqueue_insert 100 cmdqueue_init 5 3000 (tag_of 41) (question 9 41)).1

name_small : map tolower (codes "Ver") ≡ (command_at 9).srvcmd
unfolding command_at
name_small = refl

queries : (command_at 9).cmdhandler ≡ Handler.get_template
unfolding command_at
queries = refl

goes_over_gprs : route user ≡ over_gprs
unfolding route
goes_over_gprs = refl

none_waits : cmdqueue_match cmdqueue_init 3000 (tag_of 41) ≡ none
unfolding cmdqueue_match cmdqueue_init
none_waits = refl

taken : (cmdqueue_insert 100 cmdqueue_init 5 3000 (tag_of 41) (question 9 41)).0 ≡ some 0
unfolding cmdqueue_insert cmdqueue_init get_device_tag command_at
taken = refl

inserted : cmdqueue_insert 100 cmdqueue_init 5 3000 (tag_of 41) (question 9 41) ≡ (some 0, asked)
inserted = ap (λ o. (o, asked)) taken

IsReply-version : IsReply (command_at 9).cmdstr (tag_of 41) (codes "M7 2013 V2.006" ∷ [])
unfolding command_at get_device_tag
IsReply-version = record {
  cmd_word = ((refl, omega arith), ((refl, omega arith), ((refl, omega arith), tt)));
  cmd_line = omega arith;
  cmd_some = omega arith;
  cmd_short = omega arith;
  tag_word = (
    (refl, omega arith),
    ((refl, omega arith), ((refl, omega arith), ((refl, omega arith), tt))),
  );
  tag_line = omega arith;
  tag_short = omega arith;
  fields = omega arith;
  few = omega arith;
  text_some = omega arith;
  text_short = omega arith;
  text_line = omega arith;
}

get_answered_example :
    let d =
      handle_data 3000
        (record { queue = asked; stored = [] })
        (stream
          (ok_reply (command_at 9).cmdstr (tag_of 41) (codes "M7 2013 V2.006" ∷ []) ∷ [])
          []) in
    run_get
      (record place { written = true; glances = record { queue = d.queue; now = 101 } ∷ [] })
      41
      (codes "Ver")
    ≡ (
      Outcome.sent (
          some (
            answer
              (raw_command place (question 9 41) (tag_of 41))
              cmdqueue_init
              (command_at 9).cmdstr
              (codes "M7 2013 V2.006" ∷ []))),
      (get_device_tag 41 8).2,
    )
get_answered_example =
    get_answered place 41 (codes "Ver") 9 0 asked [] (codes "M7 2013 V2.006") [] [] 101 []
      (omega arith) (omega arith) name_small queries goes_over_gprs init-IsValid (omega arith)
      is_there none_waits inserted IsReply-version
