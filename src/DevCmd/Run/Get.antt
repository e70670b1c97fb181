-- ===== src/DevCmd/Run/Get.antt =====
-- The command `get` for what a device can be asked, from the name to the answer, of src/g7cmd.c.
use g7ctrl.Common.{
  Bool, Bytes, List, Option, [], ap, arith, codes, if◌then◌else◌, inl, inr, length, map, none, some,
  true, ℕ, ◌<◌, ◌∙◌, ◌∷◌, ◌≡◌,
}
use g7ctrl.Common.Int.{pos}
use g7ctrl.Clients.Target.{over_gprs, route}
use g7ctrl.CmdQueue.{CmdQueue, Glance, cmdqueue_insert, cmdqueue_match}
use g7ctrl.CmdQueue.Queue.{IsValid}
use g7ctrl.DeviceTag.{get_device_tag}
use g7ctrl.DeviceReply.Parse.{ok_reply}
use g7ctrl.DeviceReply.Wire.{IsReply}
use g7ctrl.Tracker.Events.{handle_data, stream}
use g7ctrl.SendCmd.{still_connected}
use g7ctrl.SendCmd.Answered.{answer, command_answered, routed}
use g7ctrl.Xstr.Case.{tolower}
use g7ctrl.DevCmd.Table.{Handler, command_at, g7command_list_len, cmd_mode_r}
use g7ctrl.DevCmd.Prepare.{Handled, prefix, device_text, prepare_cmd_to_device, prepared_text}
use g7ctrl.DevCmd.Exec.{Executed, exec_get_command}
use g7ctrl.DevCmd.Exec.Found.{get_found}
use g7ctrl.DevCmd.Exec.Allowed.{prepared_allowed}
use g7ctrl.DevCmd.Run.{
  Place, Outcome, raw_command, run_get, run_handled, send_prepared, send_rawcmd,
}

-- The tag and the text of the question.
abbrev pub tag_of : ℕ → Bytes
tag_of tagnbr = (get_device_tag tagnbr 8).1

abbrev pub question : ℕ → ℕ → Bytes
question idx tagnbr =
    device_text cmd_mode_r (prefix (command_at idx).cmdstr (tag_of tagnbr) (codes "0000")) []

query_ready :
    (tagnbr : ℕ) (name : Bytes) (idx : ℕ)
    → idx < g7command_list_len
    → exec_get_command name (pos 0, []) ≡ Executed.handled idx (Handled.prepares cmd_mode_r [])
    → prepare_cmd_to_device tagnbr idx cmd_mode_r []
      ≡ (some (question idx tagnbr, tag_of tagnbr), (get_device_tag tagnbr 8).2)
query_ready tagnbr name idx lt e =
    prepared_text tagnbr idx cmd_mode_r [] lt (omega arith)
    ∙ ap
        (λ (b : Bool).
          let t : Option (Bytes × Bytes) =
            if b then none else some (question idx tagnbr, tag_of tagnbr) in
          (t, (get_device_tag tagnbr 8).2))
        (prepared_allowed name [] (pos 0, []) idx cmd_mode_r [] (inr (inl e)))

run_get_sends :
    (p : Place) (tagnbr : ℕ) (name : Bytes) (idx : ℕ)
    → idx < g7command_list_len
    → exec_get_command name (pos 0, []) ≡ Executed.handled idx (Handled.prepares cmd_mode_r [])
    → run_get p tagnbr name ≡ (
      Outcome.sent (send_rawcmd p (question idx tagnbr) (tag_of tagnbr)),
      (get_device_tag tagnbr 8).2,
    )
unfolding run_get run_handled
run_get_sends p tagnbr name idx lt e =
    rw (e, run_get) (ap (send_prepared p) (query_ready tagnbr name idx lt e))

-- A client whose target is a device on GPRS gives the command `get` with the name, in upper or lower
-- case, of one of the commands that only query. The device is still connected, the queue is valid and
-- takes the question, no command with its tag waits for the device, and before the wait looks at the
-- queue the device sends a reply with that tag that fits the buffers on its way. Then the question
-- is sent in the form of the device's manual, the user is told the fields of the reply and, if the
-- translation is switched on, the text that it leaves and whether it fails, the queue is as before, and
-- the running number of the tags has gone on.
pub get_answered :
    (p : Place) (tagnbr : ℕ) (name : Bytes) (idx i : ℕ) (q1 : CmdQueue) (stored : List Bytes)
    (f : Bytes) (fs : List Bytes) (stale : Bytes) (later : ℕ) (glances : List Glance)
    → idx < g7command_list_len
    → length name < 4096
    → map tolower name ≡ (command_at idx).srvcmd
    → (command_at idx).cmdhandler ≡ Handler.get_template
    → route p.cli_info ≡ over_gprs
    → IsValid p.queue
    → 0 < p.cli_info.target_deviceid
    → still_connected p.clients p.cli_info ≡ true
    → cmdqueue_match p.queue p.cli_info.target_deviceid (tag_of tagnbr) ≡ none
    → cmdqueue_insert p.now p.queue p.cli_info.cli_socket p.cli_info.target_deviceid
        (tag_of tagnbr)
        (question idx tagnbr)
      ≡ (some i, q1)
    → IsReply (command_at idx).cmdstr (tag_of tagnbr) (f ∷ fs)
    → let d =
        handle_data p.cli_info.target_deviceid
          (record { queue = q1; stored = stored })
          (stream (ok_reply (command_at idx).cmdstr (tag_of tagnbr) (f ∷ fs) ∷ []) stale) in
      run_get
        (record p { written = true; glances = record { queue = d.queue; now = later } ∷ glances })
        tagnbr
        name
      ≡ (
        Outcome.sent (
            some (
              answer
                (raw_command p (question idx tagnbr) (tag_of tagnbr))
                p.queue
                (command_at idx).cmdstr
                (f ∷ fs))),
        (get_device_tag tagnbr 8).2,
      )
unfolding send_rawcmd
get_answered p tagnbr name idx i q1 stored f fs stale later glances lt small same h gprs v d found
      none_yet e r =
    let dev =
      handle_data p.cli_info.target_deviceid (record { queue = q1; stored = stored })
        (stream (ok_reply (command_at idx).cmdstr (tag_of tagnbr) (f ∷ fs) ∷ []) stale) in
    let rounds : List Glance = record { queue = dev.queue; now = later } ∷ glances in
    let there : Place = record p { written = true; glances = rounds } in
    let c = raw_command p (question idx tagnbr) (tag_of tagnbr) in
    let replied =
      routed p.clients p.now p.queue c true rounds p.usb p.serial gprs
      ∙ command_answered p.clients p.now p.queue c i q1 stored (command_at idx).cmdstr f fs stale
          later glances v d found none_yet e r in
    run_get_sends there tagnbr name idx lt (get_found name idx (pos 0, []) lt small same h)
    ∙ ap (λ s. (Outcome.sent s, (get_device_tag tagnbr 8).2)) replied
