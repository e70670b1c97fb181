-- ===== src/SendCmd/Answered.antt =====
-- A command over GPRS from the user to the device and its reply back to the user.
use g7ctrl.Common.{
  All-append, Bool, Bytes, List, [], ap, arith, get_or, if◌then◌else◌, leb, length, length-append,
  map, none, not, refl, some, suc, take, take-append, true, ℕ, ◌++◌, ◌+◌, ◌-◌, ◌<◌, ◌==◌, ◌∙◌, ◌∷◌,
  ◌≡◌,
}
use g7ctrl.Common.Int.{pos}
use g7ctrl.Clients.{Client}
use g7ctrl.CmdQueue.{
  CmdQueue, Glance, cmdqueue_insert, cmdqueue_match, cmdqueue_check_reply, deliver_reply,
}
use g7ctrl.CmdQueue.Queue.{IsValid}
use g7ctrl.CmdQueue.Deliver.{match-insert, check_reply-deliver-insert}
use g7ctrl.DeviceReply.{prompted, translation}
use g7ctrl.DeviceReply.Answer.{handle_device_reply-ok_reply}
use g7ctrl.DeviceReply.Parse.{ok_reply}
use g7ctrl.DeviceReply.Wire.{
  crnl, IsReply, Line-chars, add_crnl-fields, ok_reply-Line, ok_reply-length,
}
use g7ctrl.Tracker.Delivered.{handle_data-delivers}
use g7ctrl.Tracker.Events.{handle_data, stream}
use g7ctrl.Clients.Target.{over_gprs, route}
use g7ctrl.SendCmd.{
  Sent, Command, cmdbuff, still_connected, ends_crnl, handle_reply, message,
  send_rawcmd_reply_over_gprs, wait_for_reply, Notice, send_rawcmd_reply, take_route, Usb, Serial,
  route,
}
use g7ctrl.Xstr.Split.RoundTrip.{join}
use g7ctrl.Xstr.Utf8.{xmb_strncpy}
use g7ctrl.Xstr.Utf8.Whole.{xmb_strncpy_whole}

get_or-append : (s t : Bytes) (k : ℕ) → get_or (s ++ t) (length s + k) 0 ≡ get_or t k 0
get_or-append [] t k = ap (λ j. get_or t j 0) {x = 0 + k} {y = k} (omega arith)
get_or-append (c ∷ s) t k =
    ap (λ j. get_or (c ∷ s ++ t) j 0) {x = suc (length s) + k} {y = suc (length s + k)}
      (omega arith)
    ∙ get_or-append s t k

with_crnl :
    (s : Bytes) → (ends_crnl (s ++ crnl) ≡ true) × (take (length (s ++ crnl) - 2) (s ++ crnl) ≡ s)
with_crnl s =
    let size = length-append s crnl in
    let two : length (s ++ crnl) - 2 ≡ length s + 0 = omega arith in
    let one : length (s ++ crnl) - 1 ≡ length s + 1 = omega arith in
    let cut : length (s ++ crnl) - 2 ≡ length s = omega arith in
    let enough : leb 2 (length (s ++ crnl)) ≡ true = ground arith in
    (
      rw (enough, two, one, get_or-append s crnl 0, get_or-append s crnl 1) refl,
      rw cut (take-append s crnl),
    )

copied :
    (cmd tag f : Bytes) (fs : List Bytes)
    → IsReply cmd tag (f ∷ fs)
    → let wire = ok_reply cmd tag (f ∷ fs) ++ crnl in
      xmb_strncpy (xmb_strncpy wire 1023) 1024 ≡ wire
copied cmd tag f fs r =
    let e = ok_reply cmd tag (f ∷ fs) in
    let size = ok_reply-length cmd tag (f ∷ fs) r in
    let chars =
      All-append (λ c. 0 < c) e crnl (Line-chars e (ok_reply-Line cmd tag (f ∷ fs) r))
        (omega arith, (omega arith, tt)) in
    let once = xmb_strncpy_whole (e ++ crnl) 1023 chars (omega (arith, length-append e crnl)) in
    let twice = xmb_strncpy_whole (e ++ crnl) 1024 chars (omega (arith, length-append e crnl)) in
    ap (λ b. xmb_strncpy b 1024) once ∙ twice

-- The prompt with the fields, and what `translation` tells of them if that is switched on.
abbrev pub told : Bool → Bytes → List Bytes → List Notice
told translate cmd flds =
    map message (prompted (join b',' flds) ∷ (if translate then translation cmd flds else []))

-- The command succeeds, the user is told the fields, and the buffer has as much of the reply as fits.
abbrev pub answer : Command → CmdQueue → Bytes → List Bytes → Sent
answer c queue cmd flds = record {
  result = pos 0;
  cli_info = c.cli_info;
  queue = queue;
  wire = cmdbuff c.cmd;
  notices = told c.translate cmd flds;
  replybuff =
      if not (c.maxreply == 0)
      then some (take (c.maxreply - 1) (ok_reply cmd c.tagbuff flds))
      else none;
}

reply_handled :
    (c : Command) (q : CmdQueue) (cmd f : Bytes) (fs : List Bytes)
    → IsReply cmd c.tagbuff (f ∷ fs)
    → handle_reply c q (ok_reply cmd c.tagbuff (f ∷ fs) ++ crnl) ≡ answer c q cmd (f ∷ fs)
unfolding handle_reply
reply_handled c q cmd f fs r =
    let (ends, cut) = with_crnl (ok_reply cmd c.tagbuff (f ∷ fs)) in
    let handled =
      handle_device_reply-ok_reply c.translate c.stale cmd c.tagbuff f fs r.cmd_word r.cmd_some
        r.cmd_short r.tag_word r.tag_short (add_crnl-fields (f ∷ fs) r.fields) r.few r.text_some
        r.text_short (Line-chars (join b',' (f ∷ fs)) r.text_line) in
    rw (ends, cut, handled) refl

replied :
    (c : Command) (q q1 : CmdQueue) (i : ℕ) (glances : List Glance) (reply : Bytes)
    → cmdqueue_check_reply q1 i 1024 glances ≡ some (some reply, q)
    → wait_for_reply c true glances (some i, q1) ≡ some (handle_reply c q reply)
unfolding wait_for_reply
replied c q q1 i glances reply e = rw (e, wait_for_reply) refl

-- On a valid queue where no command for the device and the tag waits, a command goes to a device that is
-- still connected, whose id is not 0, and is inserted and written. The device's thread then reads a
-- reply with the tag and its line end, of the form and the lengths that `IsReply` asks for, into a
-- buffer that holds anything behind it, and the wait sees the queue after that. Then the command
-- succeeds, the user is told the prompt with the fields and, if the translation is switched on, the
-- text that it leaves and whether it fails, the caller's buffer has the reply without its line end, as
-- far as it fits, and the queue is as before.
pub command_answered :
    (clients : List Client) (now : ℕ) (q : CmdQueue) (c : Command) (i : ℕ) (q1 : CmdQueue)
    (stored : List Bytes) (cmd f : Bytes) (fs : List Bytes) (stale : Bytes) (later : ℕ)
    (glances : List Glance)
    → IsValid q
    → 0 < c.cli_info.target_deviceid
    → still_connected clients c.cli_info ≡ true
    → cmdqueue_match q c.cli_info.target_deviceid c.tagbuff ≡ none
    → cmdqueue_insert now q c.cli_info.cli_socket c.cli_info.target_deviceid c.tagbuff c.cmd
      ≡ (some i, q1)
    → IsReply cmd c.tagbuff (f ∷ fs)
    → let d =
        handle_data c.cli_info.target_deviceid
          (record { queue = q1; stored = stored })
          (stream (ok_reply cmd c.tagbuff (f ∷ fs) ∷ []) stale) in
      send_rawcmd_reply_over_gprs clients now q c true
        (record { queue = d.queue; now = later } ∷ glances)
      ≡ some (answer c q cmd (f ∷ fs))
unfolding send_rawcmd_reply_over_gprs
command_answered clients now q c i q1 stored cmd f fs stale later glances v d found none_yet e r =
    let devid = c.cli_info.target_deviceid in
    let sock = c.cli_info.cli_socket in
    let wire = ok_reply cmd c.tagbuff (f ∷ fs) ++ crnl in
    let m = match-insert now q sock devid c.tagbuff c.cmd i q1 v d none_yet e in
    let delivered =
      handle_data-delivers devid (record { queue = q1; stored = stored }) cmd c.tagbuff f fs stale i
        r m in
    let checked =
      check_reply-deliver-insert now q sock devid c.tagbuff c.cmd i q1 wire 1024 later glances v d
        none_yet e
      ∙ ap (λ b. some (some b, q)) (copied cmd c.tagbuff f fs r) in
    rw (found, e, delivered)
      (replied c q q1 i
          (record { queue = (deliver_reply q1 devid c.tagbuff wire).1; now = later } ∷ glances) wire
          checked
        ∙ ap (λ s. some s) (reply_handled c q cmd f fs r))

-- A client whose target is a device on GPRS sends over GPRS.
pub routed :
    (clients : List Client) (now : ℕ) (q : CmdQueue) (c : Command) (written : Bool)
    (glances : List Glance) (usb : Usb) (serial : Serial)
    → route c.cli_info ≡ over_gprs
    → send_rawcmd_reply clients now q c written glances usb serial
      ≡ send_rawcmd_reply_over_gprs clients now q c written glances
unfolding send_rawcmd_reply take_route
routed clients now q c written glances usb serial h =
    ap (λ r. take_route clients now q c written glances usb serial r) h
