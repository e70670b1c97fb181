-- ===== src/SendCmd.antt =====
-- Sending a command to a device and waiting for its reply, of src/g7sendcmd.c, over GPRS and over USB.
pub mod Answered
pub mod Refused
pub mod Query
use g7ctrl.Common.{
  Bool, Bytes, List, Option, [], false, get_or, if◌then◌else◌, leb, length, map, none, not, some,
  take, ℕ, ◌&&◌, ◌++◌, ◌-◌, ◌==◌, ◌^◌, ◌||◌, ◌∷◌,
}
use g7ctrl.Common.Int.{ℤ, pos, negsuc}
use g7ctrl.Clients.{Client}
use g7ctrl.Clients.Target.{reset_target, Route, over_gprs, over_usb, no_route, route}
use g7ctrl.CmdQueue.{CmdQueue, Glance, cmdqueue_insert, cmdqueue_check_reply}
use g7ctrl.DeviceReply.{Message, handle_device_reply}
use g7ctrl.DeviceReply.Wire.{crnl}
use g7ctrl.Usb.{Usb, is_usb_connected, get_usb_devicename}

-- What the user is told, in the order of the calls of `_writef`.
pub data Notice : Type 0 where
  device_gone : Notice
  reset_to_usb : Notice
  write_failed : Notice
  no_reply : Notice
  unknown_reply : Notice
  usb_not_connected : Notice
  open_failed : Notice
  read_failed : Notice
  message : Message → Notice

-- The result, what the function changes, the text written to the device, what the user is told, and
-- what is left in `replybuff`, if anything.
pub record Sent : Type 0 where
  pub result : ℤ
  pub cli_info : Client
  pub queue : CmdQueue
  pub wire : Bytes
  pub notices : List Notice
  pub replybuff : Option Bytes

-- A command on its way: who sends it, the text and its tag, the size of the reply buffer, with 0 for
-- NULL, `translateDeviceReply`, and what is in the memory of the local fields.
pub record Command : Type 0 where
  pub cli_info : Client
  pub cmd : Bytes
  pub tagbuff : Bytes
  pub maxreply : ℕ
  pub translate : Bool
  pub stale : Bytes

-- `snprintf(cmdbuff, sizeof (cmdbuff), "%s\r\n", cmd)`
abbrev pub cmdbuff : Bytes → Bytes
cmdbuff cmd = take 1023 (cmd ++ crnl)

abbrev pub refused : Client → CmdQueue → Bytes → List Notice → Sent
refused cli_info queue wire notices = record {
  result = negsuc 0;
  cli_info = cli_info;
  queue = queue;
  wire = wire;
  notices = notices;
  replybuff = none;
}

abbrev pub is_number : ℕ → ℤ → Bool
is_number n (pos m) = n == m
is_number n (negsuc m) = false

-- The loop that looks for the target among the clients.
unfoldable pub still_connected : List Client → Client → Bool
still_connected [] cli_info = false
still_connected (c ∷ cs) cli_info =
    (c.cli_devid == cli_info.target_deviceid && is_number c.cli_socket cli_info.target_socket)
    || still_connected cs cli_info

-- `reply[_len - 2] == '\r' && reply[_len - 1] == '\n'`. A reply of less than two bytes is read before its
-- buffer, and the test is taken to fail.
abbrev pub ends_crnl : Bytes → Bool
ends_crnl reply =
    leb 2 (length reply)
    && get_or reply (length reply - 2) 0 == b'\r'
    && get_or reply (length reply - 1) 0 == b'\n'

abbrev is_success : ℤ → Bool
is_success (pos n) = n == 0
is_success (negsuc n) = false

-- From `handle_device_reply` on, for a reply without its line end.
abbrev answered : Command → CmdQueue → Bytes → ℤ × List Message → Sent
answered c queue reply (rc, messages) = record {
  result = rc;
  cli_info = c.cli_info;
  queue = queue;
  wire = cmdbuff c.cmd;
  notices = map message messages;
  replybuff =
      if is_success rc && not (c.maxreply == 0) then some (take (c.maxreply - 1) reply) else none;
}

-- From the test for the line end on.
unfoldable pub handle_reply : Command → CmdQueue → Bytes → Sent
handle_reply c queue reply =
    if not (ends_crnl reply)
    then refused c.cli_info queue (cmdbuff c.cmd) (unknown_reply ∷ [])
    else (let cut = take (length reply - 2) reply in
        answered c queue cut (handle_device_reply c.translate c.stale cut c.tagbuff))

abbrev after_wait : Command → Option Bytes × CmdQueue → Sent
after_wait c (none, queue) = refused c.cli_info queue (cmdbuff c.cmd) (no_reply ∷ [])
after_wait c (some reply, queue) = handle_reply c queue reply

-- Behind the insertion; `none` when the rounds given end while the function still waits.
wait_for_reply : Command → Bool → List Glance → Option ℕ × CmdQueue → Option Sent
unfolding handle_reply
wait_for_reply c written glances (none, queue) = some (refused c.cli_info queue [] [])
wait_for_reply c written glances (some i, queue) =
    if not written
    then some (refused c.cli_info queue (cmdbuff c.cmd) (write_failed ∷ []))
    else elim (cmdqueue_check_reply queue i 1024 glances) [
      | none ↦ none
      | some a ↦ some (after_wait c a)
    ]

-- `written` is whether the device's socket takes the whole text, and `glances` what the wait sees.
unfoldable pub send_rawcmd_reply_over_gprs :
    List Client → ℕ → CmdQueue → Command → Bool → List Glance → Option Sent
unfolding still_connected wait_for_reply
send_rawcmd_reply_over_gprs clients now queue c written glances =
    if not (still_connected clients c.cli_info)
    then some (refused (reset_target c.cli_info) queue [] (device_gone ∷ reset_to_usb ∷ []))
    else wait_for_reply c written glances
        (cmdqueue_insert now queue c.cli_info.cli_socket c.cli_info.target_deviceid c.tagbuff c.cmd)

-- What the serial port does: whether it opens, whether it takes the text, and the line that comes
-- back, if one does.
pub record Serial : Type 0 where
  pub opens : Bool
  pub takes : Bool
  pub line : Option Bytes

read_line : Command → CmdQueue → Option Bytes → Sent
unfolding handle_reply
read_line c queue none = refused c.cli_info queue (cmdbuff c.cmd) (read_failed ∷ [])
read_line c queue (some reply) =
    if leb (length reply) 2
    then refused c.cli_info queue (cmdbuff c.cmd) (unknown_reply ∷ [])
    else handle_reply c queue reply

usb_index : ℤ → ℕ
usb_index (pos n) = n
usb_index (negsuc n) = 2 ^ 64 - n - 1

-- `internal` is whether the daemon itself asks, with the socket -1. The queue is not used.
unfoldable pub send_rawcmd_reply_over_usb : Usb → CmdQueue → Command → Bool → Serial → Sent
unfolding read_line usb_index
send_rawcmd_reply_over_usb usb queue c internal serial =
    let idx = usb_index c.cli_info.target_usb_idx in
    if not internal && not (is_usb_connected usb idx)
    then refused c.cli_info queue [] (usb_not_connected ∷ [])
    else elim (get_usb_devicename usb idx) [
      | none ↦ refused c.cli_info queue [] []
      | some device ↦
          if not serial.opens
          then refused c.cli_info queue [] (open_failed ∷ [])
          else if not serial.takes
          then refused c.cli_info queue (cmdbuff c.cmd) (write_failed ∷ [])
          else read_line c queue serial.line
    ]

take_route :
    List Client → ℕ → CmdQueue → Command → Bool → List Glance → Usb → Serial → Route → Option Sent
unfolding send_rawcmd_reply_over_gprs send_rawcmd_reply_over_usb
take_route clients now queue c written glances usb serial over_gprs =
    send_rawcmd_reply_over_gprs clients now queue c written glances
take_route clients now queue c written glances usb serial over_usb =
    some (send_rawcmd_reply_over_usb usb queue c false serial)
take_route clients now queue c written glances usb serial no_route =
    some (refused c.cli_info queue [] [])

-- A command of a user.
unfoldable pub send_rawcmd_reply :
    List Client → ℕ → CmdQueue → Command → Bool → List Glance → Usb → Serial → Option Sent
unfolding take_route
send_rawcmd_reply clients now queue c written glances usb serial =
    take_route clients now queue c written glances usb serial (route c.cli_info)
