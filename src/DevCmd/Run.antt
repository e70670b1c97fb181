-- ===== src/DevCmd/Run.antt =====
-- A command of a user from its name to the device, of src/g7cmd.c and src/g7sendcmd.c: the handler, the text
-- that it prepares, and `send_rawcmd`.
pub mod Get
use g7ctrl.Common.{Bool, Bytes, List, Option, [], none, some, ℕ}
use g7ctrl.Common.Int.{ℤ, pos, negsuc}
use g7ctrl.Clients.{Client}
use g7ctrl.CmdQueue.{CmdQueue, Glance}
use g7ctrl.Usb.{Usb}
use g7ctrl.SendCmd.{Command, Sent, Serial, send_rawcmd_reply}
use g7ctrl.DevCmd.Table.{Handler}
use g7ctrl.DevCmd.Prepare.{Handled, prepare_cmd_to_device}
use g7ctrl.DevCmd.Exec.{Executed, exec_get_command}

-- Where a command is given: the clients, the time, the queue, who gives it, `translateDeviceReply`, the memory of
-- local fields, and what the device's socket, the rounds of the wait, the ports and the serial port do.
pub record Place : Type 0 where
  pub clients : List Client
  pub now : ℕ
  pub queue : CmdQueue
  pub cli_info : Client
  pub translate : Bool
  pub stale : Bytes
  pub written : Bool
  pub glances : List Glance
  pub usb : Usb
  pub serial : Serial

abbrev pub raw_command : Place → Bytes → Bytes → Command
raw_command p cmd tagbuff = record {
  cli_info = p.cli_info;
  cmd = cmd;
  tagbuff = tagbuff;
  maxreply = 0;
  translate = p.translate;
  stale = p.stale;
}

unfoldable pub send_rawcmd : Place → Bytes → Bytes → Option Sent
send_rawcmd p cmd tagbuff =
    send_rawcmd_reply p.clients p.now p.queue (raw_command p cmd tagbuff) p.written p.glances p.usb
      p.serial

-- What comes of a command: a result without a device, a handler of its own, a name that is not known, a mode that
-- the command does not have, or a text that is sent.
pub data Outcome : Type 0 where
  returned : ℤ → Outcome
  own_handler : Handler → Outcome
  no_command : Outcome
  not_valid : Outcome
  sent : Option Sent → Outcome

-- The end of `prepare_cmd_to_device`, with the running number of the tags.
abbrev pub send_prepared : Place → Option (Bytes × Bytes) × ℕ → Outcome × ℕ
send_prepared p (none, tagnbr) = (not_valid, tagnbr)
send_prepared p (some (text, tag), tagnbr) = (sent (send_rawcmd p text tag), tagnbr)

-- What a template does.
unfoldable pub run_handled : Place → ℕ → ℕ → Handled → Outcome × ℕ
run_handled p tagnbr i (Handled.returns rc) = (returned rc, tagnbr)
run_handled p tagnbr i (Handled.prepares mode args) =
    send_prepared p (prepare_cmd_to_device tagnbr i mode args)

-- The command `get <name>`.
unfoldable pub run_get : Place → ℕ → Bytes → Outcome × ℕ
unfolding run_handled
run_get p tagnbr name = elim (exec_get_command name (pos 0, [])) [
  | Executed.handled i h ↦ run_handled p tagnbr i h
  | Executed.special i h ↦ (own_handler h, tagnbr)
  | Executed.unknown_command ↦ (no_command, tagnbr)
]
