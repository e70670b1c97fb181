-- ===== src/SendCmd/Refused.antt =====
-- Commands over GPRS that fail, and what they leave behind.
use g7ctrl.Common.{List, [], false, none, refl, some, true, ℕ, ◌<◌, ◌∷◌, ◌≡◌}
use g7ctrl.Common.Int.{negsuc}
use g7ctrl.Clients.{Client}
use g7ctrl.CmdQueue.{CmdQueue, Glance, cmdqueue_insert, cmdqueue_match}
use g7ctrl.CmdQueue.Queue.{IsValid}
use g7ctrl.CmdQueue.Deliver.{match-insert}
use g7ctrl.SendCmd.{
  Sent, Command, refused, cmdbuff, write_failed, still_connected, send_rawcmd_reply_over_gprs,
}

-- A command whose text the socket does not take fails, but its entry stays in the queue: the queue
-- that the call leaves is the one of the insertion, and a search in it for the device and the tag
-- finds the entry. The queue is valid, the device's id is not 0, its connection is still there, and
-- no entry with that device and tag was in the queue before.
pub failed_write_stays :
    (clients : List Client) (now : ℕ) (q : CmdQueue) (c : Command) (i : ℕ) (q1 : CmdQueue)
    (glances : List Glance)
    → IsValid q
    → 0 < c.cli_info.target_deviceid
    → still_connected clients c.cli_info ≡ true
    → cmdqueue_match q c.cli_info.target_deviceid c.tagbuff ≡ none
    → cmdqueue_insert now q c.cli_info.cli_socket c.cli_info.target_deviceid c.tagbuff c.cmd
      ≡ (some i, q1)
    → (s : Sent) × (send_rawcmd_reply_over_gprs clients now q c false glances ≡ some s)
      × (s.result ≡ negsuc 0)
      × (s.queue ≡ q1)
      × (cmdqueue_match s.queue c.cli_info.target_deviceid c.tagbuff ≡ some i)
unfolding send_rawcmd_reply_over_gprs
failed_write_stays clients now q c i q1 glances v d found none_yet e = (
  refused c.cli_info q1 (cmdbuff c.cmd) (write_failed ∷ []),
  rw (found, e) refl,
  refl,
  refl,
  match-insert now q c.cli_info.cli_socket c.cli_info.target_deviceid c.tagbuff c.cmd i q1 v d
      none_yet e,
)
