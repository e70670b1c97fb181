-- ===== src/Tracker.antt =====
-- `handleCmdReplyPackage` of src/tracker.c: a device's answer to a command that came over GPRS finds
-- its way to the thread that waits for it. `buffer` is the memory from the pointer on.
pub mod Waiting
pub mod Events
pub mod Delivered
use g7ctrl.Common.{
  Bytes, Option, Rc, [], codes, cstr, drop, failure, if◌then◌else◌, none, not, some, str_eq, suc,
  success, zero, ℕ, ◌&&◌, ◌==◌, ◌∷◌,
}
use g7ctrl.Common.Int.{ℤ, pos, negsuc}
use g7ctrl.Xstr.Number.{xatol, to_unsigned}
use g7ctrl.CmdQueue.{CmdQueue, cmdqueue_match, deliver_reply}
use g7ctrl.DeviceReply.{head, extract_devcmd_reply}

abbrev pub gfen_track_tag : Bytes
gfen_track_tag = codes "TR48"

-- `while (*ptr != ',' && idx < sizeof (devid_buff) - 1)`: what is copied, and where the loop stops.
pub read_devid : ℕ → Bytes → Bytes × Bytes
read_devid zero p = ([], p)
read_devid (suc room) p =
    let r = read_devid room (drop 1 p) in if head p == b',' then ([], p) else (head p ∷ r.0, r.1)

-- The tag that the queue is searched for: empty for a location, which has none. `none` is -1.
pub reply_tag : ℕ → Bytes → Option Bytes
unfolding read_devid
reply_tag cli_devid buffer =
    if not (head buffer == b'$') && head buffer == b'3'
    then (let r = read_devid 11 buffer in
        if not (head r.1 == b',')
        then none
        else if not (to_unsigned (xatol (cstr r.0)).0 == cli_devid)
        then none
        else some [])
    else elim (extract_devcmd_reply buffer) [ none ↦ none | some r ↦ some (cstr r.tag) ]

-- 0 or -1, and the queue afterwards, when no other thread changes it in between.
unfoldable pub handle_cmd_reply_package : ℕ → CmdQueue → Bytes → Rc × CmdQueue
unfolding reply_tag
handle_cmd_reply_package cli_devid q buffer = elim (reply_tag cli_devid buffer) [
  | none ↦ (failure, q)
  | some tag ↦ elim (cmdqueue_match q cli_devid tag) [
    | some _ ↦ (success, (deliver_reply q cli_devid tag (cstr buffer)).1)
    | none ↦ (if str_eq tag gfen_track_tag then success else failure, q)
  ]
]
