-- ===== src/Tests/Device.antt =====
-- Runs of the command queue, of the replies of devices and of the tags.
use g7ctrl.Common.{
  All, Bytes, List, Option, [], ap, arith, codes, false, get_or, length, none, refl, set, some,
  str_eq, subst, true, ℕ, ◌<◌, ◌∷◌, ◌≡◌,
}
use g7ctrl.Common.Int.{pos}
use g7ctrl.Xstr.Copy.{xstrlcpy}
use g7ctrl.Xstr.Split.RoundTrip.{Lacks, join}
use g7ctrl.CmdQueue.{
  CmdQueue, no_entry, cmdqueue_init, cmdqueue_insert, cmdqueue_match, cmdqueue_check_reply,
  cmdqueue_clridx, copy_reply, mark_reply,
}
use g7ctrl.CmdQueue.Queue.{IsValid, queued}
use g7ctrl.CmdQueue.Steps.{Step, Reachable, IsKept, NoReply, Reachable-IsKept}
use g7ctrl.CmdQueue.Wait.{check_reply_ends}
use g7ctrl.CmdQueue.Late.{late, late_reply_read}
use g7ctrl.Xstr.Utf8.{xmb_strncpy, xmb_inc}
use g7ctrl.DeviceReply.{extract_devcmd_reply, ends_cmd, ends_tag, prompted, handle_device_reply}
use g7ctrl.DeviceReply.Bounds.{Accepted, extract_devcmd_reply_bounds}
use g7ctrl.DeviceReply.Parse.{Word, extract_devcmd_reply-ok_reply}
use g7ctrl.DeviceReply.Answer.{handle_device_reply-ok_reply}

abbrev pub tag : Bytes
tag = codes "0007"

abbrev pub cmd : Bytes
cmd = codes "VLO"

abbrev pub flds : List Bytes
flds = codes "4.20V" ∷ codes "1" ∷ []

pub cmd_Word : Word ends_cmd cmd
cmd_Word = ((refl, omega arith), ((refl, omega arith), ((refl, omega arith), tt)))

pub tag_Word : Word ends_tag tag
tag_Word =
    ((refl, omega arith), ((refl, omega arith), ((refl, omega arith), ((refl, omega arith), tt))))

flds_fit : All (λ f. Lacks b',' f × (length f < 256)) flds
flds_fit = (
  (
    (
      (λ e. omega arith),
      ((λ e. omega arith), ((λ e. omega arith), ((λ e. omega arith), ((λ e. omega arith), tt)))),
    ),
    omega arith,
  ),
  ((((λ e. omega arith), tt), omega arith), tt),
)

flds_chars : All (λ c. 0 < c) (join b',' flds)
flds_chars = omega arith

parsed :
    extract_devcmd_reply (codes "$OK:VLO+0007=4.20V,1")
    ≡ some (record { isok = true; cmd = cmd; tag = tag; flds = flds })
parsed =
    extract_devcmd_reply-ok_reply cmd tag flds cmd_Word (omega arith) (omega arith) tag_Word
      (omega arith) flds_fit (omega arith) (omega arith) (omega arith) flds_chars

extract_devcmd_reply_bounds_example :
    Accepted (record { isok = true; cmd = cmd; tag = tag; flds = flds })
extract_devcmd_reply_bounds_example =
    extract_devcmd_reply_bounds (codes "$OK:VLO+0007=4.20V,1")
      (record { isok = true; cmd = cmd; tag = tag; flds = flds }) parsed

handle_device_reply-ok_reply_example :
    handle_device_reply false [] (codes "$OK:VLO+0007=4.20V,1") tag
    ≡ (pos 0, prompted (codes "4.20V,1") ∷ [])
handle_device_reply-ok_reply_example =
    handle_device_reply-ok_reply false [] cmd tag (codes "4.20V") (codes "1" ∷ []) cmd_Word
      (omega arith) (omega arith) tag_Word (omega arith) flds_fit (omega arith) (omega arith)
      (omega arith) flds_chars

abbrev pub sent : CmdQueue
sent = record cmdqueue_init { cmdq = set cmdqueue_init.cmdq 0 (queued 100 5 3000 tag cmd) }

pub none_waits : cmdqueue_match cmdqueue_init 3000 tag ≡ none
unfolding cmdqueue_match cmdqueue_init
none_waits = refl

pub insert_run : cmdqueue_insert 100 cmdqueue_init 5 3000 tag cmd ≡ (some 0, sent)
unfolding cmdqueue_insert cmdqueue_init xstrlcpy
insert_run = refl

inserted : Reachable (cmdqueue_insert 100 cmdqueue_init 5 3000 tag cmd).1
inserted = Reachable.after Reachable.start (Step.insert 100 5 3000 tag cmd (omega arith))

Reachable-IsKept_example :
    IsKept (cmdqueue_insert 100 cmdqueue_init 5 3000 tag cmd).1
    × (All NoReply (cmdqueue_insert 100 cmdqueue_init 5 3000 tag cmd).1.cmdq
        → IsValid (cmdqueue_insert 100 cmdqueue_init 5 3000 tag cmd).1)
Reachable-IsKept_example =
    Reachable-IsKept (cmdqueue_insert 100 cmdqueue_init 5 3000 tag cmd).1 inserted

-- The next command in the entry of `sent`, behind a late reply to the one before.
abbrev other : Bytes
other = codes "0008"

abbrev behind : CmdQueue
behind = record cmdqueue_init {
  cmdq =
      set cmdqueue_init.cmdq 0 (record (queued 200 9 4000 other cmd) {
        reply = codes "$OK:VLO+0007=1";
        validreply = true;
      });
}

sent_found : cmdqueue_match sent 3000 tag ≡ some 0
unfolding cmdqueue_match cmdqueue_init str_eq
sent_found = refl

behind_run :
    cmdqueue_insert 200 (late sent 0 (codes "$OK:VLO+0007=1")) 9 4000 other cmd ≡ (some 0, behind)
unfolding cmdqueue_insert cmdqueue_init cmdqueue_clridx copy_reply mark_reply xstrlcpy xmb_strncpy
    xmb_inc
behind_run = refl

late_reply_read_example :
    Reachable (late sent 0 (codes "$OK:VLO+0007=1"))
    × (¬ IsValid (late sent 0 (codes "$OK:VLO+0007=1")))
    × (cmdqueue_check_reply behind 0 64 (record { queue = behind; now = 200 } ∷ [])
        ≡ some (
          some (xmb_strncpy (xmb_strncpy (codes "$OK:VLO+0007=1") 1023) 64),
          (cmdqueue_clridx sent 0).1,
        ))
late_reply_read_example =
    late_reply_read sent 3000 tag (codes "$OK:VLO+0007=1") 0 200 9 4000 other cmd behind 64 200 []
      (subst Reachable (ap (λ (r : Option ℕ × CmdQueue). r.1) insert_run) inserted) sent_found
      behind_run

check_reply_ends_example :
    (a : Option Bytes × CmdQueue) × (cmdqueue_check_reply sent 0 64
        (record { queue = sent; now = 131 } ∷ [])
      ≡ some a)
    × (get_or a.1.cmdq 0 no_entry ≡ no_entry)
unfolding cmdqueue_init
check_reply_ends_example =
    check_reply_ends sent 0 64 [] (record { queue = sent; now = 131 }) (omega arith) (omega arith)
