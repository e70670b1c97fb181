-- ===== src/CmdQueue.antt =====
-- The queue of commands sent to devices over GPRS, of src/g7sendcmd.c, and the reply's way into it,
-- of src/tracker.c. The array `cmdq` is a list of `max_cmdqueue_len` entries. An insertion and the
-- clearing of an entry hold `cmdqueue_mutex`. `cmdqueue_match`, the two writes of a reply to the entry
-- found, and the waiting loop hold no mutex, so that other threads may come in between: Steps takes them
-- apart, and Late follows a reply that comes too late.
pub mod Queue
pub mod Deliver
pub mod Steps
pub mod Wait
pub mod Late
use g7ctrl.Xstr.Copy.{xstrlcpy}
use g7ctrl.Xstr.Utf8.{xmb_strncpy}
use g7ctrl.Common.{
  Bool, Bytes, List, Option, Rc, [], failure, false, get_or, if◌then◌else◌, leb, length, ltb, none,
  not, replicate, set, some, str_eq, success, true, ℕ, ◌%◌, ◌&&◌, ◌+◌, ◌==◌, ◌^◌, ◌||◌, ◌∷◌,
}

abbrev pub max_cmdqueue_len : ℕ
max_cmdqueue_len = 128

abbrev pub cmdqueue_timeout : ℕ
cmdqueue_timeout = 30

-- `struct cmdqueue_t`
pub record Entry : Type 0 where
  pub user_sockd : ℕ
  pub devid : ℕ
  pub ts : ℕ
  pub tag : Bytes
  pub cmd : Bytes
  pub reply : Bytes
  pub validreply : Bool

-- All bytes zero: what `calloc` and `memset` give.
abbrev pub no_entry : Entry
no_entry = record {
  user_sockd = 0;
  devid = 0;
  ts = 0;
  tag = [];
  cmd = [];
  reply = [];
  validreply = false;
}

pub record CmdQueue : Type 0 where
  pub cmdq : List Entry
  pub cmdq_len : ℕ

unfoldable pub cmdqueue_init : CmdQueue
cmdqueue_init = record { cmdq = replicate max_cmdqueue_len no_entry; cmdq_len = 0 }

-- `0 == cmdq[i].devid && 0 == cmdq[i].ts`
abbrev pub is_free : Entry → Bool
is_free e = e.devid == 0 && e.ts == 0

-- The search loop from index `i` on.
pub first_free : List Entry → ℕ → Option ℕ
first_free [] i = none
first_free (e ∷ es) i = if is_free e then some i else first_free es (i + 1)

-- The fields that the insertion writes; `reply` and `validreply` stay as they are in the entry.
abbrev pub filled : Entry → ℕ → ℕ → ℕ → Bytes → Bytes → Entry
filled e now user_sockd devid tag cmdstr = record e {
  ts = now;
  devid = devid;
  user_sockd = user_sockd;
  tag = (xstrlcpy tag 6).0;
  cmd = (xstrlcpy cmdstr 256).0;
}

-- The answer is the index, or `none` for -1. `now` is `time(NULL)`.
unfoldable pub cmdqueue_insert : ℕ → CmdQueue → ℕ → ℕ → Bytes → Bytes → Option ℕ × CmdQueue
unfolding first_free
cmdqueue_insert now q user_sockd devid tag cmdstr =
    if leb max_cmdqueue_len q.cmdq_len
    then (none, q)
    else if ltb 5 (length tag) || ltb 255 (length cmdstr)
    then (none, q)
    else elim (first_free q.cmdq 0) [
      | none ↦ (none, q)
      | some i ↦ (
        some i,
        record q {
          cmdq = set q.cmdq i (filled (get_or q.cmdq i no_entry) now user_sockd devid tag cmdstr);
        },
      )
    ]

-- The test in the loop of `cmdqueue_match`: with an empty tag the device alone decides.
abbrev pub matches : ℕ → Bytes → Entry → Bool
matches devid tag e =
    not (e.devid == 0)
    && e.devid == devid
    && (elim tag [ [] ↦ true | c ∷ t ↦ str_eq (c ∷ t) e.tag ])

pub first_match : ℕ → Bytes → List Entry → ℕ → Option ℕ
first_match devid tag [] i = none
first_match devid tag (e ∷ es) i =
    if matches devid tag e then some i else first_match devid tag es (i + 1)

-- The index of the entry found stands for the pointer to it.
unfoldable pub cmdqueue_match : CmdQueue → ℕ → Bytes → Option ℕ
unfolding first_match
cmdqueue_match q devid tag = first_match devid tag q.cmdq 0

unfoldable pub cmdqueue_clridx : CmdQueue → ℕ → Rc × CmdQueue
cmdqueue_clridx q idx =
    if ltb idx max_cmdqueue_len
    then (success, record q { cmdq = set q.cmdq idx no_entry })
    else (failure, q)

-- `xmb_strncpy(entry->reply, buffer, sizeof (entry->reply) - 1)`, through the pointer to entry `i`.
unfoldable pub copy_reply : CmdQueue → ℕ → Bytes → CmdQueue
copy_reply q i buffer = record q {
  cmdq = set q.cmdq i (record (get_or q.cmdq i no_entry) { reply = xmb_strncpy buffer 1023 });
}

-- `entry->validreply = TRUE`
unfoldable pub mark_reply : CmdQueue → ℕ → CmdQueue
mark_reply q i = record q {
  cmdq = set q.cmdq i (record (get_or q.cmdq i no_entry) { validreply = true });
}

-- The last lines of `handleCmdReplyPackage`: what a parsed reply with this tag does to the queue when
-- no other thread changes it between the search and the last write.
unfoldable pub deliver_reply : CmdQueue → ℕ → Bytes → Bytes → Option ℕ × CmdQueue
unfolding cmdqueue_match copy_reply mark_reply
deliver_reply q devid tag buffer = elim (cmdqueue_match q devid tag) [
  | none ↦ (none, q)
  | some i ↦ (some i, mark_reply (copy_reply q i buffer) i)
]

-- `timeout = (time(NULL) - ts) > CMDQUEUE_TIMEOUT`, of two 64-bit times, the timestamp cut to an
-- unsigned int first.
abbrev pub timed_out : ℕ → ℕ → Bool
timed_out now ts = ltb (cmdqueue_timeout + ts % 2 ^ 32) now

-- A round of the waiting loop of `cmdqueue_check_reply`: the queue as the other threads have left it,
-- and the time then.
pub record Glance : Type 0 where
  pub queue : CmdQueue
  pub now : ℕ

-- The loop over the rounds. The inner answer is the reply, or `none` for -1, and the outer `none`
-- says that the rounds given end while the loop still waits.
pub wait_reply : List Glance → ℕ → ℕ → ℕ → Option (Option Bytes × CmdQueue)
unfolding cmdqueue_clridx
wait_reply [] ts idx maxreply = none
wait_reply (g ∷ gs) ts idx maxreply =
    let e = get_or g.queue.cmdq idx no_entry in
    let rest = wait_reply gs ts idx maxreply in
    if e.validreply
    then some (some (xmb_strncpy e.reply maxreply), (cmdqueue_clridx g.queue idx).1)
    else if timed_out g.now ts
    then some (none, (cmdqueue_clridx g.queue idx).1)
    else rest

unfoldable pub cmdqueue_check_reply :
    CmdQueue → ℕ → ℕ → List Glance → Option (Option Bytes × CmdQueue)
unfolding wait_reply
cmdqueue_check_reply q idx maxreply glances =
    if leb max_cmdqueue_len idx
    then some (none, q)
    else wait_reply glances (get_or q.cmdq idx no_entry).ts idx maxreply
