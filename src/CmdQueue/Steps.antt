-- ===== src/CmdQueue/Steps.antt =====
-- The queue as the threads change it. What holds `cmdqueue_mutex` is one step: an insertion, and the
-- clearing of an entry. The search for the entry of a reply and the two writes to it hold no mutex, so
-- each of the writes is a step of its own, and the queue may have changed since the search. The copy of
-- a text is taken whole.
use g7ctrl.Common.{
  All, Bool-cases, Bytes, List, Option-cases, [], ap, arith, false, get_or, inl, inr, leb, length,
  length-replicate, length-set, ltb, refl, replicate, set, some, suc, true, zero, ℕ, ◌&&◌, ◌<◌,
  ◌==◌, ◌||◌, ◌∙◌, ◌∷◌, ◌≡◌, ◌⊎◌,
}
use g7ctrl.CmdQueue.{
  Entry, CmdQueue, no_entry, cmdqueue_init, cmdqueue_insert, cmdqueue_match, cmdqueue_clridx,
  copy_reply, mark_reply, is_free, filled, max_cmdqueue_len, first_free, xmb_strncpy,
}
use g7ctrl.Xstr.Utf8.{xmb_strncpy, xmb_strncpy_bounded}
use g7ctrl.CmdQueue.Queue.{IsValid, Sound, copy_fits}

-- A step of a command thread or of a device's thread. `seen` is what the search has read, not always
-- the queue at one moment.
pub data Step : CmdQueue → CmdQueue → Type 0 where
  insert :
      {q : CmdQueue} (now sock devid : ℕ) (tag cmd : Bytes)
      → 0 < now
      → Step q (cmdqueue_insert now q sock devid tag cmd).1
  copy :
      {q : CmdQueue} (seen : CmdQueue) (devid : ℕ) (tag buffer : Bytes) (i : ℕ)
      → cmdqueue_match seen devid tag ≡ some i
      → Step q (copy_reply q i buffer)
  mark :
      {q : CmdQueue} (seen : CmdQueue) (devid : ℕ) (tag : Bytes) (i : ℕ)
      → cmdqueue_match seen devid tag ≡ some i
      → Step q (mark_reply q i)
  clear : {q : CmdQueue} (idx : ℕ) → Step q (cmdqueue_clridx q idx).1

pub data Reachable : CmdQueue → Type 0 where
  start : Reachable cmdqueue_init
  after : {q r : CmdQueue} → Reachable q → Step q r → Reachable r

-- Every entry's texts fit their fields with the NUL, and a free entry has no command and no user.
abbrev pub Kept : Entry → Type 0
Kept e =
    (length e.tag < 6)
    × (length e.cmd < 256)
    × (length e.reply < 1024)
    × ((is_free e ≡ false) ⊎ ((e.user_sockd ≡ 0) × (e.tag ≡ []) × (e.cmd ≡ [])))

abbrev pub NoReply : Entry → Type 0
NoReply e = is_free e ≡ true → (e.reply ≡ []) × (e.validreply ≡ false)

pub record IsKept (q : CmdQueue) : Type 0 where
  pub whole : length q.cmdq ≡ max_cmdqueue_len
  pub entries : All Kept q.cmdq
  pub counted : q.cmdq_len ≡ 0

All-set : (es : List Entry) (i : ℕ) (e : Entry) → All Kept es → Kept e → All Kept (set es i e)
All-set [] i e h p = tt
All-set (x ∷ es) zero e h p = (p, h.1)
All-set (x ∷ es) (suc i) e h p = (h.0, All-set es i e h.1 p)

no_entry-Kept : Kept no_entry
no_entry-Kept = (omega arith, omega arith, omega arith, inr (refl, refl, refl))

All-get : (es : List Entry) (i : ℕ) → All Kept es → Kept (get_or es i no_entry)
All-get [] i h = no_entry-Kept
All-get (x ∷ es) zero h = h.0
All-get (x ∷ es) (suc i) h = All-get es i h.1

All-replicate : (n : ℕ) → All Kept (replicate n no_entry)
All-replicate zero = tt
All-replicate (suc n) = (no_entry-Kept, All-replicate n)

set-IsKept :
    (q : CmdQueue) (i : ℕ) (e : Entry)
    → IsKept q
    → Kept e
    → IsKept (record q { cmdq = set q.cmdq i e })
set-IsKept q i e v k = record {
  whole = length-set q.cmdq i e ∙ v.whole;
  entries = All-set q.cmdq i e v.entries k;
  counted = v.counted;
}

filled-Kept :
    (e : Entry) (now sock devid : ℕ) (tag cmd : Bytes)
    → Kept e
    → 0 < now
    → Kept (filled e now sock devid tag cmd)
filled-Kept e now sock devid tag cmd k h =
    (copy_fits tag 6 (omega arith), copy_fits cmd 256 (omega arith), k.2, inl (ground arith))

insert-IsKept :
    (now : ℕ) (q : CmdQueue) (sock devid : ℕ) (tag cmd : Bytes)
    → IsKept q
    → 0 < now
    → IsKept (cmdqueue_insert now q sock devid tag cmd).1
unfolding cmdqueue_insert
insert-IsKept now q sock devid tag cmd v h =
    let room : leb max_cmdqueue_len q.cmdq_len ≡ false = ap (leb max_cmdqueue_len) v.counted in
    rw room (elim (Bool-cases (ltb 5 (length tag) || ltb 255 (length cmd))) [
      | inl e ↦ rw e v
      | inr e ↦ rw e (elim (Option-cases (first_free q.cmdq 0)) [
        | inl f ↦ rw f v
        | inr (j, f) ↦ rw f (
            set-IsKept q j (filled (get_or q.cmdq j no_entry) now sock devid tag cmd) v (
              filled-Kept (get_or q.cmdq j no_entry) now sock devid tag cmd
                (All-get q.cmdq j v.entries) h))
      ])
    ])

clear-IsKept : (q : CmdQueue) (idx : ℕ) → IsKept q → IsKept (cmdqueue_clridx q idx).1
unfolding cmdqueue_clridx
clear-IsKept q idx v = elim (Bool-cases (ltb idx max_cmdqueue_len)) [
  | inl e ↦ rw e (set-IsKept q idx no_entry v no_entry-Kept)
  | inr e ↦ rw e v
]

copy-IsKept : (q : CmdQueue) (i : ℕ) (buffer : Bytes) → IsKept q → IsKept (copy_reply q i buffer)
unfolding copy_reply
copy-IsKept q i buffer v =
    let k = All-get q.cmdq i v.entries in
    set-IsKept q i (record (get_or q.cmdq i no_entry) { reply = xmb_strncpy buffer 1023 }) v
      (k.0, k.1, omega (arith, xmb_strncpy_bounded buffer 1023 (omega arith)), k.3)

mark-IsKept : (q : CmdQueue) (i : ℕ) → IsKept q → IsKept (mark_reply q i)
unfolding mark_reply
mark-IsKept q i v =
    set-IsKept q i (record (get_or q.cmdq i no_entry) { validreply = true }) v
      (All-get q.cmdq i v.entries)

step-IsKept : {q r : CmdQueue} → Step q r → IsKept q → IsKept r
step-IsKept {q = q} (insert now sock devid tag cmd h) v = insert-IsKept now q sock devid tag cmd v h
step-IsKept {q = q} (copy seen devid tag buffer i m) v = copy-IsKept q i buffer v
step-IsKept {q = q} (mark seen devid tag i m) v = mark-IsKept q i v
step-IsKept {q = q} (clear idx) v = clear-IsKept q idx v

init-IsKept : IsKept cmdqueue_init
unfolding cmdqueue_init
init-IsKept = record {
  whole = length-replicate max_cmdqueue_len no_entry;
  entries = All-replicate max_cmdqueue_len;
  counted = refl;
}

reachable-IsKept : (q : CmdQueue) → Reachable q → IsKept q
reachable-IsKept q start = init-IsKept
reachable-IsKept q (after r s) = step-IsKept s (reachable-IsKept _ r)

both_zero : (a b : ℕ) → (a == 0 && b == 0) ≡ true → (a ≡ 0) × (b ≡ 0)
both_zero a b h = ground arith

empty_entry :
    (e : Entry)
    → is_free e ≡ true
    → (e.user_sockd ≡ 0) × (e.tag ≡ []) × (e.cmd ≡ [])
    → (e.reply ≡ []) × (e.validreply ≡ false)
    → e ≡ no_entry
empty_entry e f (u, t, c) (r, b) = let (d, z) = both_zero e.devid e.ts f in cc

entry-Sound : (e : Entry) → Kept e → NoReply e → Sound e
entry-Sound e (t, c, r, inl busy) n = (t, c, r, inl busy)
entry-Sound e (t, c, r, inr p) n = elim (Bool-cases (is_free e)) [
  | inl f ↦ (t, c, r, inr (empty_entry e f p (n f)))
  | inr f ↦ (t, c, r, inl f)
]

All-Sound : (es : List Entry) → All Kept es → All NoReply es → All Sound es
All-Sound [] k n = tt
All-Sound (e ∷ es) k n = (entry-Sound e k.0 n.0, All-Sound es k.1 n.1)

-- Whatever insertions, removals and writes of replies the threads make after the start, in whatever
-- order, with a clock that does not read 0, the queue keeps its 128 entries, all texts fit their
-- fields, a free entry has no user, no tag and no command, and `cmdq_len` is still 0. If moreover no
-- free entry holds a reply or the mark of one, the queue is valid.
pub Reachable-IsKept : (q : CmdQueue) → Reachable q → IsKept q × (All NoReply q.cmdq → IsValid q)
Reachable-IsKept q r =
    let v = reachable-IsKept q r in
    (
      v,
      λ n. record { whole = v.whole; entries = All-Sound q.cmdq v.entries n; counted = v.counted },
    )
