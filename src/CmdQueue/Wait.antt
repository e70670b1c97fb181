-- ===== src/CmdQueue/Wait.antt =====
-- The end of the wait for a reply, of `cmdqueue_check_reply` in src/g7sendcmd.c.
use g7ctrl.CmdQueue.{
  Entry, no_entry, max_cmdqueue_len, cmdqueue_clridx, Glance, wait_reply, CmdQueue, timed_out,
  cmdqueue_check_reply,
}
use g7ctrl.CmdQueue.Deliver.{inside}
use g7ctrl.Common.{
  Bool-cases, Bytes, List, Option, [], get_or, inl, inr, lt→ltb, refl, set, some, suc, true, zero,
  ℕ, ◌%◌, ◌++◌, ◌+◌, ◌<◌, ◌^◌, ◌∷◌, ◌≡◌,
}
use g7ctrl.Common.{
  Bool-cases, Bytes, List, Option, [], get_or, inl, inr, lt→ltb, refl, set, some, suc, true, zero,
  ℕ, ◌%◌, ◌++◌, ◌+◌, ◌<◌, ◌^◌, ◌∷◌, ◌≡◌,
}

get_cleared : (es : List Entry) (i : ℕ) → get_or (set es i no_entry) i no_entry ≡ no_entry
get_cleared [] i = refl
get_cleared (e ∷ es) zero = refl
get_cleared (e ∷ es) (suc i) = get_cleared es i

cleared :
    (g : Glance) (idx : ℕ)
    → idx < max_cmdqueue_len
    → get_or (cmdqueue_clridx g.queue idx).1.cmdq idx no_entry ≡ no_entry
unfolding cmdqueue_clridx
cleared g idx lt = rw (lt→ltb idx max_cmdqueue_len lt) (get_cleared g.queue.cmdq idx)

wait_ends :
    (gs : List Glance) (g : Glance) (ts idx maxreply : ℕ)
    → idx < max_cmdqueue_len
    → timed_out g.now ts ≡ true
    → (a : Option Bytes × CmdQueue) × (wait_reply (gs ++ g ∷ []) ts idx maxreply ≡ some a)
      × (get_or a.1.cmdq idx no_entry ≡ no_entry)
unfolding wait_reply
wait_ends [] g ts idx maxreply lt late =
    elim (Bool-cases (get_or g.queue.cmdq idx no_entry).validreply) [
      | inl e ↦ rw e (_, refl, cleared g idx lt)
      | inr e ↦ rw (e, late) (_, refl, cleared g idx lt)
    ]
wait_ends (x ∷ gs) g ts idx maxreply lt late =
    elim (Bool-cases (get_or x.queue.cmdq idx no_entry).validreply) [
      | inl e ↦ rw e (_, refl, cleared x idx lt)
      | inr e ↦ rw e (elim (Bool-cases (timed_out x.now ts)) [
        | inl t ↦ rw t (_, refl, cleared x idx lt)
        | inr t ↦ rw t (wait_ends gs g ts idx maxreply lt late)
      ])
    ]

-- The wait for a reply ends: at the latest in a round whose time is more than 30 seconds after the
-- entry's timestamp, taken modulo 2 ^ 32, it has an answer, and the entry is then free.
pub check_reply_ends :
    (q : CmdQueue) (idx maxreply : ℕ) (gs : List Glance) (g : Glance)
    → idx < max_cmdqueue_len
    → 30 + (get_or q.cmdq idx no_entry).ts % 2 ^ 32 < g.now
    → (a : Option Bytes × CmdQueue) × (cmdqueue_check_reply q idx maxreply (gs ++ g ∷ []) ≡ some a)
      × (get_or a.1.cmdq idx no_entry ≡ no_entry)
unfolding cmdqueue_check_reply
check_reply_ends q idx maxreply gs g lt late =
    let ts = (get_or q.cmdq idx no_entry).ts in
    rw (inside idx lt) (wait_ends gs g ts idx maxreply lt (lt→ltb (30 + ts % 2 ^ 32) g.now late))
