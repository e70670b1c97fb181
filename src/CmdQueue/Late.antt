-- ===== src/CmdQueue/Late.antt =====
-- A reply that comes while its command is given up, of src/tracker.c and src/g7sendcmd.c: the device's
-- thread has found the entry, the waiting thread clears it, and the device's thread writes to it.
use g7ctrl.Common.{
  Bool-cases, Bytes, List, Option, Option-cases, [], ap, arith, false≢true, get_or, get_or-set_self,
  inl, inr, leb, length, length-set, ltb, lt→ltb, refl, set, some, subst, sym, ℕ, ◌+◌, ◌<◌, ◌||◌,
  ◌∙◌, ◌∷◌, ◌≡◌,
}
use g7ctrl.CmdQueue.{
  Entry, CmdQueue, Glance, no_entry, max_cmdqueue_len, cmdqueue_insert, cmdqueue_match,
  cmdqueue_clridx, copy_reply, mark_reply, cmdqueue_check_reply, filled, first_free, first_match,
  matches, xmb_strncpy,
}
use g7ctrl.CmdQueue.Queue.{IsValid, Sound, All-get}
use g7ctrl.CmdQueue.Steps.{Reachable, Reachable-IsKept, Step}
use g7ctrl.CmdQueue.Deliver.{replied, mark_reply-copy_reply, set-set, checked}

first_match_lt :
    (devid : ℕ) (tag : Bytes) (es : List Entry) (k i : ℕ)
    → first_match devid tag es k ≡ some i
    → i < k + length es
unfolding first_match
first_match_lt devid tag [] k i h = cc
first_match_lt devid tag (e ∷ es) k i h = elim (Bool-cases (matches devid tag e)) [
  | inl t ↦ let z = rw t at h in let same : k ≡ i = cc in omega arith
  | inr t ↦ omega (arith, first_match_lt devid tag es (k + 1) i (rw t at h))
]

match_lt :
    (q : CmdQueue) (devid : ℕ) (tag : Bytes) (i : ℕ)
    → cmdqueue_match q devid tag ≡ some i
    → i < length q.cmdq
unfolding cmdqueue_match
match_lt q devid tag i m = omega (arith, first_match_lt devid tag q.cmdq 0 i m)

-- An insertion that succeeds fills the entry whose index it answers.
insert_fills :
    (now : ℕ) (q : CmdQueue) (sock devid : ℕ) (tag cmd : Bytes) (i : ℕ) (r : CmdQueue)
    → cmdqueue_insert now q sock devid tag cmd ≡ (some i, r)
    → r
      ≡ record q { cmdq = set q.cmdq i (filled (get_or q.cmdq i no_entry) now sock devid tag cmd) }
unfolding cmdqueue_insert
insert_fills now q sock devid tag cmd i r e = elim (Bool-cases (leb max_cmdqueue_len q.cmdq_len)) [
  | inl t ↦ let z = rw t at e in cc
  | inr t ↦ elim (Bool-cases (ltb 5 (length tag) || ltb 255 (length cmd))) [
    | inl b ↦ let z = rw (t, b) at e in cc
    | inr b ↦ elim (Option-cases (first_free q.cmdq 0)) [
      | inl f ↦ let z = rw (t, b, f) at e in cc
      | inr (j, f) ↦
          let z = rw (t, b, f) at e in
          let same : j ≡ i = cc in
          ap (λ (a : Option ℕ × CmdQueue). a.1) (sym z)
          ∙ ap
              (λ k. record q {
                cmdq = set q.cmdq k (filled (get_or q.cmdq k no_entry) now sock devid tag cmd);
              })
              same
    ]
  ]
]

-- What the device's thread leaves behind the clearing of the entry that it had found.
abbrev pub late : CmdQueue → ℕ → Bytes → CmdQueue
late q i buffer = mark_reply (copy_reply (cmdqueue_clridx q i).1 i buffer) i

late_lem :
    (q : CmdQueue) (i : ℕ) (buffer : Bytes)
    → i < length q.cmdq
    → length q.cmdq ≡ max_cmdqueue_len
    → late q i buffer ≡ record q { cmdq = set q.cmdq i (replied no_entry buffer) }
unfolding cmdqueue_clridx
late_lem q i buffer lt whole =
    let cleared : CmdQueue = record q { cmdq = set q.cmdq i no_entry } in
    rw (lt→ltb i max_cmdqueue_len (omega (arith, whole)), cmdqueue_clridx)
      (mark_reply-copy_reply cleared i buffer
        ∙ ap (λ e. record q { cmdq = set (set q.cmdq i no_entry) i (replied e buffer) })
            (get_or-set_self q.cmdq i no_entry no_entry lt)
        ∙ ap (λ (l : List Entry). record q { cmdq = l })
            (set-set q.cmdq i no_entry (replied no_entry buffer)))

late-invalid :
    (q : CmdQueue) (i : ℕ) (buffer : Bytes)
    → i < length q.cmdq
    → ¬ IsValid (record q { cmdq = set q.cmdq i (replied no_entry buffer) })
late-invalid q i buffer lt v =
    let at = get_or-set_self q.cmdq i (replied no_entry buffer) no_entry lt in
    not_sound (subst Sound at (All-get (set q.cmdq i (replied no_entry buffer)) i v.entries))
  where
    not_sound : ¬ Sound (replied no_entry buffer)
    not_sound (t, c, r, inl busy) = false≢true (sym busy)
    not_sound (t, c, r, inr z) = false≢true (sym (ap (λ (e : Entry). e.validreply) z))

late-reads :
    (q : CmdQueue) (i : ℕ) (buffer : Bytes) (now sock devid : ℕ) (tag cmd : Bytes) (maxreply : ℕ)
    (later : ℕ) (glances : List Glance)
    → i < length q.cmdq
    → i < max_cmdqueue_len
    → (let e = filled (replied no_entry buffer) now sock devid tag cmd in
        let r = record q { cmdq = set (set q.cmdq i (replied no_entry buffer)) i e } in
        cmdqueue_check_reply r i maxreply (record { queue = r; now = later } ∷ glances)
        ≡ some (some (xmb_strncpy (xmb_strncpy buffer 1023) maxreply), (cmdqueue_clridx q i).1))
unfolding cmdqueue_clridx
late-reads q i buffer now sock devid tag cmd maxreply later glances lt inside =
    let e = filled (replied no_entry buffer) now sock devid tag cmd in
    let es = set q.cmdq i (replied no_entry buffer) in
    let r : CmdQueue = record q { cmdq = set es i e } in
    rw (lt→ltb i max_cmdqueue_len inside) (
      checked r r i maxreply later glances e inside
        (get_or-set_self es i e no_entry
          (omega (arith, length-set q.cmdq i (replied no_entry buffer))))
        refl
      ∙ ap
          (λ l. some (some (xmb_strncpy (xmb_strncpy buffer 1023) maxreply), record q { cmdq = l }))
          (set-set es i e no_entry ∙ set-set q.cmdq i (replied no_entry buffer) no_entry))

-- In a queue that the threads can reach, a device's thread finds entry `i` for a reply. The waiting
-- thread gives up and clears the entry, and then the device's thread writes the reply to it. The
-- threads can reach the queue after that, too, and it is not valid. If the next command, of whatever
-- user and to whatever device, is inserted in the entry, its wait, when it first looks at the queue as
-- the insertion left it, ends there with the reply to the other command, and clears the entry.
pub late_reply_read :
    (q : CmdQueue) (devid : ℕ) (tag buffer : Bytes) (i now sock devid' : ℕ) (tag' cmd : Bytes)
    (r : CmdQueue) (maxreply later : ℕ) (glances : List Glance)
    → Reachable q
    → cmdqueue_match q devid tag ≡ some i
    → cmdqueue_insert now (late q i buffer) sock devid' tag' cmd ≡ (some i, r)
    → Reachable (late q i buffer)
      × (¬ IsValid (late q i buffer))
      × (cmdqueue_check_reply r i maxreply (record { queue = r; now = later } ∷ glances)
          ≡ some (some (xmb_strncpy (xmb_strncpy buffer 1023) maxreply), (cmdqueue_clridx q i).1))
late_reply_read q devid tag buffer i now sock devid' tag' cmd r maxreply later glances reach m e =
    let k = (Reachable-IsKept q reach).0 in
    let lt = match_lt q devid tag i m in
    let is = late_lem q i buffer lt k.whole in
    let at = get_or-set_self q.cmdq i (replied no_entry buffer) no_entry lt in
    let filled_in =
      insert_fills now (late q i buffer) sock devid' tag' cmd i r e
      ∙ ap
          (λ (w : CmdQueue). record w {
            cmdq = set w.cmdq i (filled (get_or w.cmdq i no_entry) now sock devid' tag' cmd);
          })
          is
      ∙ ap
          (λ d. record q {
            cmdq =
                set (set q.cmdq i (replied no_entry buffer)) i (filled d now sock devid' tag' cmd);
          })
          at in
    (
      Reachable.after
          (Reachable.after (Reachable.after reach (Step.clear i))
            (Step.copy q devid tag buffer i m))
          (Step.mark q devid tag i m),
      subst (λ w. ¬ IsValid w) (sym is) (late-invalid q i buffer lt),
      subst
          (λ w.
            cmdqueue_check_reply w i maxreply (record { queue = w; now = later } ∷ glances)
            ≡ some (some (xmb_strncpy (xmb_strncpy buffer 1023) maxreply), (cmdqueue_clridx q i).1))
          (sym filled_in)
          (late-reads q i buffer now sock devid' tag' cmd maxreply later glances lt
            (omega (arith, k.whole))),
    )
