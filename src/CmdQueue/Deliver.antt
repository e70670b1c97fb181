-- ===== src/CmdQueue/Deliver.antt =====
-- From an insertion over a delivery to the reply that the waiting thread gets.
use g7ctrl.Common.{
  Bool-cases, Bytes, List, [], ap, arith, false, get_or, get_or-set_self, inl, inr, leb, length,
  length-set, lt→ltb, none, refl, set, some, str_eq_refl, suc, sym, true, zero, ℕ, ◌+◌, ◌<◌, ◌∙◌,
  ◌∷◌, ◌≡◌,
}
use g7ctrl.Xstr.Utf8.{xmb_strncpy}
use g7ctrl.CmdQueue.{
  Entry, CmdQueue, no_entry, max_cmdqueue_len, cmdqueue_insert, matches, first_match,
  cmdqueue_match, cmdqueue_clridx, deliver_reply, cmdqueue_check_reply, Glance, mark_reply,
  copy_reply,
}
use g7ctrl.CmdQueue.Queue.{IsValid, queued, cmdqueue_insert_outcome}

pub set-set : (es : List Entry) (i : ℕ) (d e : Entry) → set (set es i d) i e ≡ set es i e
set-set [] i d e = refl
set-set (x ∷ es) zero d e = refl
set-set (x ∷ es) (suc i) d e = ap (λ l. x ∷ l) (set-set es i d e)

set_get : (es : List Entry) (i : ℕ) (d : Entry) → set es i (get_or es i d) ≡ es
set_get [] i d = refl
set_get (x ∷ es) zero d = refl
set_get (x ∷ es) (suc i) d = ap (λ l. x ∷ l) (set_get es i d)

abbrev pub replied : Entry → Bytes → Entry
replied d buffer = record d { reply = xmb_strncpy buffer 1023; validreply = true }

set_twice :
    (es : List Entry) (i : ℕ) (buffer : Bytes)
    → (let once = set es i (record (get_or es i no_entry) { reply = xmb_strncpy buffer 1023 }) in
        set once i (record (get_or once i no_entry) { validreply = true })
        ≡ set es i (replied (get_or es i no_entry) buffer))
set_twice [] i buffer = refl
set_twice (e ∷ es) zero buffer = refl
set_twice (e ∷ es) (suc i) buffer = ap (λ l. e ∷ l) (set_twice es i buffer)

-- The two writes of a reply, with nothing between them.
pub mark_reply-copy_reply :
    (q : CmdQueue) (i : ℕ) (buffer : Bytes)
    → mark_reply (copy_reply q i buffer) i
      ≡ record q { cmdq = set q.cmdq i (replied (get_or q.cmdq i no_entry) buffer) }
unfolding mark_reply copy_reply
mark_reply-copy_reply q i buffer =
    ap (λ (l : List Entry). record q { cmdq = l }) (set_twice q.cmdq i buffer)

-- A new entry is found if no other one matches.
match-set :
    (devid : ℕ) (tag : Bytes) (es : List Entry) (i k : ℕ) (e : Entry)
    → first_match devid tag es k ≡ none
    → i < length es
    → matches devid tag e ≡ true
    → first_match devid tag (set es i e) k ≡ some (k + i)
unfolding first_match
match-set devid tag [] i k e h lt m = absurd (omega arith)
match-set devid tag (x ∷ es) zero k e h lt m =
    rw m (ap (λ j. some j) {x = k} {y = k + 0} (omega arith))
match-set devid tag (x ∷ es) (suc i) k e h lt m = elim (Bool-cases (matches devid tag x)) [
  | inl t ↦ let z = rw t at h in cc
  | inr t ↦ rw t (
      match-set devid tag es i (k + 1) e (rw t at h) (omega arith) m
      ∙ ap (λ j. some j) {x = k + 1 + i} {y = k + suc i} (omega arith))
]

matches-queued :
    (now sock devid : ℕ) (tag cmd : Bytes)
    → 0 < devid
    → matches devid tag (queued now sock devid tag cmd) ≡ true
matches-queued now sock devid [] cmd h = ground arith
matches-queued now sock devid (c ∷ t) cmd h = ground (arith, str_eq_refl (c ∷ t))

delivered :
    (q : CmdQueue) (devid : ℕ) (tag buffer : Bytes) (i : ℕ) (d : Entry)
    → cmdqueue_match q devid tag ≡ some i
    → get_or q.cmdq i no_entry ≡ d
    → deliver_reply q devid tag buffer
      ≡ (some i, record q { cmdq = set q.cmdq i (replied d buffer) })
unfolding deliver_reply
delivered q devid tag buffer i d m g =
    rw (m, deliver_reply)
      (ap (λ r. (some i, r)) (mark_reply-copy_reply q i buffer)
        ∙ ap (λ e. (some i, record q { cmdq = set q.cmdq i (replied e buffer) })) g)

pub inside : (i : ℕ) → i < max_cmdqueue_len → leb max_cmdqueue_len i ≡ false
inside i h = ground arith

pub checked :
    (q1 q2 : CmdQueue) (i maxreply now : ℕ) (gs : List Glance) (d : Entry)
    → i < max_cmdqueue_len
    → get_or q2.cmdq i no_entry ≡ d
    → d.validreply ≡ true
    → cmdqueue_check_reply q1 i maxreply (record { queue = q2; now = now } ∷ gs)
      ≡ some (some (xmb_strncpy d.reply maxreply), record q2 { cmdq = set q2.cmdq i no_entry })
unfolding cmdqueue_check_reply cmdqueue_clridx
checked q1 q2 i maxreply now gs d lt g h = rw (inside i lt, g, h, lt→ltb i max_cmdqueue_len lt) refl

answered :
    (now : ℕ) (q : CmdQueue) (sock devid : ℕ) (tag cmd : Bytes) (j : ℕ) (buffer : Bytes)
    (maxreply : ℕ) (later : ℕ) (gs : List Glance)
    → IsValid q
    → 0 < devid
    → cmdqueue_match q devid tag ≡ none
    → j < max_cmdqueue_len
    → get_or q.cmdq j no_entry ≡ no_entry
    → (let q1 = record q { cmdq = set q.cmdq j (queued now sock devid tag cmd) } in
        cmdqueue_check_reply q1 j maxreply
          (record { queue = (deliver_reply q1 devid tag buffer).1; now = later } ∷ gs)
        ≡ some (some (xmb_strncpy (xmb_strncpy buffer 1023) maxreply), q))
unfolding cmdqueue_match
answered now q sock devid tag cmd j buffer maxreply later gs v d no_match lt free =
    let c = queued now sock devid tag cmd in
    let q1 = record q { cmdq = set q.cmdq j c } in
    let room : j < length q.cmdq = omega (arith, v.whole) in
    let m : cmdqueue_match q1 devid tag ≡ some j =
      match-set devid tag q.cmdq j 0 c no_match room (matches-queued now sock devid tag cmd d)
      ∙ ap (λ k. some k) {x = 0 + j} {y = j} (omega arith) in
    let r = delivered q1 devid tag buffer j c m (get_or-set_self q.cmdq j c no_entry room) in
    let q2 = record q { cmdq = set (set q.cmdq j c) j (replied c buffer) } in
    rw r (
      checked q1 q2 j maxreply later gs (replied c buffer) lt
        (get_or-set_self (set q.cmdq j c) j (replied c buffer) no_entry
          (omega (arith, length-set q.cmdq j c)))
        refl
      ∙ ap
          (λ l. some (some (xmb_strncpy (xmb_strncpy buffer 1023) maxreply), record q { cmdq = l }))
          (set-set (set q.cmdq j c) j (replied c buffer) no_entry
            ∙ set-set q.cmdq j c no_entry
            ∙ ap (set q.cmdq j) (sym free)
            ∙ set_get q.cmdq j no_entry))

-- A command is inserted, its device replies with its tag, and the reply is waited for: the caller gets
-- the reply, cut to the two buffers at a character, and the queue is as it was before the insertion.
-- No other entry may match the device and the tag.
pub check_reply-deliver-insert :
    (now : ℕ) (q : CmdQueue) (sock devid : ℕ) (tag cmd : Bytes) (i : ℕ) (q1 : CmdQueue)
    (buffer : Bytes) (maxreply : ℕ) (later : ℕ) (glances : List Glance)
    → IsValid q
    → 0 < devid
    → cmdqueue_match q devid tag ≡ none
    → cmdqueue_insert now q sock devid tag cmd ≡ (some i, q1)
    → cmdqueue_check_reply q1 i maxreply
        (record { queue = (deliver_reply q1 devid tag buffer).1; now = later } ∷ glances)
      ≡ some (some (xmb_strncpy (xmb_strncpy buffer 1023) maxreply), q)
check_reply-deliver-insert now q sock devid tag cmd i q1 buffer maxreply later glances v d no_match
      e =
    elim (cmdqueue_insert_outcome now q sock devid tag cmd v) [
      | inl (none_e, why) ↦ let z = sym none_e ∙ e in cc
      | inr (j, lt, free, some_e) ↦
          let same = sym some_e ∙ e in
          let i≡j : i ≡ j = cc in
          let q1≡ : q1 ≡ record q { cmdq = set q.cmdq j (queued now sock devid tag cmd) } = cc in
          rw (i≡j, q1≡)
            (answered now q sock devid tag cmd j buffer maxreply later glances v d no_match lt free)
    ]

-- The entry of a new command is the one found, if none was found before.
pub match-insert :
    (now : ℕ) (q : CmdQueue) (sock devid : ℕ) (tag cmd : Bytes) (i : ℕ) (q1 : CmdQueue)
    → IsValid q
    → 0 < devid
    → cmdqueue_match q devid tag ≡ none
    → cmdqueue_insert now q sock devid tag cmd ≡ (some i, q1)
    → cmdqueue_match q1 devid tag ≡ some i
unfolding cmdqueue_match
match-insert now q sock devid tag cmd i q1 v d no_match e =
    elim (cmdqueue_insert_outcome now q sock devid tag cmd v) [
      | inl (none_e, why) ↦ let z = sym none_e ∙ e in cc
      | inr (j, lt, free, some_e) ↦
          let same = sym some_e ∙ e in
          let i≡j : i ≡ j = cc in
          let q1≡ : q1 ≡ record q { cmdq = set q.cmdq j (queued now sock devid tag cmd) } = cc in
          rw (i≡j, q1≡)
            (match-set devid tag q.cmdq j 0 (queued now sock devid tag cmd) no_match
                (omega (arith, v.whole)) (matches-queued now sock devid tag cmd d)
              ∙ ap (λ k. some k) {x = 0 + j} {y = j} (omega arith))
    ]
