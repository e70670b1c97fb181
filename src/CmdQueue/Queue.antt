-- ===== src/CmdQueue/Queue.antt =====
-- The queue's invariant, and which commands its operations find.
use g7ctrl.Common.{
  All, Bool-cases, Bytes, List, [], ap, arith, false, false≢true, get_or, inl, inr, leb, length,
  length-replicate, length-set, length-take, ltb, ltb-false→le, ltb→lt, none, refl, replicate, set,
  some, suc, sym, take-length, true, zero, ℕ, ◌+◌, ◌-◌, ◌<◌, ◌||◌, ◌∙◌, ◌∷◌, ◌≡◌, ◌⊎◌,
}
use g7ctrl.Xstr.Copy.{xstrlcpy, xstrlcpy_prefix}
use g7ctrl.CmdQueue.{
  Entry, CmdQueue, no_entry, max_cmdqueue_len, is_free, first_free, filled, cmdqueue_init,
  cmdqueue_insert, xstrlcpy,
}

-- The array has its full length, and every entry's texts fit their fields with the NUL.
-- A free entry is all zero: it holds no reply of an earlier command.
abbrev pub Sound : Entry → Type 0
Sound e =
    (length e.tag < 6)
    × (length e.cmd < 256)
    × (length e.reply < 1024)
    × ((is_free e ≡ false) ⊎ (e ≡ no_entry))

pub record IsValid (q : CmdQueue) : Type 0 where
  pub whole : length q.cmdq ≡ max_cmdqueue_len
  pub entries : All Sound q.cmdq
  pub counted : q.cmdq_len ≡ 0

first_free_lem :
    (es : List Entry) (i : ℕ)
    → ((j : ℕ) × (first_free es i ≡ some (i + j))
        × (j < length es)
        × (is_free (get_or es j no_entry) ≡ true))
      ⊎ ((first_free es i ≡ none) × All (λ e. is_free e ≡ false) es)
unfolding first_free
first_free_lem [] i = inr (refl, tt)
first_free_lem (e ∷ es) i = elim (Bool-cases (is_free e)) [
  | inl t ↦ inl (0, rw t (ap (λ k. some k) {x = i} {y = i + 0} (omega arith)), omega arith, t)
  | inr t ↦ elim (first_free_lem es (i + 1)) [
    | inl (j, f, lt, free) ↦ inl (
      suc j,
      rw t (f ∙ ap (λ k. some k) {x = i + 1 + j} {y = i + suc j} (omega arith)),
      omega arith,
      free,
    )
    | inr (f, all) ↦ inr (rw t f, (t, all))
  ]
]

free_lem :
    (es : List Entry)
    → ((j : ℕ) × (first_free es 0 ≡ some j)
        × (j < length es)
        × (is_free (get_or es j no_entry) ≡ true))
      ⊎ ((first_free es 0 ≡ none) × All (λ e. is_free e ≡ false) es)
free_lem es = elim (first_free_lem es 0) [
  | inl (j, f, lt, free) ↦ inl (j, f ∙ ap (λ k. some k) {x = 0 + j} {y = j} (omega arith), lt, free)
  | inr (f, all) ↦ inr (f, all)
]

All-set : (es : List Entry) (i : ℕ) (e : Entry) → All Sound es → Sound e → All Sound (set es i e)
All-set [] i e h p = tt
All-set (x ∷ es) zero e h p = (p, h.1)
All-set (x ∷ es) (suc i) e h p = (h.0, All-set es i e h.1 p)

pub All-get : (es : List Entry) (i : ℕ) → All Sound es → Sound (get_or es i no_entry)
All-get [] i h = (omega arith, omega arith, omega arith, inr refl)
All-get (x ∷ es) zero h = h.0
All-get (x ∷ es) (suc i) h = All-get es i h.1

All-replicate : (n : ℕ) → All Sound (replicate n no_entry)
All-replicate zero = tt
All-replicate (suc n) = ((omega arith, omega arith, omega arith, inr refl), All-replicate n)

pub init-IsValid : IsValid cmdqueue_init
unfolding cmdqueue_init
init-IsValid = record {
  whole = length-replicate max_cmdqueue_len no_entry;
  entries = All-replicate max_cmdqueue_len;
  counted = refl;
}

pub set-IsValid :
    (q : CmdQueue) (i : ℕ) (e : Entry)
    → IsValid q
    → Sound e
    → IsValid (record q { cmdq = set q.cmdq i e })
set-IsValid q i e v s = record {
  whole = length-set q.cmdq i e ∙ v.whole;
  entries = All-set q.cmdq i e v.entries s;
  counted = v.counted;
}

pub copy_fits : (s : Bytes) (n : ℕ) → 0 < n → length (xstrlcpy s n).0 < n
copy_fits s n h = rw (xstrlcpy_prefix s n h) (omega (arith, length-take (n - 1) s))

filled-Sound :
    (e : Entry) (now sock devid : ℕ) (tag cmd : Bytes)
    → Sound e
    → 0 < now
    → Sound (filled e now sock devid tag cmd)
filled-Sound e now sock devid tag cmd s h =
    (copy_fits tag 6 (omega arith), copy_fits cmd 256 (omega arith), s.2, inl (ground arith))

has_room : (q : CmdQueue) → IsValid q → leb max_cmdqueue_len q.cmdq_len ≡ false
has_room q v = rw v.counted

pub insert-IsValid :
    (now : ℕ) (q : CmdQueue) (sock devid : ℕ) (tag cmd : Bytes)
    → IsValid q
    → 0 < now
    → IsValid (cmdqueue_insert now q sock devid tag cmd).1
unfolding cmdqueue_insert
insert-IsValid now q sock devid tag cmd v h =
    rw (has_room q v) (elim (Bool-cases (ltb 5 (length tag) || ltb 255 (length cmd))) [
      | inl e ↦ rw e v
      | inr e ↦ rw e (elim (free_lem q.cmdq) [
        | inr (f, all) ↦ rw f v
        | inl (j, f, lt, free) ↦ rw f (
            set-IsValid q j (filled (get_or q.cmdq j no_entry) now sock devid tag cmd) v (
              filled-Sound (get_or q.cmdq j no_entry) now sock devid tag cmd
                (All-get q.cmdq j v.entries) h))
      ])
    ])

copy_whole : (s : Bytes) (n : ℕ) → length s < n → (xstrlcpy s n).0 ≡ s
copy_whole s n h =
    ap (λ r. r.0) (xstrlcpy_prefix s n (omega arith)) ∙ take-length (n - 1) s (omega arith)

free_entry : (e : Entry) → Sound e → is_free e ≡ true → e ≡ no_entry
free_entry e (t, c, r, inl busy) f = absurd (false≢true (sym busy ∙ f))
free_entry e (t, c, r, inr z) f = z

-- The entry of a new command.
abbrev pub queued : ℕ → ℕ → ℕ → Bytes → Bytes → Entry
queued now sock devid tag cmd = record {
  user_sockd = sock;
  devid = devid;
  ts = now;
  tag = tag;
  cmd = cmd;
  reply = [];
  validreply = false;
}

-- On a valid queue an insertion answers -1 and changes nothing, and then a text is too long or no
-- entry is free; or it takes a free entry, whose index it answers, and the entry then has the
-- time, the device, the socket, the whole tag and the whole command, and no reply.
pub cmdqueue_insert_outcome :
    (now : ℕ) (q : CmdQueue) (sock devid : ℕ) (tag cmd : Bytes)
    → IsValid q
    → ((cmdqueue_insert now q sock devid tag cmd ≡ (none, q))
        × ((5 < length tag) ⊎ (255 < length cmd) ⊎ All (λ e. is_free e ≡ false) q.cmdq))
      ⊎ ((i : ℕ) × (i < max_cmdqueue_len)
          × (get_or q.cmdq i no_entry ≡ no_entry)
          × (cmdqueue_insert now q sock devid tag cmd
              ≡ (some i, record q { cmdq = set q.cmdq i (queued now sock devid tag cmd) })))
unfolding cmdqueue_insert
cmdqueue_insert_outcome now q sock devid tag cmd v = elim (Bool-cases (ltb 5 (length tag))) [
  | inl t ↦ inl (rw (has_room q v, t) refl, inl (ltb→lt 5 (length tag) t))
  | inr t ↦ elim (Bool-cases (ltb 255 (length cmd))) [
    | inl c ↦ inl (rw (has_room q v, t, c) refl, inr (inl (ltb→lt 255 (length cmd) c)))
    | inr c ↦ elim (free_lem q.cmdq) [
      | inr (f, all) ↦ inl (rw (has_room q v, t, c, f) refl, inr (inr all))
      | inl (j, f, lt, free) ↦
          let z = free_entry (get_or q.cmdq j no_entry) (All-get q.cmdq j v.entries) free in
          inr (
            j,
            omega (arith, v.whole),
            z,
            rw
                (
                  has_room q v,
                  t,
                  c,
                  f,
                  z,
                  copy_whole tag 6 (omega (arith, ltb-false→le 5 (length tag) t)),
                  copy_whole cmd 256 (omega (arith, ltb-false→le 255 (length cmd) c)),
                )
                refl,
          )
    ]
  ]
]
