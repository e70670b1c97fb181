-- ===== src/Usb/Ports.antt =====
-- The invariant of the ports, of src/connwatcher.c, for calls of which each ends before the next begins.
-- The file has no mutex, so that calls that overlap may break it.
use g7ctrl.Common.{
  Bool, Bool-cases, Bytes, List, Option, Option-cases, [], arith, false, get_or, if◌then◌else◌, inl,
  inr, length, length-set, refl, set, suc, sym, true, zero, ℕ, ◌+◌, ◌-◌, ◌<◌, ◌∙◌, ◌∷◌, ◌≡◌,
}
use g7ctrl.Usb.{
  Port, Usb, no_port, port, init_usb_status, max_usb_connections, with_port, update_usb_stat,
  attach, first_answer, establish,
}

abbrev pub connected_count : List Port → ℕ
connected_count [] = 0
connected_count (p ∷ ps) = (if p.is_connected then 1 else 0) + connected_count ps

pub record IsValid (u : Usb) : Type 0 where
  pub whole : length u.usb_conn_status ≡ max_usb_connections
  pub counted : u.num_usb_connections ≡ connected_count u.usb_conn_status

-- A whole call of the watcher or of a thread that it has started, with no other call at the same time.
pub data Step : Usb → Usb → Type 0 where
  plug : {u : Usb} (idx : ℕ) → Step u (attach u idx)
  ready :
      {u : Usb} (now idx : ℕ) (answers : List (Option ℕ))
      → idx < max_usb_connections
      → Step u (establish now u idx answers)
  unplug :
      {u : Usb} (now idx : ℕ) → idx < max_usb_connections → Step u (update_usb_stat now u idx false)

pub data Reachable (name : ℕ → Bytes) (startidx : ℕ) : Usb → Type 0 where
  start : Reachable name startidx (init_usb_status name startidx)
  after : {u w : Usb} → Reachable name startidx u → Step u w → Reachable name startidx w

count_more :
    (ps : List Port) (i : ℕ) (p : Port)
    → i < length ps
    → (get_or ps i no_port).is_connected ≡ false
    → p.is_connected ≡ true
    → connected_count (set ps i p) ≡ connected_count ps + 1
count_more [] i p h f t = absurd (omega arith)
count_more (x ∷ ps) zero p h f t = rw (f, t) (omega arith)
count_more (x ∷ ps) (suc i) p h f t = omega (arith, count_more ps i p (omega arith) f t)

count_less :
    (ps : List Port) (i : ℕ) (p : Port)
    → (get_or ps i no_port).is_connected ≡ true
    → p.is_connected ≡ false
    → connected_count (set ps i p) + 1 ≡ connected_count ps
count_less [] i p t f = cc
count_less (x ∷ ps) zero p t f = rw (f, t) (omega arith)
count_less (x ∷ ps) (suc i) p t f = omega (arith, count_less ps i p t f)

count_keep :
    (ps : List Port) (i : ℕ) (p : Port)
    → p.is_connected ≡ (get_or ps i no_port).is_connected
    → connected_count (set ps i p) ≡ connected_count ps
count_keep [] i p e = refl
count_keep (x ∷ ps) zero p e = rw e refl
count_keep (x ∷ ps) (suc i) p e = omega (arith, count_keep ps i p e)

pub connected_some :
    (ps : List Port) (i : ℕ) → (get_or ps i no_port).is_connected ≡ true → 0 < connected_count ps
connected_some [] i h = cc
connected_some (p ∷ ps) zero h = rw h (omega arith)
connected_some (p ∷ ps) (suc i) h = omega (arith, connected_some ps i h)

keep-IsValid :
    (u : Usb) (idx : ℕ) (p : Port)
    → IsValid u
    → p.is_connected ≡ (port u idx).is_connected
    → IsValid (with_port u idx p u.num_usb_connections)
keep-IsValid u idx p v e = record {
  whole = length-set u.usb_conn_status idx p ∙ v.whole;
  counted = v.counted ∙ sym (count_keep u.usb_conn_status idx p e);
}

more-IsValid :
    (u : Usb) (idx : ℕ) (p : Port)
    → IsValid u
    → idx < max_usb_connections
    → (port u idx).is_connected ≡ false
    → p.is_connected ≡ true
    → IsValid (with_port u idx p (u.num_usb_connections + 1))
more-IsValid u idx p v h f t = record {
  whole = length-set u.usb_conn_status idx p ∙ v.whole;
  counted =
      omega (arith, v.counted, count_more u.usb_conn_status idx p (omega (arith, v.whole)) f t);
}

less-IsValid :
    (u : Usb) (idx : ℕ) (p : Port)
    → IsValid u
    → (port u idx).is_connected ≡ true
    → p.is_connected ≡ false
    → IsValid (with_port u idx p (u.num_usb_connections - 1))
less-IsValid u idx p v t f = record {
  whole = length-set u.usb_conn_status idx p ∙ v.whole;
  counted = omega (arith, v.counted, count_less u.usb_conn_status idx p t f);
}

update-IsValid :
    (now : ℕ) (u : Usb) (idx : ℕ) (connected : Bool)
    → IsValid u
    → idx < max_usb_connections
    → IsValid (update_usb_stat now u idx connected)
unfolding update_usb_stat
update-IsValid now u idx true v h = elim (Bool-cases (port u idx).is_connected) [
  | inl e ↦ rw e v
  | inr e ↦
      rw e (more-IsValid u idx (record (port u idx) { is_connected = true; ts = now }) v h e refl)
]
update-IsValid now u idx false v h = elim (Bool-cases (port u idx).is_connected) [
  | inl e ↦
      let p : Port = record (port u idx) {
        is_attached = false;
        is_connected = false;
        device_id = 0;
        ts = 0;
      } in
      let less = less-IsValid u idx p v e refl in rw e less
  | inr e ↦ elim (Bool-cases (port u idx).is_attached) [
    | inl a ↦
        let p : Port = record (port u idx) { is_attached = false; is_connected = false } in
        let kept = keep-IsValid u idx p v (sym e) in rw (e, a) kept
    | inr a ↦ rw (e, a) v
  ]
]

establish-IsValid :
    (now : ℕ) (u : Usb) (idx : ℕ) (answers : List (Option ℕ))
    → IsValid u
    → idx < max_usb_connections
    → IsValid (establish now u idx answers)
unfolding establish
establish-IsValid now u idx answers v h = elim (Option-cases (first_answer 3 answers)) [
  | inl e ↦ rw (e, establish) v
  | inr (id, e) ↦
      let known = keep-IsValid u idx (record (port u idx) { device_id = id }) v refl in
      rw (e, establish) (update-IsValid now _ idx true known h)
]

step-IsValid : {u w : Usb} → Step u w → IsValid u → IsValid w
unfolding attach
step-IsValid {u = u} (plug idx) v =
    keep-IsValid u idx (record (port u idx) { is_attached = true }) v refl
step-IsValid {u = u} (ready now idx answers h) v = establish-IsValid now u idx answers v h
step-IsValid {u = u} (unplug now idx h) v = update-IsValid now u idx false v h

-- After calls that do not overlap, whatever devices are plugged in, get ready and are unplugged, the
-- number of connections is the number of connected ports.
pub Usb-IsValid :
    (name : ℕ → Bytes) (startidx : ℕ) (u : Usb) → Reachable name startidx u → IsValid u
unfolding init_usb_status
Usb-IsValid name startidx u start = record { whole = refl; counted = refl }
Usb-IsValid name startidx u (after r s) = step-IsValid s (Usb-IsValid name startidx _ r)
