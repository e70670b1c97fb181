-- ===== src/Clients/Steps.antt =====
-- The list of clients as the threads change it. A connection gets and leaves its slot under `socks_mutex`,
-- in one step. A keep-alive package and the choice of a target hold no mutex; they write to the slot of
-- their own thread only, and are taken as one step each.
use g7ctrl.Common.{
  Bool, Bool-cases, Bytes, ap, arith, false, false≢true, get_or, inl, inr, length, refl, set, sym,
  true, ℕ, ◌&&◌, ◌<◌, ◌==◌, ◌∙◌, ◌≡◌,
}
use g7ctrl.Common.Int.{ℤ}
use g7ctrl.Clients.{
  Client, Server, Incoming, no_client, is_busy, start_server, accept_client, release_client,
}
use g7ctrl.Clients.Slots.{
  Sound, IsValid, All-slot, start-IsValid, keep-IsValid, accept-IsValid, release-IsValid,
}
use g7ctrl.Clients.KeepAlive.{handle_keep_alive_package, package_devid}
use g7ctrl.Clients.Target.{set_gprs_device_target_by_index}
use g7ctrl.Clients.Target.Nth.{choice_keeps}

abbrev slot : Server → ℕ → Client
slot s i = get_or s.client_info_list i no_client

abbrev pub choose : Server → ℕ → ℤ → Server
choose s i client_nbr = record s {
  client_info_list =
      set s.client_info_list i
        (set_gprs_device_target_by_index s.client_info_list (slot s i) client_nbr).1;
}

-- A step of the listener, of a device's thread or of a command client's.
pub data Step : Server → Server → Type 0 where
  accept : {s : Server} (n : Incoming) → 0 < n.now → 0 < n.thread → Step s (accept_client s n).1
  keep_alive :
      {s : Server} (written : Bool) (i : ℕ) (buffer : Bytes) (len : ℕ)
      → is_busy (slot s i) ≡ true
      → Step s (handle_keep_alive_package written s i buffer len).server
  choose_target :
      {s : Server} (i : ℕ) (client_nbr : ℤ)
      → is_busy (slot s i) ≡ true
      → Step s (choose s i client_nbr)
  leave : {s : Server} (i : ℕ) → is_busy (slot s i) ≡ true → Step s (release_client s i)

pub data Reachable (max_clients : ℕ) : Server → Type 0 where
  start : Reachable max_clients (start_server max_clients)
  after : {s t : Server} → Reachable max_clients s → Step s t → Reachable max_clients t

busy_free : (c : Client) → is_busy c ≡ true → is_busy c ≡ false → ⊥
busy_free c b f = false≢true (sym f ∙ b)

-- A slot in use that gets other values for its id and its target is as sound as before.
Sound-write :
    (c d : Client)
    → Sound c
    → is_busy c ≡ true
    → d.cli_ipadr ≡ c.cli_ipadr
    → d.cli_ts ≡ c.cli_ts
    → is_busy d ≡ is_busy c
    → Sound d
Sound-write c d p b ip ts kept = (
  omega (arith, ap length ip, p.0),
  λ e. omega (arith, p.1 b),
  λ f. absurd (busy_free c b (sym kept ∙ f)),
)

keep_alive-IsValid :
    (n : ℕ) (written : Bool) (s : Server) (i : ℕ) (buffer : Bytes) (len : ℕ)
    → IsValid n s
    → is_busy (slot s i) ≡ true
    → IsValid n (handle_keep_alive_package written s i buffer len).server
unfolding handle_keep_alive_package
keep_alive-IsValid n written s i buffer len v b =
    elim (Bool-cases (len == 8 && get_or buffer 0 0 == 0xD0 && get_or buffer 1 0 == 0xD7)) [
      | inr e ↦ rw e v
      | inl e ↦ rw e (elim (Bool-cases ((slot s i).cli_devid == 0)) [
        | inr k ↦ rw k v
        | inl k ↦ rw k (registered n s i (package_devid buffer) v b)
      ])
    ]
  where
    registered :
        (n : ℕ) (s : Server) (i devid : ℕ)
        → IsValid n s
        → is_busy (slot s i) ≡ true
        → IsValid n (record s {
          client_info_list = set s.client_info_list i (record (slot s i) { cli_devid = devid });
        })
    registered n s i devid v b =
        let d : Client = record (slot s i) { cli_devid = devid } in
        keep-IsValid n s i d v
          (Sound-write (slot s i) d (All-slot s.client_info_list i v.slots) b refl refl refl) refl

choose-IsValid :
    (n : ℕ) (s : Server) (i : ℕ) (client_nbr : ℤ)
    → IsValid n s
    → is_busy (slot s i) ≡ true
    → IsValid n (choose s i client_nbr)
choose-IsValid n s i client_nbr v b =
    let c = slot s i in
    let d = (set_gprs_device_target_by_index s.client_info_list c client_nbr).1 in
    let k = choice_keeps s.client_info_list c client_nbr in
    keep-IsValid n s i d v (Sound-write c d (All-slot s.client_info_list i v.slots) b k.0 k.1 k.2)
      k.2

step-IsValid : {n : ℕ} {s t : Server} → Step s t → IsValid n s → IsValid n t
step-IsValid {n = n} {s = s} (accept m t h) v = accept-IsValid n s m v t h
step-IsValid {n = n} {s = s} (keep_alive written i buffer len b) v =
    keep_alive-IsValid n written s i buffer len v b
step-IsValid {n = n} {s = s} (choose_target i client_nbr b) v = choose-IsValid n s i client_nbr v b
step-IsValid {n = n} {s = s} (leave i b) v = release-IsValid n s i v b

-- Whatever connections, keep-alive packages, choices of a target and ends of connections follow one
-- another after the start, the list keeps its `max_clients` slots, `num_clients` is the number of
-- slots in use, addresses fit their field, a slot in use has its time, and a free slot has no
-- device id, no socket and no time. The clock does not read 0 and a thread's id is not 0.
pub Server-IsValid :
    (max_clients : ℕ) (s : Server) → Reachable max_clients s → IsValid max_clients s
Server-IsValid max_clients s start = start-IsValid max_clients
Server-IsValid max_clients s (after r t) = step-IsValid t (Server-IsValid max_clients _ r)
