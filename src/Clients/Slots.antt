-- ===== src/Clients/Slots.antt =====
-- The invariant of the list of clients.
use g7ctrl.Common.{
  All, Bool-cases, List, [], ap, arith, false, get_or, if◌then◌else◌, inl, inr, length,
  length-replicate, length-set, length-take, none, refl, replicate, set, some, suc, sym, true, zero,
  ℕ, ◌+◌, ◌<◌, ◌∙◌, ◌∷◌, ◌≡◌, ◌≤◌, ◌⊎◌,
}
use g7ctrl.Clients.{
  Client, Server, Incoming, no_client, unused_client, is_busy, start_server, free_slot, connected,
  accept_client, release_client,
}

abbrev pub busy_count : List Client → ℕ
busy_count [] = 0
busy_count (c ∷ cs) = (if is_busy c then 1 else 0) + busy_count cs

-- A slot in use has the time of its connection, and one that is not in use is not taken for a device.
abbrev pub Sound : Client → Type 0
Sound c =
    (length c.cli_ipadr ≤ 15)
    × (is_busy c ≡ true → 0 < c.cli_ts)
    × (is_busy c ≡ false → (c.cli_devid ≡ 0) × (c.cli_socket ≡ 0) × (c.cli_ts ≡ 0))

pub record IsValid (max_clients : ℕ) (s : Server) : Type 0 where
  pub whole : length s.client_info_list ≡ max_clients
  pub slots : All Sound s.client_info_list
  pub counted : s.num_clients ≡ busy_count s.client_info_list

All-set : (cs : List Client) (i : ℕ) (c : Client) → All Sound cs → Sound c → All Sound (set cs i c)
All-set [] i c h p = tt
All-set (x ∷ cs) zero c h p = (p, h.1)
All-set (x ∷ cs) (suc i) c h p = (h.0, All-set cs i c h.1 p)

pub All-slot : (cs : List Client) (i : ℕ) → All Sound cs → Sound (get_or cs i no_client)
All-slot [] i h = (omega arith, λ e. cc, λ e. (refl, refl, refl))
All-slot (x ∷ cs) zero h = h.0
All-slot (x ∷ cs) (suc i) h = All-slot cs i h.1

pub busy_inside :
    (cs : List Client) (i : ℕ) → is_busy (get_or cs i no_client) ≡ true → i < length cs
busy_inside [] i h = cc
busy_inside (c ∷ cs) zero h = omega arith
busy_inside (c ∷ cs) (suc i) h = omega (arith, busy_inside cs i h)

-- A slot changes its use: the count changes with it.
pub busy_count-take :
    (cs : List Client) (i : ℕ) (c : Client)
    → i < length cs
    → is_busy (get_or cs i no_client) ≡ false
    → is_busy c ≡ true
    → busy_count (set cs i c) ≡ busy_count cs + 1
busy_count-take [] i c h f b = absurd (omega arith)
busy_count-take (x ∷ cs) zero c h f b = rw (f, b) (omega arith)
busy_count-take (x ∷ cs) (suc i) c h f b = omega (arith, busy_count-take cs i c (omega arith) f b)

pub busy_count-leave :
    (cs : List Client) (i : ℕ) (c : Client)
    → is_busy (get_or cs i no_client) ≡ true
    → is_busy c ≡ false
    → busy_count (set cs i c) + 1 ≡ busy_count cs
busy_count-leave [] i c b f = cc
busy_count-leave (x ∷ cs) zero c b f = rw (f, b) (omega arith)
busy_count-leave (x ∷ cs) (suc i) c b f = omega (arith, busy_count-leave cs i c b f)

pub busy_count-keep :
    (cs : List Client) (i : ℕ) (c : Client)
    → is_busy c ≡ is_busy (get_or cs i no_client)
    → busy_count (set cs i c) ≡ busy_count cs
busy_count-keep [] i c e = refl
busy_count-keep (x ∷ cs) zero c e = rw e refl
busy_count-keep (x ∷ cs) (suc i) c e = omega (arith, busy_count-keep cs i c e)

pub free_slot_lem :
    (cs : List Client) (k : ℕ)
    → ((j : ℕ) × (free_slot cs k ≡ some (k + j))
        × (j < length cs)
        × (is_busy (get_or cs j no_client) ≡ false))
      ⊎ ((free_slot cs k ≡ none) × (busy_count cs ≡ length cs))
unfolding free_slot
free_slot_lem [] k = inr (refl, refl)
free_slot_lem (c ∷ cs) k = elim (Bool-cases (is_busy c)) [
  | inl b ↦ elim (free_slot_lem cs (k + 1)) [
    | inl (j, e, lt, f) ↦ inl (
      suc j,
      rw b (e ∙ ap (λ i. some i) {x = k + 1 + j} {y = k + suc j} (omega arith)),
      omega arith,
      f,
    )
    | inr (e, full) ↦ inr (rw b e, rw b (omega arith))
  ]
  | inr f ↦ inl (0, rw f (ap (λ i. some i) {x = k} {y = k + 0} (omega arith)), omega arith, f)
]

pub slot_cases :
    (cs : List Client)
    → ((j : ℕ) × (free_slot cs 0 ≡ some j)
        × (j < length cs)
        × (is_busy (get_or cs j no_client) ≡ false))
      ⊎ ((free_slot cs 0 ≡ none) × (busy_count cs ≡ length cs))
slot_cases cs = elim (free_slot_lem cs 0) [
  | inl (j, e, lt, f) ↦ inl (j, e ∙ ap (λ i. some i) {x = 0 + j} {y = j} (omega arith), lt, f)
  | inr p ↦ inr p
]

all_unused : (n : ℕ) → All Sound (replicate n unused_client)
all_unused zero = tt
all_unused (suc n) = ((omega arith, λ e. cc, λ e. (refl, refl, refl)), all_unused n)

none_busy : (n : ℕ) → busy_count (replicate n unused_client) ≡ 0
none_busy zero = refl
none_busy (suc n) = omega (arith, none_busy n)

pub start-IsValid : (n : ℕ) → IsValid n (start_server n)
unfolding start_server
start-IsValid n = record {
  whole = length-replicate n unused_client;
  slots = all_unused n;
  counted = sym (none_busy n);
}

-- A slot is written without a change of its use.
pub keep-IsValid :
    (n : ℕ) (s : Server) (i : ℕ) (c : Client)
    → IsValid n s
    → Sound c
    → is_busy c ≡ is_busy (get_or s.client_info_list i no_client)
    → IsValid n (record s { client_info_list = set s.client_info_list i c })
keep-IsValid n s i c v p e = record {
  whole = length-set s.client_info_list i c ∙ v.whole;
  slots = All-set s.client_info_list i c v.slots p;
  counted = v.counted ∙ sym (busy_count-keep s.client_info_list i c e);
}

pub accept-IsValid :
    (max_clients : ℕ) (s : Server) (n : Incoming)
    → IsValid max_clients s
    → 0 < n.now
    → 0 < n.thread
    → IsValid max_clients (accept_client s n).1
unfolding accept_client
accept-IsValid max_clients s n v t h = elim (slot_cases s.client_info_list) [
  | inr (e, full) ↦ rw (e, accept_client) v
  | inl (j, e, lt, f) ↦
      let cs = s.client_info_list in
      let c = connected (get_or cs j no_client) n in
      let b : is_busy c ≡ true = ground arith in
      rw (e, accept_client)
        (record {
          whole = length-set cs j c ∙ v.whole;
          slots = All-set cs j c v.slots (omega (arith, length-take 15 n.dotaddr), λ _. t, λ z. cc);
          counted = omega (arith, busy_count-take cs j c lt f b, v.counted);
        })
]

pub release-IsValid :
    (max_clients : ℕ) (s : Server) (i : ℕ)
    → IsValid max_clients s
    → is_busy (get_or s.client_info_list i no_client) ≡ true
    → IsValid max_clients (release_client s i)
unfolding release_client
release-IsValid max_clients s i v b = record {
  whole = length-set s.client_info_list i no_client ∙ v.whole;
  slots =
      All-set s.client_info_list i no_client v.slots
        (omega arith, λ e. cc, λ e. (refl, refl, refl));
  counted = omega (arith, busy_count-leave s.client_info_list i no_client b refl, v.counted);
}
