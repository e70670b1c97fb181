-- ===== src/Clients/Sessions.antt =====
-- The connections of the server as its clients see them: a bag, which forgets the slots.
use g7ctrl.Common.{
  Bool-cases, List, Option, [], ap, arith, false, get_or, get_or-set_ne, get_or-set_self,
  if◌then◌else◌, inl, inr, length, le→ltb-false, ltb, lt→ltb, none, refl, set, some, suc, sym, true,
  zero, ℕ, ◌+◌, ◌<◌, ◌∙◌, ◌∷◌, ◌≡◌, ◌≢◌, ◌≤◌,
}
use mathlib.Core.Quot
use mathlib.Core.Quot.{Quot, Quot-set}
use mathlib.Core.List.Perm
use mathlib.Core.Option
use mathlib.Core.List.{Perm, Permᴰ}
use mathlib.Core.Logic.{∥∥₁_elim}
use native.Mathlib.Nat.{ℕ_set}
use g7ctrl.Clients.{
  Client, Server, Incoming, no_client, is_busy, connected, accept_client, release_client,
}
use g7ctrl.Clients.Slots.{IsValid, busy_count, busy_count-leave, slot_cases}

abbrev pub SameClients : List Client → List Client → Type 0
SameClients xs ys = Perm xs ys

-- What `SameClients` forgets is the order.
abbrev pub Sessions : Type 0
Sessions = Quot SameClients

abbrev pub busy : List Client → List Client
busy [] = []
busy (c ∷ cs) = if is_busy c then c ∷ busy cs else busy cs

abbrev pub sessions : Server → Sessions
sessions s = Quot.mk (busy s.client_info_list)

Permᴰ-length : {xs ys : List Client} → Permᴰ xs ys → length xs ≡ length ys
Permᴰ-length Permᴰ.nil = refl
Permᴰ-length (Permᴰ.cons e p) = ap suc (Permᴰ-length p)
Permᴰ-length (Permᴰ.swap e f) = refl
Permᴰ-length (Permᴰ.trans p q) = Permᴰ-length p ∙ Permᴰ-length q

pub Perm-length : (xs ys : List Client) → SameClients xs ys → length xs ≡ length ys
Perm-length xs ys p = ∥∥₁_elim p (ℕ_set _ _) (λ d. Permᴰ-length d)

pub session_count : Sessions → ℕ
session_count = Quot.lift ℕ_set length Perm-length

pub put : Client → Sessions → Sessions
put c = Quot.lift Quot-set (λ xs. Quot.mk (c ∷ xs)) (λ xs ys h. Quot.sound (Perm.cons c h))

-- A new connection is let in while there are fewer than `max_clients`.
unfoldable pub connect : ℕ → Client → Sessions → Option Sessions
unfolding session_count put
connect max_clients c b = if ltb (session_count b) max_clients then some (put c b) else none

busy-count : (cs : List Client) → length (busy cs) ≡ busy_count cs
busy-count [] = refl
busy-count (c ∷ cs) = elim (Bool-cases (is_busy c)) [
  | inl b ↦ rw b (omega (arith, busy-count cs))
  | inr f ↦ rw f (omega (arith, busy-count cs))
]

busy_count-le : (cs : List Client) → busy_count cs ≤ length cs
busy_count-le [] = omega arith
busy_count-le (c ∷ cs) = elim (Bool-cases (is_busy c)) [
  | inl b ↦ rw b (omega (arith, busy_count-le cs))
  | inr f ↦ rw f (omega (arith, busy_count-le cs))
]

free_lt :
    (cs : List Client) (i : ℕ)
    → i < length cs
    → is_busy (get_or cs i no_client) ≡ false
    → busy_count cs < length cs
free_lt [] i h f = absurd (omega arith)
free_lt (c ∷ cs) zero h f = rw f (omega (arith, busy_count-le cs))
free_lt (c ∷ cs) (suc i) h f = elim (Bool-cases (is_busy c)) [
  | inl b ↦ rw b (omega (arith, free_lt cs i (omega arith) f))
  | inr e ↦ rw e (omega (arith, free_lt cs i (omega arith) f))
]

busy-take :
    (cs : List Client) (i : ℕ) (c : Client)
    → i < length cs
    → is_busy (get_or cs i no_client) ≡ false
    → is_busy c ≡ true
    → SameClients (busy (set cs i c)) (c ∷ busy cs)
busy-take [] i c h f b = absurd (omega arith)
busy-take (x ∷ cs) zero c h f b = rw (f, b) (Perm.refl (c ∷ busy cs))
busy-take (x ∷ cs) (suc i) c h f b = elim (Bool-cases (is_busy x)) [
  | inl e ↦
      rw e (Perm.trans (Perm.cons x (busy-take cs i c (omega arith) f b)) (Perm.swap c x (busy cs)))
  | inr e ↦ rw e (busy-take cs i c (omega arith) f b)
]

busy-leave :
    (cs : List Client) (i : ℕ) (c : Client)
    → is_busy (get_or cs i no_client) ≡ true
    → is_busy c ≡ false
    → SameClients (get_or cs i no_client ∷ busy (set cs i c)) (busy cs)
busy-leave [] i c b f = cc
busy-leave (x ∷ cs) zero c b f = rw (f, b) (Perm.refl (x ∷ busy cs))
busy-leave (x ∷ cs) (suc i) c b f = elim (Bool-cases (is_busy x)) [
  | inl e ↦ rw e (
      Perm.trans (Perm.swap x (get_or cs i no_client) (busy (set cs i c)))
        (Perm.cons x (busy-leave cs i c b f)))
  | inr e ↦ rw e (busy-leave cs i c b f)
]

-- In a valid list `num_clients` is the number of connections. A new connection is let in exactly
-- when that is below `max_clients`; it is then added to the connections, with the fields that the
-- listener writes, and if it is turned away nothing changes.
pub accept_refines :
    (max_clients : ℕ) (s : Server) (n : Incoming)
    → IsValid max_clients s
    → 0 < n.thread
    → (session_count (sessions s) ≡ s.num_clients)
      × (connect max_clients (connected no_client n) (sessions s)
          ≡ Option.map (λ _. sessions (accept_client s n).1) (accept_client s n).0)
      × ((accept_client s n).0 ≡ none → (accept_client s n).1 ≡ s)
unfolding accept_client connect session_count put
accept_refines max_clients s n v h =
    let cs = s.client_info_list in
    let size = busy-count cs in
    elim (slot_cases cs) [
      | inr (e, full) ↦
          let limit = le→ltb-false (length (busy cs)) max_clients (omega (arith, v.whole)) in
          (
            omega (arith, v.counted),
            rw (e, accept_client, limit) refl,
            rw (e, accept_client) (λ _. refl),
          )
      | inl (j, e, lt, f) ↦
          let c = connected no_client n in
          let b : is_busy c ≡ true = ground arith in
          let room =
            lt→ltb (length (busy cs)) max_clients (omega (arith, v.whole, free_lt cs j lt f)) in
          let same = busy-take cs j c lt f b in
          (
            omega (arith, v.counted),
            rw (e, accept_client, room) (ap (λ q. some q) (sym (Quot.sound same))),
            rw (e, accept_client) (λ z. cc),
          )
    ]

busy_inside : (cs : List Client) (i : ℕ) → is_busy (get_or cs i no_client) ≡ true → i < length cs
busy_inside [] i b = cc
busy_inside (c ∷ cs) zero b = omega arith
busy_inside (c ∷ cs) (suc i) b = omega (arith, busy_inside cs i b)

-- A client of a valid list leaves, whose slot is in use. The connections before are those afterwards
-- and the one of the slot; the slot is then free and all others are as before; and `num_clients` is one
-- less, and the number of connections.
pub release_refines :
    (max_clients : ℕ) (s : Server) (i : ℕ)
    → IsValid max_clients s
    → is_busy (get_or s.client_info_list i no_client) ≡ true
    → let t = release_client s i in
      (put (get_or s.client_info_list i no_client) (sessions t) ≡ sessions s)
      × (get_or t.client_info_list i no_client ≡ no_client)
      × ((j : ℕ)
          → i ≢ j
          → get_or t.client_info_list j no_client ≡ get_or s.client_info_list j no_client)
      × (t.num_clients + 1 ≡ s.num_clients)
      × (session_count (sessions t) ≡ t.num_clients)
unfolding release_client put session_count
release_refines max_clients s i v b =
    let cs = s.client_info_list in
    let left = busy_count-leave cs i no_client b refl in
    (
      Quot.sound (busy-leave cs i no_client b refl),
      get_or-set_self cs i no_client no_client (busy_inside cs i b),
      λ j. get_or-set_ne cs i j no_client no_client,
      omega (arith, left, v.counted),
      omega (arith, left, v.counted, busy-count (set cs i no_client)),
    )
