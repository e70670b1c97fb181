-- ===== src/Clients/Target/Nth.antt =====
-- The choice of a device by its number and by its nickname, of src/g7sendcmd.c.
use g7ctrl.Common.{
  Bool-cases, Bytes, List, Option, Option-cases, Rc, [], ap, arith, failure, false, get_elem?,
  get_or, if◌then◌else◌, inl, inr, none, refl, some, suc, success, true, zero, ℕ, ◌+◌, ◌==◌, ◌∙◌,
  ◌∷◌, ◌≡◌, ◌≢◌, ◌≤◌,
}
use g7ctrl.Common.Int.{ℤ, pos, negsuc}
use g7ctrl.Clients.{Client, no_client, is_busy}
use g7ctrl.Xstr.Number.{xatol, to_unsigned}
use g7ctrl.Clients.Target.{
  Told, no_device, nickname_set, is_device, find_device, aimed, tell_target, aim_at,
  set_gprs_device_target_by_index, find_devid, set_gprs_device_target_by_nickname, route, over_usb,
}

-- The slots of the connected devices, in order.
abbrev pub device_slots : List Client → ℕ → List ℕ
device_slots [] idx = []
device_slots (c ∷ cs) idx =
    let rest = device_slots cs (idx + 1) in if is_device c then idx ∷ rest else rest

-- The n-th, counted from 1.
abbrev pub nth_slot : ℤ → List ℕ → Option ℕ
nth_slot (pos zero) l = none
nth_slot (pos (suc n)) l = get_elem? l n
nth_slot (negsuc n) l = none

reached : (nbr : ℕ) → ((nbr + 1) == (nbr + suc zero)) ≡ true
reached nbr = ground arith

ahead : (nbr n : ℕ) → ((nbr + 1) == (nbr + suc (suc n))) ≡ false
ahead nbr n = ground arith

find_device_nth :
    (cs : List Client) (n nbr idx : ℕ)
    → find_device (pos (nbr + suc n)) cs nbr idx ≡ get_elem? (device_slots cs idx) n
unfolding find_device
find_device_nth [] n nbr idx = refl
find_device_nth (c ∷ cs) zero nbr idx = elim (Bool-cases (is_device c)) [
  | inr e ↦ rw e (find_device_nth cs zero nbr (idx + 1))
  | inl e ↦ rw (e, reached nbr) refl
]
find_device_nth (c ∷ cs) (suc n) nbr idx = elim (Bool-cases (is_device c)) [
  | inr e ↦ rw e (find_device_nth cs (suc n) nbr (idx + 1))
  | inl e ↦
      rw (e, ahead nbr n)
        (ap (λ k. find_device (pos k) cs (nbr + 1) (idx + 1)) {x = nbr + suc (suc n)}
            {y = nbr + 1 + suc n} (omega arith)
          ∙ find_device_nth cs n (nbr + 1) (idx + 1))
]

find_device_past :
    (cs : List Client) (n nbr idx : ℕ) → n ≤ nbr → find_device (pos n) cs nbr idx ≡ none
unfolding find_device
find_device_past [] n nbr idx h = refl
find_device_past (c ∷ cs) n nbr idx h = elim (Bool-cases (is_device c)) [
  | inr e ↦ rw e (find_device_past cs n nbr (idx + 1) h)
  | inl e ↦ rw e (ground (arith, find_device_past cs n (nbr + 1) (idx + 1)))
]

find_device_negative : (cs : List Client) (n nbr idx : ℕ) → find_device (negsuc n) cs nbr idx ≡ none
unfolding find_device
find_device_negative [] n nbr idx = refl
find_device_negative (c ∷ cs) n nbr idx = elim (Bool-cases (is_device c)) [
  | inr e ↦ rw e (find_device_negative cs n nbr (idx + 1))
  | inl e ↦ rw e (find_device_negative cs n (nbr + 1) (idx + 1))
]

find_device-nth_slot :
    (cs : List Client) (client_nbr : ℤ)
    → find_device client_nbr cs 0 0 ≡ nth_slot client_nbr (device_slots cs 0)
find_device-nth_slot cs (pos zero) = find_device_past cs zero 0 0 (omega arith)
find_device-nth_slot cs (pos (suc n)) =
    ap (λ k. find_device (pos k) cs 0 0) {x = suc n} {y = 0 + suc n} (omega arith)
    ∙ find_device_nth cs n 0 0
find_device-nth_slot cs (negsuc n) = find_device_negative cs n 0 0

found :
    (cs : List Client) (cli_info : Client) (client_nbr : ℤ)
    → aim_at cs cli_info client_nbr ≡ (elim (nth_slot client_nbr (device_slots cs 0)) [
      | none ↦ (failure, cli_info, no_device client_nbr)
      | some idx ↦
          (success, aimed cs cli_info idx, tell_target client_nbr (get_or cs idx no_client))
    ])
unfolding aim_at
found cs cli_info client_nbr =
    ap
      (λ (o : Option ℕ).
        let r : Rc × Client × Told = elim o [
          | none ↦ (failure, cli_info, no_device client_nbr)
          | some idx ↦
              (success, aimed cs cli_info idx, tell_target client_nbr (get_or cs idx no_client))
        ] in
        r)
      (find_device-nth_slot cs client_nbr)

-- A number other than -1 picks among the connected devices, counted from 1 in the order of their
-- slots. If there is such a device, the client's target is its slot, socket and id, the USB index
-- and all else stay, and the user is told the id if it is known; if not, nothing changes and the
-- answer is -1.
pub target_by_index_nth :
    (cs : List Client) (cli_info : Client) (client_nbr : ℤ)
    → client_nbr ≢ negsuc 0
    → set_gprs_device_target_by_index cs cli_info client_nbr
      ≡ (elim (nth_slot client_nbr (device_slots cs 0)) [
        | none ↦ (failure, cli_info, no_device client_nbr)
        | some idx ↦
            (success, aimed cs cli_info idx, tell_target client_nbr (get_or cs idx no_client))
      ])
unfolding set_gprs_device_target_by_index
target_by_index_nth cs cli_info (negsuc zero) h = absurd (h refl)
target_by_index_nth cs cli_info (negsuc (suc n)) h = found cs cli_info (negsuc (suc n))
target_by_index_nth cs cli_info (pos n) h = found cs cli_info (pos n)

-- A client that talks over USB chooses a device by a nickname whose id is among the connections. It
-- is told that the device is its target, and the socket and the id are set, but its commands
-- still go over USB.
pub nickname_stays_on_usb :
    (cs : List Client) (cli_info : Client) (devid : Bytes) (usb_idx idx : ℕ)
    → cli_info.target_cli_idx ≡ negsuc 0
    → cli_info.target_usb_idx ≡ pos usb_idx
    → find_devid (to_unsigned (xatol devid).0) cs 0 ≡ some idx
    → let r = set_gprs_device_target_by_nickname cs cli_info (some devid) in
      (r.0 ≡ success)
      × (r.1.target_socket ≡ pos (get_or cs idx no_client).cli_socket)
      × (r.1.target_deviceid ≡ to_unsigned (xatol devid).0)
      × (r.2 ≡ nickname_set (to_unsigned (xatol devid).0))
      × (route r.1 ≡ over_usb)
unfolding set_gprs_device_target_by_nickname route
nickname_stays_on_usb cs cli_info devid usb_idx idx none_yet usb at =
    rw (at, set_gprs_device_target_by_nickname) (refl, refl, refl, refl, ground arith)

aim_keeps :
    (cs : List Client) (c : Client) (client_nbr : ℤ)
    → let d = (aim_at cs c client_nbr).1 in
      (d.cli_ipadr ≡ c.cli_ipadr) × (d.cli_ts ≡ c.cli_ts) × (is_busy d ≡ is_busy c)
unfolding aim_at
aim_keeps cs c client_nbr = elim (Option-cases (find_device client_nbr cs 0 0)) [
  | inl e ↦ rw (e, aim_at) (refl, refl, refl)
  | inr (idx, e) ↦ rw (e, aim_at) (refl, refl, refl)
]

-- The choice of a target leaves the fields of the connection alone.
pub choice_keeps :
    (cs : List Client) (c : Client) (client_nbr : ℤ)
    → let d = (set_gprs_device_target_by_index cs c client_nbr).1 in
      (d.cli_ipadr ≡ c.cli_ipadr) × (d.cli_ts ≡ c.cli_ts) × (is_busy d ≡ is_busy c)
unfolding set_gprs_device_target_by_index
choice_keeps cs c (negsuc zero) = (refl, refl, refl)
choice_keeps cs c (negsuc (suc n)) = aim_keeps cs c (negsuc (suc n))
choice_keeps cs c (pos n) = aim_keeps cs c (pos n)
