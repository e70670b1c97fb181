-- ===== src/Clients/Target.antt =====
-- The choice of the device that a command client talks to, of src/g7sendcmd.c: by the number of the
-- connection or by nickname, and the way that a command then takes.
pub mod Nth
use g7ctrl.Common.{
  Bool, Bytes, List, Option, Rc, [], failure, false, get_or, if◌then◌else◌, ltb, none, not, some,
  suc, success, true, zero, ℕ, ◌&&◌, ◌+◌, ◌==◌, ◌∷◌,
}
use g7ctrl.Common.Int.{ℤ, pos, negsuc}
use g7ctrl.Clients.{Client, no_client, is_busy}
use g7ctrl.Xstr.Number.{xatol, to_unsigned}

-- What the user is told.
pub data Told : Type 0 where
  target_reset : Told
  no_device : ℤ → Told
  target_set : ℤ → ℕ → Told
  id_not_known : ℤ → Told
  nickname_set : ℕ → Told
  no_nickname : Told
  not_connected : Told

abbrev pub is_device : Client → Bool
is_device c = is_busy c && not c.cli_is_cmdconn

-- `nbr == client_nbr`
abbrev is_nbr : ℕ → ℤ → Bool
is_nbr nbr (pos n) = nbr == n
is_nbr nbr (negsuc n) = false

-- The loop, with the devices counted so far and the index of the slot.
pub find_device : ℤ → List Client → ℕ → ℕ → Option ℕ
find_device client_nbr [] nbr idx = none
find_device client_nbr (c ∷ cs) nbr idx =
    let nbr' = if is_device c then nbr + 1 else nbr in
    let rest = find_device client_nbr cs nbr' (idx + 1) in
    if is_device c && is_nbr nbr' client_nbr then some idx else rest

-- The fields that are set for the device in slot `idx`.
abbrev pub aimed : List Client → Client → ℕ → Client
aimed cs cli_info idx = record cli_info {
  target_socket = pos (get_or cs idx no_client).cli_socket;
  target_deviceid = (get_or cs idx no_client).cli_devid;
  target_cli_idx = pos idx;
}

abbrev pub reset_target : Client → Client
reset_target cli_info = record cli_info {
  target_socket = negsuc 0;
  target_deviceid = 0;
  target_cli_idx = negsuc 0;
}

abbrev pub tell_target : ℤ → Client → Told
tell_target nbr c = if c.cli_devid == 0 then id_not_known nbr else target_set nbr c.cli_devid

pub aim_at : List Client → Client → ℤ → Rc × Client × Told
unfolding find_device
aim_at cs cli_info client_nbr = elim (find_device client_nbr cs 0 0) [
  | none ↦ (failure, cli_info, no_device client_nbr)
  | some idx ↦ (success, aimed cs cli_info idx, tell_target client_nbr (get_or cs idx no_client))
]

-- The answer, the client afterwards and what it is told.
unfoldable pub set_gprs_device_target_by_index : List Client → Client → ℤ → Rc × Client × Told
unfolding aim_at
set_gprs_device_target_by_index cs cli_info (negsuc zero) =
    (success, reset_target cli_info, target_reset)
set_gprs_device_target_by_index cs cli_info (negsuc (suc n)) = aim_at cs cli_info (negsuc (suc n))
set_gprs_device_target_by_index cs cli_info (pos n) = aim_at cs cli_info (pos n)

-- The loop of the search by id, from slot `idx` on.
unfoldable pub find_devid : ℕ → List Client → ℕ → Option ℕ
find_devid di [] idx = none
find_devid di (c ∷ cs) idx = if di == c.cli_devid then some idx else find_devid di cs (idx + 1)

-- `devid` is what the database answers for the nickname.
unfoldable pub set_gprs_device_target_by_nickname :
    List Client → Client → Option Bytes → Rc × Client × Told
unfolding find_devid
set_gprs_device_target_by_nickname cs cli_info none = (failure, cli_info, no_nickname)
set_gprs_device_target_by_nickname cs cli_info (some devid) =
    let di = to_unsigned (xatol devid).0 in
    elim (find_devid di cs 0) [
      | none ↦ (failure, cli_info, not_connected)
      | some idx ↦ (
        success,
        record cli_info {
          target_socket = pos (get_or cs idx no_client).cli_socket;
          target_deviceid = di;
        },
        nickname_set di,
      )
    ]

-- The way that `send_rawcmd_reply` chooses.
pub data Route : Type 0 where
  over_gprs over_usb no_route : Route

abbrev is_above_0 : ℤ → Bool
is_above_0 (pos n) = ltb 0 n
is_above_0 (negsuc n) = false

abbrev is_index : ℤ → Bool
is_index (pos n) = true
is_index (negsuc n) = false

unfoldable pub route : Client → Route
route c =
    if is_above_0 c.target_socket && is_index c.target_cli_idx
    then over_gprs
    else if is_index c.target_usb_idx
    then over_usb
    else no_route
