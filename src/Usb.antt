-- ===== src/Usb.antt =====
-- The devices on USB, of src/connwatcher.c on Linux: the status of each port, what the watcher and the
-- threads that it starts make of it, and what the commands ask of it.
pub mod Ports
pub mod Cycle
use g7ctrl.Common.{
  Bool, Bytes, List, Option, Rc, [], failure, false, get_or, if◌then◌else◌, leb, ltb, none, not,
  set, some, suc, success, take, true, zero, ℕ, ◌&&◌, ◌+◌, ◌-◌, ◌==◌, ◌||◌, ◌∷◌,
}
use g7ctrl.Common.Int.{ℤ, pos, negsuc}
use g7ctrl.Clients.{Client}

abbrev pub max_usb_connections : ℕ
max_usb_connections = 6

-- `struct usb_conn_status_t`. The number and the name of a port are set once.
pub record Port : Type 0 where
  pub is_attached : Bool
  pub is_connected : Bool
  pub ts : ℕ
  pub stty_device_num : ℕ
  pub stty_device_name : Bytes
  pub device_id : ℕ

pub record Usb : Type 0 where
  pub usb_conn_status : List Port
  pub num_usb_connections : ℕ

-- Stands for a port out of range, which no caller uses.
abbrev pub no_port : Port
no_port = record {
  is_attached = false;
  is_connected = false;
  ts = 0;
  stty_device_num = 0;
  stty_device_name = [];
  device_id = 0;
}

abbrev pub port : Usb → ℕ → Port
port u idx = get_or u.usb_conn_status idx no_port

-- The ports from number `i` on; `name` is `get_stty_device_name`.
abbrev init_ports : (ℕ → Bytes) → ℕ → ℕ → ℕ → List Port
init_ports name startidx zero i = []
init_ports name startidx (suc n) i =
    record no_port {
      stty_device_num = i + startidx;
      stty_device_name = take 127 (name (i + startidx));
    }
    ∷ init_ports name startidx n (i + 1)

unfoldable pub init_usb_status : (ℕ → Bytes) → ℕ → Usb
init_usb_status name startidx = record {
  usb_conn_status = init_ports name startidx max_usb_connections 0;
  num_usb_connections = 0;
}

abbrev with_port : Usb → ℕ → Port → ℕ → Usb
with_port u idx p num = record {
  usb_conn_status = set u.usb_conn_status idx p;
  num_usb_connections = num;
}

-- What a call does when no other thread writes at the same time; no mutex is held.
unfoldable pub update_usb_stat : ℕ → Usb → ℕ → Bool → Usb
update_usb_stat now u idx connected =
    if connected
    then (if (port u idx).is_connected
        then u
        else with_port u idx (record (port u idx) { is_connected = true; ts = now })
            (u.num_usb_connections + 1))
    else if (port u idx).is_connected
    then with_port u idx
        (record (port u idx) { is_attached = false; is_connected = false; device_id = 0; ts = 0 })
        (u.num_usb_connections - 1)
    else if (port u idx).is_attached
    then with_port u idx (record (port u idx) { is_attached = false }) u.num_usb_connections
    else u

-- `establish_usb_thread` up to its first pause.
unfoldable pub attach : Usb → ℕ → Usb
attach u idx = with_port u idx (record (port u idx) { is_attached = true }) u.num_usb_connections

-- `get_devid` is asked three times at most.
abbrev pub first_answer : ℕ → List (Option ℕ) → Option ℕ
first_answer zero answers = none
first_answer (suc n) [] = none
first_answer (suc n) (some id ∷ answers) = some id
first_answer (suc n) (none ∷ answers) = first_answer n answers

-- The rest of the thread, with the answers that it gets.
unfoldable pub establish : ℕ → Usb → ℕ → List (Option ℕ) → Usb
unfolding update_usb_stat
establish now u idx answers = elim (first_answer 3 answers) [
  | none ↦ u
  | some id ↦
      update_usb_stat now
        (with_port u idx (record (port u idx) { device_id = id }) u.num_usb_connections) idx true
]

unfoldable pub is_usb_connected : Usb → ℕ → Bool
is_usb_connected u idx =
    if leb max_usb_connections idx
    then false
    else ltb 0 u.num_usb_connections
      && (port u idx).is_connected
      && not ((port u idx).device_id == 0)

unfoldable pub get_usb_devicename : Usb → ℕ → Option Bytes
get_usb_devicename u idx =
    if ltb idx max_usb_connections then some (port u idx).stty_device_name else none

-- What the user is told.
pub data Told : Type 0 where
  unknown_index : ℕ → Told
  none_at_index : ℕ → Told
  usb_target_set : ℕ → Told

unfoldable pub set_usb_device_target_by_index : Usb → Client → ℕ → Rc × Client × Told
set_usb_device_target_by_index u cli_info usb_idx =
    if leb max_usb_connections usb_idx
    then (failure, cli_info, unknown_index usb_idx)
    else if u.num_usb_connections == 0 || not (port u usb_idx).is_connected
    then (failure, cli_info, none_at_index usb_idx)
    else (
      success,
      record cli_info {
        target_socket = negsuc 0;
        target_deviceid = 0;
        target_cli_idx = negsuc 0;
        target_usb_idx = pos usb_idx;
      },
      usb_target_set usb_idx,
    )
