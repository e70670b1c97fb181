-- ===== src/Clients.antt =====
-- The list of connected clients, `client_info_list` of src/g7ctrl.c: how src/socklistener.c gives a new
-- connection a slot, and how the threads of src/tracker.c and src/g7cmd.c leave it. `accept_client`
-- and `release_client` run under `socks_mutex`.
pub mod Slots
pub mod KeepAlive
pub mod Target
pub mod Sessions
pub mod Steps
use g7ctrl.Common.{
  Bool, Bytes, List, Option, [], false, get_or, if◌then◌else◌, none, not, replicate, set, some,
  take, ℕ, ◌+◌, ◌-◌, ◌==◌, ◌∷◌,
}
use g7ctrl.Common.Int.{ℤ, pos, negsuc}

-- `struct client_info`. A thread id of 0 marks a free slot.
pub record Client : Type 0 where
  pub cli_ts : ℕ
  pub cli_socket : ℕ
  pub cli_ipadr : Bytes
  pub cli_thread : ℕ
  pub cli_is_cmdconn : Bool
  pub target_socket : ℤ
  pub target_deviceid : ℕ
  pub target_cli_idx : ℤ
  pub target_usb_idx : ℤ
  pub use_unicode_table : Bool
  pub cli_devid : ℕ

-- What `memset` and the two assignments behind it leave.
abbrev pub no_client : Client
no_client = record {
  cli_ts = 0;
  cli_socket = 0;
  cli_ipadr = [];
  cli_thread = 0;
  cli_is_cmdconn = false;
  target_socket = pos 0;
  target_deviceid = 0;
  target_cli_idx = negsuc 0;
  target_usb_idx = negsuc 0;
  use_unicode_table = false;
  cli_devid = 0;
}

-- What `calloc` and the loop behind it leave.
abbrev pub unused_client : Client
unused_client = record no_client { target_usb_idx = pos 0 }

pub record Server : Type 0 where
  pub client_info_list : List Client
  pub num_clients : ℕ

unfoldable pub start_server : ℕ → Server
start_server max_clients = record {
  client_info_list = replicate max_clients unused_client;
  num_clients = 0;
}

abbrev pub is_busy : Client → Bool
is_busy c = not (c.cli_thread == 0)

-- A connection as `accept` gives it, with the id of the thread that is created for it.
pub record Incoming : Type 0 where
  pub now : ℕ
  pub newsocket : ℕ
  pub dotaddr : Bytes
  pub command_connection : Bool
  pub thread : ℕ

-- `while (i < max_clients && client_info_list[i].cli_thread) i++;`
pub free_slot : List Client → ℕ → Option ℕ
free_slot [] i = none
free_slot (c ∷ cs) i = if is_busy c then free_slot cs (i + 1) else some i

-- The fields that are written; `strncpy` copies 15 bytes of the address at most.
abbrev pub connected : Client → Incoming → Client
connected c n = record c {
  cli_socket = n.newsocket;
  cli_ipadr = take 15 n.dotaddr;
  cli_ts = n.now;
  cli_devid = 0;
  target_deviceid = 0;
  target_socket = negsuc 0;
  target_cli_idx = negsuc 0;
  target_usb_idx = pos 0;
  use_unicode_table = false;
  cli_is_cmdconn = n.command_connection;
  cli_thread = n.thread;
}

-- The slot that the connection gets, or `none` when it is turned away.
unfoldable pub accept_client : Server → Incoming → Option ℕ × Server
unfolding free_slot
accept_client s n = elim (free_slot s.client_info_list 0) [
  | none ↦ (none, s)
  | some i ↦ (
    some i,
    record {
      client_info_list =
          set s.client_info_list i (connected (get_or s.client_info_list i no_client) n);
      num_clients = s.num_clients + 1;
    },
  )
]

-- The end of `cmd_clientsrv`, and `trk_thread_cleanup`. The slot is one in use, so `num_clients` is not 0.
unfoldable pub release_client : Server → ℕ → Server
release_client s i = record {
  client_info_list = set s.client_info_list i no_client;
  num_clients = s.num_clients - 1;
}
