-- ===== src/Tests/Clients.antt =====
-- Runs of the list of clients, of the USB ports and of the data of a device.
use g7ctrl.Common.{
  Bytes, [], arith, codes, failure, false, get_or, none, refl, some, success, true, ℕ, ◌&&◌, ◌+◌,
  ◌∷◌, ◌≡◌, ◌≢◌,
}
use g7ctrl.Common.Int.{pos}
use g7ctrl.Clients.{
  Client, Server, Incoming, no_client, start_server, connected, accept_client, release_client,
}
use g7ctrl.Clients.Slots.{IsValid, start-IsValid}
use g7ctrl.Clients.Sessions.{sessions, session_count, connect, put, accept_refines, release_refines}
use g7ctrl.Clients.KeepAlive.{
  superseded, is_nil, has, keep_alive_package, handle_keep_alive_package, keep_alive_registers,
}
use g7ctrl.Clients.Target.{
  over_usb, aimed, no_device, nickname_set, tell_target, find_devid,
  set_gprs_device_target_by_index, set_gprs_device_target_by_nickname, route,
}
use g7ctrl.Clients.Target.Nth.{nth_slot, device_slots, target_by_index_nth, nickname_stays_on_usb}
use g7ctrl.Clients.Steps.{Reachable, Step, Server-IsValid}
use g7ctrl.CmdQueue.{cmdqueue_init}
use g7ctrl.Tracker.Events.{Device, handle_data, handle_each, stream, Package, handle_data_each}
use g7ctrl.Usb.{init_usb_status, port, attach, establish, update_usb_stat, is_usb_connected}
use g7ctrl.Usb.Cycle.{plug_cycle}
use g7ctrl.Usb.Ports as Ports
use g7ctrl.Xstr.Number.{xatol, to_unsigned}
use mathlib.Core.Option

abbrev tracker : Incoming
tracker = record {
  now = 100;
  newsocket = 7;
  dotaddr = codes "10.0.0.2";
  command_connection = false;
  thread = 11;
}

accept_refines_example :
    (session_count (sessions (start_server 2)) ≡ 0)
    × (connect 2 (connected no_client tracker) (sessions (start_server 2))
        ≡ Option.map
            (λ _. sessions (accept_client (start_server 2) tracker).1)
            (accept_client (start_server 2) tracker).0)
    × ((accept_client (start_server 2) tracker).0 ≡ none
        → (accept_client (start_server 2) tracker).1 ≡ start_server 2)
unfolding start_server
accept_refines_example = accept_refines 2 (start_server 2) tracker (start-IsValid 2) (omega arith)

abbrev device : Client
device = connected no_client tracker

abbrev one_device : Server
one_device = record { client_info_list = device ∷ no_client ∷ []; num_clients = 1 }

one_device-IsValid : IsValid 2 one_device
one_device-IsValid = record {
  whole = refl;
  slots = (
    (omega arith, (λ e. omega arith), (λ e. cc)),
    ((omega arith, (λ e. cc), (λ e. (refl, refl, refl))), tt),
  );
  counted = refl;
}

release_refines_example :
    let t = release_client one_device 0 in
    (put device (sessions t) ≡ sessions one_device)
    × (get_or t.client_info_list 0 no_client ≡ no_client)
    × ((j : ℕ)
        → 0 ≢ j
        → get_or t.client_info_list j no_client ≡ get_or one_device.client_info_list j no_client)
    × (t.num_clients + 1 ≡ one_device.num_clients)
    × (session_count (sessions t) ≡ t.num_clients)
release_refines_example = release_refines 2 one_device 0 one_device-IsValid refl

Server-IsValid_example : IsValid 2 (accept_client (start_server 2) tracker).1
Server-IsValid_example =
    Server-IsValid 2 (accept_client (start_server 2) tracker).1
      (Reachable.after Reachable.start (Step.accept tracker (omega arith) (omega arith)))

keep_alive_registers_example :
    let k = handle_keep_alive_package true one_device 0 (keep_alive_package 3000000001 5) 8 in
    (k.result ≡ pos 0)
    × (k.server.client_info_list ≡ record device { cli_devid = 3000000001 } ∷ no_client ∷ [])
    × (has 0 k.cancelled ≡ (true && true && superseded 3000000001 device device))
    × (k.notify ≡ (true && is_nil k.cancelled))
keep_alive_registers_example = keep_alive_registers true one_device 0 3000000001 5 0 (omega arith)

target_by_index_nth_example :
    set_gprs_device_target_by_index (no_client ∷ device ∷ []) no_client (pos 1)
    ≡ (elim (nth_slot (pos 1) (device_slots (no_client ∷ device ∷ []) 0)) [
      | none ↦ (failure, no_client, no_device (pos 1))
      | some idx ↦ (
        success,
        aimed (no_client ∷ device ∷ []) no_client idx,
        tell_target (pos 1) (get_or (no_client ∷ device ∷ []) idx no_client),
      )
    ])
target_by_index_nth_example =
    target_by_index_nth (no_client ∷ device ∷ []) no_client (pos 1) (λ e. cc)

abbrev known : Client
known = record device { cli_devid = 3000000001 }

abbrev user : Client
user = record device { cli_is_cmdconn = true; cli_socket = 5 }

known_found : find_devid (to_unsigned (xatol (codes "3000000001")).0) (known ∷ []) 0 ≡ some 0
unfolding find_devid xatol
known_found = refl

nickname_stays_on_usb_example :
    let r = set_gprs_device_target_by_nickname (known ∷ []) user (some (codes "3000000001")) in
    (r.0 ≡ success)
    × (r.1.target_socket ≡ pos 7)
    × (r.1.target_deviceid ≡ to_unsigned (xatol (codes "3000000001")).0)
    × (r.2 ≡ nickname_set (to_unsigned (xatol (codes "3000000001")).0))
    × (route r.1 ≡ over_usb)
nickname_stays_on_usb_example =
    nickname_stays_on_usb (known ∷ []) user (codes "3000000001") 0 0 refl refl known_found

abbrev nothing_yet : Device
nothing_yet = record { queue = cmdqueue_init; stored = [] }

abbrev text1 : Bytes
text1 = codes "3000000001,20140107232526,17.961028,59.366470,0,0,0,0,1,4.20V,2"

abbrev text2 : Bytes
text2 = codes "$OK:VLO"

text1-Package : Package text1
text1-Package = omega arith

text2-Package : Package text2
text2-Package = omega arith

handle_data_each_example :
    handle_data 3000 nothing_yet (stream (text1 ∷ text2 ∷ []) (codes "old"))
    ≡ handle_each 3000 nothing_yet (text1 ∷ text2 ∷ []) (codes "old")
handle_data_each_example =
    handle_data_each 3000 nothing_yet text1 (text2 ∷ []) (codes "old") text1-Package
      (text2-Package, tt) (omega arith)

abbrev names : ℕ → Bytes
names n = codes "/dev/ttyACM"

not_yet : (port (init_usb_status names 0) 2).is_connected ≡ false
unfolding init_usb_status
not_yet = refl

plug_cycle_example :
    let up = establish 50 (attach (init_usb_status names 0) 2) 2 (none ∷ some 3000000001 ∷ []) in
    let down = update_usb_stat 90 up 2 false in
    (is_usb_connected up 2 ≡ true)
    × (is_usb_connected down 2 ≡ false)
    × (up.num_usb_connections ≡ (init_usb_status names 0).num_usb_connections + 1)
    × (down.num_usb_connections ≡ (init_usb_status names 0).num_usb_connections)
plug_cycle_example =
    plug_cycle (init_usb_status names 0) 50 90 2 3000000001 (none ∷ some 3000000001 ∷ [])
      (Ports.Usb-IsValid names 0 (init_usb_status names 0) Ports.Reachable.start) (omega arith)
      not_yet refl (omega arith)
