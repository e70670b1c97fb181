-- ===== src/Usb/Cycle.antt =====
-- A port from the moment that a device is plugged in until it is unplugged, of
-- src/connwatcher.c.
use g7ctrl.Common.{
  List, Option, ap, arith, false, get_or-set_self, length, length-set, lt→ltb, refl, some, true, ℕ,
  ◌+◌, ◌-◌, ◌<◌, ◌∙◌, ◌≡◌,
}
use g7ctrl.Usb.{
  Port, Usb, no_port, port, max_usb_connections, with_port, update_usb_stat, attach, first_answer,
  establish, is_usb_connected,
}
use g7ctrl.Usb.Ports.{IsValid}

port-with_port :
    (u : Usb) (idx : ℕ) (p : Port) (n : ℕ)
    → idx < length u.usb_conn_status
    → port (with_port u idx p n) idx ≡ p
port-with_port u idx p n h = get_or-set_self u.usb_conn_status idx p no_port h

connect_lem :
    (now : ℕ) (u : Usb) (idx : ℕ)
    → idx < length u.usb_conn_status
    → (port u idx).is_connected ≡ false
    → let w = update_usb_stat now u idx true in
      ((port w idx).is_connected ≡ true)
      × ((port w idx).device_id ≡ (port u idx).device_id)
      × (w.num_usb_connections ≡ u.num_usb_connections + 1)
      × (length w.usb_conn_status ≡ length u.usb_conn_status)
unfolding update_usb_stat
connect_lem now u idx h f =
    let p : Port = record (port u idx) { is_connected = true; ts = now } in
    let at = port-with_port u idx p (u.num_usb_connections + 1) h in
    rw (f, update_usb_stat)
      (
        ap (λ (p : Port). p.is_connected) at,
        ap (λ (p : Port). p.device_id) at,
        refl,
        length-set u.usb_conn_status idx p,
      )

disconnect_lem :
    (now : ℕ) (u : Usb) (idx : ℕ)
    → idx < length u.usb_conn_status
    → (port u idx).is_connected ≡ true
    → let w = update_usb_stat now u idx false in
      ((port w idx).is_connected ≡ false) × (w.num_usb_connections ≡ u.num_usb_connections - 1)
unfolding update_usb_stat
disconnect_lem now u idx h t =
    let p : Port = record (port u idx) {
      is_attached = false;
      is_connected = false;
      device_id = 0;
      ts = 0;
    } in
    let at = port-with_port u idx p (u.num_usb_connections - 1) h in
    rw (t, update_usb_stat) (ap (λ (p : Port). p.is_connected) at, refl)

established :
    (u : Usb) (now idx id : ℕ) (answers : List (Option ℕ))
    → idx < length u.usb_conn_status
    → (port u idx).is_connected ≡ false
    → first_answer 3 answers ≡ some id
    → let up = establish now (attach u idx) idx answers in
      ((port up idx).is_connected ≡ true)
      × ((port up idx).device_id ≡ id)
      × (up.num_usb_connections ≡ u.num_usb_connections + 1)
      × (length up.usb_conn_status ≡ length u.usb_conn_status)
unfolding establish attach
established u now idx id answers h f e =
    let p1 : Port = record (port u idx) { is_attached = true } in
    let u1 : Usb = with_port u idx p1 u.num_usb_connections in
    let at1 = port-with_port u idx p1 u.num_usb_connections h in
    let p2 : Port = record (port u1 idx) { device_id = id } in
    let u2 : Usb = with_port u1 idx p2 u.num_usb_connections in
    let long1 = length-set u.usb_conn_status idx p1 in
    let long2 = length-set u1.usb_conn_status idx p2 in
    let at2 = port-with_port u1 idx p2 u.num_usb_connections (omega (arith, long1)) in
    let off : (port u2 idx).is_connected ≡ false =
      ap (λ (p : Port). p.is_connected) at2 ∙ ap (λ (p : Port). p.is_connected) at1 ∙ f in
    let (on, known, more, long) = connect_lem now u2 idx (omega (arith, long1, long2)) off in
    rw (e, establish)
      (on, known ∙ ap (λ (p : Port). p.device_id) at2, more, omega (arith, long, long2, long1))

may_send :
    (u : Usb) (idx id : ℕ)
    → idx < max_usb_connections
    → 0 < u.num_usb_connections
    → (port u idx).is_connected ≡ true
    → (port u idx).device_id ≡ id
    → 0 < id
    → is_usb_connected u idx ≡ true
unfolding is_usb_connected
may_send u idx id h n on known pos_id =
    rw (on, known, lt→ltb 0 u.num_usb_connections n) (ground arith)

may_not_send :
    (u : Usb) (idx : ℕ) → (port u idx).is_connected ≡ false → is_usb_connected u idx ≡ false
unfolding is_usb_connected
may_not_send u idx off = rw off (ground arith)

-- No other thread writes to the ports meanwhile. A device is plugged into a free port and answers one of the first three questions with an id that
-- is not 0: then commands may go to the port, and after it is unplugged they may not, and the
-- number of connections is as before.
pub plug_cycle :
    (u : Usb) (now later idx id : ℕ) (answers : List (Option ℕ))
    → IsValid u
    → idx < max_usb_connections
    → (port u idx).is_connected ≡ false
    → first_answer 3 answers ≡ some id
    → 0 < id
    → let up = establish now (attach u idx) idx answers in
      let down = update_usb_stat later up idx false in
      (is_usb_connected up idx ≡ true)
      × (is_usb_connected down idx ≡ false)
      × (up.num_usb_connections ≡ u.num_usb_connections + 1)
      × (down.num_usb_connections ≡ u.num_usb_connections)
plug_cycle u now later idx id answers v h f e pos_id =
    let up = establish now (attach u idx) idx answers in
    let (on, known, more, long) = established u now idx id answers (omega (arith, v.whole)) f e in
    let (off, less) = disconnect_lem later up idx (omega (arith, long, v.whole)) on in
    (
      may_send up idx id h (omega (arith, more)) on known pos_id,
      may_not_send (update_usb_stat later up idx false) idx off,
      more,
      omega (arith, less, more),
    )
