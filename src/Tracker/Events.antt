-- ===== src/Tracker/Events.antt =====
-- What src/tracker.c does with the data that it has read from a device: `arrivingPackageType`, and the
-- loop of `tracker_clientsrv` that cuts the data at each line end and handles package by package.
use g7ctrl.Common.{
  All, Bool, Bytes, List, Rc, [], ap, append-nil, append_assoc, arith, drop, failure, false, get_or,
  if◌then◌else◌, length, length-append, map, not, refl, suc, success, sym, zero, ℕ, ◌&&◌, ◌++◌, ◌<◌,
  ◌==◌, ◌||◌, ◌∙◌, ◌∷◌, ◌≡◌, ◌≢◌,
}
use g7ctrl.Common.Int.{ℤ, pos, negsuc}
use g7ctrl.Xstr.Number.{xatoi}
use g7ctrl.Xstr.Split.{xstrsplitfields}
use g7ctrl.CmdQueue.{CmdQueue}
use g7ctrl.DeviceReply.{head}
use g7ctrl.DeviceReply.Wire.{crnl, Line}
use g7ctrl.Tracker.{handle_cmd_reply_package}

-- `unknown` is -1.
pub data PackageType : Type 0 where
  cmd_reply loc unknown : PackageType

abbrev is_zero : ℤ → Bool
is_zero (pos n) = n == 0
is_zero (negsuc n) = false

-- A location has 11 fields, and with the event id 0 it is the reply to GETLOCATION.
location_type : Rc × List Bytes → PackageType
location_type (failure, flds) = unknown
location_type (success, flds) =
    if not (length flds == 11)
    then unknown
    else if is_zero (xatoi (get_or flds 8 [])).0
    then cmd_reply
    else loc

unfoldable pub arriving_package_type : Bytes → PackageType
unfolding location_type
arriving_package_type buffer =
    if head buffer == b'$'
    then cmd_reply
    else if head buffer == b'3' || head buffer == b'['
    then location_type (xstrsplitfields buffer b',')
    else unknown

-- What the packages of a device change: the command queue, and the packages that are handed to
-- `db_store_locations`, in order.
pub record Device : Type 0 where
  pub queue : CmdQueue
  pub stored : List Bytes

-- A package whose line end is in `event`, with the memory behind the NUL that is put after it.
handle_typed : ℕ → Device → Bytes → Bytes → PackageType → Device
handle_typed cli_devid d event behind cmd_reply = record d {
  queue = (handle_cmd_reply_package cli_devid d.queue (event ++ 0 ∷ behind)).1;
}
handle_typed cli_devid d event behind loc = record d { stored = d.stored ++ event ∷ [] }
handle_typed cli_devid d event behind unknown = d

unfoldable pub handle_event : ℕ → Device → Bytes → Bytes → Device
unfolding handle_typed
handle_event cli_devid d event behind =
    handle_typed cli_devid d event behind (arriving_package_type event)

-- `while (*ptr && *ptr != '\r') ptr++;`: the bytes passed over, and the memory at `ptr`.
pub skip_to_cr : Bytes → Bytes × Bytes
skip_to_cr [] = ([], [])
skip_to_cr (c ∷ p) =
    let r = skip_to_cr p in if c == 0 || c == b'\r' then ([], c ∷ p) else (c ∷ r.0, r.1)

-- The loop over the packages; `p` is the memory from `ptr` on. Each round goes on by two bytes at
-- least, so the length of the memory is enough.
pub event_loop : ℕ → ℕ → Device → Bytes → Device
unfolding skip_to_cr
event_loop zero cli_devid d p = d
event_loop (suc fuel) cli_devid d p =
    let r = skip_to_cr p in
    let next = drop 2 r.1 in
    let d' = handle_event cli_devid d (r.0 ++ crnl) (drop 1 next) in
    let more = event_loop fuel cli_devid d' next in
    if not (head r.1 == b'\r' && head (drop 1 r.1) == b'\n')
    then d
    else if head next == 0
    then d'
    else more

-- `buffer` is the memory after a read that has put a NUL behind the data. A keep-alive package takes
-- another way.
unfoldable pub handle_data : ℕ → Device → Bytes → Device
unfolding event_loop
handle_data cli_devid d buffer =
    if head buffer == 0
    then d
    else if head buffer == 0xD0 && head (drop 1 buffer) == 0xD7
    then d
    else event_loop (length buffer) cli_devid d buffer

-- Packages as a device sends them, and what lies behind in the memory.
abbrev pub stream : List Bytes → Bytes → Bytes
stream [] stale = 0 ∷ stale
stream (e ∷ es) stale = e ++ b'\r' ∷ b'\n' ∷ stream es stale

-- One package after the other.
abbrev pub handle_each : ℕ → Device → List Bytes → Bytes → Device
handle_each cli_devid d [] stale = d
handle_each cli_devid d (e ∷ es) stale =
    handle_each cli_devid (handle_event cli_devid d (e ++ crnl) (drop 1 (stream es stale))) es stale

skip_to_cr-Line : (e p : Bytes) → Line e → skip_to_cr (e ++ b'\r' ∷ p) ≡ (e, b'\r' ∷ p)
unfolding skip_to_cr
skip_to_cr-Line [] p h = refl
skip_to_cr-Line (c ∷ e) p h = ground (arith, skip_to_cr-Line e p h.1)

-- A package is text that a device begins with a byte of its own.
abbrev pub Package : Bytes → Type 0
Package e = Line e × (0 < length e)

stream-head :
    (e : Bytes) (es : List Bytes) (stale : Bytes)
    → Package e
    → (head (stream (e ∷ es) stale) == 0) ≡ false
stream-head [] es stale h = absurd (omega arith)
stream-head (c ∷ e) es stale h = ground arith

round :
    (fuel cli_devid : ℕ) (d : Device) (e : Bytes) (es : List Bytes) (stale : Bytes)
    → Line e
    → event_loop (suc fuel) cli_devid d (stream (e ∷ es) stale) ≡ (
        if head (stream es stale) == 0
        then handle_event cli_devid d (e ++ crnl) (drop 1 (stream es stale))
        else event_loop fuel cli_devid
            (handle_event cli_devid d (e ++ crnl) (drop 1 (stream es stale)))
            (stream es stale))
unfolding event_loop
round fuel cli_devid d e es stale h = rw (skip_to_cr-Line e (b'\n' ∷ stream es stale) h) refl

event_loop_each :
    (fuel cli_devid : ℕ) (d : Device) (e : Bytes) (es : List Bytes) (stale : Bytes)
    → length es < fuel
    → Line e
    → All Package es
    → event_loop fuel cli_devid d (stream (e ∷ es) stale) ≡ handle_each cli_devid d (e ∷ es) stale
event_loop_each zero cli_devid d e es stale f h hs = absurd (omega arith)
event_loop_each (suc fuel) cli_devid d e [] stale f h hs = round fuel cli_devid d e [] stale h
event_loop_each (suc fuel) cli_devid d e (x ∷ es) stale f h hs =
    round fuel cli_devid d e (x ∷ es) stale h
    ∙ rw (stream-head x es stale hs.0) (
        event_loop_each fuel cli_devid
          (handle_event cli_devid d (e ++ crnl) (drop 1 (stream (x ∷ es) stale))) x es stale
          (omega arith) hs.0.0 hs.1)

stream-length : (es : List Bytes) (stale : Bytes) → length es < length (stream es stale)
stream-length [] stale = omega arith
stream-length (e ∷ es) stale =
    omega (arith, stream-length es stale, length-append e (b'\r' ∷ b'\n' ∷ stream es stale))

ordinary :
    (cli_devid : ℕ) (d : Device) (b : Bytes)
    → (head b == 0) ≡ false
    → (head b == 0xD0) ≡ false
    → handle_data cli_devid d b ≡ event_loop (length b) cli_devid d b
unfolding handle_data
ordinary cli_devid d b z k = rw (z, k) refl

-- Data of one or more packages, each not empty, without NUL and carriage return before its line end
-- and the first not starting as a keep-alive package, is handled package by package in the order of
-- arrival, each with its line end, whatever the buffer held before.
pub handle_data_each :
    (cli_devid : ℕ) (d : Device) (e : Bytes) (es : List Bytes) (stale : Bytes)
    → Package e
    → All Package es
    → head e ≢ 0xD0
    → handle_data cli_devid d (stream (e ∷ es) stale) ≡ handle_each cli_devid d (e ∷ es) stale
handle_data_each cli_devid d [] es stale h hs k = absurd (omega arith)
handle_data_each cli_devid d (c ∷ e) es stale h hs k =
    let b = stream ((c ∷ e) ∷ es) stale in
    ordinary cli_devid d b (ground arith) (ground arith)
    ∙ event_loop_each (length b) cli_devid d (c ∷ e) es stale
        (omega (arith, stream-length ((c ∷ e) ∷ es) stale)) h.0 hs

-- Locations that are no replies are all stored, in the order of arrival, and the command queue is
-- left alone.
locations_stored :
    (cli_devid : ℕ) (d : Device) (es : List Bytes) (stale : Bytes)
    → All (λ e. arriving_package_type (e ++ crnl) ≡ loc) es
    → handle_each cli_devid d es stale ≡ record d { stored = d.stored ++ map (λ e. e ++ crnl) es }
unfolding handle_event
locations_stored cli_devid d [] stale h =
    ap (λ l. record d { stored = l }) (sym (append-nil d.stored))
locations_stored cli_devid d (e ∷ es) stale h =
    rw (h.0, handle_typed)
      (locations_stored cli_devid (record d { stored = d.stored ++ (e ++ crnl) ∷ [] }) es stale h.1
        ∙ ap (λ l. record d { stored = l })
            (append_assoc d.stored ((e ++ crnl) ∷ []) (map (λ e. e ++ crnl) es)))
