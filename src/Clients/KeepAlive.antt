-- ===== src/Clients/KeepAlive.antt =====
-- `handleKeepAlivePackage` of src/tracker.c: a device tells its id, and connections of the same device
-- from before are cancelled.
use g7ctrl.Common.{
  Bool, Bool-cases, Bytes, List, [], ap, arith, false, get_or, if◌then◌else◌, inl, inr, length,
  le→ltb-false, ltb, not, refl, set, str_eq, suc, true, zero, ℕ, ◌%◌, ◌&&◌, ◌*◌, ◌+◌, ◌/◌, ◌<◌,
  ◌==◌, ◌^◌, ◌||◌, ◌∙◌, ◌∷◌, ◌≡◌,
}
use g7ctrl.Common.Int.{ℤ, pos, negsuc}
use g7ctrl.Clients.{Client, Server, no_client}

abbrev pub keep_alive_len : ℕ
keep_alive_len = 8

-- The four bytes of the id, the lowest first, as an `unsigned`.
abbrev pub package_devid : Bytes → ℕ
package_devid b =
    (get_or b 4 0 * 1 + get_or b 5 0 * 256 + get_or b 6 0 * 65536 + get_or b 7 0 * 16777216)
    % 2 ^ 32

-- The conditions under which the thread of a connection is cancelled.
abbrev pub superseded : ℕ → Client → Client → Bool
superseded devid me c =
    not (c.cli_ts == 0)
    && devid == c.cli_devid
    && not (str_eq c.cli_ipadr me.cli_ipadr)
    && not (c.cli_socket == me.cli_socket)

-- The slots whose threads the loop cancels, from slot `i` on.
pub cancel_old : ℕ → Client → List Client → ℕ → List ℕ
cancel_old devid me [] i = []
cancel_old devid me (c ∷ cs) i =
    let rest = cancel_old devid me cs (i + 1) in if superseded devid me c then i ∷ rest else rest

-- `notify` is whether `chk_connection_notification` is called, and `result` what the function returns.
pub record KeptAlive : Type 0 where
  pub server : Server
  pub cancelled : List ℕ
  pub notify : Bool
  pub result : ℤ

abbrev pub is_nil : List ℕ → Bool
is_nil [] = true
is_nil (x ∷ xs) = false

-- The part under `0 == cli_info->cli_devid`.
pub register_devid : Server → ℕ → ℕ → ℤ → KeptAlive
unfolding cancel_old
register_devid s i devid result =
    let me = get_or s.client_info_list i no_client in
    let old = cancel_old devid me s.client_info_list 0 in
    record {
      server = record s {
        client_info_list = set s.client_info_list i (record me { cli_devid = devid });
      };
      cancelled = old;
      notify = is_nil old;
      result = result;
    }

abbrev unregistered : Server → ℤ → KeptAlive
unregistered s result = record { server = s; cancelled = []; notify = false; result = result }

-- `written` is whether the package goes back to the device whole.
unfoldable pub handle_keep_alive_package : Bool → Server → ℕ → Bytes → ℕ → KeptAlive
unfolding register_devid
handle_keep_alive_package written s i buffer len =
    if len == keep_alive_len && get_or buffer 0 0 == 0xD0 && get_or buffer 1 0 == 0xD7
    then (if (get_or s.client_info_list i no_client).cli_devid == 0
        then register_devid s i (package_devid buffer) (if written then pos 0 else negsuc 0)
        else unregistered s (if written then pos 0 else negsuc 0))
    else unregistered s (pos 1)

-- A package as the device sends it.
abbrev pub keep_alive_package : ℕ → ℕ → Bytes
keep_alive_package devid seq =
    0xD0
    ∷ 0xD7
    ∷ (seq % 256)
    ∷ (seq / 256)
    ∷ (devid % 256)
    ∷ (devid / 256 % 256)
    ∷ (devid / 65536 % 256)
    ∷ (devid / 16777216)
    ∷ []

package_devid-package :
    (devid seq : ℕ) → devid < 2 ^ 32 → package_devid (keep_alive_package devid seq) ≡ devid
package_devid-package devid seq h = omega arith

abbrev pub has : ℕ → List ℕ → Bool
has j [] = false
has j (x ∷ xs) = x == j || has j xs

cancel_above :
    (devid : ℕ) (me : Client) (cs : List Client) (i j : ℕ)
    → j < i
    → has j (cancel_old devid me cs i) ≡ false
unfolding cancel_old
cancel_above devid me [] i j h = refl
cancel_above devid me (c ∷ cs) i j h = elim (Bool-cases (superseded devid me c)) [
  | inl e ↦ rw e (ground (arith, cancel_above devid me cs (i + 1) j))
  | inr e ↦ rw e (cancel_above devid me cs (i + 1) j (omega arith))
]

cancel_old_lem :
    (devid : ℕ) (me : Client) (cs : List Client) (i j : ℕ)
    → has (i + j) (cancel_old devid me cs i)
      ≡ (ltb j (length cs) && superseded devid me (get_or cs j no_client))
unfolding cancel_old
cancel_old_lem devid me [] i j = rw (le→ltb-false j 0 (omega arith)) refl
cancel_old_lem devid me (c ∷ cs) i zero = elim (Bool-cases (superseded devid me c)) [
  | inl e ↦ rw e (ground arith)
  | inr e ↦ rw e (ground (arith, cancel_above devid me cs (i + 1) (i + 0)))
]
cancel_old_lem devid me (c ∷ cs) i (suc j) =
    let ih = cancel_old_lem devid me cs (i + 1) j in
    let shift : has (i + suc j) (cancel_old devid me cs (i + 1))
        ≡ has (i + 1 + j) (cancel_old devid me cs (i + 1)) =
      ap (λ k. has k (cancel_old devid me cs (i + 1))) (omega arith) in
    let other : (i == i + suc j) ≡ false = ground arith in
    let same : ltb (suc j) (suc (length cs)) ≡ ltb j (length cs) = ground arith in
    elim (Bool-cases (superseded devid me c)) [
      | inl e ↦ rw (e, other, same) (shift ∙ ih)
      | inr e ↦ rw (e, same) (shift ∙ ih)
    ]

-- In a slot in use a package with the number `seq` and the id `devid` is answered 0, or -1 if it
-- cannot be sent back. If the slot has no id yet it takes this one, and the other slots stay as they
-- are; the threads that are cancelled are exactly those of connections with the id, another address
-- and another socket, and a notification is made if there is none. If the slot has an id, nothing
-- changes.
pub keep_alive_registers :
    (written : Bool) (s : Server) (i devid seq j : ℕ)
    → devid < 2 ^ 32
    → let me = get_or s.client_info_list i no_client in
      let k = handle_keep_alive_package written s i (keep_alive_package devid seq) 8 in
      (k.result ≡ (if written then pos 0 else negsuc 0))
      × (k.server.client_info_list ≡ (
          if me.cli_devid == 0
          then set s.client_info_list i (record me { cli_devid = devid })
          else s.client_info_list))
      × (has j k.cancelled ≡ (
          me.cli_devid == 0
          && ltb j (length s.client_info_list)
          && superseded devid me (get_or s.client_info_list j no_client)))
      × (k.notify ≡ (me.cli_devid == 0 && is_nil k.cancelled))
unfolding handle_keep_alive_package register_devid
keep_alive_registers written s i devid seq j h =
    let me = get_or s.client_info_list i no_client in
    let id = package_devid-package devid seq h in
    elim (Bool-cases (me.cli_devid == 0)) [
      | inl e ↦
          rw (handle_keep_alive_package, e, id)
            (
              refl,
              refl,
              ap (λ k. has k (cancel_old devid me s.client_info_list 0)) {x = j} {y = 0 + j}
                    (omega arith)
                  ∙ cancel_old_lem devid me s.client_info_list 0 j,
              refl,
            )
      | inr e ↦ rw (handle_keep_alive_package, e) (refl, refl, refl, refl)
    ]
