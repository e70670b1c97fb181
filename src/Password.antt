-- ===== src/Password.antt =====
-- The password of a command client, `check_password` of src/g7cmd.c.
use g7ctrl.Common.{
  Bool, Bytes, List, Option, Rc, [], failure, if◌then◌else◌, none, some, str_eq, suc, success, zero,
  ℕ, ◌<◌, ◌∷◌, ◌≡◌,
}
use g7ctrl.Xstr.Trim.{xstrtrim_crnl}

-- What a wait for the user brings: nothing in two minutes, or the bytes that were read, of which there are none
-- when the connection ends. A read that fails is left out.
pub data Attempt : Type 0 where
  timeout : Attempt
  typed : Bytes → Attempt

-- The loop with the tries that are left; `none` while it waits.
pub try_password : ℕ → Bytes → List Attempt → Option Rc
try_password zero client_pwd is = some failure
try_password (suc tries) client_pwd [] = none
try_password (suc tries) client_pwd (timeout ∷ is) = some failure
try_password (suc tries) client_pwd (typed b ∷ is) =
    let again = try_password tries client_pwd is in
    if str_eq (xstrtrim_crnl b) client_pwd then some success else again

unfoldable pub check_password : Bool → Bytes → List Attempt → Option Rc
unfolding try_password
check_password require_client_pwd client_pwd is =
    if require_client_pwd then try_password 3 client_pwd is else some success

-- Attempt `k` is the password, and no wait before it ended without one.
abbrev pub EnteredAt : ℕ → Bytes → List Attempt → Type 0
EnteredAt k client_pwd [] = ⊥
EnteredAt k client_pwd (timeout ∷ is) = ⊥
EnteredAt zero client_pwd (typed b ∷ is) = xstrtrim_crnl b ≡ client_pwd
EnteredAt (suc k) client_pwd (typed b ∷ is) = EnteredAt k client_pwd is

abbrev pub Entered : ℕ → Bytes → List Attempt → Type 0
Entered tries client_pwd is = (k : ℕ) × (k < tries) × EnteredAt k client_pwd is
