-- ===== src/DevCmd/Exec/Allowed.antt =====
-- What the functions for the users' commands of src/g7cmd.c hand to `prepare_cmd_to_device`.
use g7ctrl.Common.{
  Bool, Bool-cases, Bytes, List, Option, Option-cases, [], ap, arith, codes, false, false≢true,
  get_or, inl, inr, length, none, not, refl, some, subst, suc, sym, table_holds, table_holds_lem,
  true, ℕ, ◌&&◌, ◌+◌, ◌<◌, ◌==◌, ◌||◌, ◌∙◌, ◌∷◌, ◌≡◌, ◌⊎◌,
}
use Prim.Native.Nat.{bit_and}
use g7ctrl.Common.Int.{ℤ}
use g7ctrl.Xstr.Case.{xstricmp, is_zero}
use g7ctrl.DevCmd.Table.{G7Command, g7command_list, command_at, no_command}
use g7ctrl.DevCmd.Prepare.{Handled}
use g7ctrl.DevCmd.Exec.{
  Executed, find_typed, exec_typed, is_binary, is_get, is_set, is_do, exec_binary_command,
  exec_get_command, exec_set_command, exec_do_command,
}
use g7ctrl.DevCmd.Exec.Handlers.{mode_of, Calls, call_handler_lem}

index_of : Option ℕ → ℕ
index_of none = 0
index_of (some i) = i

find_typed_lem :
    (fits : ℕ → Bool) (name : Bytes) (cs : List G7Command) (base i : ℕ)
    → find_typed fits name cs base ≡ some i
    → (k : ℕ) × (i ≡ base + k) × (k < length cs) × (fits (get_or cs k no_command).type ≡ true)
unfolding find_typed index_of
find_typed_lem fits name [] base i e = cc
find_typed_lem fits name (c ∷ cs) base i e =
    elim (Bool-cases (fits c.type && is_zero (xstricmp name c.srvcmd))) [
      | inl t ↦
          let z = rw (t, find_typed) at e in
          (0, sym (ap index_of z) ∙ omega arith, omega arith, ground arith)
      | inr f ↦
          let z = rw (f, find_typed) at e in
          let (k, at, inside, ok) = find_typed_lem fits name cs (base + 1) i z in
          (suc k, omega (arith, at), omega (arith, inside), ok)
    ]

-- Whether the handler of an entry of a fitting type prepares commands in a mode that the entry has.
row_allowed : (ℕ → Bool) → ℕ → ℕ → Bool
row_allowed fits gsflag i =
    not (fits (command_at i).type)
    || not (bit_and (mode_of (command_at i).cmdhandler gsflag) (command_at i).modes == 0)

implied : (a b : Bool) → (not a || not b) ≡ true → a ≡ true → b ≡ false
implied true false h t = refl
implied true true h t = absurd (false≢true h)
implied false b h t = absurd (false≢true t)

Unhandled : Executed → Type 0
Unhandled (Executed.handled j h) = ⊥
Unhandled (Executed.special j h) = Unit
Unhandled Executed.unknown_command = Unit

exec_typed_allowed :
    (fits : ℕ → Bool) (gsflag : ℕ) (name : Bytes) (dialog : ℤ × Bytes) (i m : ℕ) (args : Bytes)
    → table_holds 30 (row_allowed fits gsflag) ≡ true
    → exec_typed fits name gsflag dialog ≡ Executed.handled i (Handled.prepares m args)
    → (bit_and m (command_at i).modes == 0) ≡ false
unfolding exec_typed Unhandled row_allowed command_at
exec_typed_allowed fits gsflag name dialog i m args table e =
    elim (Option-cases (find_typed fits name g7command_list 0)) [
      | inl w ↦ let z = rw (w, exec_typed) at e in absurd (subst Unhandled z tt)
      | inr (j, w) ↦
          let z = rw (w, exec_typed) at e in
          let (k, at, inside, ok) = find_typed_lem fits name g7command_list 0 j w in
          let good =
            subst (Calls j (mode_of (command_at j).cmdhandler gsflag)) z
              (call_handler_lem (command_at j).cmdhandler j gsflag dialog) in
          let same : j ≡ k = omega (arith, at) in
          let row =
            table_holds_lem 30 (row_allowed fits gsflag) j table
              (subst (λ x. x < 30) (sym same) inside) in
          let fit = ap (λ x. fits (command_at x).type) same ∙ ok in
          let mode = mode_of (command_at j).cmdhandler gsflag in
          ap (λ x. bit_and x (command_at i).modes == 0) good.1
          ∙ ap (λ x. bit_and mode (command_at x).modes == 0) good.0
          ∙ implied (fits (command_at j).type) (bit_and mode (command_at j).modes == 0) row fit
    ]

on_table : table_holds 30 (row_allowed is_binary 1) ≡ true
unfolding table_holds row_allowed command_at
on_table = refl

off_table : table_holds 30 (row_allowed is_binary 2) ≡ true
unfolding table_holds row_allowed command_at
off_table = refl

get_table : table_holds 30 (row_allowed is_get 0) ≡ true
unfolding table_holds row_allowed command_at
get_table = refl

set_table : table_holds 30 (row_allowed is_set 1) ≡ true
unfolding table_holds row_allowed command_at
set_table = refl

do_table : table_holds 30 (row_allowed is_do 0) ≡ true
unfolding table_holds row_allowed command_at
do_table = refl

-- Whatever name, mode and dialog a user comes with: a command that `exec_binary_command`,
-- `exec_get_command`, `exec_set_command` or `exec_do_command` hands to `prepare_cmd_to_device` has, in
-- the table, the mode in which it is handed over, so the user is never told there that the
-- command is not valid.
pub prepared_allowed :
    (name mode : Bytes) (dialog : ℤ × Bytes) (i m : ℕ) (args : Bytes)
    → (exec_binary_command name mode dialog ≡ Executed.handled i (Handled.prepares m args))
      ⊎ ((exec_get_command name dialog ≡ Executed.handled i (Handled.prepares m args))
          ⊎ ((exec_set_command name dialog ≡ Executed.handled i (Handled.prepares m args))
              ⊎ (exec_do_command name dialog ≡ Executed.handled i (Handled.prepares m args))))
    → (bit_and m (command_at i).modes == 0) ≡ false
unfolding exec_binary_command exec_get_command exec_set_command exec_do_command
prepared_allowed name mode dialog i m args (inl e) =
    elim (Bool-cases (is_zero (xstricmp mode (codes "on")))) [
      | inl on ↦
          let z = rw (on, exec_binary_command) at e in
          exec_typed_allowed is_binary 1 name dialog i m args on_table z
      | inr off ↦
          let z = rw (off, exec_binary_command) at e in
          exec_typed_allowed is_binary 2 name dialog i m args off_table z
    ]
prepared_allowed name mode dialog i m args (inr (inl e)) =
    exec_typed_allowed is_get 0 name dialog i m args get_table e
prepared_allowed name mode dialog i m args (inr (inr (inl e))) =
    exec_typed_allowed is_set 1 name dialog i m args set_table e
prepared_allowed name mode dialog i m args (inr (inr (inr e))) =
    exec_typed_allowed is_do 0 name dialog i m args do_table e
