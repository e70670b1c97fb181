-- ===== src/DevCmd/Exec/Found.antt =====
-- The name of a command that a device can be asked for, in `exec_get_command` of src/g7cmd.c.
use g7ctrl.Common.{
  Bool, Bool-cases, Bytes, List, Option, [], ap, arith, false, false≢true, get_or, inl, inr, length,
  map, none, not, refl, some, suc, sym, table_holds, table_holds_lem, true, zero, ℕ, ◌&&◌, ◌+◌, ◌<◌,
  ◌||◌, ◌∙◌, ◌∷◌, ◌≡◌, ◌≤◌,
}
use g7ctrl.Common.Int.{ℤ}
use g7ctrl.Xstr.Case.{xstricmp, is_zero, tolower}
use g7ctrl.DevCmd.Table.{
  Handler, G7Command, g7command_list, command_at, find_name, any_case, cmdidx-find_name,
  g7command_list_len, no_command, cmd_mode_r,
}
use g7ctrl.DevCmd.Prepare.{Handled, cmd_get_template}
use g7ctrl.DevCmd.Exec.{Executed, find_typed, exec_typed, is_get, call_handler, exec_get_command}

and_false : (b : Bool) → (b && false) ≡ false
and_false true = refl
and_false false = refl

index_of : Option ℕ → ℕ
index_of none = 0
index_of (some i) = i

find_name_later :
    (name : Bytes) (ns : List Bytes) (base i : ℕ) → find_name name ns base ≡ some i → base ≤ i
unfolding find_name index_of
find_name_later name [] base i e = cc
find_name_later name (n ∷ ns) base i e = elim (Bool-cases (is_zero (xstricmp name n))) [
  | inl s ↦ let z = ap index_of (rw (s, find_name) at e) in omega (arith, z)
  | inr s ↦
      let z = rw (s, find_name) at e in
      let l = find_name_later name ns (base + 1) i z in omega (arith, l)
]

-- The first entry of a name is found among those of its type.
find_typed-find_name :
    (fits : ℕ → Bool) (name : Bytes) (cs : List G7Command) (base k : ℕ)
    → find_name name (map (λ (c : G7Command). c.srvcmd) cs) base ≡ some (base + k)
    → fits (get_or cs k no_command).type ≡ true
    → find_typed fits name cs base ≡ some (base + k)
unfolding find_typed find_name index_of
find_typed-find_name fits name [] base k e f = cc
find_typed-find_name fits name (c ∷ cs) base zero e f =
    elim (Bool-cases (is_zero (xstricmp name c.srvcmd))) [
      | inl s ↦ rw (s, f) (ap (λ i. some i) {x = base} {y = base + 0} (omega arith))
      | inr s ↦
          let z = rw (s, find_name) at e in
          let l =
            find_name_later name (map (λ (c : G7Command). c.srvcmd) cs) (base + 1) (base + 0) z in
          absurd (omega (arith, l))
    ]
find_typed-find_name fits name (c ∷ cs) base (suc k) e f =
    elim (Bool-cases (is_zero (xstricmp name c.srvcmd))) [
      | inl s ↦ let z = ap index_of (rw (s, find_name) at e) in absurd (omega (arith, z))
      | inr s ↦
          let z = rw (s, find_name) at e in
          let next : base + 1 + k ≡ base + suc k = omega arith in
          let same = ap (λ i. some i) next in
          rw (s, and_false (fits c.type))
            (find_typed-find_name fits name cs (base + 1) k (z ∙ sym same) f ∙ same)
    ]

is_query : Handler → Bool
is_query Handler.get_template = true
is_query h = false

query_row : ℕ → Bool
query_row idx = not (is_query (command_at idx).cmdhandler) || is_get (command_at idx).type

query_table : table_holds 30 query_row ≡ true
unfolding table_holds query_row is_query command_at
query_table = refl

implies : (a b : Bool) → (not a || b) ≡ true → a ≡ true → b ≡ true
implies true b h t = h
implies false b h t = absurd (false≢true t)

get_types :
    (idx : ℕ)
    → idx < 30
    → (command_at idx).cmdhandler ≡ Handler.get_template
    → is_get (command_at idx).type ≡ true
unfolding query_row is_query
get_types idx lt h =
    implies (is_query (command_at idx).cmdhandler) (is_get (command_at idx).type)
      (table_holds_lem 30 query_row idx query_table lt) (ap is_query h)

exec_typed_found :
    (fits : ℕ → Bool) (name : Bytes) (gsflag : ℕ) (dialog : ℤ × Bytes) (i : ℕ)
    → find_typed fits name g7command_list 0 ≡ some i
    → exec_typed fits name gsflag dialog ≡ call_handler (command_at i).cmdhandler i gsflag dialog
unfolding exec_typed
exec_typed_found fits name gsflag dialog i e = rw (e, exec_typed) refl

-- `get` with the name of a command that the template for queries handles, in upper or lower case, has
-- its entry read from the device without arguments.
pub get_found :
    (name : Bytes) (idx : ℕ) (dialog : ℤ × Bytes)
    → idx < g7command_list_len
    → length name < 4096
    → map tolower name ≡ (command_at idx).srvcmd
    → (command_at idx).cmdhandler ≡ Handler.get_template
    → exec_get_command name dialog ≡ Executed.handled idx (Handled.prepares cmd_mode_r [])
unfolding exec_get_command call_handler cmd_get_template command_at
get_found name idx dialog lt small same h =
    let counted = ap (λ i. some i) {x = idx} {y = 0 + idx} (omega arith) in
    let found = sym (cmdidx-find_name name) ∙ (any_case name idx 0 lt small same).0 ∙ counted in
    let typed =
      find_typed-find_name is_get name g7command_list 0 idx found (get_types idx lt h)
      ∙ sym counted in
    exec_typed_found is_get name 0 dialog idx typed ∙ ap (λ k. call_handler k idx 0 dialog) h
