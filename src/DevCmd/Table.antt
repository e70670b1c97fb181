-- ===== src/DevCmd/Table.antt =====
-- The table of the device commands, `g7command_list` of src/g7cmd.c, and the searches in it.
use g7ctrl.Common.{
  ==→eq, All, Bool, Bytes, List, Option, Option-cases, [], ap, arith, codes, false, false≢true,
  get_or, if◌then◌else◌, inl, inr, length, ltb, map, none, refl, some, str_eq, table_holds,
  table_holds_lem, take, true, ℕ, ◌+◌, ◌-◌, ◌<◌, ◌==◌, ◌∙◌, ◌∷◌, ◌≡◌,
}
use mathlib.Core.Option
use g7ctrl.Xstr.Case.{xstricmp, tolower, is_zero, xstricmp_equal}

-- The function that handles a command.
pub data Handler : Type 0 where
  binary_template set_template get_template do_template no_handler : Handler
  exec_batt exec_dlrec exec_address : Handler

abbrev pub cmd_mode_r : ℕ
cmd_mode_r = 1

abbrev pub cmd_mode_w : ℕ
cmd_mode_w = 2

abbrev pub cmd_mode_rw : ℕ
cmd_mode_rw = 3

abbrev pub cmd_type_get : ℕ
cmd_type_get = 1

abbrev pub cmd_type_getset_binary : ℕ
cmd_type_getset_binary = 4

abbrev pub cmd_type_getset : ℕ
cmd_type_getset = 8

abbrev pub cmd_type_do : ℕ
cmd_type_do = 16

-- `struct g7command`, without the texts of the help.
pub record G7Command : Type 0 where
  pub srvcmd : Bytes
  pub cmdstr : Bytes
  pub cmdhandler : Handler
  pub type : ℕ
  pub modes : ℕ

abbrev command : Bytes → Bytes → Handler → ℕ → ℕ → G7Command
command srvcmd cmdstr cmdhandler type modes = record {
  srvcmd = srvcmd;
  cmdstr = cmdstr;
  cmdhandler = cmdhandler;
  type = type;
  modes = modes;
}

unfoldable pub g7command_list : List G7Command
g7command_list =
    command (codes "roam") (codes "ROAMING") binary_template cmd_type_getset_binary cmd_mode_rw
    ∷ command (codes "phone") (codes "VLOCATION") binary_template cmd_type_getset cmd_mode_rw
    ∷ command (codes "led") (codes "ELED") binary_template cmd_type_getset_binary cmd_mode_rw
    ∷ command (codes "gfen") (codes "GFEN") set_template cmd_type_getset cmd_mode_rw
    ∷ command (codes "sleep") (codes "SLEEP") binary_template cmd_type_getset_binary cmd_mode_rw
    ∷ command (codes "loc") (codes "GETLOCATION") get_template cmd_type_get cmd_mode_r
    ∷ command (codes "locg") (codes "GETLOCATION") no_handler cmd_type_get cmd_mode_r
    ∷ command (codes "imei") (codes "IMEI") get_template cmd_type_get cmd_mode_r
    ∷ command (codes "sim") (codes "SIMID") get_template cmd_type_get cmd_mode_r
    ∷ command (codes "ver") (codes "VER") get_template cmd_type_get cmd_mode_r
    ∷ command (codes "nrec") (codes "DLREC") get_template cmd_type_get cmd_mode_r
    ∷ command (codes "batt") (codes "XXXX") exec_batt cmd_type_get cmd_mode_r
    ∷ command (codes "track") (codes "TRACK") set_template cmd_type_getset cmd_mode_rw
    ∷ command (codes "mswitch") (codes "SETRA") set_template cmd_type_getset cmd_mode_rw
    ∷ command (codes "tz") (codes "SETTZ") set_template cmd_type_getset cmd_mode_rw
    ∷ command (codes "sms") (codes "SMSM") set_template cmd_type_getset cmd_mode_rw
    ∷ command (codes "comm") (codes "COMMTYPE") set_template cmd_type_getset cmd_mode_rw
    ∷ command (codes "vip") (codes "SETVIP") set_template cmd_type_getset cmd_mode_rw
    ∷ command (codes "ps") (codes "PSMT") set_template cmd_type_getset cmd_mode_rw
    ∷ command (codes "config") (codes "UNCFG") set_template cmd_type_getset cmd_mode_rw
    ∷ command (codes "gfevt") (codes "SETEVT") set_template cmd_type_getset cmd_mode_rw
    ∷ command (codes "rec") (codes "REC") set_template cmd_type_getset cmd_mode_rw
    ∷ command (codes "lowbatt") (codes "LOWBATT") set_template cmd_type_getset cmd_mode_rw
    ∷ command (codes "sens") (codes "GSS") set_template cmd_type_getset cmd_mode_rw
    ∷ command (codes "clrec") (codes "CLREC") do_template cmd_type_do cmd_mode_w
    ∷ command (codes "dlrec") (codes "DLREC") exec_dlrec cmd_type_do cmd_mode_w
    ∷ command (codes "reboot") (codes "REBOOT") do_template cmd_type_do cmd_mode_w
    ∷ command (codes "reset") (codes "RESET") do_template cmd_type_do cmd_mode_w
    ∷ command (codes "test") (codes "TEST") do_template cmd_type_do cmd_mode_w
    ∷ command (codes "address") (codes "GETADDRESS") exec_address cmd_type_get cmd_mode_r
    ∷ []

abbrev pub g7command_list_len : ℕ
g7command_list_len = 30

abbrev pub no_command : G7Command
no_command = command [] [] no_handler 0 0

unfoldable pub command_at : ℕ → G7Command
unfolding g7command_list
command_at idx = get_or g7command_list idx no_command

-- `while (i < len && xstricmp(name, list[i].srvcmd)) ++i;` over the names of a table.
unfoldable pub find_name : Bytes → List Bytes → ℕ → Option ℕ
find_name name [] i = none
find_name name (n ∷ ns) i = if is_zero (xstricmp name n) then some i else find_name name ns (i + 1)

unfoldable pub get_cmdidx_from_srvcmd : Bytes → Option ℕ
unfolding find_name g7command_list
get_cmdidx_from_srvcmd cmdname =
    find_name cmdname (map (λ (c : G7Command). c.srvcmd) g7command_list) 0

-- The text in `devcmd`, or `none` for -1.
unfoldable pub get_devcmd_from_srvcmd : Bytes → ℕ → Option Bytes
unfolding get_cmdidx_from_srvcmd command_at
get_devcmd_from_srvcmd srvcmd maxlen =
    Option.map (λ idx. take (maxlen - 1) (command_at idx).cmdstr) (get_cmdidx_from_srvcmd srvcmd)

unfoldable pub get_srvcmd_from_devcmd : Bytes → ℕ → Option Bytes
unfolding find_name command_at
get_srvcmd_from_devcmd devcmd maxlen =
    Option.map (λ idx. take (maxlen - 1) (command_at idx).srvcmd)
      (find_name devcmd (map (λ (c : G7Command). c.cmdstr) g7command_list) 0)

unfoldable pub get_devcmd : ℕ → ℕ → Option Bytes
unfolding command_at
get_devcmd idx maxlen =
    if ltb idx g7command_list_len then some (take (maxlen - 1) (command_at idx).cmdstr) else none

-- `struct g7event`: id, description, command.
abbrev pub g7event_list : List (ℕ × Bytes × Bytes)
g7event_list =
    (0, codes "Position data", codes "GETLOCATION")
    ∷ (1, codes "Logging data", codes "REC")
    ∷ (2, codes "Position update", codes "TRACK")
    ∷ (4, codes "Timer report", codes "PSMT-TIMER")
    ∷ (34, codes "Wake Up Report", codes "PSMT-WAKE")
    ∷ (37, codes "Enter Sleeping Report", codes "PSMT-SLEEP")
    ∷ (40, codes "Internal Battery Low Alert", codes "LOWBATT")
    ∷ (48, codes "Virtual fence crossing", codes "GFEN")
    ∷ (100, codes "Unit Detaching Report", codes "SETRA")
    ∷ []

-- The search loop; the answer is the command and the description, or `none` for -1.
pub find_event : ℕ → List (ℕ × Bytes × Bytes) → Option (Bytes × Bytes)
find_event eventid [] = none
find_event eventid ((id, desc, cmd) ∷ es) =
    if id == eventid then some (take 15 cmd, take 127 desc) else find_event eventid es

unfoldable pub get_event_cmd : ℕ → Option (Bytes × Bytes)
unfolding find_event
get_event_cmd eventid = find_event eventid g7event_list

-- The first name that is equal in lower case.
abbrev pub find_lower : Bytes → List Bytes → ℕ → Option ℕ
find_lower low [] i = none
find_lower low (n ∷ ns) i = if str_eq low (map tolower n) then some i else find_lower low ns (i + 1)

pub find_name-lower :
    (name : Bytes) (ns : List Bytes) (i : ℕ)
    → length name < 4096
    → All (λ n. length n < 4096) ns
    → find_name name ns i ≡ find_lower (map tolower name) ns i
unfolding find_name
find_name-lower name [] i h hs = refl
find_name-lower name (n ∷ ns) i h hs =
    rw (xstricmp_equal name n h hs.0, find_name-lower name ns (i + 1) h hs.1) refl

names_small : All (λ n. length n < 4096) (map (λ (c : G7Command). c.srvcmd) g7command_list)
unfolding g7command_list
names_small = omega arith

own_name : ℕ → Bool
own_name idx =
    elim (find_lower (command_at idx).srvcmd (map (λ (c : G7Command). c.srvcmd) g7command_list) 0) [
      | none ↦ false
      | some j ↦ j == idx
    ]

own_names : table_holds 30 own_name ≡ true
unfolding own_name command_at table_holds g7command_list str_eq
own_names = refl

own_name_sound :
    (idx : ℕ)
    → own_name idx ≡ true
    → find_lower (command_at idx).srvcmd (map (λ (c : G7Command). c.srvcmd) g7command_list) 0
      ≡ some idx
unfolding own_name
own_name_sound idx h =
    let names = map (λ (c : G7Command). c.srvcmd) g7command_list in
    elim (Option-cases (find_lower (command_at idx).srvcmd names 0)) [
      | inl e ↦ let z = rw (e, own_name) at h in absurd (false≢true z)
      | inr (j, e) ↦ let z = rw (e, own_name) at h in e ∙ ap (λ k. some k) (==→eq j idx z)
    ]

pub cmdidx-find_name :
    (name : Bytes)
    → get_cmdidx_from_srvcmd name
      ≡ find_name name (map (λ (c : G7Command). c.srvcmd) g7command_list) 0
unfolding get_cmdidx_from_srvcmd
cmdidx-find_name name = refl

-- A user may write the name of any of the 30 commands in upper or lower case: it is found, and gives
-- the device command of that entry.
pub any_case :
    (name : Bytes) (idx maxlen : ℕ)
    → idx < g7command_list_len
    → length name < 4096
    → map tolower name ≡ (command_at idx).srvcmd
    → (get_cmdidx_from_srvcmd name ≡ some idx)
      × (get_devcmd_from_srvcmd name maxlen ≡ some (take (maxlen - 1) (command_at idx).cmdstr))
unfolding get_cmdidx_from_srvcmd get_devcmd_from_srvcmd
any_case name idx maxlen lt small same =
    let found =
      find_name-lower name (map (λ (c : G7Command). c.srvcmd) g7command_list) 0 small names_small
      ∙ ap (λ n. find_lower n (map (λ (c : G7Command). c.srvcmd) g7command_list) 0) same
      ∙ own_name_sound idx (table_holds_lem 30 own_name idx own_names lt) in
    rw found (refl, refl)
