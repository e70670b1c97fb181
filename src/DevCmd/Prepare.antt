-- ===== src/DevCmd/Prepare.antt =====
-- The text of a command for the device, and the handlers of the command table, of src/g7cmd.c. What is
-- prepared goes to `send_rawcmd` of SendCmd.
use g7ctrl.Common.{
  Bool, Bool-cases, Bytes, Option, [], ap, append-nil, append_assoc, arith, codes, get_or,
  if◌then◌else◌, inl, inr, leb, length, length-append, none, refl, some, suc, sym, table_holds,
  table_holds_lem, take, take-length, true, zero, ℕ, ◌&&◌, ◌++◌, ◌+◌, ◌-◌, ◌<◌, ◌==◌, ◌∙◌, ◌∷◌, ◌≡◌,
  ◌≤◌,
}
use Prim.Native.Nat.{bit_and}
use g7ctrl.Common.Int.{ℤ, pos, negsuc}
use g7ctrl.Xstr.Copy.{xstrlcat, xstrlcat_fits}
use g7ctrl.Xstr.Utf8.{xmb_inc, xmb_strncpy}
use g7ctrl.DeviceTag.{get_device_tag, get_device_pin}
use g7ctrl.DevCmd.Args.{cmdargs_list}
use g7ctrl.DevCmd.Table.{command_at, cmd_mode_r, cmd_mode_w}
use g7ctrl.DevCmd.Translate.{get_argidx_for_cmdidx, no_args}

-- A text behind a byte, if there is a text.
abbrev pub behind : ℕ → Bytes → Bytes
behind d [] = []
behind d (c ∷ t) = d ∷ c ∷ t

-- `$WP+<cmd>[+<tag>]=<pwd>`
abbrev pub prefix : Bytes → Bytes → Bytes → Bytes
prefix cmdstr tag pin = codes "$WP+" ++ (cmdstr ++ (behind b'+' tag ++ b'=' ∷ pin))

-- The text of a write: the buffer holds 1024 bytes, and `snprintf` is told 1023.
write_text : Bytes → Bytes → Bytes
write_text head [] = take 1022 head
write_text head (c ∷ args) =
    let start = (xstrlcat (take 1022 head) (codes ",") 1024).0 in
    start ++ take (1024 - length start - 1) (c ∷ args)

read_text : Bytes → Bytes → Bytes
read_text head [] = take 1022 (head ++ codes ",?")
read_text head (c ∷ args) = take 1022 (head ++ b',' ∷ ((c ∷ args) ++ codes ",?"))

-- The text and the tag for `send_rawcmd`, or `none` for a command that does not have the mode; and the
-- running number of the tags.
unfoldable pub prepare_cmd_to_device : ℕ → ℕ → ℕ → Bytes → Option (Bytes × Bytes) × ℕ
unfolding write_text read_text
prepare_cmd_to_device tagnbr cmdidx mode argstrlist =
    let pin = (get_device_pin 8).1 in
    let tag = (get_device_tag tagnbr 8).1 in
    let head = prefix (command_at cmdidx).cmdstr tag pin in
    if bit_and mode (command_at cmdidx).modes == 0 then (none, (get_device_tag tagnbr 8).2) else (
      some (
        if mode == cmd_mode_w then write_text head argstrlist else read_text head argstrlist,
        tag,
      ),
      (get_device_tag tagnbr 8).2,
    )

-- What a handler makes of its call: it returns at once, or prepares a command.
pub data Handled : Type 0 where
  returns : ℤ → Handled
  prepares : ℕ → Bytes → Handled

-- `dialog` is the result of `get_cmd_args` and what it leaves in the buffer.
unfoldable pub ask_args : ℕ → ℤ × Bytes → Handled
ask_args numargs (rc, args) = if numargs == 0 then prepares cmd_mode_w (codes "1") else elim rc [
  | pos zero ↦ prepares cmd_mode_w args
  | pos (suc n) ↦ returns (pos (suc n))
  | negsuc n ↦ returns (negsuc n)
]

-- The case `gsflag == 1` of the handlers that set.
unfoldable pub switch_on : ℕ → ℤ × Bytes → Handled
unfolding ask_args cmdargs_list
switch_on cmdidx dialog = elim (get_argidx_for_cmdidx cmdidx) [
  | none ↦ returns (negsuc 0)
  | some argidx ↦ ask_args (get_or cmdargs_list argidx no_args).numargs dialog
]

unfoldable pub cmd_binary_template : ℕ → ℕ → ℤ × Bytes → Handled
unfolding switch_on
cmd_binary_template cmdidx gsflag dialog =
    if gsflag == 0
    then prepares cmd_mode_r []
    else if gsflag == 1
    then switch_on cmdidx dialog
    else if gsflag == 2
    then prepares cmd_mode_w (codes "0")
    else returns (negsuc 0)

abbrev pub cmdidx_setevt : ℕ
cmdidx_setevt = 20

unfoldable pub cmd_set_template : ℕ → ℕ → ℤ × Bytes → Handled
unfolding switch_on
cmd_set_template cmdidx gsflag dialog =
    if cmdidx == cmdidx_setevt && gsflag == 0
    then returns (negsuc 0)
    else if gsflag == 0
    then prepares cmd_mode_r []
    else if gsflag == 1
    then switch_on cmdidx dialog
    else returns (negsuc 0)

unfoldable pub cmd_get_template : ℕ → Handled
cmd_get_template gsflag = if gsflag == 0 then prepares cmd_mode_r [] else returns (negsuc 0)

unfoldable pub cmd_do_template : ℕ → Handled
cmd_do_template gsflag = if gsflag == 0 then prepares cmd_mode_w [] else returns (negsuc 0)

short_name : ℕ → Bool
short_name idx = leb (length (command_at idx).cmdstr) 11

short_names : table_holds 30 short_name ≡ true
unfolding short_name table_holds command_at
short_names = refl

-- The text in the form that the device's manual gives.
abbrev pub device_text : ℕ → Bytes → Bytes → Bytes
device_text mode head args =
    head ++ (behind b',' args ++ (if mode == cmd_mode_w then [] else codes ",?"))

write_fits :
    (head args : Bytes)
    → length head ≤ 100
    → length args ≤ 255
    → write_text head args ≡ head ++ (behind b',' args ++ [])
unfolding write_text
write_fits head [] h a = take-length 1022 head (omega arith) ∙ sym (append-nil head)
write_fits head (c ∷ args) h a =
    let whole = take-length 1022 head (omega arith) in
    let comma = xstrlcat_fits head (codes ",") 1024 (omega arith) in
    let start : (xstrlcat (take 1022 head) (codes ",") 1024).0 ≡ head ++ b',' ∷ [] =
      ap (λ t. (xstrlcat t (codes ",") 1024).0) whole ∙ ap (λ (r : Bytes × ℕ). r.0) comma in
    let size = length-append head (b',' ∷ []) in
    rw start (
      ap (λ l. (head ++ b',' ∷ []) ++ l)
        (take-length (1024 - length (head ++ b',' ∷ []) - 1) (c ∷ args) (omega arith))
      ∙ append_assoc head (b',' ∷ []) (c ∷ args)
      ∙ ap (λ l. head ++ b',' ∷ l) (sym (append-nil (c ∷ args))))

read_fits :
    (head args : Bytes)
    → length head ≤ 100
    → length args ≤ 255
    → read_text head args ≡ head ++ (behind b',' args ++ codes ",?")
unfolding read_text
read_fits head [] h a =
    take-length 1022 (head ++ codes ",?") (omega (arith, length-append head (codes ",?")))
read_fits head (c ∷ args) h a = take-length 1022 (head ++ b',' ∷ ((c ∷ args) ++ codes ",?")) (
    omega (
      arith,
      length-append head (b',' ∷ ((c ∷ args) ++ codes ",?")),
      length-append (c ∷ args) (codes ",?"),
    ))

pin_lem : (get_device_pin 8).1 ≡ codes "0000"
unfolding get_device_pin xmb_strncpy xmb_inc
pin_lem = refl

tag_length : (tagnbr : ℕ) → length (get_device_tag tagnbr 8).1 ≡ 4
unfolding get_device_tag
tag_length tagnbr = refl

behind-length : (d : ℕ) (s : Bytes) → length (behind d s) ≤ length s + 1
behind-length d [] = omega arith
behind-length d (c ∷ s) = omega arith

prefix-length :
    (cmdstr tag : Bytes)
    → length cmdstr ≤ 11
    → length tag ≡ 4
    → length (prefix cmdstr tag (codes "0000")) ≤ 100
prefix-length cmdstr tag c t =
    let rest = behind b'+' tag ++ b'=' ∷ codes "0000" in
    omega (
      arith,
      length-append cmdstr rest,
      length-append (behind b'+' tag) (b'=' ∷ codes "0000"),
      behind-length b'+' tag,
    )

pub name_small : (idx : ℕ) → idx < 30 → length (command_at idx).cmdstr ≤ 11
unfolding short_name
name_small idx h =
    leb→le (length (command_at idx).cmdstr) 11 (table_holds_lem 30 short_name idx short_names h)
  where
    leb→le : (a b : ℕ) → leb a b ≡ true → a ≤ b
    leb→le a b h = ground arith

-- A command of the table with at most 255 bytes of arguments, which is what the handlers' buffer
-- holds, is refused exactly if it does not have the mode. Else its text is `$WP+<cmd>+<tag>=0000`,
-- the arguments behind a comma if there are any, and `,?` for a read, whole, with the tag of the next
-- running number. In both cases that number is used up.
pub prepared_text :
    (tagnbr cmdidx mode : ℕ) (args : Bytes)
    → cmdidx < 30
    → length args ≤ 255
    → let next = get_device_tag tagnbr 8 in
      prepare_cmd_to_device tagnbr cmdidx mode args ≡ (
        if bit_and mode (command_at cmdidx).modes == 0
            then none
            else some (
              device_text mode (prefix (command_at cmdidx).cmdstr next.1 (codes "0000")) args,
              next.1,
            ),
        next.2,
      )
unfolding prepare_cmd_to_device
prepared_text tagnbr cmdidx mode args lt small =
    let tag = (get_device_tag tagnbr 8).1 in
    let cmd = command_at cmdidx in
    let head = prefix cmd.cmdstr tag (codes "0000") in
    let short = prefix-length cmd.cmdstr tag (name_small cmdidx lt) (tag_length tagnbr) in
    rw (pin_lem, prepare_cmd_to_device)
      (elim (Bool-cases (bit_and mode cmd.modes == 0)) [
        | inl no_mode ↦ rw no_mode refl
        | inr has_mode ↦ rw has_mode (elim (Bool-cases (mode == cmd_mode_w)) [
          | inl w ↦ rw (w, write_fits head args short small) refl
          | inr r ↦ rw (r, read_fits head args short small) refl
        ])
      ])
