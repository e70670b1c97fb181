-- ===== src/Presets.antt =====
-- Presets, of src/presets.c: named lists of commands that are read from files and sent to a device. The
-- files themselves and the calls of `send_rawcmd` are arguments.
pub mod Text
pub mod Run
use g7ctrl.Common.{
  Bytes, List, Option, [], at_end, codes, drop, false, get_or, if◌then◌else◌, leb, length, none,
  some, str_eq, suc, take, true, zero, ℕ, ◌++◌, ◌+◌, ◌-◌, ◌==◌, ◌||◌, ◌∷◌,
}
use g7ctrl.Xstr.Copy.{xstrlcat}
use g7ctrl.Xstr.Trim.{xstrtrim_crnl}
use g7ctrl.Xstr.Utf8.{xmb_strncpy}
use g7ctrl.DeviceTag.{get_device_tag, get_device_pin}
use g7ctrl.DevCmd.Table.{get_devcmd_from_srvcmd}

-- `struct presetType`; `ncmd` is the length of `cmd`.
pub record Preset : Type 0 where
  pub name : Bytes
  pub shortdesc : Bytes
  pub longdesc : Bytes
  pub cmd : List Bytes

-- `while (k > 0 && filename[k] != '.') k--;`: what stands before the last dot that is not the first byte.
before_dot : ℕ → Bytes → Bytes
before_dot zero s = s
before_dot (suc k) s = elim (get_or s (suc k) 0 == b'.') [
  | true ↦ take (suc k) s
  | false ↦ before_dot k s
]

-- `strip_filesuffix` of src/futils.c: what is left of the name.
unfoldable pub strip_filesuffix : Bytes → Bytes
unfolding before_dot
strip_filesuffix filename =
    if leb 256 (length filename) then filename else before_dot (length filename - 1) filename

-- What the loop over the lines keeps: the number of the line, and the preset so far.
pub record Reading : Type 0 where
  pub lnbr : ℕ
  pub preset : Preset

abbrev longer : Bytes → Bytes → Bytes
longer [] text = xmb_strncpy text 2047
longer (c ∷ l) text = (c ∷ l) ++ take (2048 - length (c ∷ l) - 1) text

-- A line that is trimmed and begins with `c`.
described : Reading → Bytes → Reading
described r text =
    let p = r.preset in
    if r.lnbr == 0
    then record { lnbr = 1; preset = record p { shortdesc = xmb_strncpy text 255 } }
    else if at_end text
    then record r { lnbr = r.lnbr + 1 }
    else record {
      lnbr = r.lnbr + 1;
      preset = record p { longdesc = (xstrlcat (longer p.longdesc text) (codes "\n") 2048).0 };
    }

read_trimmed : Reading → Bytes → Reading
unfolding described
read_trimmed r [] = r
read_trimmed r (c ∷ text) = if c == b'#' then described r text else record {
  lnbr = r.lnbr + 1;
  preset = record r.preset { cmd = r.preset.cmd ++ xmb_strncpy (c ∷ text) 63 ∷ [] };
}

-- One line that `getline` has read.
unfoldable pub read_line : Reading → Bytes → Reading
unfolding read_trimmed
read_line r line = read_trimmed r (xstrtrim_crnl line)

-- The loop of `callback_preset_file`.
pub read_lines : Reading → List Bytes → Reading
unfolding read_line
read_lines r [] = r
read_lines r (l ∷ ls) = read_lines (read_line r l) ls

-- The preset of a file with this base name, or `none` for -1.
unfoldable pub callback_preset_file : Bytes → List Bytes → Option Preset
unfolding read_lines
callback_preset_file base lines =
    if leb 32 (length base)
    then none
    else some
        (read_lines
          (record {
            lnbr = 0;
            preset = record {
              name = strip_filesuffix (xmb_strncpy base 31);
              shortdesc = [];
              longdesc = [];
              cmd = [];
            };
          })
          lines).preset

-- The search over the presets that were read.
unfoldable pub get_preset : List Preset → Bytes → Option Preset
get_preset [] name = none
get_preset (p ∷ ps) name = if str_eq name p.name then some p else get_preset ps name

-- `while (cnt < MAXPRESETNAME && *c && *c != '(')`: the name, and what is at `c`.
pub read_name : ℕ → Bytes → Bytes × Bytes
read_name zero s = ([], s)
read_name (suc n) [] = ([], [])
read_name (suc n) (c ∷ s) =
    let r = read_name n s in if c == b'(' then ([], c ∷ s) else (c ∷ r.0, r.1)

-- The inner loop: an argument without its spaces, and what is at `c` behind it.
pub read_arg : Bytes → Bytes × Bytes
read_arg [] = ([], [])
read_arg (c ∷ s) =
    let r = read_arg s in
    if c == b',' || c == b')' then ([], c ∷ s) else if c == b' ' then r else (c ∷ r.0, r.1)

abbrev add_arg : Bytes → Bytes → Bytes
add_arg buf [] = (xstrlcat buf (codes ",") 128).0
add_arg buf (c ∷ a) = (xstrlcat (xstrlcat buf (codes ",") 128).0 (c ∷ a) 128).0

-- What becomes of a command of a preset: it is refused with -1, the text for the device is built, or
-- an argument and its NUL are written past `char argBuf[64]`, after which the source says nothing.
pub data Built : Type 0 where
  refused overrun : Built
  built : Bytes → Built

-- The outer loop, from the byte behind the bracket or the comma on. Each round but the last goes on by a
-- byte at least, so the length of the text is enough.
pub read_args : ℕ → Bytes → Bytes → Built
unfolding read_arg
read_args zero buf s = built buf
read_args (suc fuel) buf s =
    let r = read_arg s in
    let buf' = add_arg buf r.0 in
    let more = read_args fuel buf' (drop 1 r.1) in
    if leb 64 (length r.0)
    then overrun
    else if at_end r.1 || get_or r.1 0 0 == b')'
    then built buf'
    else more

preset_text : Bytes × Bytes → Bytes → Bytes → Built
unfolding read_args
preset_text (name, rest) tag pin =
    if at_end rest || leb 15 (length name) then refused else elim (get_devcmd_from_srvcmd name 12) [
      | none ↦ refused
      | some dev_cmd ↦
          let start = take 126 (codes "$WP+" ++ (dev_cmd ++ b'+' ∷ (tag ++ b'=' ∷ pin))) in
          read_args (length rest) start (drop 1 rest)
    ]

unfoldable pub preset_command : Bytes → Bytes → Bytes → Built
unfolding read_name preset_text
preset_command preset_string tag pin =
    preset_text (read_name 15 (xmb_strncpy preset_string 127)) tag pin
