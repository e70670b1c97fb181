-- ===== src/Presets/Text.antt =====
-- The text that a command of a preset becomes.
use g7ctrl.Common.{
  All, Bytes, List, [], ap, append-nil, append_assoc, arith, codes, false, if◌then◌else◌, leb,
  length, length-append, map, refl, some, suc, sym, take-length, zero, ℕ, ◌++◌, ◌+◌, ◌<◌, ◌==◌, ◌∙◌,
  ◌∷◌, ◌≡◌, ◌≢◌, ◌≤◌,
}
use g7ctrl.Xstr.Case.{tolower}
use g7ctrl.Xstr.Copy.{xstrlcat, xstrlcat_fits}
use g7ctrl.Xstr.Split.RoundTrip.{Lacks, join, separated}
use g7ctrl.Xstr.Utf8.Whole.{NoNul, xmb_strncpy_whole}
use g7ctrl.DevCmd.Table.{command_at, get_devcmd_from_srvcmd, any_case}
use g7ctrl.DevCmd.Prepare.{name_small}
use g7ctrl.Presets.{read_name, read_arg, read_args, add_arg, preset_text, preset_command, built}

abbrev pub no_spaces : Bytes → Bytes
no_spaces [] = []
no_spaces (c ∷ s) = if c == b' ' then no_spaces s else c ∷ no_spaces s

-- The bytes of an argument in a preset: no comma and no closing bracket.
abbrev pub Plain : Bytes → Type 0
Plain = All (λ c. (c ≢ b',') × (c ≢ b')'))

-- An argument that fits `argBuf` with its NUL.
abbrev pub Argument : Bytes → Type 0
Argument a = Plain a × (length (no_spaces a) < 64)

read_arg-comma : (a p : Bytes) → Plain a → read_arg (a ++ b',' ∷ p) ≡ (no_spaces a, b',' ∷ p)
unfolding read_arg
read_arg-comma [] p h = refl
read_arg-comma (c ∷ a) p h = ground (arith, read_arg-comma a p h.1)

read_arg-bracket : (a p : Bytes) → Plain a → read_arg (a ++ b')' ∷ p) ≡ (no_spaces a, b')' ∷ p)
unfolding read_arg
read_arg-bracket [] p h = refl
read_arg-bracket (c ∷ a) p h = ground (arith, read_arg-bracket a p h.1)

read_name-Lacks :
    (n : ℕ) (name p : Bytes)
    → Lacks b'(' name
    → length name < n
    → read_name n (name ++ b'(' ∷ p) ≡ (name, b'(' ∷ p)
unfolding read_name
read_name-Lacks zero name p h lt = absurd (omega arith)
read_name-Lacks (suc n) [] p h lt = refl
read_name-Lacks (suc n) (c ∷ name) p h lt = ground (arith, read_name-Lacks n name p h.1)

add_arg_fits : (buf a : Bytes) → length buf + length a + 1 < 128 → add_arg buf a ≡ buf ++ b',' ∷ a
add_arg_fits buf [] h =
    ap (λ (r : Bytes × ℕ). r.0) (xstrlcat_fits buf (codes ",") 128 (omega arith))
add_arg_fits buf (c ∷ a) h =
    let comma = ap (λ (r : Bytes × ℕ). r.0) (xstrlcat_fits buf (codes ",") 128 (omega arith)) in
    ap (λ b. (xstrlcat b (c ∷ a) 128).0) comma
    ∙ ap (λ (r : Bytes × ℕ). r.0)
        (xstrlcat_fits (buf ++ codes ",") (c ∷ a) 128
          (omega (arith, length-append buf (codes ","))))
    ∙ append_assoc buf (codes ",") (c ∷ a)

read_args-join :
    (fuel : ℕ) (buf f : Bytes) (fs : List Bytes) (p : Bytes)
    → length fs < fuel
    → All Argument (f ∷ fs)
    → length buf + length (separated b',' (map no_spaces (f ∷ fs))) < 128
    → read_args fuel buf (join b',' (f ∷ fs) ++ b')' ∷ p)
      ≡ built (buf ++ separated b',' (map no_spaces (f ∷ fs)))
unfolding read_args
read_args-join zero buf f fs p lt h fits = absurd (omega arith)
read_args-join (suc fuel) buf f [] p lt h fits =
    let small : leb 64 (length (no_spaces f)) ≡ false = ground (arith, h.0.1) in
    rw (read_arg-bracket f p h.0.0, small)
      (ap built (
        add_arg_fits buf (no_spaces f) (omega (arith, length-append (no_spaces f) []))
        ∙ ap (λ l. buf ++ b',' ∷ l) (sym (append-nil (no_spaces f)))))
read_args-join (suc fuel) buf f (g ∷ fs) p lt h fits =
    let rest = join b',' (g ∷ fs) ++ b')' ∷ p in
    let more = separated b',' (map no_spaces (g ∷ fs)) in
    let size = length-append (no_spaces f) more in
    let added = add_arg_fits buf (no_spaces f) (omega (arith, size)) in
    let long = length-append buf (b',' ∷ no_spaces f) in
    let small : leb 64 (length (no_spaces f)) ≡ false = ground (arith, h.0.1) in
    rw
      (
        append_assoc f (b',' ∷ join b',' (g ∷ fs)) (b')' ∷ p),
        read_arg-comma f rest h.0.0,
        small,
        added,
      )
      (read_args-join fuel (buf ++ b',' ∷ no_spaces f) g fs p (omega arith) h.1
          (omega (arith, size, long))
        ∙ ap built (append_assoc buf (b',' ∷ no_spaces f) more))

join-length : (f : Bytes) (fs : List Bytes) → length fs ≤ length (join b',' (f ∷ fs))
join-length f [] = omega arith
join-length f (g ∷ fs) =
    omega (arith, join-length g fs, length-append f (b',' ∷ join b',' (g ∷ fs)))

-- A command as it stands in a preset, with the text behind it.
abbrev pub written : Bytes → List Bytes → Bytes → Bytes
written name args rest = name ++ b'(' ∷ (join b',' args ++ b')' ∷ rest)

-- `$WP+<cmd>+<tag>=<pin>`
abbrev pub start : Bytes → Bytes → Bytes → Bytes
start cmdstr tag pin = codes "$WP+" ++ (cmdstr ++ b'+' ∷ (tag ++ b'=' ∷ pin))

text_built :
    (name dev_cmd tag pin f : Bytes) (fs : List Bytes) (rest : Bytes)
    → get_devcmd_from_srvcmd name 12 ≡ some dev_cmd
    → length name < 15
    → All Argument (f ∷ fs)
    → length (start dev_cmd tag pin) ≤ 126
    → length (start dev_cmd tag pin) + length (separated b',' (map no_spaces (f ∷ fs))) < 128
    → preset_text (name, b'(' ∷ (join b',' (f ∷ fs) ++ b')' ∷ rest)) tag pin
      ≡ built (start dev_cmd tag pin ++ separated b',' (map no_spaces (f ∷ fs)))
unfolding preset_text
text_built name dev_cmd tag pin f fs rest known short h small fits =
    let args = join b',' (f ∷ fs) ++ b')' ∷ rest in
    let short_enough : leb 15 (length name) ≡ false = ground arith in
    let whole = take-length 126 (start dev_cmd tag pin) small in
    let fuel : length fs < length (b'(' ∷ args) =
      omega (arith, join-length f fs, length-append (join b',' (f ∷ fs)) (b')' ∷ rest)) in
    rw (short_enough, known, preset_text, whole)
      (read_args-join (length (b'(' ∷ args)) (start dev_cmd tag pin) f fs rest fuel h fits)

-- The name of a command of the table, in upper or lower case, with one or more arguments in brackets,
-- none of them with a comma or a closing bracket, becomes `$WP+<cmd>+<tag>=<pin>` and each argument
-- without its spaces behind a comma; what stands behind the bracket does not matter. Each argument has
-- at most 63 bytes that are not spaces, the command is shorter than 127 bytes and has no NUL, and the
-- text is shorter than 128 bytes.
pub preset_command_text :
    (name : Bytes) (idx : ℕ) (tag pin f : Bytes) (fs : List Bytes) (rest : Bytes)
    → idx < 30
    → map tolower name ≡ (command_at idx).srvcmd
    → Lacks b'(' name
    → length name < 15
    → All Argument (f ∷ fs)
    → NoNul (written name (f ∷ fs) rest)
    → length (written name (f ∷ fs) rest) < 127
    → length (start (command_at idx).cmdstr tag pin) ≤ 126
    → length (start (command_at idx).cmdstr tag pin)
        + length (separated b',' (map no_spaces (f ∷ fs)))
      < 128
    → preset_command (written name (f ∷ fs) rest) tag pin
      ≡ built (start (command_at idx).cmdstr tag pin ++ separated b',' (map no_spaces (f ∷ fs)))
unfolding preset_command
preset_command_text name idx tag pin f fs rest lt same lacks short h chars long small fits =
    let p = join b',' (f ∷ fs) ++ b')' ∷ rest in
    let copied = xmb_strncpy_whole (written name (f ∷ fs) rest) 127 chars long in
    let known =
      (any_case name idx 12 lt (omega arith) same).1
      ∙ ap (λ t. some t) (take-length 11 (command_at idx).cmdstr (name_small idx lt)) in
    ap (λ t. preset_text (read_name 15 t) tag pin) copied
    ∙ ap (λ r. preset_text r tag pin) (read_name-Lacks 15 name p lacks short)
    ∙ text_built name (command_at idx).cmdstr tag pin f fs rest known short h small fits
