-- ===== src/Presets/Run.antt =====
-- The execution of a preset, and the command `preset` of the daemon. `send` is `send_rawcmd` for a text
-- and its tag, with the state of the world that it changes, and `past_end` is whatever follows when a
-- command has an argument that is written past its buffer.
use g7ctrl.Common.{
  Bytes, List, Option, Rc, Rc-cases, [], ap, arith, codes, failure, if◌then◌else◌, inl, inr, length,
  map, none, some, str_eq, suc, success, ℕ, ◌++◌, ◌+◌, ◌∙◌, ◌∷◌, ◌≡◌,
}
use g7ctrl.DeviceTag.{get_device_tag, get_device_pin}
use g7ctrl.Presets.{Preset, get_preset, preset_command, refused, overrun, built}

-- The result, the command that failed, and the running number of the tags.
pub record Ran (S : Type 0) : Type 0 where
  pub result : Rc
  pub failed : Option ℕ
  pub tagnbr : ℕ
  pub world : S

-- What the user is told.
pub data Told : Type 0 where
  executed : ℕ → Bytes → Told
  failed_at : ℕ → Bytes → Told
  no_preset : Bytes → Told
  no_presets : Told
  listed : List (Bytes × Bytes) → Told
  helped : Bytes → Bytes → Bytes → Told
  refreshed : ℕ → Told
  none_found : Told
  refresh_error : Told
  unknown_command : Bytes → Told
  silent : Told

module _ {S : Type 0} (send : Bytes → Bytes → S → Rc × S) (past_end : Bytes → S → Rc × S) where
  -- `execPresetFunc`
  unfoldable pub exec_preset_func : Bytes → Bytes → Bytes → S → Rc × S
  exec_preset_func preset_string tag pin s = elim (preset_command preset_string tag pin) [
    | refused ↦ (failure, s)
    | overrun ↦ past_end preset_string s
    | built text ↦ send text tag s
  ]

  -- The loop of `execPreset` from command `i` on.
  unfoldable pub exec_commands : Bytes → ℕ → List Bytes → ℕ → S → Ran S
  exec_commands pin i [] tagnbr s = record {
    result = success;
    failed = none;
    tagnbr = tagnbr;
    world = s;
  }
  exec_commands pin i (c ∷ cs) tagnbr s =
      let t = get_device_tag tagnbr 16 in
      let r = exec_preset_func c t.1 pin s in
      let more = exec_commands pin (i + 1) cs t.2 r.1 in
      elim r.0 [
        | failure ↦ record { result = failure; failed = some i; tagnbr = t.2; world = r.1 }
        | success ↦ more
      ]

  abbrev tell : Preset → Ran S → Rc × Told × Ran S
  tell p r = elim r.failed [
    | none ↦ (success, executed (length p.cmd) p.name, r)
    | some i ↦ (failure, failed_at i p.name, r)
  ]

  -- `execPreset`
  unfoldable pub exec_preset : List Preset → Bytes → ℕ → S → Rc × Told × Ran S
  unfolding exec_commands get_preset
  exec_preset presets name tagnbr s = elim (get_preset presets name) [
    | none ↦ (
      failure,
      no_preset name,
      record { result = failure; failed = none; tagnbr = tagnbr; world = s },
    )
    | some p ↦ tell p (exec_commands (get_device_pin 16).1 0 p.cmd tagnbr s)
  ]

  -- Commands that all succeed are followed by the rest, with the tags and the world that they leave.
  exec_commands-append :
      (pin : Bytes) (i : ℕ) (xs ys : List Bytes) (tagnbr : ℕ) (s : S)
      → (exec_commands pin i xs tagnbr s).result ≡ success
      → exec_commands pin i (xs ++ ys) tagnbr s
        ≡ exec_commands pin
            (i + length xs)
            ys
            (exec_commands pin i xs tagnbr s).tagnbr
            (exec_commands pin i xs tagnbr s).world
  unfolding exec_commands
  exec_commands-append pin i [] ys tagnbr s h =
      ap (λ k. exec_commands pin k ys tagnbr s) {x = i} {y = i + 0} (omega arith)
  exec_commands-append pin i (x ∷ xs) ys tagnbr s h =
      let t = get_device_tag tagnbr 16 in
      let r = exec_preset_func x t.1 pin s in
      elim (Rc-cases r.0) [
        | inr bad ↦ let z = rw (exec_commands, bad) at h in cc
        | inl good ↦
            let z = rw (exec_commands, good) at h in
            rw (exec_commands, good)
              (exec_commands-append pin (i + 1) xs ys t.2 r.1 z
                ∙ ap
                    (λ k.
                      exec_commands pin k ys (exec_commands pin (i + 1) xs t.2 r.1).tagnbr
                        (exec_commands pin (i + 1) xs t.2 r.1).world)
                    {x = i + 1 + length xs} {y = i + suc (length xs)} (omega arith))
      ]

  exec_commands_fail :
      (pin : Bytes) (i : ℕ) (bad : Bytes) (ys : List Bytes) (tagnbr : ℕ) (s w : S)
      → exec_preset_func bad (get_device_tag tagnbr 16).1 pin s ≡ (failure, w)
      → exec_commands pin i (bad ∷ ys) tagnbr s ≡ record {
        result = failure;
        failed = some i;
        tagnbr = (get_device_tag tagnbr 16).2;
        world = w;
      }
  unfolding exec_commands
  exec_commands_fail pin i bad ys tagnbr s w e =
      let stopped : S → Ran S = λ v. record {
        result = failure;
        failed = some i;
        tagnbr = (get_device_tag tagnbr 16).2;
        world = v;
      } in
      let rc = ap (λ (r : Rc × S). r.0) e in
      rw (rc, exec_commands) (ap stopped (ap (λ (r : Rc × S). r.1) e))

  -- Commands of a preset that all succeed are followed by one that fails: the preset fails with the
  -- number of that command, what stands behind it is not executed, and the tags and the world are
  -- those that the failing command leaves.
  pub exec_preset_stops :
      (presets : List Preset) (name : Bytes) (p : Preset) (tagnbr : ℕ) (s : S) (xs : List Bytes)
      (bad : Bytes) (ys : List Bytes) (tagnbr' : ℕ) (s' w : S)
      → get_preset presets name ≡ some p
      → p.cmd ≡ xs ++ bad ∷ ys
      → exec_commands (get_device_pin 16).1 0 xs tagnbr s
        ≡ record { result = success; failed = none; tagnbr = tagnbr'; world = s' }
      → exec_preset_func bad (get_device_tag tagnbr' 16).1 (get_device_pin 16).1 s' ≡ (failure, w)
      → exec_preset presets name tagnbr s ≡ (
        failure,
        failed_at (length xs) p.name,
        record {
          result = failure;
          failed = some (length xs);
          tagnbr = (get_device_tag tagnbr' 16).2;
          world = w;
        },
      )
  unfolding exec_preset
  exec_preset_stops presets name p tagnbr s xs bad ys tagnbr' s' w found cmds good fails =
      let pin = (get_device_pin 16).1 in
      let joined =
        ap (λ c. exec_commands pin 0 c tagnbr s) cmds
        ∙ exec_commands-append pin 0 xs (bad ∷ ys) tagnbr s (ap (λ (r : Ran S). r.result) good)
        ∙ ap (λ (r : Ran S). exec_commands pin (0 + length xs) (bad ∷ ys) r.tagnbr r.world) good
        ∙ ap (λ k. exec_commands pin k (bad ∷ ys) tagnbr' s') {x = 0 + length xs} {y = length xs}
            (omega arith)
        ∙ exec_commands_fail pin (length xs) bad ys tagnbr' s' w fails in
      rw (found, exec_preset) (ap (tell p) joined)

  -- `refreshPresets`: the presets afterwards. `files` is what `process_files` finds, if it can read.
  abbrev refresh_presets : Option (List Preset) → Rc × Told × List Preset
  refresh_presets none = (failure, refresh_error, [])
  refresh_presets (some []) = (success, none_found, [])
  refresh_presets (some (p ∷ ps)) = (success, refreshed (length (p ∷ ps)), p ∷ ps)

  abbrev list_presets : List Preset → Told
  list_presets [] = no_presets
  list_presets (p ∷ ps) = listed (map (λ (p : Preset). (p.name, p.shortdesc)) (p ∷ ps))

  abbrev preset_help : List Preset → Bytes → Told
  preset_help presets name = elim (get_preset presets name) [
    | none ↦ no_preset name
    | some p ↦ helped p.name p.shortdesc p.longdesc
  ]

  -- What `commandPreset` leaves: the answer, what the user is told, the presets, the running number of
  -- the tags and the world.
  pub record Done : Type 0 where
    pub result : Rc
    pub told : Told
    pub presets : List Preset
    pub tagnbr : ℕ
    pub world : S

  abbrev done : Rc → Told → List Preset → ℕ → S → Done
  done result told presets tagnbr world = record {
    result = result;
    told = told;
    presets = presets;
    tagnbr = tagnbr;
    world = world;
  }

  -- `commandPreset`, by the number of its fields.
  unfoldable pub command_preset :
      Option (List Preset) → List Preset → Bytes → List Bytes → ℕ → S → Done
  unfolding exec_preset
  command_preset files presets cmd (f ∷ verb ∷ []) tagnbr s =
      let again = refresh_presets files in
      if str_eq (codes "refresh") verb
      then done success again.1 again.2 tagnbr s
      else if str_eq (codes "list") verb
      then done success (list_presets presets) presets tagnbr s
      else done success silent presets tagnbr s
  command_preset files presets cmd (f ∷ verb ∷ name ∷ []) tagnbr s =
      let r = exec_preset presets name tagnbr s in
      if str_eq (codes "use") verb
      then done r.0 r.1 presets r.2.tagnbr r.2.world
      else if str_eq (codes "help") verb
      then done success (preset_help presets name) presets tagnbr s
      else done success silent presets tagnbr s
  command_preset files presets cmd fields tagnbr s =
      done failure (unknown_command cmd) presets tagnbr s
