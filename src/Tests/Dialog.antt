-- ===== src/Tests/Dialog.antt =====
-- Runs of the dialogs with users and of the daemon's questions to devices.
use g7ctrl.Common.{
  Bytes, List, [], arith, codes, false, get_or, inl, inr, refl, some, str_eq, success, true, ℕ,
  ◌++◌, ◌<◌, ◌==◌, ◌∷◌, ◌≡◌,
}
use g7ctrl.Common.Int.{pos}
use g7ctrl.Xstr.Trim.{xstrtrim_crnl}
use g7ctrl.Xstr.Case.{xstricmp}
use g7ctrl.Xstr.Copy.{xstrlcat, append_bounded}
use Prim.Native.Nat.{bit_and}
use g7ctrl.DevCmd.Arg.{ArgType, Arg}
use g7ctrl.DevCmd.Args.{cmdargs_list}
use g7ctrl.DevCmd.Table.{command_at}
use g7ctrl.DevCmd.Translate.{no_args, get_argidx_for_cmdidx}
use g7ctrl.DevCmd.Prepare.{Handled, cmd_get_template}
use g7ctrl.DevCmd.Dialog.{Input, Asked, Dialog, get_arg, get_cmd_args, ask_arg}
use g7ctrl.DevCmd.Dialog.Valid.{Accepted, listed, dialog_valid}
use g7ctrl.DevCmd.Dialog.Numbers.{Replied, mistyped_number}
use g7ctrl.SendCmd.Query.{numrec_of, numrec_of_lem}
use g7ctrl.Password.{Attempt, check_password}
use g7ctrl.DevCmd.Exec.{Executed, exec_get_command}
use g7ctrl.DevCmd.Exec.Allowed.{prepared_allowed}

abbrev typed : List Input
typed = Input.text (codes "1\r\n") ∷ Input.text (codes " 15\r\n") ∷ []

phone_dialog : get_cmd_args 1 256 typed ≡ Dialog.ends (pos 0) (codes "1,15") []
unfolding get_cmd_args get_argidx_for_cmdidx xstricmp xstrtrim_crnl str_eq xstrlcat append_bounded
phone_dialog = refl

dialog_valid_example :
    (argidx : ℕ) × (get_argidx_for_cmdidx 1 ≡ some argidx)
    × (vs : List Bytes) × Accepted
        (get_or cmdargs_list argidx no_args).numargs
        (get_or cmdargs_list argidx no_args).argl
        vs
    × (codes "1,15" ≡ listed true vs)
    × (4 < 256)
dialog_valid_example = dialog_valid 1 256 typed (codes "1,15") [] (omega arith) phone_dialog

abbrev mask : Arg
mask = record {
  arglabel = codes "VIP mask";
  argdesc = [];
  type = ArgType.int;
  nsel = 0;
  choices = [];
}

Replied-slip : Replied (Input.text (codes "1o\r\n"))
unfolding get_arg xstrtrim_crnl
Replied-slip = (refl, refl, refl)

Replied-number : Replied (Input.text (codes "10\r\n"))
unfolding get_arg xstrtrim_crnl
Replied-number = (refl, refl, refl)

mistyped_number_example :
    ask_arg mask (Input.text (codes "1o\r\n") ∷ Input.text (codes "10\r\n") ∷ []) ≡ Asked.waits
unfolding get_arg xstrtrim_crnl
mistyped_number_example =
    mistyped_number mask (Input.text (codes "1o\r\n")) (Input.text (codes "10\r\n") ∷ []) refl
      Replied-slip (Replied-number, tt)

version_run :
    exec_get_command (codes "VER") (pos 0, []) ≡ Executed.handled 9 (Handled.prepares 1 [])
unfolding exec_get_command xstricmp cmd_get_template
version_run = refl

prepared_allowed_example : (bit_and 1 (command_at 9).modes == 0) ≡ false
prepared_allowed_example =
    prepared_allowed (codes "VER") [] (pos 0, []) 9 1 [] (inr (inl version_run))

-- The device has 17254 locations.
numrec_of_lem_example :
    numrec_of (codes "$OK:" ++ codes "DLREC" ++ b'=' ∷ (codes "17254" ++ b'(' ∷ codes "2014)"))
    ≡ some (pos 17254)
numrec_of_lem_example =
    numrec_of_lem (codes "DLREC") (codes "17254") (codes "2014)") (omega arith)
      (refl, (refl, (refl, (refl, (refl, tt)))))

abbrev attempts : List Attempt
attempts = Attempt.typed (codes "guess\r\n") ∷ Attempt.typed (codes " secret\r\n") ∷ []

second_try : check_password true (codes "secret") attempts ≡ some success
unfolding check_password xstrtrim_crnl str_eq
second_try = refl
