-- ===== src/DevCmd/Exec/Handlers.antt =====
-- The mode in which the handlers of src/g7cmd.c prepare a command.
use g7ctrl.Common.{
  Bool-cases, Bytes, Option-cases, get_or, if◌then◌else◌, inl, inr, refl, suc, zero, ℕ, ◌&&◌, ◌==◌,
  ◌≡◌,
}
use g7ctrl.Common.Int.{ℤ, pos, negsuc}
use g7ctrl.DevCmd.Args.{cmdargs_list}
use g7ctrl.DevCmd.Translate.{no_args, get_argidx_for_cmdidx}
use g7ctrl.DevCmd.Table.{Handler, cmd_mode_r, cmd_mode_w}
use g7ctrl.DevCmd.Prepare.{
  Handled, ask_args, switch_on, cmdidx_setevt, cmd_binary_template, cmd_set_template,
  cmd_get_template, cmd_do_template,
}
use g7ctrl.DevCmd.Exec.{Executed, call_handler}

-- The mode in which a handler prepares a command; a handler of its own prepares none.
abbrev pub mode_of : Handler → ℕ → ℕ
mode_of Handler.do_template gsflag = cmd_mode_w
mode_of Handler.exec_dlrec gsflag = cmd_mode_w
mode_of h gsflag = if gsflag == 0 then cmd_mode_r else cmd_mode_w

abbrev Prepares : ℕ → Handled → Type 0
Prepares m (Handled.returns rc) = Unit
Prepares m (Handled.prepares k args) = k ≡ m

abbrev pub Calls : ℕ → ℕ → Executed → Type 0
Calls i m (Executed.handled j h) = (j ≡ i) × Prepares m h
Calls i m (Executed.special j h) = Unit
Calls i m Executed.unknown_command = Unit

ask_args_lem : (numargs : ℕ) (dialog : ℤ × Bytes) → Prepares cmd_mode_w (ask_args numargs dialog)
unfolding ask_args
ask_args_lem numargs (rc, args) = elim (Bool-cases (numargs == 0)) [
  | inl e ↦ rw e refl
  | inr e ↦ rw e (rc_lem rc args)
]
  where
    rc_lem :
        (rc : ℤ) (args : Bytes)
        → Prepares cmd_mode_w (elim rc [
          | pos zero ↦ Handled.prepares cmd_mode_w args
          | pos (suc n) ↦ Handled.returns (pos (suc n))
          | negsuc n ↦ Handled.returns (negsuc n)
        ])
    rc_lem (pos zero) args = refl
    rc_lem (pos (suc n)) args = tt
    rc_lem (negsuc n) args = tt

switch_on_lem : (i : ℕ) (dialog : ℤ × Bytes) → Prepares cmd_mode_w (switch_on i dialog)
unfolding switch_on
switch_on_lem i dialog = elim (Option-cases (get_argidx_for_cmdidx i)) [
  | inl e ↦ rw (e, switch_on) tt
  | inr (argidx, e) ↦
      rw (e, switch_on) (ask_args_lem (get_or cmdargs_list argidx no_args).numargs dialog)
]

binary_lem :
    (i gsflag : ℕ) (dialog : ℤ × Bytes)
    → Prepares
        (if gsflag == 0 then cmd_mode_r else cmd_mode_w)
        (cmd_binary_template i gsflag dialog)
unfolding cmd_binary_template
binary_lem i gsflag dialog = elim (Bool-cases (gsflag == 0)) [
  | inl e ↦ rw e refl
  | inr e ↦ rw e (elim (Bool-cases (gsflag == 1)) [
    | inl k ↦ rw k (switch_on_lem i dialog)
    | inr k ↦ rw k (elim (Bool-cases (gsflag == 2)) [ inl l ↦ rw l refl | inr l ↦ rw l tt ])
  ])
]

set_lem :
    (i gsflag : ℕ) (dialog : ℤ × Bytes)
    → Prepares (if gsflag == 0 then cmd_mode_r else cmd_mode_w) (cmd_set_template i gsflag dialog)
unfolding cmd_set_template
set_lem i gsflag dialog = elim (Bool-cases (i == cmdidx_setevt && gsflag == 0)) [
  | inl s ↦ rw s tt
  | inr s ↦ rw s (elim (Bool-cases (gsflag == 0)) [
    | inl e ↦ rw e refl
    | inr e ↦ rw e (elim (Bool-cases (gsflag == 1)) [
      | inl k ↦ rw k (switch_on_lem i dialog)
      | inr k ↦ rw k tt
    ])
  ])
]

get_lem :
    (gsflag : ℕ)
    → Prepares (if gsflag == 0 then cmd_mode_r else cmd_mode_w) (cmd_get_template gsflag)
unfolding cmd_get_template
get_lem gsflag = elim (Bool-cases (gsflag == 0)) [ inl e ↦ rw e refl | inr e ↦ rw e tt ]

do_lem : (gsflag : ℕ) → Prepares cmd_mode_w (cmd_do_template gsflag)
unfolding cmd_do_template
do_lem gsflag = elim (Bool-cases (gsflag == 0)) [ inl e ↦ rw e refl | inr e ↦ rw e tt ]

pub call_handler_lem :
    (h : Handler) (i gsflag : ℕ) (dialog : ℤ × Bytes)
    → Calls i (mode_of h gsflag) (call_handler h i gsflag dialog)
unfolding call_handler
call_handler_lem Handler.binary_template i gsflag dialog = (refl, binary_lem i gsflag dialog)
call_handler_lem Handler.set_template i gsflag dialog = (refl, set_lem i gsflag dialog)
call_handler_lem Handler.get_template i gsflag dialog = (refl, get_lem gsflag)
call_handler_lem Handler.do_template i gsflag dialog = (refl, do_lem gsflag)
call_handler_lem Handler.no_handler i gsflag dialog = tt
call_handler_lem Handler.exec_batt i gsflag dialog = tt
call_handler_lem Handler.exec_dlrec i gsflag dialog = tt
call_handler_lem Handler.exec_address i gsflag dialog = tt
