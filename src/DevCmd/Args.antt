-- ===== src/DevCmd/Args.antt =====
-- `cmdargs_list` of src/g7cmd.c: the arguments of the commands that can be set.
mod Simple
mod Tracking
mod Events
use g7ctrl.Common.{List, [], ◌∷◌}
use g7ctrl.DevCmd.Arg.{CmdArgs}
use g7ctrl.DevCmd.Args.Simple.{
  sleep_args, roam_args, phone_args, led_args, mswitch_args, lowbatt_args, sms_args, sens_args,
  tz_args,
}
use g7ctrl.DevCmd.Args.Tracking.{gfen_args, track_args, comm_args, ps_args}
use g7ctrl.DevCmd.Args.Events.{config_args, vip_args, gfevt_args, rec_args}

unfoldable pub cmdargs_list : List CmdArgs
unfolding sleep_args roam_args phone_args led_args mswitch_args lowbatt_args sms_args sens_args
    tz_args gfen_args track_args comm_args ps_args config_args vip_args gfevt_args rec_args
cmdargs_list =
    sleep_args ∷ roam_args ∷ phone_args ∷ led_args ∷ mswitch_args ∷ lowbatt_args ∷ sms_args
    ∷ sens_args ∷ tz_args ∷ gfen_args ∷ track_args ∷ comm_args ∷ ps_args ∷ config_args ∷ vip_args
    ∷ gfevt_args ∷ rec_args ∷ []
