-- ===== src/DevCmd/Args/Simple.antt =====
-- The arguments of commands with few arguments, from `sleep` to `tz`, in `cmdargs_list` of src/g7cmd.c.
use g7ctrl.Common.{[], codes, ◌∷◌}
use g7ctrl.DevCmd.Arg.{ArgType, CmdArgs}

unfoldable pub sleep_args : CmdArgs
sleep_args = record {
  srvcmd = codes "sleep";
  numargs = 1;
  argl =
      record {
        arglabel = codes "Message mode";
        argdesc = codes "Set how to handle message at when device enters sleep";
        type = ArgType.select;
        nsel = 3;
        choices =
            (codes "1", codes "Log message to device")
            ∷ (codes "2", codes "Send back message")
            ∷ (codes "3", codes "Both log and send back")
            ∷ [];
      }
      ∷ [];
}

unfoldable pub roam_args : CmdArgs
roam_args = record { srvcmd = codes "roam"; numargs = 0; argl = [] }

unfoldable pub phone_args : CmdArgs
phone_args = record {
  srvcmd = codes "phone";
  numargs = 2;
  argl =
      record {
        arglabel = codes "Status";
        argdesc = codes "Enable disable location by phone";
        type = ArgType.select;
        nsel = 2;
        choices = (codes "0", codes "Disabled") ∷ (codes "1", codes "Enabled") ∷ [];
      }
      ∷ record {
        arglabel = codes "VIP mask";
        argdesc = codes "Bitmask for allowed VIP numbers";
        type = ArgType.int;
        nsel = 0;
        choices = [];
      }
      ∷ [];
}

unfoldable pub led_args : CmdArgs
led_args = record { srvcmd = codes "led"; numargs = 0; argl = [] }

unfoldable pub mswitch_args : CmdArgs
mswitch_args = record {
  srvcmd = codes "mswitch";
  numargs = 2;
  argl =
      record {
        arglabel = codes "Report action";
        argdesc = codes "Action to perform when device is detached";
        type = ArgType.select;
        nsel = 4;
        choices =
            (codes "0", codes "Disable")
            ∷ (codes "1", codes "Log on device")
            ∷ (codes "2", codes "Send back to server")
            ∷ (codes "3", codes "Both log and send back")
            ∷ [];
      }
      ∷ record {
        arglabel = codes "VIP mask";
        argdesc = codes "Bitmask of VIP numbers to alert";
        type = ArgType.int;
        nsel = 0;
        choices = [];
      }
      ∷ [];
}

unfoldable pub lowbatt_args : CmdArgs
lowbatt_args = record {
  srvcmd = codes "lowbatt";
  numargs = 2;
  argl =
      record {
        arglabel = codes "Report action";
        argdesc = codes "Action to perform at low battery voltage";
        type = ArgType.select;
        nsel = 4;
        choices =
            (codes "0", codes "Disabled")
            ∷ (codes "1", codes "Log on device")
            ∷ (codes "2", codes "Send back to server")
            ∷ (codes "3", codes "Both log and send back")
            ∷ [];
      }
      ∷ record {
        arglabel = codes "VIP mask";
        argdesc = codes "Bit mask of VIP numbers to alert";
        type = ArgType.int;
        nsel = 0;
        choices = [];
      }
      ∷ [];
}

unfoldable pub sms_args : CmdArgs
sms_args = record {
  srvcmd = codes "sms";
  numargs = 1;
  argl =
      record {
        arglabel = codes "Mode";
        argdesc = codes "Set format for SMS sent back";
        type = ArgType.select;
        nsel = 2;
        choices = (codes "0", codes "PDU mode") ∷ (codes "1", codes "Text mode") ∷ [];
      }
      ∷ [];
}

unfoldable pub sens_args : CmdArgs
sens_args = record {
  srvcmd = codes "sens";
  numargs = 1;
  argl =
      record {
        arglabel = codes "Sensitivity";
        argdesc = codes "Set sensitivity for accelerometer";
        type = ArgType.select;
        nsel = 5;
        choices =
            (codes "1", codes "[1] Highest sensitivity")
            ∷ (codes "2", codes "[2]")
            ∷ (codes "3", codes "[3]")
            ∷ (codes "4", codes "[4]")
            ∷ (codes "5", codes "[5] Lowest sensitivity")
            ∷ [];
      }
      ∷ [];
}

unfoldable pub tz_args : CmdArgs
tz_args = record {
  srvcmd = codes "tz";
  numargs = 3;
  argl =
      record {
        arglabel = codes "Sign";
        argdesc = codes "Ahead or before GMT zone";
        type = ArgType.select;
        nsel = 2;
        choices = (codes "+", codes "Ahead of GMT") ∷ (codes "-", codes "Before GMT") ∷ [];
      }
      ∷ record {
        arglabel = codes "Hour";
        argdesc = codes "Number of hours to adjust (0-9)";
        type = ArgType.int;
        nsel = 0;
        choices = [];
      }
      ∷ record {
        arglabel = codes "Min";
        argdesc = codes "Minutes to adjust";
        type = ArgType.select;
        nsel = 4;
        choices =
            (codes "00", codes "0 min")
            ∷ (codes "15", codes "15 min")
            ∷ (codes "30", codes "30 min")
            ∷ (codes "45", codes "45 min")
            ∷ [];
      }
      ∷ [];
}
