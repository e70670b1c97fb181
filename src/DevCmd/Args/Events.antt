-- ===== src/DevCmd/Args/Events.antt =====
-- The arguments of `config`, `vip`, `gfevt` and `rec`, in `cmdargs_list` of src/g7cmd.c.
use g7ctrl.Common.{[], codes, ◌∷◌}
use g7ctrl.DevCmd.Arg.{ArgType, CmdArgs}

unfoldable pub config_args : CmdArgs
config_args = record {
  srvcmd = codes "config";
  numargs = 3;
  argl =
      record {
        arglabel = codes "Device ID";
        argdesc = codes "Set device ID (leftmost digit must always be 3)";
        type = ArgType.int;
        nsel = 0;
        choices = [];
      }
      ∷ record {
        arglabel = codes "Device Password";
        argdesc = codes "Set device Password (numeric)";
        type = ArgType.int;
        nsel = 0;
        choices = [];
      }
      ∷ record {
        arglabel = codes "SIM Card PIN";
        argdesc = codes "The SIM cards PIN code to use";
        type = ArgType.int;
        nsel = 0;
        choices = [];
      }
      ∷ [];
}

unfoldable pub vip_args : CmdArgs
vip_args = record {
  srvcmd = codes "vip";
  numargs = 5;
  argl =
      record {
        arglabel = codes "VIP 1";
        argdesc = codes "Mobile number 1 (incl country prefix '+')";
        type = ArgType.string;
        nsel = 0;
        choices = [];
      }
      ∷ record {
        arglabel = codes "VIP 2";
        argdesc = codes "Mobile number 2 (incl country prefix '+')";
        type = ArgType.string;
        nsel = 0;
        choices = [];
      }
      ∷ record {
        arglabel = codes "VIP 3";
        argdesc = codes "Mobile number 3 (incl country prefix '+')";
        type = ArgType.string;
        nsel = 0;
        choices = [];
      }
      ∷ record {
        arglabel = codes "VIP 4";
        argdesc = codes "Mobile number 4 (incl country prefix '+')";
        type = ArgType.string;
        nsel = 0;
        choices = [];
      }
      ∷ record {
        arglabel = codes "VIP 5";
        argdesc = codes "Mobile number 5 (incl country prefix '+')";
        type = ArgType.string;
        nsel = 0;
        choices = [];
      }
      ∷ [];
}

unfoldable pub gfevt_args : CmdArgs
gfevt_args = record {
  srvcmd = codes "gfevt";
  numargs = 8;
  argl =
      record {
        arglabel = codes "Event ID";
        argdesc = codes "Event ID. Maximum of 50 events. In range 50-99";
        type = ArgType.int;
        nsel = 0;
        choices = [];
      }
      ∷ record {
        arglabel = codes "Status";
        argdesc = codes "Enable/Disable event";
        type = ArgType.select;
        nsel = 2;
        choices = (codes "0", codes "Disabled") ∷ (codes "1", codes "Enabled") ∷ [];
      }
      ∷ record {
        arglabel = codes "Longitude";
        argdesc = codes "Longitude for center of event zone";
        type = ArgType.float;
        nsel = 0;
        choices = [];
      }
      ∷ record {
        arglabel = codes "Latitude";
        argdesc = codes "Latitude for center of event zone";
        type = ArgType.float;
        nsel = 0;
        choices = [];
      }
      ∷ record {
        arglabel = codes "Radius";
        argdesc = codes "Radius of event zone in meters (0-65535)";
        type = ArgType.int;
        nsel = 0;
        choices = [];
      }
      ∷ record {
        arglabel = codes "Zone Control";
        argdesc = codes "How to trigger event";
        type = ArgType.select;
        nsel = 2;
        choices =
            (codes "0", codes "Disabled")
            ∷ (codes "1", codes "Entering zone")
            ∷ (codes "2", codes "Leaving zone")
            ∷ [];
      }
      ∷ record {
        arglabel = codes "Action";
        argdesc = codes "What to do on event";
        type = ArgType.select;
        nsel = 4;
        choices =
            (codes "0", codes "Disabled")
            ∷ (codes "1", codes "Log to device")
            ∷ (codes "2", codes "Send to server")
            ∷ (codes "3", codes "Both log and send")
            ∷ [];
      }
      ∷ record {
        arglabel = codes "VIP Phone mask";
        argdesc = codes "Bit combination to enable/disable the five VIP numbers";
        type = ArgType.int;
        nsel = 0;
        choices = [];
      }
      ∷ [];
}

unfoldable pub rec_args : CmdArgs
rec_args = record {
  srvcmd = codes "rec";
  numargs = 6;
  argl =
      record {
        arglabel = codes "Mode";
        argdesc = codes "When should logging be done";
        type = ArgType.select;
        nsel = 10;
        choices =
            (codes "0", codes "Disabled")
            ∷ (codes "1", codes "Time mode, log every n seconds")
            ∷ (codes "2", codes "Distance mode, log every n meters")
            ∷ (codes "3", codes "Time AND Distance mode")
            ∷ (codes "4", codes "Time OR Distance mode")
            ∷ (codes "5", codes "Heading mode, logging starts when heading > set value")
            ∷ (codes "6", codes "Heading OR Time mode")
            ∷ (codes "7", codes "Heading OR Distance")
            ∷ (codes "8", codes "Heading OR (Time AND Distance)")
            ∷ (codes "9", codes "Heading OR Time OR Distance")
            ∷ [];
      }
      ∷ record {
        arglabel = codes "Time interval";
        argdesc = codes "Time interval (in sec) used in mode setting";
        type = ArgType.int;
        nsel = 0;
        choices = [];
      }
      ∷ record {
        arglabel = codes "Distance interval";
        argdesc = codes "Distance interval (in meters) used in mode setting";
        type = ArgType.int;
        nsel = 0;
        choices = [];
      }
      ∷ record {
        arglabel = codes "Number of reports";
        argdesc = codes "The number of reports to send bakc on event (0=continously logging)";
        type = ArgType.int;
        nsel = 0;
        choices = [];
      }
      ∷ record {
        arglabel = codes "Record basis";
        argdesc = codes "Logging mode";
        type = ArgType.select;
        nsel = 2;
        choices =
            (codes "0", codes "Wait for GPS fix before sending back report")
            ∷ (codes "1", codes "Don't wait for GPS fix before sending back report")
            ∷ [];
      }
      ∷ record {
        arglabel = codes "Heading";
        argdesc = codes "Heading value used in mode (10-90)";
        type = ArgType.int;
        nsel = 0;
        choices = [];
      }
      ∷ [];
}
