-- ===== src/DevCmd/Args/Tracking.antt =====
-- The arguments of `gfen`, `track`, `comm` and `ps`, in `cmdargs_list` of src/g7cmd.c.
use g7ctrl.Common.{[], codes, ◌∷◌}
use g7ctrl.DevCmd.Arg.{ArgType, CmdArgs}

unfoldable pub gfen_args : CmdArgs
gfen_args = record {
  srvcmd = codes "gfen";
  numargs = 5;
  argl =
      record {
        arglabel = codes "Status";
        argdesc = codes "Turn option on/off";
        type = ArgType.select;
        nsel = 2;
        choices = (codes "0", codes "Disabled") ∷ (codes "1", codes "Enabled") ∷ [];
      }
      ∷ record {
        arglabel = codes "Radius";
        argdesc =
            codes
              "Radius in meter for fence. Radius is counted from the center where M7 sleeps (last recorded pos)";
        type = ArgType.int;
        nsel = 0;
        choices = [];
      }
      ∷ record {
        arglabel = codes "Zone trigger";
        argdesc = codes "Trigger when leaving or entering zone";
        type = ArgType.select;
        nsel = 3;
        choices =
            (codes "0", codes "Undefined")
            ∷ (codes "1", codes "Trigger on enter")
            ∷ (codes "2", codes "Trigger on leave")
            ∷ [];
      }
      ∷ record {
        arglabel = codes "Report action";
        argdesc = codes "What to do on event";
        type = ArgType.select;
        nsel = 4;
        choices =
            (codes "0", codes "Disabled")
            ∷ (codes "1", codes "Log to device")
            ∷ (codes "2", codes "Send back to server")
            ∷ (codes "3", codes "Both log and send back")
            ∷ [];
      }
      ∷ record {
        arglabel = codes "VIP mask";
        argdesc = codes "Bitmask of VIP numbers to alert (0 to disable)";
        type = ArgType.int;
        nsel = 0;
        choices = [];
      }
      ∷ [];
}

unfoldable pub track_args : CmdArgs
track_args = record {
  srvcmd = codes "track";
  numargs = 7;
  argl =
      record {
        arglabel = codes "Tracking mode";
        argdesc = codes "Condition when tracking is started";
        type = ArgType.select;
        nsel = 10;
        choices =
            (codes "0", codes "Disabled")
            ∷ (codes "1", codes "Time interval")
            ∷ (codes "2", codes "Distance interval")
            ∷ (codes "3", codes "Time AND Distance interval")
            ∷ (codes "4", codes "Time OR distance interval")
            ∷ (codes "5", codes "Heading mode")
            ∷ (codes "6", codes "Heading OR time")
            ∷ (codes "7", codes "Heading OR distance")
            ∷ (codes "8", codes "Heading OR (Time AND Distance")
            ∷ (codes "9", codes "Heading OR Time OR Distance")
            ∷ [];
      }
      ∷ record {
        arglabel = codes "Timer interval";
        argdesc = codes "Used for mode 1";
        type = ArgType.int;
        nsel = 0;
        choices = [];
      }
      ∷ record {
        arglabel = codes "Dist. interval";
        argdesc = codes "Used for mode 2-9";
        type = ArgType.int;
        nsel = 0;
        choices = [];
      }
      ∷ record {
        arglabel = codes "Nbr of times";
        argdesc = codes "Number of times to track (0=unlimited)";
        type = ArgType.int;
        nsel = 0;
        choices = [];
      }
      ∷ record {
        arglabel = codes "Track basis";
        argdesc = codes "Wait for GPS fix or not";
        type = ArgType.select;
        nsel = 2;
        choices =
            (codes "0", codes "Send report if GPS fix")
            ∷ (codes "1", codes "Send report always")
            ∷ [];
      }
      ∷ record {
        arglabel = codes "Comm select";
        argdesc = codes "Set type of report";
        type = ArgType.select;
        nsel = 5;
        choices =
            (codes "0", codes "Over USB")
            ∷ (codes "1", codes "Over GSM")
            ∷ (codes "2", codes "Over Reserved (not used)")
            ∷ (codes "3", codes "UDP over GPRS")
            ∷ (codes "4", codes "TCP/IP over GPRS")
            ∷ [];
      }
      ∷ record {
        arglabel = codes "Heading";
        argdesc = codes "Used for modes 5-9";
        type = ArgType.int;
        nsel = 0;
        choices = [];
      }
      ∷ [];
}

unfoldable pub comm_args : CmdArgs
comm_args = record {
  srvcmd = codes "comm";
  numargs = 10;
  argl =
      record {
        arglabel = codes "CommSelect";
        argdesc = codes "Select primary type of communication";
        type = ArgType.select;
        nsel = 5;
        choices =
            (codes "0", codes "Use USB")
            ∷ (codes "1", codes "Use SMS over GSM")
            ∷ (codes "2", codes "CSD <reserved>")
            ∷ (codes "3", codes "UDP over GPRS")
            ∷ (codes "4", codes "TCP/IP over GPRS")
            ∷ [];
      }
      ∷ record {
        arglabel = codes "SMS Base Phone";
        argdesc = codes "SMS base number to call";
        type = ArgType.string;
        nsel = 0;
        choices = [];
      }
      ∷ record {
        arglabel = codes "CSD Base Phone";
        argdesc = codes "CSD base number <reserved and not used>";
        type = ArgType.int;
        nsel = 0;
        choices = [];
      }
      ∷ record {
        arglabel = codes "GPRS APN";
        argdesc = codes "The operators APN";
        type = ArgType.string;
        nsel = 0;
        choices = [];
      }
      ∷ record {
        arglabel = codes "GPRS User";
        argdesc = codes "User name if required";
        type = ArgType.string;
        nsel = 0;
        choices = [];
      }
      ∷ record {
        arglabel = codes "GPRS Passwd";
        argdesc = codes "Password if required";
        type = ArgType.string;
        nsel = 0;
        choices = [];
      }
      ∷ record {
        arglabel = codes "GPRS Server";
        argdesc = codes "Server IP address where the device reports back to";
        type = ArgType.string;
        nsel = 0;
        choices = [];
      }
      ∷ record {
        arglabel = codes "GPRS Server Port";
        argdesc = codes "TCP/IP Port to use on server";
        type = ArgType.int;
        nsel = 0;
        choices = [];
      }
      ∷ record {
        arglabel = codes "GPRS Keep Alive";
        argdesc = codes "Interval in sec between Keep Alive Packets";
        type = ArgType.int;
        nsel = 0;
        choices = [];
      }
      ∷ record {
        arglabel = codes "GPRS DNS";
        argdesc = codes "Optional DNS server for device to use.";
        type = ArgType.string;
        nsel = 0;
        choices = [];
      }
      ∷ [];
}

unfoldable pub ps_args : CmdArgs
ps_args = record {
  srvcmd = codes "ps";
  numargs = 7;
  argl =
      record {
        arglabel = codes "Mode";
        argdesc = codes "When to enable sleep mode";
        type = ArgType.select;
        nsel = 4;
        choices =
            (codes "0", codes "Auto sleep. Wake on movement. GSM=Stdby,GPRS=GPS=Off,G=On")
            ∷ (codes "1", codes "Auto sleep. Wake every n min. GSM=GPRS=GPS=G=Off")
            ∷ (codes "2", codes "Auto sleep. Wake on timer. GSM=GPRS=GPS=G=Off")
            ∷ (codes "3", codes "Auto sleep. Wake on movement. GSM=GPRS=GPS=Off,G=On")
            ∷ [];
      }
      ∷ record {
        arglabel = codes "Sleep interval";
        argdesc = codes "Used with mode 1, Interval in min between wake ups";
        type = ArgType.int;
        nsel = 0;
        choices = [];
      }
      ∷ record {
        arglabel = codes "Wake up report";
        argdesc = codes "Action when awaken";
        type = ArgType.select;
        nsel = 4;
        choices =
            (codes "0", codes "Disabled")
            ∷ (codes "1", codes "Log on device")
            ∷ (codes "2", codes "Send back to server")
            ∷ (codes "3", codes "Both log and send back")
            ∷ [];
      }
      ∷ record {
        arglabel = codes "VIP mask";
        argdesc = codes "Bitmask of VIP numbers to alert (0 disables)";
        type = ArgType.int;
        nsel = 0;
        choices = [];
      }
      ∷ record {
        arglabel = codes "Timer 1";
        argdesc = codes "Used with mode=2. 00-23 hr";
        type = ArgType.int;
        nsel = 0;
        choices = [];
      }
      ∷ record {
        arglabel = codes "Timer 2";
        argdesc = codes "Used with mode=2. 00-23 hr";
        type = ArgType.int;
        nsel = 0;
        choices = [];
      }
      ∷ record {
        arglabel = codes "Timer 3";
        argdesc = codes "Used with mode=2. 00-23 hr";
        type = ArgType.int;
        nsel = 0;
        choices = [];
      }
      ∷ [];
}
