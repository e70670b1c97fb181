-- ===== src/Lib.antt =====
-- g7ctrl is a daemon that talks to GM7 GPS trackers: it sends them commands over USB or GPRS, receives
-- their replies and locations, and answers the users of its command line.
--
-- What is modelled, and where. Paths are from the repository's root; a definition has the name of the C
-- function or type that it stands for, in lower case with underscores.
--   Common       lists, C strings, tests on numbers, and the libraries' names passed on
--   Xstr         src/libxstr/xstr.c: Copy (xstrlcpy, xstrlcat, xsubstr, xstrfilify), Trim (xstrtrim,
--                xstrtrim_crnl), Number (xatoi, xatol), Split (xstrsplitfields), Utf8 (xmb_strncpy,
--                xmb_strncat), Case (xstrtolower, xstricmp)
--   Codec        Html and Url: the codecs of src/utils.c; Base64: src/libsmtpmail/base64ed.c; Quoted and
--                QuotedWord: src/libsmtpmail/quotprinted.c
--   Assoc        src/libxstr/assocarray.c: the array and all operations, their theorems by operation
--                in Grow, Put, Edits, Sets and Sort
--   Clients      client_info_list of src/g7ctrl.c: the slot that src/socklistener.c gives a connection
--                and how it is given back; KeepAlive: handleKeepAlivePackage of src/tracker.c; Target: the
--                choice of a device in src/g7sendcmd.c; Slots and Steps: the invariant of the list;
--                Sessions: the list as a bag of connections, the quotient that forgets the slots
--   Usb          src/connwatcher.c: the status of the USB ports; Ports: its invariant; Cycle: a port from
--                the plug to the unplug
--   CmdQueue     the queue of commands in src/g7sendcmd.c: each operation; Steps: the steps of the
--                threads as a relation; Deliver: a reply without interference; Late: one that comes too
--                late; Wait: the end of the wait for a reply
--   DeviceReply  src/g7sendcmd.c: extract_devcmd_reply, its first field, device_strerr,
--                handle_device_reply; Wire: replies as a device sends them
--   DeviceTag    src/g7sendcmd.c: get_device_tag, get_device_pin
--   Tracker      src/tracker.c: handleCmdReplyPackage, which parses with DeviceReply and delivers to
--                CmdQueue; Events: arrivingPackageType and the loop over the packages of a read; Delivered:
--                a reply from the socket to the queue
--   SendCmd      src/g7sendcmd.c: send_rawcmd_reply over GPRS and over USB, which puts a command into
--                CmdQueue, waits, and answers with DeviceReply; Answered: the way of a command to the
--                device and back, through Tracker; Refused: the ways in which it fails; Query: the daemon's own
--                questions, send_cmdquery_reply, get_numrec and get_devid
--   DevCmd       src/g7cmd.c: Table: the commands and events; Arg and Args: the arguments of each command;
--                Translate: replies as text; Prepare: the texts for the device and the templates that
--                handle commands; Dialog: get_arg and get_cmd_args, the dialog for arguments; Exec: how a
--                command finds its handler; Run: the command `get` from its name through all of these
--                to SendCmd
--   Password     src/g7cmd.c: check_password
--   Presets      src/presets.c: Text: a command of a preset as text for the device; Run: execPreset and
--                the command `preset`
--   GeoCache     src/geoloc_cache.c: the caches of addresses and (Minimap) of maps: lookup, update,
--                statistics, over one generic array of slots
--   Dict         src/dict.c: the dictionary and the templates
--   Tests        runs, and the theorems applied at concrete inputs
--
-- How the code is represented. A C string is the list of its bytes before the NUL, and a character is a
-- number below 256. Where a function may read behind the NUL, as extract_devcmd_reply does, its argument
-- is the memory from the pointer on. A function that answers 0 or -1 gives success or failure, or an Option;
-- what it writes to its out parameters is a part of the result, and a static variable is an argument and a
-- part of the result. What a user is told is a value of a type of messages. Sizes are natural numbers, and
-- a wrap-around that the code can reach is written out. Allocations succeed, and pointers that the code
-- does not test are not null. The comparison of strings, qsort, strtol, tolower and the character classes
-- are those of the C library in the C locale. Time is an argument. The threads of the daemon share the
-- command queue and the list of clients. An operation that holds its mutex is one step, and so is one that
-- writes only to its own thread's slot of the list. The search for the
-- entry of a reply and the writes to it hold none: CmdQueue.Steps has them apart, and CmdQueue.Late is
-- what may come of it. The calls on the USB ports hold no mutex either; Usb is what they do when
-- they do not overlap.
-- Doubles, atof and gpsdist_m are the record Floats, an argument of the address cache. Sockets, the serial
-- port, the answers of a device to the watcher, the inputs of a user and the lines of a file are
-- arguments too; in Presets, send_rawcmd is the parameter `send`, with the world that it changes, and what follows
-- when an argument is written past its buffer is the parameter `past_end`.
--
-- Loops are structural recursion on the text or the table, but for these: xmb_charnum has the offset as fuel,
-- replace_dict_in_buf, the loop over the packages of a read and the loop over the arguments of a preset
-- the length of the text, since each round goes on by a byte at least; assoc_put calls
-- itself through the copy of a full array, for which two levels are enough, as the copy has room for all
-- pairs; cmdqueue_check_reply runs over the rounds that it is given, and ends when the time is up.
--
-- Not modelled: the database, mail, maps and reports, and the loops over sockets, which are calls of libraries
-- and of the system; libiniparser, a copy of another project's library; the
-- files of the caches, JSON in assocarray.c, the interpreter of commands, which matches
-- regular expressions of PCRE, and the server commands of src/g7srvcmd.c.
pub mod Common
pub mod Xstr
pub mod Codec
pub mod Clients
pub mod Usb
pub mod SendCmd
pub mod DevCmd
pub mod Presets
pub mod Password
pub mod Assoc
pub mod CmdQueue
pub mod DeviceReply
pub mod GeoCache
pub mod Dict
pub mod Tracker
pub mod DeviceTag
pub mod Tests
