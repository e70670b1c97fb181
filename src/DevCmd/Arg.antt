-- ===== src/DevCmd/Arg.antt =====
-- How src/g7cmd.c describes the arguments of a command.
use g7ctrl.Common.{Bytes, List, ℕ}

pub data ArgType : Type 0 where
  bool int float select string : ArgType

-- An argument, with the value and the label of each choice.
pub record Arg : Type 0 where
  pub arglabel : Bytes
  pub argdesc : Bytes
  pub type : ArgType
  pub nsel : ℕ
  pub choices : List (Bytes × Bytes)

-- `struct cmdargs`
pub record CmdArgs : Type 0 where
  pub srvcmd : Bytes
  pub numargs : ℕ
  pub argl : List Arg
