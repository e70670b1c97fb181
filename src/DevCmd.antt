-- ===== src/DevCmd.antt =====
-- The device commands of src/g7cmd.c: their tables, the translation of replies, the text that goes to
-- the device, the dialog for arguments, and the way from a user's command to its handler.
pub mod Arg
pub mod Args
pub mod Table
pub mod Translate
pub mod Prepare
pub mod Dialog
pub mod Exec
pub mod Run
