-- ===== src/Tools.antt =====
-- The command line tools of src/tools.
pub mod Session
pub mod Tx
pub mod Rx
pub mod Transfer
pub mod Main
pub mod Command
