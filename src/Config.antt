-- ===== src/Config.antt =====
-- The settings file of the command line: candy-cli/src/config.h and config.cc.
pub mod File
pub mod Settings
pub mod Lines
