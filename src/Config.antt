-- ===== src/Config.antt =====
-- util.go: the place of a syntax error in the configuration file; main.go: the defaults and the
-- command line.
pub mod Offset
pub mod Flags
pub mod File
