-- ===== src/Args.antt =====
-- parseargs.c: from option strings to bytes, numbers and addresses.
pub mod Stream
pub mod Random
pub mod Value
pub mod Number
pub mod Address
pub mod Split
