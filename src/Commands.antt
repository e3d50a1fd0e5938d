-- ===== src/Commands.antt =====
-- src/commands.cpp.
pub mod State
pub mod Shown
pub mod Set
pub mod Strings
pub mod Numbers
pub mod Lists
pub mod ListEdits
pub mod Hashes
pub mod Sets
pub mod Keys
pub mod Zsets
pub mod ZsetRanges
pub mod Admin
pub mod Info
pub mod Handle
