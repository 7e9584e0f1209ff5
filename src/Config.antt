-- ===== src/Config.antt =====
-- The command line and the configuration of src/main.cpp: `Protocol`, `Args`, `AppConfig`.
-- Texts are lists of bytes, as `std::string` is.
pub mod Text
pub mod Number
pub mod Args
pub mod Profiles
pub mod Load
