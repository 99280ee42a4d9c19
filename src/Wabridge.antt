-- ===== src/Wabridge.antt =====
-- wabridge: the layered bridge, one module for each part; its value objects are in Domain.
pub mod Session
pub mod Repos
pub mod Bus
pub mod Features
pub mod Translate
pub mod Download
pub mod Send
pub mod Logs
pub mod Rest
pub mod Contacts
pub mod Queue
pub mod Pairing
pub mod Tray
