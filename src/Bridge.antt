-- ===== src/Bridge.antt =====
-- whatsapp-bridge: the single-package bridge, one module for each part of its files.
pub mod Std
pub mod Proto
pub mod Unwrap
pub mod Decimal
pub mod Vcard
pub mod Menu
pub mod Choice
pub mod Content
pub mod Media
pub mod Store
pub mod Events
pub mod Audio
pub mod Send
pub mod Select
pub mod Download
pub mod Rest
pub mod Run
pub mod Connection
pub mod Pairing
pub mod Tray
pub mod Jids
pub mod Instance
pub mod Groups
pub mod AppState
pub mod Mcp
