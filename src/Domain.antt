-- ===== src/Domain.antt =====
-- The value objects of wabridge/internal/core/domain.
pub mod Error
pub mod Jid
pub mod Media
pub mod Message
pub mod Label
pub mod Identity
