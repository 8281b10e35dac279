-- ===== src/Domain.antt =====
-- internal/domain: the data of the program, decline classification and retry plans, and the
-- strategy overrides of the configuration file.
pub mod Models
pub mod Decline
pub mod Config
