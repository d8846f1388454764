-- ===== src/Domain.antt =====
-- services/vault-api/domain: the packages evidence, bundle, merkle and checkpoint. No handler uses
-- them.
pub mod Evidence
pub mod Bundle
pub mod Merkle
mod Tests
