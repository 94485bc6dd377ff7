-- ===== src/Crypto.antt =====
-- crates/crypto: BLS keys and signatures, fork data and signing domains, and the relay's signer.
pub mod Blst
pub mod Keys
pub mod Fork
pub mod Signer
