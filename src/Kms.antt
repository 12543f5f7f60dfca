-- ===== src/Kms.antt =====
-- plugins/pkg/plugin/kms: what the key management plugin decides before it calls OpenBao.
pub mod Spec
pub mod Tenant
pub mod KeyStore
pub mod Blob
pub mod Calls
pub mod Cipher
pub mod Ethereum
mod Tests
