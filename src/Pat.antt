-- ===== src/Pat.antt =====
-- Personal access tokens: plugins/pkg/plugin/patissuer issues them, plugins/pkg/plugin/auth accepts
-- them, and plugins/pkg/plugin/jwks publishes the keys.
pub mod Types
pub mod Transit
pub mod Cache
pub mod Auth
pub mod Service
pub mod Issuer
pub mod RoundTrip
pub mod Versions
pub mod KeySet
pub mod Publisher
mod Tests
