-- ===== src/Providers.antt =====
-- internal/cloudinfo/providers: the clients of the cloud providers, each over the package that calls
-- the provider's API.
pub mod Prices
pub mod Groups
pub mod DigitalOcean
pub mod Azure
pub mod Amazon
pub mod Google
