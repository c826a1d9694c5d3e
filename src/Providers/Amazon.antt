-- ===== src/Providers/Amazon.antt =====
-- internal/cloudinfo/providers/amazon: the client of Amazon. PriceData reads an entry of the price
-- list, Images and Spot have the images and the spot prices, and Client the methods that call Amazon.
pub mod PriceData
pub mod Images
pub mod Latest
pub mod Spot
pub mod Client
mod Tests
