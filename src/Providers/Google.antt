-- ===== src/Providers/Google.antt =====
-- internal/cloudinfo/providers/google: the client of Google. Machines has the virtual machines with
-- network_mapper.go, Prices the price list, and Client the methods that call Google. Network is about
-- the machines that are answered, Zones and Outcome about the prices that are.
pub mod Machines
pub mod Prices
pub mod Client
pub mod Network
pub mod Zones
pub mod Outcome
mod Tests
