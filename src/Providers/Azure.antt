-- ===== src/Providers/Azure.antt =====
-- internal/cloudinfo/providers/azure: the client of Azure. RegionIds finds the region of a meter,
-- MachineTypes the machine types of a meter, Meters has `Initialize`, and Client the other methods
-- that call Azure, with the categories. Variants, Outcome, Known and Categories prove properties.
pub mod RegionIds
pub mod MachineTypes
pub mod Variants
pub mod Client
pub mod Meters
pub mod Outcome
pub mod Known
pub mod Categories
mod Tests
