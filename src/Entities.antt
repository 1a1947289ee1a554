-- ===== src/Entities.antt =====
-- The Home Assistant entities of the integration, over the coordinator's data: which descriptions,
-- buttons and switches a family has, which are enabled by default, and the entity registry. The
-- registry is Home Assistant's; it is modelled by the attributes of its entries that the code reads
-- and writes.
pub mod Descriptions
mod Tests
pub mod Profiles
pub mod Served
pub mod Availability
pub mod Buttons
pub mod Registry
pub mod Sensors
pub mod States
pub mod Switch
