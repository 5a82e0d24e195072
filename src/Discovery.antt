-- ===== src/Discovery.antt =====
-- src/device_discovery.cpp: what a device says of itself, the packets that carry it, the registry of
-- the devices that were heard of, and the service that answers queries.
pub mod Device
pub mod Registry
pub mod Message
pub mod Service
mod Tests
