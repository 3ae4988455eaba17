-- ===== src/Tests.antt =====
-- Tests of the models and concrete instances of the theorems.
mod Plane
mod Histories
mod Protocol
mod Claims
mod Storage
mod Recovery
mod Governor
mod Manager
mod Telemetry
mod Sharding
