-- ===== src/Network.antt =====
-- network.js: the device and interface objects that are built from the configuration and the state of
-- the router, and the questions that the pages ask of them.
pub mod Load
pub mod Status
pub mod Objects
pub mod Alias
pub mod Queries
pub mod Attach
