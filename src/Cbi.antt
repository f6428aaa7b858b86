-- ===== src/Cbi.antt =====
-- The forms of cbi.js: fields, sections and maps, on the store of Uci. What the document shows is an
-- argument, as jQuery reads it.
pub mod Js
pub mod Run
pub mod Field
pub mod Value
pub mod Devices
pub mod Form
pub mod Depends
pub mod Tree
pub mod Map
pub mod Handlers
