-- ===== src/Uci.antt =====
-- The configuration store of luci2-base/htdocs/luci2/uci.js: what the pages read and write before
-- anything is sent to the router, and how it is sent.
pub mod Store
pub mod Access
pub mod Create
pub mod Sections
pub mod Order
pub mod Save
pub mod Apply
pub mod Edits
