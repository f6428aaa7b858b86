-- ===== src/Tests.antt =====
-- Runs of the definitions on small inputs, and the theorems at concrete inputs.
mod Config
mod Nets
mod Calls
mod Pages
mod Attached
mod Saved
mod Forms
mod Radios
