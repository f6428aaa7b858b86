-- ===== src/Validation.antt =====
-- The validators of cbi.js (`validation.types`): the verdict on a text that was typed into a field.
-- The messages that go with a refusal are not modelled.
pub mod Numbers
pub mod Addresses
pub mod Names
pub mod Prefixes
pub mod Cidr
pub mod Combined
