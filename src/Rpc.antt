-- ===== src/Rpc.antt =====
-- rpc.js: calls of the router, alone or gathered in a batch, and the assignment of the replies to the
-- calls. The transport is not modelled: a call returns what is to be sent, and the replies come in as
-- an argument.
pub mod Json
pub mod Reply
pub mod Batch
