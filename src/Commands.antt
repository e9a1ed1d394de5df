-- ===== src/Commands.antt =====
-- The management commands of both services. Arguments are parsed; what is printed is the result.
pub mod CreateEvent
pub mod RunAdmitter
pub mod MintToken
