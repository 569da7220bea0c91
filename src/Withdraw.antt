-- ===== src/Withdraw.antt =====
-- withdraw/: the durable withdrawal state machine.
pub mod Tests
pub mod Intent
pub mod Store
pub mod Engine
pub mod Evolution
