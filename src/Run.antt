-- ===== src/Run.antt =====
-- axiom-run: the master that serves the slaves' messages (axiom-run/master.c), its parts one by one.
pub mod Nodes
pub mod Exit
pub mod Emit
pub mod Messages
pub mod Rpc
pub mod Receiver
pub mod Sender
pub mod Master
pub mod Slave
pub mod Options
pub mod Launch
pub mod Library
