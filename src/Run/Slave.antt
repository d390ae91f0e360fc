-- ===== src/Run/Slave.antt =====
-- axiom-run/slave.c: the slave that serves the child process of one node. What the system calls
-- answer is a script, one entry for each round of a loop, and the pipe from the child is the list
-- of the bytes that are still in it. Logging, scheduling parameters, and the failures of eventfd
-- and pthread_create, which end the process, are left out.
pub mod Output
pub mod Forward
pub mod Drained
pub mod Receive
pub mod Stdin
pub mod Services
pub mod Ending
mod Tests
