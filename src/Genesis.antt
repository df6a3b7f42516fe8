-- ===== src/Genesis.antt =====
-- genesis and internal/clientpolicy: the forks that a genesis can be made for, and the flags that a
-- client allows.
pub mod Forks
pub mod Policy
mod Examples
