-- ===== src/User.antt =====
-- The user programs' side: user/src/lib.rs and user/src/bin/sh.rs.
pub mod Line
pub mod Shell
pub mod Args
