-- ===== src/Process.antt =====
-- internal/processmgr: process sessions and the output that they keep.
pub mod Ring
pub mod Command
pub mod Manager
mod Tests
