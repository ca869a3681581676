-- ===== src/Threads.antt =====
-- The ids of threads: cpython-overlay/Include/internal/pycore_retrace.h, lines 37 to 105, 531 to 566 and 703 to 767.
pub mod Ids
pub mod Unique
pub mod Ident
mod Tests
