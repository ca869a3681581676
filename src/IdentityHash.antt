-- ===== src/IdentityHash.antt =====
-- The identity hash table of cpython-overlay/Include/internal/pycore_retrace_identity_hash.h.
pub mod Entry
pub mod Table
pub mod Insert
pub mod Operations
pub mod Ring
pub mod Scan
pub mod Robin
pub mod Invariant
pub mod Probe
pub mod Lookup
pub mod Delete
pub mod Sound
pub mod Grow
pub mod Map
pub mod History
mod Tests
