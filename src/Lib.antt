-- ===== src/Lib.antt =====
-- The interpreter support of retrace-cpython: coordinates that name where each thread of a Python
-- program stands, thread ids that a replay finds again, hashes of objects by their address, callbacks
-- at coordinates and at thread switches, and handoffs between threads.
--
-- The parts, and how they work together. Every frame carries a counter of code units and of calls
-- (Frames). A thread has coordinate spaces; a frame is activated in the current one when it starts
-- and deactivated when it returns, which counts a call in the frame or the space below it (Spaces). A
-- thread's coordinates are the counters of its frames in a space, oldest frame first, and a delta
-- sends only those that changed since the last delta (Coordinates). A call_at is armed with
-- coordinates, and callbacks are kept by space (Callbacks); both are looked at before each
-- instruction, and a callback is called in the disabled space (Instructions). Thread ids are mixed
-- from the ids and the coordinates of their parents (Threads, Spaces/Seeds), with the mixer that also
-- spreads the addresses in the table of identity hashes (Mixers, IdentityHash); an object's hash is
-- made from coordinates and kept in that table (ObjectHash). A handoff parks one thread and wakes
-- another, which it names by its id (Handoff). The functions of the module read their arguments and
-- call all of these (Calls).
--
-- Files, and the code that they model.
--   Base, Words         helpers: Boolean tests, lists, loops on fuel, 64-bit arithmetic and bits.
--   Mixers              cpython-overlay/Include/internal/pycore_retrace_mixers.h: `_PyRetrace_Mix64`.
--   IdentityHash        cpython-overlay/Include/internal/pycore_retrace_identity_hash.h. Entry packs
--                       a pointer and a probe length; Table, Insert and Operations hold one function
--                       for each function of the header. Invariant says when a table is well formed,
--                       Map and History relate the operations to a finite map. The other modules are
--                       the lemmas: the slots as a ring (Ring), the Robin Hood order (Robin), and
--                       one module for each operation.
--   Threads             cpython-overlay/Include/internal/pycore_retrace.h, lines 28 to 105, 531 to 566
--                       and 703 to 767: Ids, Unique (`_PyRetrace_UniqueThreadId`) and Ident
--                       (`_PyRetrace_ThreadStateFromPublicIdent`).
--   Frames              cpython-overlay/Include/cpython/retrace_state.h and pycore_retrace.h, lines
--                       107 to 202: the state of frames and spaces, and the counters of a frame.
--   Spaces              pycore_retrace.h, lines 204 to 457, 568 to 590 and 936 to 987, and
--                       cpython-overlay/Modules/retracemodule.c, lines 103 to 123 and 765 to 907: the
--                       spaces of a thread, Activation (`_PyRetrace_ActivateFrame`) and Scopes
--                       (`retrace_enter_space`). Growth says what a run of a thread does to its
--                       place in a space. Spaces/Seeds is pycore_retrace.h, lines 496 to 529, 592 to
--                       682 and 742 to 749: a thread that starts (`_PyRetrace_SeedThreadState`) or
--                       ends.
--   Coordinates         retracemodule.c, lines 171 to 272 and 338 to 385, and for Coordinates/Hash
--                       pycore_retrace.h, lines 219 to 228 and 320 to 494. Coordinates/Order is the
--                       lexicographic order, and Coordinates/Memory is the memory that a comparison
--                       needs.
--   Callbacks           retracemodule.c, lines 300 to 336, 562 to 755, 1321 to 1346 and 1846 to 1905.
--   Instructions        pycore_retrace.h, lines 684 to 701 and 889 to 934, and retracemodule.c, lines
--                       200 to 272, 1665 to 1844 and 1907 to 1974: the check of all call_at's, and in
--                       Begin the thread switches (`_PyRetrace_BeginInstruction`).
--   ObjectHash          pycore_retrace.h, lines 458 to 477 and 769 to 845 (`_PyRetrace_HashPointer`).
--   Calls               retracemodule.c, lines 36 to 169, 274 to 287, 410 to 560, 659 to 763 and 907
--                       to 1349: Read (`coordinates`, `hash`), CallAt (`call_at`), Functions (the
--                       wrappers and the other functions) and Transfer (`ThreadHandoff` and `to`,
--                       lines 1430 to 1485 and 1567 to 1619).
--   Handoff             retracemodule.c, lines 1351 to 1619. The functions are the code between two
--                       points at which the lock is held; Handoff/Steps makes them the steps of a
--                       system of threads.
--
-- Conventions. Words are natural numbers with their wrap-around written out; an `int64_t` and a
-- `Py_hash_t` are the 64-bit words that hold them. C arrays are lists, and a chain of frames, of
-- threads or of entries is the list of them in the order of the walk. Pointers are addresses, and a
-- pointer to a counter names the root, the frame or the scope that holds it. What the allocator
-- answers is an argument, the address of a new block included; so are a Python callable, which may
-- change the thread or the interpreter, the C API on Python objects (`Api`), and the address of the
-- scope of a call, which stands on the C stack. The code's `NULL` is `none`, and its error results
-- are values. The interpreter and the thread state are not NULL, but for ObjectHash.
--
-- Fuel. The loops over the slots of a table get one round more than the table has slots, and the
-- doubling of a capacity 64 rounds; the theorems show that these are enough. The choice of a thread
-- id gets its fuel as an argument: nothing bounds the number of ids that a mixer may repeat, so the
-- theorems ask for a candidate that is free and bound the rounds by its number.
--
-- Not modelled: the building of tuples and ints, the exception state that is saved around a switch
-- callback, reference counts and the release of memory, the garbage collection, the repr and the
-- types of the wrappers, the set-up of the module, and the mixer for compilers without 128-bit
-- integers.
pub mod Base
pub mod Callbacks
pub mod Calls
pub mod Coordinates
pub mod Frames
pub mod Handoff
pub mod IdentityHash
pub mod Instructions
pub mod Mixers
pub mod ObjectHash
pub mod Spaces
pub mod Threads
pub mod Words
