-- ===== src/Threads/Ident.antt =====
-- The thread that a public ident names: pycore_retrace.h, lines 703 to 767.
pub mod Count
pub mod Laws
use retrace_cpython.Base.{
  ℕ, zero, suc, ◌+◌, ◌==◌, not, ◌&&◌, ◌||◌, if◌then◌else◌, Bool, true, false, Option, none, some,
  List, [], ◌∷◌,
}
use retrace_cpython.Threads.Unique.{Thread}

-- The four locals of the search.
pub record Search : Type 0 where
  pub native_match : Option Thread
  pub retrace_match : Option Thread
  pub native_count : ℕ
  pub retrace_count : ℕ

abbrev pub native_id : Thread → ℕ
native_id scan = if scan.thread_id == 0 then scan.cpython_thread_ident else scan.thread_id

abbrev pub native_answers : ℕ → Thread → Bool
native_answers id scan = not (native_id scan == 0) && (native_id scan == id)

abbrev pub retrace_answers : ℕ → Thread → Bool
retrace_answers id scan = not (scan.retrace_thread_id == 0) && (scan.retrace_thread_id == id)

-- What one thread changes. An `unsigned long` has 64 bits.
unfoldable pub note_thread : ℕ → Thread → Search → Search
note_thread id scan s = record {
  native_match = if native_answers id scan then some scan else s.native_match;
  retrace_match = if retrace_answers id scan then some scan else s.retrace_match;
  native_count = if native_answers id scan then s.native_count + 1 else s.native_count;
  retrace_count = if retrace_answers id scan then s.retrace_count + 1 else s.retrace_count;
}

unfoldable pub search_threads : ℕ → List Thread → Search → Search
search_threads id [] s = s
search_threads id (scan ∷ threads) s = search_threads id threads (note_thread id scan s)

-- Pointers are compared by their addresses.
unfoldable pub same_thread : Option Thread → Option Thread → Bool
same_thread none none = true
same_thread none (some b) = false
same_thread (some a) none = false
same_thread (some a) (some b) = a.address == b.address

unfoldable pub decide_match : Search → Option Thread
unfolding same_thread
decide_match s =
    if (s.native_count == 1)
      && ((s.retrace_count == 0) || same_thread s.retrace_match s.native_match)
    then s.native_match
    else if (s.native_count == 0) && (s.retrace_count == 1)
    then s.retrace_match
    else none

unfoldable pub thread_state_from_public_ident : List Thread → ℕ → Option Thread
thread_state_from_public_ident threads id = decide_match (
    search_threads id threads
      (record { native_match = none; retrace_match = none; native_count = 0; retrace_count = 0 }))

unfoldable pub native_ident_of : Option Thread → ℕ → ℕ
native_ident_of none id = id
native_ident_of (some tstate) id =
    if not (tstate.thread_id == 0)
    then tstate.thread_id
    else if not (tstate.cpython_thread_ident == 0)
    then tstate.cpython_thread_ident
    else id

unfoldable pub cpython_thread_ident_from_public_ident : List Thread → ℕ → ℕ
cpython_thread_ident_from_public_ident threads id =
    native_ident_of (thread_state_from_public_ident threads id) id
