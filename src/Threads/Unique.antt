-- ===== src/Threads/Unique.antt =====
-- The choice of an id that no live thread has: pycore_retrace.h, lines 531 to 566.
pub mod Laws
use retrace_cpython.Base.{
  ℕ, zero, suc, ◌==◌, not, ◌&&◌, if◌then◌else◌, Bool, true, false, List, [], ◌∷◌, Run, done,
  out_of_fuel,
}
use retrace_cpython.Words.Arith.{add64}
use retrace_cpython.Mixers.{mix64}
use retrace_cpython.Threads.Ids.{compose_thread_id}

-- The part of a `PyThreadState` that names it: its address, `thread_id`,
-- `retrace.cpython_thread_ident` and `retrace.thread_id`.
pub record Thread : Type 0 where
  pub address : ℕ
  pub thread_id : ℕ
  pub cpython_thread_ident : ℕ
  pub retrace_thread_id : ℕ

-- The walk over `interp->threads`; `skip` is an address.
unfoldable pub some_thread_has : List Thread → ℕ → ℕ → Bool
some_thread_has [] skip thread_id = false
some_thread_has (scan ∷ threads) skip thread_id =
    let rest = some_thread_has threads skip thread_id in
    if not (scan.address == skip) && (scan.retrace_thread_id == thread_id) then true else rest

unfoldable pub thread_id_is_active : List Thread → ℕ → ℕ → Bool
unfolding some_thread_has
thread_id_is_active threads skip thread_id =
    if thread_id == 0 then true else some_thread_has threads skip thread_id

abbrev pub retry_step : ℕ
retry_step = 0x9e3779b97f4a7c15

unfoldable pub unique_loop : ℕ → List Thread → ℕ → ℕ → ℕ → ℕ → Run ℕ
unfolding thread_id_is_active compose_thread_id mix64
unique_loop zero threads skip space_id thread_id retry = out_of_fuel
unique_loop (suc fuel) threads skip space_id thread_id retry =
    let rest =
      unique_loop fuel threads skip space_id (compose_thread_id space_id (mix64 thread_id retry))
        (add64 retry retry_step) in
    if thread_id_is_active threads skip thread_id then rest else done thread_id

unfoldable pub unique_thread_id : ℕ → List Thread → ℕ → ℕ → ℕ → Run ℕ
unfolding unique_loop compose_thread_id
unique_thread_id fuel threads skip space_id thread_id =
    unique_loop fuel threads skip space_id (compose_thread_id space_id thread_id) retry_step
