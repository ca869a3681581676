-- ===== src/Threads/Tests.antt =====
-- The theorems on thread ids at concrete threads.
use retrace_cpython.Base.{
  ℕ, ◌≡◌, ◌≢◌, refl, arith, ◌^◌, ◌<◌, ◌≤◌, ◌==◌, if◌then◌else◌, false, none, some, List, [], ◌∷◌,
  done,
}
use retrace_cpython.Threads.Ids.{compose_thread_id, mix_bytes, coordinate_hash_unset}
use retrace_cpython.Threads.Ids.Laws.{IsThreadId, compose_thread_id-IsThreadId, mix_bytes-IsHash}
use retrace_cpython.Threads.Unique.{Thread, unique_thread_id, thread_id_is_active}
use retrace_cpython.Threads.Unique.Laws.{candidate, Chosen, Unused, unique_thread_id-Chosen}
use retrace_cpython.Threads.Ident.{
  retrace_answers, thread_state_from_public_ident, cpython_thread_ident_from_public_ident,
  native_id,
}
use retrace_cpython.Threads.Ident.Count.{count, last, AllApart, alone, besides, empty, next}
use retrace_cpython.Threads.Ident.Laws.{answers, ident-found, ident-sole, ident-translated}

abbrev main_thread : Thread
main_thread = record {
  address = 1;
  thread_id = 100;
  cpython_thread_ident = 100;
  retrace_thread_id = 7;
}

abbrev new_thread : Thread
new_thread = record {
  address = 2;
  thread_id = 0;
  cpython_thread_ident = 200;
  retrace_thread_id = 8;
}

abbrev live : List Thread
live = main_thread ∷ new_thread ∷ []

compose_thread_id-IsThreadId_example : IsThreadId 3 (compose_thread_id 3 0)
compose_thread_id-IsThreadId_example = compose_thread_id-IsThreadId 3 0

mix_bytes-IsHash_example :
    (mix_bytes 1 (1 ∷ 2 ∷ []) < 2 ^ 64) × (mix_bytes 1 (1 ∷ 2 ∷ []) ≢ coordinate_hash_unset)
mix_bytes-IsHash_example = mix_bytes-IsHash 1 (1 ∷ 2 ∷ [])

free_id : thread_id_is_active live 9 (candidate live 9 0 5 0) ≡ false
unfolding candidate thread_id_is_active compose_thread_id
free_id = refl

unique_thread_id-Chosen_example :
    (id : ℕ) × (unique_thread_id 1 live 9 0 5 ≡ done id)
    × Chosen live 9 0 5 0 0 id
    × IsThreadId 0 id
    × Unused 9 id live
unique_thread_id-Chosen_example = unique_thread_id-Chosen live 9 0 5 0 free_id

one_answers : count (answers 200 live) live ≡ 1
unfolding count
one_answers = refl

last_answers : last (answers 200 live) live none ≡ some new_thread
unfolding last
last_answers = refl

one_retrace : count (retrace_answers 200) live ≤ 1
unfolding count
one_retrace = omega arith

live-AllApart : AllApart live
live-AllApart = next (besides (omega arith) alone) (next alone empty)

found_200 : thread_state_from_public_ident live 200 ≢ none
unfolding last
found_200 e = ground (arith, e, ident-found 200 live one_answers)

ident-found_example : thread_state_from_public_ident live 200 ≡ last (answers 200 live) live none
ident-found_example = ident-found 200 live one_answers

ident-sole_example : count (answers 200 live) live ≡ 1
ident-sole_example = ident-sole 200 live live-AllApart one_retrace found_200

ident-translated_example :
    cpython_thread_ident_from_public_ident live 200
    ≡ (if native_id new_thread == 0 then 200 else native_id new_thread)
ident-translated_example = ident-translated 200 live one_answers last_answers
