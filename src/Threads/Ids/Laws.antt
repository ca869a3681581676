-- ===== src/Threads/Ids/Laws.antt =====
-- A thread id names its space in the upper 16 bits, and is neither 0 nor the unset hash.
use retrace_cpython.Base.{
  ℕ, zero, suc, ◌≡◌, ◌≢◌, refl, arith, ◌+◌, ◌-◌, ◌*◌, ◌/◌, ◌%◌, ◌^◌, ◌<◌, bit_or, ◌==◌,
  if◌then◌else◌, List, [], ◌∷◌, length,
}
use retrace_cpython.Words.Bits.{bit_and_low, bit_or_high}
use retrace_cpython.Words.Arith.{shl64}
use retrace_cpython.Mixers.{mix64, mix64-lt}
use retrace_cpython.Threads.Ids.{
  normalize_coordinate_hash, normalize_thread_id, thread_id_space_bits, thread_id_hash_bits,
  compose_thread_id, mix_word, mix_words, mix_bytes, coordinate_hash_unset,
}

-- The low part of a composed id, by arithmetic.
pub low_part : ℕ → ℕ
low_part hash =
    let r : ℕ = (if hash == 2 ^ 64 - 1 then 2 ^ 64 - 2 else hash) % 2 ^ 48 in
    if r == 0 then 1 else r

thread_id_hash_bits-eq : (hash : ℕ) → thread_id_hash_bits hash ≡ low_part hash
unfolding thread_id_hash_bits normalize_coordinate_hash low_part
thread_id_hash_bits-eq hash =
    rw (bit_and_low 48 (if hash == 2 ^ 64 - 1 then 2 ^ 64 - 2 else hash)) refl

low_part-lt : (hash : ℕ) → low_part hash < 2 ^ 48
unfolding low_part
low_part-lt hash = ground arith

low_part-pos : (hash : ℕ) → 0 < low_part hash
unfolding low_part
low_part-pos hash = ground arith

-- The bits before the last normalisation.
joined :
    (space_id hash : ℕ)
    → bit_or (shl64 (thread_id_space_bits space_id) 48) (thread_id_hash_bits hash)
      ≡ space_id % 2 ^ 16 * 2 ^ 48 + low_part hash
unfolding thread_id_space_bits
joined space_id hash =
    rw (thread_id_hash_bits-eq hash, bit_and_low 16 space_id, fits)
      (bit_or_high 48 (space_id % 2 ^ 16) (low_part hash) (low_part-lt hash))
  where
    fits : space_id % 2 ^ 16 * 2 ^ 48 % 2 ^ 64 ≡ space_id % 2 ^ 16 * 2 ^ 48
    fits = omega arith

pub compose_thread_id-eq :
    (space_id hash : ℕ)
    → compose_thread_id space_id hash ≡ (
        if space_id % 2 ^ 16 * 2 ^ 48 + low_part hash == 2 ^ 64 - 1
        then 2 ^ 64 - 2
        else space_id % 2 ^ 16 * 2 ^ 48 + low_part hash)
unfolding compose_thread_id normalize_thread_id normalize_coordinate_hash
compose_thread_id-eq space_id hash = rw (joined space_id hash) (ground (arith, low_part-pos hash))

-- What an id of the space looks like.
pub record IsThreadId (space_id id : ℕ) : Type 0 where
  pub word : id < 2 ^ 64
  pub nonzero : id ≢ 0
  pub computed : id ≢ coordinate_hash_unset
  pub space : id / 2 ^ 48 ≡ space_id % 2 ^ 16
  pub hash : 0 < id % 2 ^ 48

-- Every composed thread id is a 64-bit word other than 0 and the unset hash, has the low 16 bits
-- of the space id in its upper 16 bits, and its lower 48 bits are not 0.
pub compose_thread_id-IsThreadId :
    (space_id hash : ℕ) → IsThreadId space_id (compose_thread_id space_id hash)
compose_thread_id-IsThreadId space_id hash = record {
  word = rw (compose_thread_id-eq space_id hash) (ground (arith, low_part-lt hash));
  nonzero = rw (compose_thread_id-eq space_id hash) (ground (arith, low_part-pos hash));
  computed = rw (compose_thread_id-eq space_id hash) (ground (arith, low_part-lt hash));
  space = rw (compose_thread_id-eq space_id hash) (ground (arith, low_part-lt hash));
  hash =
      rw (compose_thread_id-eq space_id hash) (ground (arith, low_part-lt hash, low_part-pos hash));
}

-- Composing a thread id again with the same space changes nothing.
pub compose_thread_id-compose_thread_id :
    (space_id hash : ℕ)
    → compose_thread_id space_id (compose_thread_id space_id hash) ≡ compose_thread_id space_id hash
unfolding low_part
compose_thread_id-compose_thread_id space_id hash =
    let i = compose_thread_id-IsThreadId space_id hash in
    rw (compose_thread_id-eq space_id (compose_thread_id space_id hash))
      (ground (arith, i.word, i.computed, i.space, i.hash))

normalize-IsHash :
    (hash : ℕ)
    → hash < 2 ^ 64
    → (normalize_coordinate_hash hash < 2 ^ 64)
      × (normalize_coordinate_hash hash ≢ coordinate_hash_unset)
unfolding normalize_coordinate_hash
normalize-IsHash hash h = (ground arith, ground arith)

pub mix_word-IsHash :
    (hash word : ℕ) → (mix_word hash word < 2 ^ 64) × (mix_word hash word ≢ coordinate_hash_unset)
unfolding mix_word
mix_word-IsHash hash word = normalize-IsHash (mix64 hash word) (mix64-lt hash word)

mix_words-IsHash :
    (words hash : ℕ) (bytes : List ℕ)
    → (hash < 2 ^ 64) × (hash ≢ coordinate_hash_unset)
    → (mix_words words hash bytes < 2 ^ 64) × (mix_words words hash bytes ≢ coordinate_hash_unset)
unfolding mix_words
mix_words-IsHash zero hash [] h = h
mix_words-IsHash zero hash (b ∷ bytes) h = mix_word-IsHash hash _
mix_words-IsHash (suc words) hash bytes h = mix_words-IsHash words _ _ (mix_word-IsHash hash _)

-- Mixing a sequence of bytes into a hash gives a 64-bit word that is not the unset hash.
pub mix_bytes-IsHash :
    (hash : ℕ) (bytes : List ℕ)
    → (mix_bytes hash bytes < 2 ^ 64) × (mix_bytes hash bytes ≢ coordinate_hash_unset)
unfolding mix_bytes
mix_bytes-IsHash hash bytes =
    mix_words-IsHash (length bytes / 8) _ bytes (mix_word-IsHash hash (length bytes))
