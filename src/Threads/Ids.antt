-- ===== src/Threads/Ids.antt =====
-- Hashes of coordinates and thread ids: pycore_retrace.h, lines 28 to 105.
pub mod Laws
use retrace_cpython.Base.{
  ℕ, zero, suc, ◌+◌, ◌-◌, ◌*◌, ◌/◌, ◌%◌, ◌^◌, bit_and, bit_or, ◌==◌, if◌then◌else◌, List, [], ◌∷◌,
  length,
}
use retrace_cpython.Words.Arith.{word_max, shl64}
use retrace_cpython.Mixers.{mix64}

-- UINT64_MAX, the hash that is not computed yet.
abbrev pub coordinate_hash_unset : ℕ
coordinate_hash_unset = word_max

unfoldable pub normalize_coordinate_hash : ℕ → ℕ
normalize_coordinate_hash hash =
    if hash == coordinate_hash_unset then coordinate_hash_unset - 1 else hash

unfoldable pub initial_root_coordinate_hash : ℕ
unfolding normalize_coordinate_hash
initial_root_coordinate_hash =
    normalize_coordinate_hash (mix64 0x243f6a8885a308d3 0x13198a2e03707344)

unfoldable pub normalize_thread_id : ℕ → ℕ
unfolding normalize_coordinate_hash
normalize_thread_id thread_id =
    let normal = normalize_coordinate_hash thread_id in if normal == 0 then 1 else normal

abbrev pub thread_id_space_shift : ℕ
thread_id_space_shift = 48

abbrev pub thread_id_space_mask : ℕ
thread_id_space_mask = 2 ^ 16 - 1

abbrev pub thread_id_hash_mask : ℕ
thread_id_hash_mask = 2 ^ 48 - 1

unfoldable pub thread_id_space_bits : ℕ → ℕ
thread_id_space_bits space_id = bit_and space_id thread_id_space_mask

-- The 48 low bits of the id; 1 stands for none.
unfoldable pub thread_id_hash_bits : ℕ → ℕ
unfolding normalize_coordinate_hash
thread_id_hash_bits thread_hash =
    let bits = bit_and (normalize_coordinate_hash thread_hash) thread_id_hash_mask in
    if bits == 0 then 1 else bits

unfoldable pub compose_thread_id : ℕ → ℕ → ℕ
unfolding normalize_thread_id thread_id_space_bits thread_id_hash_bits
compose_thread_id space_id thread_hash = normalize_thread_id (
    bit_or (shl64 (thread_id_space_bits space_id) thread_id_space_shift)
      (thread_id_hash_bits thread_hash))

-- `memcpy` of at most eight bytes into a word that is 0, on a little-endian machine.
unfoldable pub word_of_bytes : ℕ → List ℕ → ℕ
word_of_bytes zero bytes = 0
word_of_bytes (suc n) [] = 0
word_of_bytes (suc n) (b ∷ bytes) = b + 256 * word_of_bytes n bytes

unfoldable pub skip_bytes : ℕ → List ℕ → List ℕ
skip_bytes zero bytes = bytes
skip_bytes (suc n) [] = []
skip_bytes (suc n) (b ∷ bytes) = skip_bytes n bytes

unfoldable pub mix_word : ℕ → ℕ → ℕ
unfolding normalize_coordinate_hash
mix_word hash word = normalize_coordinate_hash (mix64 hash word)

-- `words` words of eight bytes are mixed, then the tail.
unfoldable pub mix_words : ℕ → ℕ → List ℕ → ℕ
unfolding mix_word word_of_bytes
mix_words zero hash [] = hash
mix_words zero hash (b ∷ bytes) = mix_word hash (word_of_bytes 8 (b ∷ bytes))
mix_words (suc words) hash bytes =
    mix_words words (mix_word hash (word_of_bytes 8 bytes)) (skip_bytes 8 bytes)

unfoldable pub mix_bytes : ℕ → List ℕ → ℕ
unfolding mix_words mix_word
mix_bytes hash bytes = mix_words (length bytes / 8) (mix_word hash (length bytes)) bytes
