-- ===== src/Bitmap.antt =====
-- deps/common/lang/bitmap.cpp: a bitmap over bytes that it does not own. `bitmap_` is a memory,
-- since the bytes lie inside a larger block and the search loops read one byte past the bitmap;
-- `size_` is an argument. A `char` is the number of its 8 bits, so `byte != -1` is a test of 255,
-- and a result of -1 is `none`.
use Prim.Native.Nat.{bit_and, bit_or}
use oceanbase.Base.{
  ℕ, zero, suc, ◌+◌, ◌-◌, ◌*◌, ◌/◌, ◌%◌, ◌^◌, Bool, not, Option, none, some, ◌==◌, leb,
  if◌then◌else◌,
}
use oceanbase.Base.Memory.{Memory, poke}
use oceanbase.Base.First.{first_from}
pub mod Search
pub mod Bits
pub mod Next
mod Tests

-- (byte & (1 << i)) != 0
unfoldable pub bit_is_set : ℕ → ℕ → Bool
bit_is_set byte i = not (bit_and byte (2 ^ i) == 0)

unfoldable pub find_first_zero : ℕ → ℕ → Option ℕ
find_first_zero byte start = first_from (λ i. not (bit_is_set byte i)) (8 - start) start

unfoldable pub find_first_setted : ℕ → ℕ → Option ℕ
find_first_setted byte start = first_from (bit_is_set byte) (8 - start) start

unfoldable pub get_bit : Memory → ℕ → Bool
get_bit bitmap index = bit_is_set (bitmap (index / 8)) (index % 8)

unfoldable pub set_bit : Memory → ℕ → Memory
set_bit bitmap index = poke bitmap (index / 8) (bit_or (bitmap (index / 8)) (2 ^ (index % 8)))

unfoldable pub clear_bit : Memory → ℕ → Memory
clear_bit bitmap index =
    poke bitmap (index / 8) (bit_and (bitmap (index / 8)) (255 - 2 ^ (index % 8)))

-- The byte loop of both searches, with the rounds left. A byte that `skip` rules out is passed over
-- and leaves `start_in_byte` as it is.
unfoldable pub first_in_bytes : (ℕ → Bool) → (ℕ → ℕ → Option ℕ) → Memory → ℕ → ℕ → ℕ → Option ℕ
first_in_bytes skip find bitmap zero iter start_in_byte = none
first_in_bytes skip find bitmap (suc n) iter start_in_byte =
    let later = first_in_bytes skip find bitmap n (iter + 1) start_in_byte in
    let rest = first_in_bytes skip find bitmap n (iter + 1) 0 in
    if skip (bitmap iter) then later else elim (find (bitmap iter) start_in_byte) [
      | some index_in_byte ↦ some (iter * 8 + index_in_byte)
      | none ↦ rest
    ]

-- `end`: the number of bytes that the bits take.
unfoldable pub byte_count : ℕ → ℕ
byte_count size = if size % 8 == 0 then size / 8 else size / 8 + 1

-- if (ret >= size_) ret = -1;
unfoldable pub below_size : ℕ → Option ℕ → Option ℕ
below_size size none = none
below_size size (some ret) = if leb size ret then none else some ret

unfoldable pub next_unsetted_bit : Memory → ℕ → ℕ → Option ℕ
next_unsetted_bit bitmap size start = below_size size (
    first_in_bytes (λ byte. byte == 255) find_first_zero bitmap (byte_count size + 1 - start / 8)
      (start / 8) (start % 8))

unfoldable pub next_setted_bit : Memory → ℕ → ℕ → Option ℕ
next_setted_bit bitmap size start = below_size size (
    first_in_bytes (λ byte. byte == 0) find_first_setted bitmap (byte_count size + 1 - start / 8)
      (start / 8) (start % 8))
