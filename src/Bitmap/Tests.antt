-- ===== src/Bitmap/Tests.antt =====
-- Tests of the bitmap, and the theorems about its searches at concrete bitmaps.
use oceanbase.Base.{◌≡◌, refl, none, some, ◌==◌, if◌then◌else◌, arith}
use oceanbase.Base.First.{first_from}
use oceanbase.Base.Memory.{Memory, IsBytes}
use oceanbase.Bitmap.{
  bit_is_set, next_setted_bit, next_unsetted_bit, find_first_zero, find_first_setted,
  first_in_bytes, byte_count, below_size,
}

-- Bits 0 to 7 and 9 are set.
abbrev full_byte : Memory
full_byte a = if a == 0 then 255 else if a == 1 then 2 else 0

full_byte-IsBytes : IsBytes full_byte
full_byte-IsBytes a = ground arith

-- Bit 8 is set, and no other.
abbrev second_byte : Memory
second_byte a = if a == 1 then 1 else 0

next_bits :
    (next_unsetted_bit full_byte 20 0 ≡ some 8)
    × (next_setted_bit full_byte 20 8 ≡ some 9)
    × (next_setted_bit full_byte 20 10 ≡ none)
    × (next_setted_bit second_byte 20 0 ≡ some 8)
unfolding next_unsetted_bit next_setted_bit find_first_zero find_first_setted first_from
    first_in_bytes bit_is_set byte_count below_size
next_bits = (refl, refl, refl, refl)

-- The same rule for clear bits: after a full byte the search goes on from the third bit.
next_unsetted_bit_late : next_unsetted_bit full_byte 20 3 ≡ some 11
unfolding next_unsetted_bit find_first_zero first_from first_in_bytes bit_is_set byte_count
    below_size
next_unsetted_bit_late = refl
