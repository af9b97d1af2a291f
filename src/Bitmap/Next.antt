-- ===== src/Bitmap/Next.antt =====
-- What `next_unsetted_bit` and `next_setted_bit` of deps/common/lang/bitmap.cpp return.
use oceanbase.Base.{
  ℕ, zero, suc, ◌+◌, ◌-◌, ◌*◌, ◌/◌, ◌%◌, ◌≤◌, ◌<◌, ◌≡◌, ◌≢◌, ◌⊎◌, inl, inr, refl, Bool, true, false,
  not, Option, some, ◌==◌, arith, Option-cases, ==_iff,
}
use oceanbase.Base.Memory.{Memory, IsBytes}
use oceanbase.Bitmap.{
  bit_is_set, find_first_zero, find_first_setted, get_bit, first_in_bytes, byte_count, below_size,
  next_unsetted_bit, next_setted_bit,
}
use oceanbase.Base.First.{IsFirst, first_from, first_from-IsFirst}
use oceanbase.Bitmap.Bits.{bit_of_ones, bit_of_zero}
use oceanbase.Bitmap.Search.{IsFirst-at, first_in_bytes-IsFirst, below_size-IsFirst}

size-le-byte_count : (size : ℕ) → size ≤ byte_count size * 8
unfolding byte_count
size-le-byte_count size = ground arith

module _ (bitmap : Memory) (bytes : IsBytes bitmap) (size start : ℕ) where
  -- The byte loop covers every byte of the bitmap from the start on.
  rounds :
      (p : ℕ → Bool) (r : Option ℕ)
      → IsFirst p
          (start / 8 * 8 + start % 8)
          ((start / 8 + (byte_count size + 1 - start / 8)) * 8)
          r
      → IsFirst p start size (below_size size r)
  rounds p r h =
      let last : ℕ = (start / 8 + (byte_count size + 1 - start / 8)) * 8 in
      below_size-IsFirst p start last size r (omega (arith, size-le-byte_count size))
        (IsFirst-at p (start / 8 * 8 + start % 8) last start last r (omega arith) refl h)

  ones : (byte i : ℕ) → i < 8 → (byte == 255) ≡ true → not (bit_is_set byte i) ≡ false
  ones byte i h e = rw ((==_iff byte 255).0 e, bit_of_ones i h)

  zeros : (byte i : ℕ) → i < 8 → (byte == 0) ≡ true → bit_is_set byte i ≡ false
  zeros byte i h e = rw ((==_iff byte 0).0 e) (bit_of_zero i h)

  -- From a start on a byte boundary, or in a byte that is not all ones, `next_unsetted_bit` returns
  -- the first clear bit at or after the start and below the size, or -1 if there is none.
  pub next_unsetted_bit-IsFirst :
      (start % 8 ≡ 0) ⊎ ((bitmap (start / 8) == 255) ≡ false)
      → IsFirst (λ j. not (get_bit bitmap j)) start size (next_unsetted_bit bitmap size start)
  unfolding next_unsetted_bit get_bit find_first_zero
  next_unsetted_bit-IsFirst c = rounds _ _ (
      first_in_bytes-IsFirst (λ byte. byte == 255) (λ byte i. not (bit_is_set byte i)) bitmap
        find_first_zero (λ byte i h. first_from-IsFirst _ (8 - i) i 8 (omega arith))
        (λ byte i b h e. ones byte i h e) bytes _ _ _ (omega arith) c)

  -- From a start on a byte boundary, or in a byte that is not zero, `next_setted_bit` returns the
  -- first set bit at or after the start and below the size, or -1 if there is none.
  pub next_setted_bit-IsFirst :
      (start % 8 ≡ 0) ⊎ ((bitmap (start / 8) == 0) ≡ false)
      → IsFirst (get_bit bitmap) start size (next_setted_bit bitmap size start)
  unfolding next_setted_bit get_bit find_first_setted
  next_setted_bit-IsFirst c = rounds _ _ (
      first_in_bytes-IsFirst (λ byte. byte == 0) bit_is_set bitmap find_first_setted
        (λ byte i h. first_from-IsFirst _ (8 - i) i 8 (omega arith))
        (λ byte i b h e. zeros byte i h e) bytes _ _ _ (omega arith) c)

first_from-ge : (p : ℕ → Bool) (n i k : ℕ) → first_from p n i ≡ some k → i ≤ k
unfolding first_from
first_from-ge p zero i k e = cc
first_from-ge p (suc n) i k e = ground (arith, first_from-ge p n (i + 1) k)

-- Nothing is found before the start.
first_in_bytes-ge :
    (skip : ℕ → Bool) (bitmap : Memory) (n iter start i : ℕ)
    → start < 8
    → first_in_bytes skip find_first_setted bitmap n iter start ≡ some i
    → iter * 8 + start ≤ i
unfolding first_in_bytes find_first_setted
first_in_bytes-ge skip bitmap zero iter start i s e = cc
first_in_bytes-ge skip bitmap (suc n) iter start i s e =
    elim (Option-cases (first_from (bit_is_set (bitmap iter)) (8 - start) start)) [
      | inl missed ↦ ground (
        arith,
        first_in_bytes-ge skip bitmap n (iter + 1) start i s,
        first_in_bytes-ge skip bitmap n (iter + 1) 0 i,
      )
      | inr (k, found) ↦ ground (
        arith,
        first_in_bytes-ge skip bitmap n (iter + 1) start i s,
        first_from-ge (bit_is_set (bitmap iter)) (8 - start) start k found,
      )
    ]

skipped_first :
    (bitmap : Memory) (n iter start i : ℕ)
    → start < 8
    → bitmap iter ≡ 0
    → first_in_bytes (λ byte. byte == 0) find_first_setted bitmap n iter start ≡ some i
    → (iter + 1) * 8 + start ≤ i
unfolding first_in_bytes
skipped_first bitmap zero iter start i s z e = cc
skipped_first bitmap (suc n) iter start i s z e =
    first_in_bytes-ge (λ byte. byte == 0) bitmap n (iter + 1) start i s (ground arith)

-- From a start in a byte that is zero, the 8 bits from the start on are never returned, also
-- where one of them, in the next byte, is the first bit that is set.
pub next_setted_bit_misses :
    (bitmap : Memory) (size start j : ℕ)
    → bitmap (start / 8) ≡ 0
    → j < start + 8
    → next_setted_bit bitmap size start ≢ some j
unfolding next_setted_bit below_size
next_setted_bit_misses bitmap size start j z lt e =
    ground (arith, skipped_first bitmap (byte_count size + 1 - start / 8) (start / 8) (start % 8) j)
