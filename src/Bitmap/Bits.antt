-- ===== src/Bitmap/Bits.antt =====
-- The bit operations of deps/common/lang/bitmap.cpp on one byte, and what a write of a bit changes.
use Prim.Native.Nat.{bit_and, bit_or}
use oceanbase.Base.{
  inl, inr, ℕ, ◌-◌, ◌/◌, ◌%◌, ◌^◌, ◌<◌, ◌≡◌, refl, Bool, true, false, not, ◌&&◌, ◌||◌, ◌==◌, ltb,
  arith, Bool-cases, ==_iff,
}
use oceanbase.Base.Memory.{Memory, IsBytes}
use oceanbase.Base.Table.{passes_under, passes_under-at}
use oceanbase.Bitmap.{bit_is_set, get_bit, set_bit, clear_bit}

abbrev same : Bool → Bool → Bool
same true b = b
same false b = not b

same→eq : (a b : Bool) → same a b ≡ true → a ≡ b
same→eq a b h = ground arith

-- The write of bit `k` by `write`, tested at every byte and every two bits.
abbrev table : (ℕ → ℕ → ℕ) → (ℕ → ℕ → ℕ → Bool) → Bool
table write expected =
    passes_under
      (λ k.
        passes_under
          (λ i.
            passes_under
              (λ byte.
                same (bit_is_set (write byte k) i) (expected byte k i) && ltb (write byte k) 256)
              256)
          8)
      8

module _ (write : ℕ → ℕ → ℕ) (expected : ℕ → ℕ → ℕ → Bool)
    (checked : table write expected ≡ true) where
  entry :
      (byte k i : ℕ)
      → byte < 256
      → k < 8
      → i < 8
      → (same (bit_is_set (write byte k) i) (expected byte k i) && ltb (write byte k) 256) ≡ true
  entry byte k i b hk hi =
      passes_under-at _ 256 byte (passes_under-at _ 8 i (passes_under-at _ 8 k checked hk) hi) b

  write_bit :
      (byte k i : ℕ) → byte < 256 → k < 8 → i < 8 → bit_is_set (write byte k) i ≡ expected byte k i
  write_bit byte k i b hk hi = ground (arith, entry byte k i b hk hi)

  write_byte : (byte k : ℕ) → byte < 256 → k < 8 → write byte k < 256
  write_byte byte k b hk = ground (arith, entry byte k 0 b hk (omega arith))

set_table : table (λ byte k. bit_or byte (2 ^ k)) (λ byte k i. k == i || bit_is_set byte i) ≡ true
unfolding passes_under bit_is_set
set_table = refl

clear_table :
    table (λ byte k. bit_and byte (255 - 2 ^ k)) (λ byte k i. not (k == i) && bit_is_set byte i)
    ≡ true
unfolding passes_under bit_is_set
clear_table = refl

ones_table : passes_under (bit_is_set 255) 8 ≡ true
unfolding passes_under bit_is_set
ones_table = refl

zeros_table : passes_under (λ i. not (bit_is_set 0 i)) 8 ≡ true
unfolding passes_under bit_is_set
zeros_table = refl

pub bit_of_ones : (i : ℕ) → i < 8 → bit_is_set 255 i ≡ true
bit_of_ones i h = passes_under-at (bit_is_set 255) 8 i ones_table h

pub bit_of_zero : (i : ℕ) → i < 8 → bit_is_set 0 i ≡ false
bit_of_zero i h = ground (arith, passes_under-at (λ i. not (bit_is_set 0 i)) 8 i zeros_table h)

-- Writing a bit changes that bit alone.
pub get_bit-set_bit :
    (bitmap : Memory) (i j : ℕ)
    → IsBytes bitmap
    → get_bit (set_bit bitmap i) j ≡ (i == j || get_bit bitmap j)
unfolding get_bit set_bit
get_bit-set_bit bitmap i j b = elim (Bool-cases (i / 8 == j / 8)) [
  | inl here ↦
      let e : i / 8 ≡ j / 8 = (==_iff _ _).0 here in
      ground (
        arith,
        write_bit _ _ set_table (bitmap (i / 8)) (i % 8) (j % 8) (b (i / 8)) (omega arith)
            (omega arith),
      )
  | inr there ↦ ground arith
]

pub get_bit-clear_bit :
    (bitmap : Memory) (i j : ℕ)
    → IsBytes bitmap
    → get_bit (clear_bit bitmap i) j ≡ (not (i == j) && get_bit bitmap j)
unfolding get_bit clear_bit
get_bit-clear_bit bitmap i j b = elim (Bool-cases (i / 8 == j / 8)) [
  | inl here ↦
      let e : i / 8 ≡ j / 8 = (==_iff _ _).0 here in
      ground (
        arith,
        write_bit _ _ clear_table (bitmap (i / 8)) (i % 8) (j % 8) (b (i / 8)) (omega arith)
            (omega arith),
      )
  | inr there ↦ ground arith
]

pub set_bit-IsBytes : (bitmap : Memory) (i : ℕ) → IsBytes bitmap → IsBytes (set_bit bitmap i)
unfolding set_bit
set_bit-IsBytes bitmap i b a =
    ground (arith, b a, write_byte _ _ set_table (bitmap (i / 8)) (i % 8) (b (i / 8)) (omega arith))

pub clear_bit-IsBytes : (bitmap : Memory) (i : ℕ) → IsBytes bitmap → IsBytes (clear_bit bitmap i)
unfolding clear_bit
clear_bit-IsBytes bitmap i b a =
    ground
      (arith, b a, write_byte _ _ clear_table (bitmap (i / 8)) (i % 8) (b (i / 8)) (omega arith))
