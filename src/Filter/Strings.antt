-- ===== src/Filter/Strings.antt =====
-- `strcmp` on zero-terminated strings, against the order of the strings as lists.
use oceanbase.Base.{
  ℕ, zero, suc, ◌+◌, ◌<◌, ◌≡◌, ◌≢◌, refl, List, [], ◌∷◌, ◌==◌, if◌then◌else◌, length, arith, ne→==,
}
use oceanbase.Base.Int.{ℤ, pos, sub_ℕ}
use oceanbase.Base.Memory.{Memory}
use oceanbase.Filter.{compare_bytes}

-- The memory holds the string from an offset on, and a zero behind it.
abbrev pub IsString : Memory → ℕ → List ℕ → Type 0
IsString m i [] = m i ≡ 0
IsString m i (x ∷ xs) = (m i ≡ x) × (x ≢ 0) × IsString m (i + 1) xs

-- The difference of the first bytes that differ, where a string ends with a zero.
abbrev pub string_order : List ℕ → List ℕ → ℤ
string_order [] [] = pos 0
string_order [] (y ∷ ys) = sub_ℕ 0 y
string_order (x ∷ xs) [] = sub_ℕ x 0
string_order (x ∷ xs) (y ∷ ys) = if x == y then string_order xs ys else sub_ℕ x y

pub compare_bytes-string_order :
    (rounds : ℕ) (l r : Memory) (i : ℕ) (s t : List ℕ)
    → IsString l i s
    → IsString r i t
    → length s < rounds
    → compare_bytes (λ c. c) rounds l r i ≡ string_order s t
unfolding compare_bytes
compare_bytes-string_order zero l r i s t p q h = absurd (omega arith)
compare_bytes-string_order (suc rounds) l r i [] [] p q h = rw (p, q) refl
compare_bytes-string_order (suc rounds) l r i [] (y ∷ ys) p q h =
    rw (p, q.0, ne→== 0 y (λ e. q.1 (ground (arith, e)))) refl
compare_bytes-string_order (suc rounds) l r i (x ∷ xs) [] p q h = rw (p.0, q, ne→== x 0 p.1) refl
compare_bytes-string_order (suc rounds) l r i (x ∷ xs) (y ∷ ys) p q h =
    let ih = compare_bytes-string_order rounds l r (i + 1) xs ys p.2 q.2 (omega arith) in
    rw (p.0, q.0, ne→== x 0 p.1, ih) refl
