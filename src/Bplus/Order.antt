-- ===== src/Bplus/Order.antt =====
-- The order of the keys of an index.
use oceanbase.Base.{◌≡◌, ◌≢◌, inl, inr, sym, subst, true, false, if◌then◌else◌, arith, Bool-cases}
use oceanbase.Base.Int.{ℤ, pos, negsuc, ◌≤ℤ◌, ltb_ℤ}
use oceanbase.RecordPage.{Rid}
use oceanbase.Tuples.{Values, is_zero}
use oceanbase.Tuples.Compare.{AreOpposite}
use oceanbase.Bplus.{signed32, cmp_rid, is_negative, Key, cmp_key}

cmp_rid-opposite : (a b : Rid) → AreOpposite (cmp_rid a b) (cmp_rid b a)
unfolding cmp_rid
cmp_rid-opposite a b = (ground arith, ground arith, ground arith, ground arith)

-- cmp_rid on the numbers themselves.
abbrev cmp_pair : ℤ → ℤ → ℤ → ℤ → ℤ
cmp_pair p s q t =
    if ltb_ℤ q p
    then pos 1
    else if ltb_ℤ p q
    then negsuc 0
    else if ltb_ℤ t s
    then pos 1
    else if ltb_ℤ s t
    then negsuc 0
    else pos 0

cmp_pair_le :
    (p s q t : ℤ)
    → (cmp_pair p s q t ≤ℤ pos 0 → (p ≤ℤ q) × (q ≤ℤ p → s ≤ℤ t))
      × ((p ≤ℤ q) × (q ≤ℤ p → s ≤ℤ t) → cmp_pair p s q t ≤ℤ pos 0)
cmp_pair_le p s q t = (λ h. (ground arith, λ k. ground arith), λ h. ground (arith, h.1))

cmp_pair_trans :
    (p s q t u v : ℤ)
    → cmp_pair p s q t ≤ℤ pos 0
    → cmp_pair q t u v ≤ℤ pos 0
    → cmp_pair p s u v ≤ℤ pos 0
cmp_pair_trans p s q t u v h k =
    let a = (cmp_pair_le p s q t).0 h in
    let b = (cmp_pair_le q t u v).0 k in
    (cmp_pair_le p s u v).1
      (omega arith, λ e. let x = a.1 (omega arith) in let y = b.1 (omega arith) in omega arith)

pub cmp_rid_trans :
    (a b c : Rid) → cmp_rid a b ≤ℤ pos 0 → cmp_rid b c ≤ℤ pos 0 → cmp_rid a c ≤ℤ pos 0
unfolding cmp_rid
cmp_rid_trans a b c h k =
    cmp_pair_trans (signed32 a.page_num) (signed32 a.slot_num) (signed32 b.page_num)
      (signed32 b.slot_num) (signed32 c.page_num) (signed32 c.slot_num) h k

-- A comparison of attributes, with that of the records behind it.
abbrev chain : ℤ → ℤ → ℤ
chain c later = if is_zero c then later else c

chain-opposite :
    (x y later later' : ℤ)
    → AreOpposite x y
    → AreOpposite later later'
    → AreOpposite (chain x later) (chain y later')
chain-opposite x y l l' o p = (
  ground (arith, o.0, o.1, o.2, o.3, p.0, p.1, p.2, p.3),
  ground (arith, o.0, o.1, o.2, o.3, p.0, p.1, p.2, p.3),
  ground (arith, o.0, o.1, o.2, o.3, p.0, p.1, p.2, p.3),
  ground (arith, o.0, o.1, o.2, o.3, p.0, p.1, p.2, p.3),
)

chain_trans :
    (ab ba bc cb ac ca l m n : ℤ)
    → AreOpposite ab ba
    → AreOpposite bc cb
    → AreOpposite ac ca
    → (ab ≤ℤ pos 0 → bc ≤ℤ pos 0 → ac ≤ℤ pos 0)
    → (ca ≤ℤ pos 0 → ab ≤ℤ pos 0 → cb ≤ℤ pos 0)
    → (bc ≤ℤ pos 0 → ca ≤ℤ pos 0 → ba ≤ℤ pos 0)
    → (l ≤ℤ pos 0 → m ≤ℤ pos 0 → n ≤ℤ pos 0)
    → chain ab l ≤ℤ pos 0
    → chain bc m ≤ℤ pos 0
    → chain ac n ≤ℤ pos 0
chain_trans ab ba bc cb ac ca l m n o p q t u v ih h k =
    ground (arith, o.0, o.1, o.2, o.3, p.0, p.1, p.2, p.3, q.0, q.1, q.2, q.3, t, u, v, ih)

module _ (vs : Values) where
  open vs use {compare, compare_le, compare_ge, compare_trans}

  opposite : (a b : vs.Value) → AreOpposite (compare a b) (compare b a)
  opposite a b = (compare_le a b, compare_ge a b, compare_le b a, compare_ge b a)

  cmp_key-opposite : (a b : Key vs) → AreOpposite (cmp_key vs a b) (cmp_key vs b a)
  unfolding cmp_key
  cmp_key-opposite a b =
      chain-opposite (compare a.attr b.attr) (compare b.attr a.attr) (cmp_rid a.rid b.rid)
        (cmp_rid b.rid a.rid) (opposite a.attr b.attr) (cmp_rid-opposite a.rid b.rid)

  cmp_key_trans :
      (a b c : Key vs) → cmp_key vs a b ≤ℤ pos 0 → cmp_key vs b c ≤ℤ pos 0 → cmp_key vs a c ≤ℤ pos 0
  unfolding cmp_key
  cmp_key_trans a b c h k =
      chain_trans (compare a.attr b.attr) (compare b.attr a.attr) (compare b.attr c.attr)
        (compare c.attr b.attr) (compare a.attr c.attr) (compare c.attr a.attr)
        (cmp_rid a.rid b.rid) (cmp_rid b.rid c.rid) (cmp_rid a.rid c.rid) (opposite a.attr b.attr)
        (opposite b.attr c.attr) (opposite a.attr c.attr) (compare_trans a.attr b.attr c.attr)
        (compare_trans c.attr a.attr b.attr) (compare_trans b.attr c.attr a.attr)
        (cmp_rid_trans a.rid b.rid c.rid) h k

  -- The key `a` is sorted before `b`; it is sorted with it; it is not sorted behind it.
  abbrev pub Before : Key vs → Key vs → Type 0
  Before a b = is_negative (cmp_key vs a b) ≡ true

  abbrev pub Same : Key vs → Key vs → Type 0
  Same a b = is_zero (cmp_key vs a b) ≡ true

  abbrev pub NotAfter : Key vs → Key vs → Type 0
  NotAfter a b = is_negative (cmp_key vs b a) ≡ false

  pub NotAfter-trans : (a b c : Key vs) → NotAfter a b → NotAfter b c → NotAfter a c
  NotAfter-trans a b c h k =
      let ab = cmp_key-opposite a b in
      let bc = cmp_key-opposite b c in
      let ac = cmp_key-opposite a c in
      let t = cmp_key_trans a b c in
      ground (arith, ab.0, ab.1, ab.2, ab.3, bc.0, bc.1, bc.2, bc.3, ac.0, ac.1, ac.2, ac.3, t)

  pub NotAfter-Before : (a b : Key vs) → Before a b → NotAfter a b
  NotAfter-Before a b h = let ab = cmp_key-opposite a b in ground (arith, ab.0, ab.1, ab.2, ab.3)

  -- Keys that are sorted together, in both directions.
  pub Same-sym : (a b : Key vs) → Same a b → Same b a
  Same-sym a b h = let ab = cmp_key-opposite a b in ground (arith, ab.0, ab.1, ab.2, ab.3)

  pub Same-NotAfter : (a b : Key vs) → Same a b → NotAfter a b × NotAfter b a
  Same-NotAfter a b h =
      let ab = cmp_key-opposite a b in
      (ground (arith, ab.0, ab.1, ab.2, ab.3), ground (arith, ab.0, ab.1, ab.2, ab.3))

  -- Neither before nor together is behind.
  pub Before-of_not :
      (a b : Key vs)
      → is_negative (cmp_key vs a b) ≡ false
      → is_zero (cmp_key vs a b) ≡ false
      → Before b a
  Before-of_not a b h k = let ab = cmp_key-opposite a b in ground (arith, ab.0, ab.1, ab.2, ab.3)

  pub Before-trans_right : (a b c : Key vs) → Before a b → NotAfter b c → Before a c
  Before-trans_right a b c h k = elim (Bool-cases (is_negative (cmp_key vs a c))) [
    | inl done ↦ done
    | inr no_less ↦ ground (arith, h, NotAfter-trans b c a k no_less)
  ]

  pub Before-trans_left : (a b c : Key vs) → NotAfter a b → Before b c → Before a c
  Before-trans_left a b c h k = elim (Bool-cases (is_negative (cmp_key vs a c))) [
    | inl done ↦ done
    | inr no_less ↦ ground (arith, k, NotAfter-trans c a b no_less h)
  ]

  -- What is sorted before or behind a key is not sorted with it.
  pub Same-Before :
      (key a b : Key vs) → Same key a → Before a b → is_zero (cmp_key vs key b) ≡ false
  Same-Before key a b e h = ground (arith, Before-trans_left key a b (Same-NotAfter key a e).0 h)

  pub Same-Before_behind :
      (key a b : Key vs) → Same key a → Before b a → is_zero (cmp_key vs key b) ≡ false
  Same-Before_behind key a b e h =
      let less = Before-trans_right b a key h (Same-NotAfter key a e).1 in
      let ab = cmp_key-opposite b key in ground (arith, less, ab.0, ab.1, ab.2, ab.3)

  pub Before-distinct : (a b : Key vs) → Before a b → a ≢ b
  Before-distinct a b h e =
      let less = subst (λ x. Before a x) (sym e) h in
      let aa = cmp_key-opposite a a in ground (arith, less, aa.0, aa.1, aa.2, aa.3)
