-- ===== src/Trx/Sets.antt =====
-- The operations of a transaction: at most one for each record of each table.
use oceanbase.Base.{
  ℕ, ◌≡◌, inl, inr, refl, sym, ap, subst, ◌∙◌, Bool, true, false, ◌&&◌, ◌||◌, none, some, List, [],
  ◌∷◌, ◌==◌, if◌then◌else◌, arith, Bool-cases, Option-cases, ==_iff,
}
use oceanbase.RecordPage.{Rid}
use oceanbase.Trx.{Operation, rid_eq, find_in, find_operation, emplace, insert_operation, erase}

pub rid_eq→eq : (a b : Rid) → rid_eq a b ≡ true → a ≡ b
rid_eq→eq a b h = ground arith

pub rid_eq_refl : (a : Rid) → rid_eq a a ≡ true
rid_eq_refl a = ground arith

pub rid_eq_comm : (a b : Rid) → rid_eq a b ≡ rid_eq b a
rid_eq_comm a b = ground arith

-- No two operations of a set are for the same record.
abbrev pub IsDistinct : List Operation → Type 0
IsDistinct [] = Unit {0}
IsDistinct (o ∷ os) = (find_in os o.rid ≡ none) × IsDistinct os

abbrev pub has_table : List (ℕ × List Operation) → ℕ → Bool
has_table [] table = false
has_table ((t, os) ∷ rest) table = t == table || has_table rest table

-- No two sets are for the same table.
abbrev pub AreDistinct : List (ℕ × List Operation) → Type 0
AreDistinct [] = Unit {0}
AreDistinct ((t, os) ∷ rest) = (has_table rest t ≡ false) × IsDistinct os × AreDistinct rest

pub find_in-erase :
    (os : List Operation) (rid r : Rid)
    → IsDistinct os
    → find_in (erase os rid) r ≡ (if rid_eq rid r then none else find_in os r)
unfolding find_in erase
find_in-erase [] rid r d = ground arith
find_in-erase (o ∷ os) rid r d = elim (Bool-cases (rid_eq o.rid rid)) [
  | inl hit ↦
      let p : o.rid ≡ rid = rid_eq→eq o.rid rid hit in
      rw hit (elim (Bool-cases (rid_eq rid r)) [
        | inl same ↦ rw same (ap (find_in os) (sym (p ∙ rid_eq→eq rid r same)) ∙ d.0)
        | inr other ↦ rw (other, ap (λ x. rid_eq x r) p ∙ other)
      ])
  | inr miss ↦ rw miss (elim (Bool-cases (rid_eq o.rid r)) [
    | inl here ↦
        let q : o.rid ≡ r = rid_eq→eq o.rid r here in
        rw (here, rid_eq_comm rid r ∙ ap (λ x. rid_eq x rid) (sym q) ∙ miss)
    | inr there ↦ rw there (find_in-erase os rid r d.1)
  ])
]

emplace-new :
    (os : List Operation) (o : Operation) → find_in os o.rid ≡ none → emplace os o ≡ o ∷ os
unfolding emplace
emplace-new os o e = rw (e, emplace)

pub find_operation-insert_operation :
    (ops : List (ℕ × List Operation)) (table : ℕ) (o : Operation) (t : ℕ) (r : Rid)
    → find_operation ops table o.rid ≡ none
    → find_operation (insert_operation ops table o) t r
      ≡ (if table == t && rid_eq o.rid r then some o else find_operation ops t r)
unfolding find_operation insert_operation find_in emplace
find_operation-insert_operation [] table o t r h = ground arith
find_operation-insert_operation ((u, os) ∷ rest) table o t r h = elim (Bool-cases (u == table)) [
  | inl here ↦
      let e : u ≡ table = (==_iff u table).0 here in
      let new : find_in os o.rid ≡ none = rw here at h in
      rw here (rw (emplace-new os o new) (rw e (ground arith)))
  | inr there ↦
      let ih = find_operation-insert_operation rest table o t r (rw there at h) in
      rw there (ground (arith, ih))
]

-- The sets stay distinct.
has_table-insert_operation :
    (ops : List (ℕ × List Operation)) (table : ℕ) (o : Operation) (t : ℕ)
    → has_table (insert_operation ops table o) t ≡ (table == t || has_table ops t)
unfolding insert_operation
has_table-insert_operation [] table o t = ground arith
has_table-insert_operation ((u, os) ∷ rest) table o t =
    ground (arith, has_table-insert_operation rest table o t)

emplace-old :
    (os : List Operation) (o old : Operation) → find_in os o.rid ≡ some old → emplace os o ≡ os
unfolding emplace
emplace-old os o old e = rw (e, emplace)

emplace-IsDistinct :
    (os : List Operation) (o : Operation) → IsDistinct os → IsDistinct (emplace os o)
emplace-IsDistinct os o d = elim (Option-cases (find_in os o.rid)) [
  | inl new ↦ subst IsDistinct (sym (emplace-new os o new)) (new, d)
  | inr (old, e) ↦ subst IsDistinct (sym (emplace-old os o old e)) d
]

pub insert_operation-AreDistinct :
    (ops : List (ℕ × List Operation)) (table : ℕ) (o : Operation)
    → AreDistinct ops
    → AreDistinct (insert_operation ops table o)
unfolding insert_operation
insert_operation-AreDistinct [] table o d = (refl, (unfold find_in in refl, tt), tt)
insert_operation-AreDistinct ((u, os) ∷ rest) table o d = elim (Bool-cases (u == table)) [
  | inl here ↦ rw here (d.0, emplace-IsDistinct os o d.1, d.2)
  | inr there ↦ rw there (
    has_table-insert_operation rest table o u ∙ ground (arith, d.0),
    d.1,
    insert_operation-AreDistinct rest table o d.2,
  )
]

pub find_operation-no_table :
    (ops : List (ℕ × List Operation)) (table : ℕ) (r : Rid)
    → has_table ops table ≡ false
    → find_operation ops table r ≡ none
unfolding find_operation
find_operation-no_table [] table r h = refl
find_operation-no_table ((u, os) ∷ rest) table r h = elim (Bool-cases (u == table)) [
  | inl here ↦ ground (arith, here, h)
  | inr there ↦ rw there (find_operation-no_table rest table r (rw there at h))
]
