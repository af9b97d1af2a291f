-- ===== src/Trx/Own.antt =====
-- A transaction that deletes a record it has inserted itself.
use oceanbase.Base.{
  ℕ, ◌≡◌, inl, inr, refl, ◌∙◌, ◌&&◌, none, List, [], ◌∷◌, ◌==◌, if◌then◌else◌, arith, Bool-cases,
  ==_iff,
}
use oceanbase.RecordPage.{Rid}
use oceanbase.Trx.{Operation, rid_eq, find_in, find_operation, erase, delete_operation}
use oceanbase.Trx.Sets.{IsDistinct, has_table, AreDistinct, find_in-erase}

find_in-erase-none :
    (os : List Operation) (rid r : Rid)
    → IsDistinct os
    → find_in os r ≡ none
    → find_in (erase os rid) r ≡ none
find_in-erase-none os rid r d h = find_in-erase os rid r d ∙ ground (arith, h)

erase-IsDistinct : (os : List Operation) (rid : Rid) → IsDistinct os → IsDistinct (erase os rid)
unfolding erase
erase-IsDistinct [] rid d = tt
erase-IsDistinct (o ∷ os) rid d = elim (Bool-cases (rid_eq o.rid rid)) [
  | inl hit ↦ rw hit d.1
  | inr miss ↦ rw miss (find_in-erase-none os rid o.rid d.1 d.0, erase-IsDistinct os rid d.1)
]

has_table-delete_operation :
    (ops : List (ℕ × List Operation)) (table : ℕ) (rid : Rid) (t : ℕ)
    → has_table (delete_operation ops table rid) t ≡ has_table ops t
unfolding delete_operation
has_table-delete_operation [] table rid t = refl
has_table-delete_operation ((u, os) ∷ rest) table rid t =
    ground (arith, has_table-delete_operation rest table rid t)

pub delete_operation-AreDistinct :
    (ops : List (ℕ × List Operation)) (table : ℕ) (rid : Rid)
    → AreDistinct ops
    → AreDistinct (delete_operation ops table rid)
unfolding delete_operation
delete_operation-AreDistinct [] table rid d = tt
delete_operation-AreDistinct ((u, os) ∷ rest) table rid d = elim (Bool-cases (u == table)) [
  | inl here ↦ rw here (d.0, erase-IsDistinct os rid d.1, d.2)
  | inr there ↦ rw there (
    has_table-delete_operation rest table rid u ∙ d.0,
    d.1,
    delete_operation-AreDistinct rest table rid d.2,
  )
]

pub find_operation-delete_operation :
    (ops : List (ℕ × List Operation)) (table : ℕ) (rid : Rid) (t : ℕ) (r : Rid)
    → AreDistinct ops
    → find_operation (delete_operation ops table rid) t r
      ≡ (if table == t && rid_eq rid r then none else find_operation ops t r)
unfolding find_operation delete_operation
find_operation-delete_operation [] table rid t r d = ground arith
find_operation-delete_operation ((u, os) ∷ rest) table rid t r d = elim (Bool-cases (u == table)) [
  | inl here ↦
      let e : u ≡ table = (==_iff u table).0 here in
      rw here (rw e (ground (arith, find_in-erase os rid r d.1)))
  | inr there ↦
      let ih = find_operation-delete_operation rest table rid t r d.2 in
      rw there (ground (arith, ih))
]
