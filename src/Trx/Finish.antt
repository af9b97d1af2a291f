-- ===== src/Trx/Finish.antt =====
-- The end of a transaction: what `commit` and `rollback` leave of each record.
use oceanbase.Base.{
  ℕ, ◌≡◌, inl, inr, refl, sym, ap, ◌∙◌, Option, none, some, List, [], ◌∷◌, ◌==◌, Bool-cases, ==_iff,
}
use oceanbase.Rc.{Rc, success}
use oceanbase.RecordPage.{Rid}
use oceanbase.Trx.{
  Row, Table, Tables, Kind, insert, update, delete, undefined, Operation, World, rid_eq, put_row,
  put_table, set_record_trx_id, find_in, find_operation, commit_row, rollback_row, finish_set,
  finish_all, finish, commit, rollback,
}
use oceanbase.Trx.Sets.{rid_eq→eq, IsDistinct, has_table, AreDistinct, find_operation-no_table}

-- What a function on records makes of a record, by the operation that is recorded for it.
abbrev pub finished :
    (Rc → Kind → Option Row → Rc × Option Row) → Option Operation → Option Row → Option Row
finished f none row = row
finished f (some o) row = (f success o.kind row).1

-- A function on records whose outcome does not depend on the code it is given.
abbrev IsSteady : (Rc → Kind → Option Row → Rc × Option Row) → Type 0
IsSteady f = (rc : Rc) (k : Kind) (row : Option Row) → (f rc k row).1 ≡ (f success k row).1

finish_set_at :
    (f : Rc → Kind → Option Row → Rc × Option Row) (rc : Rc) (t : Table) (os : List Operation)
    (r : Rid)
    → IsSteady f
    → IsDistinct os
    → (finish_set f rc t os).1 r ≡ finished f (find_in os r) (t r)
unfolding finish_set find_in
finish_set_at f rc t [] r st d = refl
finish_set_at f rc t (o ∷ os) r st d =
    let step = f rc o.kind (t o.rid) in
    let ih = finish_set_at f step.0 (put_row t o.rid step.1) os r st d.1 in
    elim (Bool-cases (rid_eq o.rid r)) [
      | inl here ↦
          let e : o.rid ≡ r = rid_eq→eq o.rid r here in
          ih
          ∙ rw (here, sym (ap (find_in os) e) ∙ d.0)
              (st rc o.kind (t o.rid) ∙ ap (λ x. (f success o.kind (t x)).1) e)
      | inr there ↦ ih ∙ rw there refl
    ]

finish_all_at :
    (f : Rc → Kind → Option Row → Rc × Option Row) (rc : Rc) (ts : Tables)
    (ops : List (ℕ × List Operation)) (table : ℕ) (r : Rid)
    → IsSteady f
    → AreDistinct ops
    → (finish_all f rc ts ops).1 table r ≡ finished f (find_operation ops table r) (ts table r)
unfolding finish_all find_operation
finish_all_at f rc ts [] table r st d = refl
finish_all_at f rc ts ((u, os) ∷ rest) table r st d =
    let step = finish_set f rc (ts u) os in
    let ih = finish_all_at f step.0 (put_table ts u step.1) rest table r st d.2 in
    elim (Bool-cases (u == table)) [
      | inl here ↦
          let e : u ≡ table = (==_iff u table).0 here in
          ih
          ∙ rw (here, find_operation-no_table rest table r (ap (has_table rest) (sym e) ∙ d.0))
              (finish_set_at f rc (ts u) os r st d.1
                ∙ ap (λ x. finished f (find_in os r) (ts x r)) e)
      | inr there ↦ ih ∙ rw there refl
    ]

pub finish_at :
    (f : Rc → Kind → Option Row → Rc × Option Row) (w : World) (table : ℕ) (r : Rid)
    → IsSteady f
    → AreDistinct w.trx.operations
    → (finish f w).1.tables table r
      ≡ finished f (find_operation w.trx.operations table r) (w.tables table r)
unfolding finish
finish_at f w table r st d = finish_all_at f success w.tables w.trx.operations table r st d

pub commit_row-IsSteady : IsSteady commit_row
unfolding commit_row
commit_row-IsSteady rc insert none = refl
commit_row-IsSteady rc insert (some row) = refl
commit_row-IsSteady rc delete none = refl
commit_row-IsSteady rc delete (some row) = refl
commit_row-IsSteady rc update row = refl
commit_row-IsSteady rc undefined row = refl

pub rollback_row-IsSteady : IsSteady rollback_row
unfolding rollback_row
rollback_row-IsSteady rc insert none = refl
rollback_row-IsSteady rc insert (some row) = refl
rollback_row-IsSteady rc delete none = refl
rollback_row-IsSteady rc delete (some row) = refl
rollback_row-IsSteady rc update row = refl
rollback_row-IsSteady rc undefined row = refl

-- A record without the stamp of a transaction.
abbrev pub unstamped : Row → Row
unstamped row = record { trx_field = 0; bytes = row.bytes }

abbrev commit_kind : Kind → Option Row → Option Row
commit_kind insert none = none
commit_kind insert (some row) = some (unstamped row)
commit_kind delete row = none
commit_kind update row = row
commit_kind undefined row = row

-- What a commit is to leave of a record, by the operation that is recorded for it.
abbrev pub committed : Option Operation → Option Row → Option Row
committed none row = row
committed (some o) row = commit_kind o.kind row

abbrev rollback_kind : Kind → Option Row → Option Row
rollback_kind insert row = none
rollback_kind delete none = none
rollback_kind delete (some row) = some (unstamped row)
rollback_kind update row = row
rollback_kind undefined row = row

-- What a rollback is to leave of it.
abbrev pub rolled_back : Option Operation → Option Row → Option Row
rolled_back none row = row
rolled_back (some o) row = rollback_kind o.kind row

commit_kind-kind : (k : Kind) (row : Option Row) → (commit_row success k row).1 ≡ commit_kind k row
unfolding commit_row set_record_trx_id
commit_kind-kind insert none = refl
commit_kind-kind insert (some row) = refl
commit_kind-kind delete none = refl
commit_kind-kind delete (some row) = refl
commit_kind-kind update row = refl
commit_kind-kind undefined row = refl

finished-commit_row :
    (o : Option Operation) (row : Option Row) → finished commit_row o row ≡ committed o row
finished-commit_row none row = refl
finished-commit_row (some o) row = commit_kind-kind o.kind row

rollback_kind-kind :
    (k : Kind) (row : Option Row) → (rollback_row success k row).1 ≡ rollback_kind k row
unfolding rollback_row set_record_trx_id
rollback_kind-kind insert none = refl
rollback_kind-kind insert (some row) = refl
rollback_kind-kind delete none = refl
rollback_kind-kind delete (some row) = refl
rollback_kind-kind update row = refl
rollback_kind-kind undefined row = refl

finished-rollback_row :
    (o : Option Operation) (row : Option Row) → finished rollback_row o row ≡ rolled_back o row
finished-rollback_row none row = refl
finished-rollback_row (some o) row = rollback_kind-kind o.kind row

-- A commit of a transaction that has recorded at most one operation for each record takes the stamp
-- off every record that the transaction inserted, removes every record that it deleted and keeps
-- every other one; the transaction is then without operations and not started.
pub commit-committed :
    (w : World) (table : ℕ) (r : Rid)
    → AreDistinct w.trx.operations
    → ((commit w).1.tables table r
        ≡ committed (find_operation w.trx.operations table r) (w.tables table r))
      × ((commit w).1.trx ≡ record { trx_id = 0; operations = [] })
unfolding commit
commit-committed w table r d = (
  finish_at commit_row w table r commit_row-IsSteady d
      ∙ finished-commit_row (find_operation w.trx.operations table r) (w.tables table r),
  unfold finish in refl,
)

-- On tables without an index, a rollback of a transaction that has recorded at most one operation for each record removes every
-- record that the transaction inserted, takes the stamp off every record that it deleted and keeps
-- every other one; the transaction is then without operations and not started.
pub rollback-rolled_back :
    (w : World) (table : ℕ) (r : Rid)
    → AreDistinct w.trx.operations
    → ((rollback w).1.tables table r
        ≡ rolled_back (find_operation w.trx.operations table r) (w.tables table r))
      × ((rollback w).1.trx ≡ record { trx_id = 0; operations = [] })
unfolding rollback
rollback-rolled_back w table r d = (
  finish_at rollback_row w table r rollback_row-IsSteady d
      ∙ finished-rollback_row (find_operation w.trx.operations table r) (w.tables table r),
  unfold finish in refl,
)
