-- ===== src/Table/Scanning.antt =====
-- Table::scan_record: which records its reader gets.
use oceanbase.Base.{
  ℕ, zero, suc, ◌≡◌, refl, List, [], ◌∷◌, take, if◌then◌else◌, Bool-cases, inl, inr,
}
use oceanbase.Base.Int.{ℤ, pos, negsuc}
use oceanbase.Rc.{Rc, success, is_success, record_eof}
use oceanbase.RecordPage.{Rid}
use oceanbase.Trx.{Trx, Row, is_visible}
use oceanbase.Table.{scan_loop, scan_record, int_max, scan_code}

-- The records that a transaction sees
abbrev pub visible : Trx → List (Rid × Row) → List (Rid × Row)
visible trx [] = []
visible trx (r ∷ records) =
    if is_visible trx r.1 then r ∷ visible trx records else visible trx records

-- How many records a limit stands for.
abbrev pub at_most : ℤ → ℕ
at_most (pos n) = n
at_most (negsuc n) = int_max

module _ {S : Type 0} where
  -- The reader gets one record after another, until it fails.
  abbrev pub read_all : (Rid × Row → S → Rc × S) → List (Rid × Row) → S → Rc × S
  read_all reader [] s = (success, s)
  read_all reader (r ∷ records) s =
      if is_success (reader r s).0
      then read_all reader records (reader r s).1
      else ((reader r s).0, (reader r s).1)

  scan_loop-read_all :
      (trx : Trx) (reader : Rid × Row → S → Rc × S) (records : List (Rid × Row)) (limit : ℕ) (s : S)
      → scan_code (scan_loop trx reader records record_eof limit s)
        ≡ scan_code (read_all reader (take limit (visible trx records)) s)
  unfolding scan_loop
  scan_loop-read_all trx reader [] zero s = refl
  scan_loop-read_all trx reader [] (suc limit) s = refl
  scan_loop-read_all trx reader (r ∷ records) zero s = refl
  scan_loop-read_all trx reader (r ∷ records) (suc limit) s =
      elim (Bool-cases (is_visible trx r.1)) [
        | inl seen ↦ elim (Bool-cases (is_success (reader r s).0)) [
          | inl read ↦ rw (seen, read) (scan_loop-read_all trx reader records limit (reader r s).1)
          | inr failed ↦ rw (seen, failed) refl
        ]
        | inr hidden ↦ rw hidden (scan_loop-read_all trx reader records (suc limit) s)
      ]

  -- scan_record of records that end with RECORD_EOF hands its reader the records that the transaction
  -- sees, in order, as many as the limit allows or, with a negative limit, INT_MAX, and stops at the
  -- first one on which the reader fails; the code is then the reader's, SUCCESS for RECORD_EOF.
  pub scan_record-read_all :
      (trx : Trx) (reader : Rid × Row → S → Rc × S) (records : List (Rid × Row)) (limit : ℤ) (s : S)
      → scan_record trx reader records record_eof limit s
        ≡ scan_code (read_all reader (take (at_most limit) (visible trx records)) s)
  unfolding scan_record
  scan_record-read_all trx reader records (pos zero) s = refl
  scan_record-read_all trx reader records (pos (suc n)) s =
      scan_loop-read_all trx reader records (suc n) s
  scan_record-read_all trx reader records (negsuc n) s =
      scan_loop-read_all trx reader records int_max s
