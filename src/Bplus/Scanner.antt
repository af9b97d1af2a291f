-- ===== src/Bplus/Scanner.antt =====
-- bplus_tree.cpp: BplusTreeScanner, a scan of an index for one condition.
--
-- `num_fixed_pages_` is 1 in an open scanner, so it pins one page at most: `page`. `is_past` tells that
-- `next_index_of_page_handle_` is behind it. The page number and the index -1 are `minus_one`. The
-- comparison of floats is a parameter. A value can always be copied. Log output is left out.
pub mod NextEntry
use oceanbase.Base.{
  ℕ, zero, suc, ◌+◌, ◌-◌, ◌^◌, ◌≡◌, Bool, true, false, not, ◌&&◌, ◌||◌, Option, none, some, ◌==◌,
  ltb, leb, if◌then◌else◌,
}
use oceanbase.Base.First.{first_from}
use oceanbase.Base.Int.{ℤ, pos}
use oceanbase.Base.Memory.{Memory}
use oceanbase.Rc.{
  Rc, record_openned, record_closed, record_scanclosed, record_eof, record_no_more_idx_in_mem,
}
use oceanbase.RecordPage.{Rid}
use oceanbase.Tuples.{Values, is_zero, is_positive}
use oceanbase.Filter.{
  AttrType, ints, dates, chars, floats, CompOp, equal_to, less_equal, not_equal, less_than,
  great_equal, great_than, no_op, read_int,
}
use oceanbase.Pages.{File, Result, ok, err, out_of_rounds, unpin_page}
use oceanbase.Bplus.{minus_one, is_negative, Key, Node, child, Tree, Config}
use oceanbase.Bplus.Compare.{compare_ints, strncmp}
use oceanbase.Bplus.Find.{get_page, find_first_index_satisfied}

-- The switch over the operation, from a comparison.
abbrev pub holds : CompOp → ℤ → Bool
holds equal_to c = is_zero c
holds less_than c = is_negative c
holds great_than c = is_positive c
holds less_equal c = not (is_positive c)
holds great_equal c = not (is_negative c)
holds not_equal c = not (is_zero c)
holds _ c = false

-- satisfy_condition; `float_test` is the comparison of floats by an operation.
unfoldable pub satisfy_condition :
    (CompOp → Memory → Memory → Bool) → AttrType → ℕ → CompOp → Memory → Memory → Bool
satisfy_condition float_test type len no_op key value = true
satisfy_condition float_test ints len op key value =
    holds op (compare_ints (read_int key) (read_int value))
satisfy_condition float_test dates len op key value =
    holds op (compare_ints (read_int key) (read_int value))
satisfy_condition float_test chars len op key value = holds op (strncmp len key value 0)
satisfy_condition float_test floats len op key value = float_test op key value
satisfy_condition float_test _ len op key value = false

abbrev pub is_no_more : Rc → Bool
is_no_more record_no_more_idx_in_mem = true
is_no_more _ = false

abbrev pub is_eof : Rc → Bool
is_eof record_eof = true
is_eof _ = false

module _ (vs : Values) where
  open vs use {Value}

  pub record Scanner : Type 0 where
    pub opened : Bool
    pub comp_op : CompOp
    pub value : Option Value
    pub page : Option ℕ
    pub is_past : Bool
    pub index_in_node : ℕ
    pub next_page_num : ℕ

  -- How a call of a scanner ends, with the scanner and the file behind it.
  abbrev pub Step : Type 0 → Type 0
  Step A = Result A × Scanner × Tree vs

  -- `test` is satisfy_condition at the type of the index and the operation and value of the scan.
  unfoldable pub get_next_idx_in_memory : (Key vs → Bool) → Scanner → Tree vs → Result Rid × Scanner
  get_next_idx_in_memory test s f = elim (s.page) [
    | none ↦ (err record_no_more_idx_in_mem, s)
    | some page ↦
        let node = f.content page in
        let search =
          elim (first_from (λ i. test (node.keys i)) (node.key_num - s.index_in_node)
              s.index_in_node)
            as (λ _. Result Rid × Scanner) [
              | none ↦
                  (err record_no_more_idx_in_mem, record s { index_in_node = 0; is_past = true })
              | some i ↦ (ok (node.rids i), record s { index_in_node = i + 1 })
            ] in
        if s.is_past
        then (err record_no_more_idx_in_mem, s)
        else if s.next_page_num == minus_one && s.index_in_node == minus_one
        then (err record_eof, s)
        else search
  ]

module _ (vs : Values) (c : Config vs) where
  -- BplusTreeScanner::open
  unfoldable pub open_scan : ℕ → CompOp → vs.Value → Scanner vs → Tree vs → Step vs (Unit {0})
  unfolding find_first_index_satisfied
  open_scan rounds op value s f =
      let found = find_first_index_satisfied vs c rounds op value f in
      let start = record s { comp_op = op; value = some value } in
      let at = λ (page i : ℕ). record start {
        page = none;
        is_past = false;
        next_page_num = page;
        index_in_node = i;
        opened = true;
      } in
      let first = elim (found.0) as (λ _. Step vs (Unit {0})) [
        | ok place ↦ (ok tt, at place.0 place.1, found.1)
        | err rc ↦
            if is_eof rc then (ok tt, at minus_one minus_one, found.1) else (err rc, start, found.1)
        | out_of_rounds ↦ (out_of_rounds, start, found.1)
      ] in
      if s.opened then (err record_openned, s, f) else first

  -- BplusTreeScanner::close
  unfoldable pub close_scan : Scanner vs → Result (Unit {0}) × Scanner vs
  close_scan s =
      if s.opened
      then (ok tt, record s { value = none; opened = false })
      else (err record_scanclosed, s)

  -- The loop that unpins the page of the scanner.
  unfoldable pub let_go : Scanner vs → Tree vs → Tree vs
  let_go s f = elim (s.page) [ none ↦ f | some page ↦ (unpin_page page f).1 ]

  -- What the scanner is once the pool has answered, from one without a page.
  abbrev pub loaded : Scanner vs → Result (Unit {0}) × Tree vs → Step vs (Unit {0})
  loaded s (ok done, f) = (
    ok tt,
    record s {
      page = some s.next_page_num;
      next_page_num = child vs (f.content s.next_page_num) (c.order - 1);
    },
    f,
  )
  loaded s (err rc, f) = (err rc, s, f)
  loaded s (out_of_rounds, f) = (out_of_rounds, s, f)

  unfoldable pub find_idx_pages : Scanner vs → Tree vs → Step vs (Unit {0})
  unfolding let_go
  find_idx_pages s f =
      let free = record s { page = none; is_past = false } in
      if not s.opened
      then (err record_closed, s, f)
      else if ltb 0 s.next_page_num && ltb s.next_page_num (2 ^ 31)
      then loaded free (get_page vs c s.next_page_num (let_go s f))
      else (err record_eof, free, let_go s f)

  -- A second look into the pages in memory, behind `find_idx_pages`.
  abbrev pub look_again : (Key vs → Bool) → Step vs (Unit {0}) → Step vs Rid
  look_again test (ok done, s, f) = let r = get_next_idx_in_memory vs test s f in (r.0, r.1, f)
  look_again test (err rc, s, f) = (err rc, s, f)
  look_again test (out_of_rounds, s, f) = (out_of_rounds, s, f)

  abbrev pub after_look : (Key vs → Bool) → Tree vs → Result Rid × Scanner vs → Step vs Rid
  after_look test f (ok rid, s) = (ok rid, s, f)
  after_look test f (err rc, s) =
      if is_no_more rc then look_again test (find_idx_pages s f) else (err rc, s, f)
  after_look test f (out_of_rounds, s) = (out_of_rounds, s, f)

  unfoldable pub next_entry : (Key vs → Bool) → Scanner vs → Tree vs → Step vs Rid
  unfolding get_next_idx_in_memory find_idx_pages
  next_entry test s f =
      if s.opened
      then after_look test f (get_next_idx_in_memory vs test s f)
      else (err record_closed, s, f)
