-- ===== src/Bplus/Scanner/NextEntry.antt =====
-- `next_entry` of BplusTreeScanner: how far a call looks.
use oceanbase.Base.{
  ℕ, Bool-cases, ◌+◌, ◌-◌, ◌^◌, ◌≡◌, ◌≤◌, ◌⊎◌, inl, inr, refl, sym, ap, ◌∙◌, subst, Bool, true,
  false, ◌&&◌, Option, none, some, ◌==◌, ltb, arith,
}
use oceanbase.Base.First.{first_from, IsFirst, first_from-IsFirst}
use oceanbase.Rc.{Rc, is_success, record_eof, record_no_more_idx_in_mem}
use oceanbase.RecordPage.{Rid}
use oceanbase.Tuples.{Values}
use oceanbase.Filter.{CompOp}
use oceanbase.Pages.{Result, ok, err, out_of_rounds, unpin_page}
use oceanbase.Pages.Laws.{pinned, get_this_page-pinned, get_this_page-cases}
use oceanbase.Bplus.{minus_one, Key, Node, child, Tree, Config}
use oceanbase.Bplus.Scanner.{
  Scanner, Step, loaded, get_next_idx_in_memory, let_go, find_idx_pages, look_again, after_look,
  next_entry,
}

module _ (vs : Values) where
  -- The first entry of a node from a place on whose key passes the test.
  abbrev pub FirstIn : (Key vs → Bool) → Node vs → ℕ → Option ℕ → Type 0
  FirstIn test node start = IsFirst (λ i. test (node.keys i)) start node.key_num

  -- An open scanner that stands in the page `page` at the entry `i`, with a next page.
  abbrev pub standing : CompOp → Option vs.Value → ℕ → ℕ → ℕ → Scanner vs
  standing op value page i next = record {
    opened = true;
    comp_op = op;
    value = value;
    page = some page;
    is_past = false;
    index_in_node = i;
    next_page_num = next;
  }

  abbrev InMemory : (Key vs → Bool) → Node vs → Scanner vs → Result Rid × Scanner vs → Type 0
  InMemory test node s (ok rid, s') =
      (i : ℕ) × FirstIn test node s.index_in_node (some i) × (node.rids i ≡ rid)
  InMemory test node s (err rc, s') =
      (rc ≡ record_no_more_idx_in_mem)
      × FirstIn test node s.index_in_node none
      × (s' ≡ record s { index_in_node = 0; is_past = true })
  InMemory test node s (out_of_rounds, s') = ⊥

  get_next_idx_in_memory-InMemory :
      (test : Key vs → Bool) (op : CompOp) (value : Option vs.Value) (page i next : ℕ) (f : Tree vs)
      → i ≤ (f.content page).key_num
      → (next == minus_one && i == minus_one) ≡ false
      → InMemory test
          (f.content page)
          (standing op value page i next)
          (get_next_idx_in_memory vs test (standing op value page i next) f)
  unfolding get_next_idx_in_memory
  get_next_idx_in_memory-InMemory test op value page i next f le live =
      let node = f.content page in
      rw live (
        search (first_from (λ j. test (node.keys j)) (node.key_num - i) i) (
          first_from-IsFirst (λ j. test (node.keys j)) (node.key_num - i) i node.key_num
            (omega arith)))
    where
      search :
          (r : Option ℕ)
          → FirstIn test (f.content page) i r
          → InMemory test
              (f.content page)
              (standing op value page i next)
              (elim r as (λ _. Result Rid × Scanner vs) [
                | none ↦ (
                  err record_no_more_idx_in_mem,
                  record (standing op value page i next) { index_in_node = 0; is_past = true },
                )
                | some j ↦ (
                  ok ((f.content page).rids j),
                  record (standing op value page i next) { index_in_node = j + 1 },
                )
              ])
      search none h = (refl, h, refl)
      search (some j) h = (j, h, refl)

  -- What `next_entry` returns from a place in one leaf, with the leaf that is next.
  abbrev pub NextOutcome :
      (Key vs → Bool) → Node vs → ℕ → Bool → Node vs → Rc → Step vs Rid → Type 0
  NextOutcome test leaf start is_page next answer (ok rid, s, f) =
      ((i : ℕ) × FirstIn test leaf start (some i) × (leaf.rids i ≡ rid))
      ⊎ (FirstIn test leaf start none
          × (is_page ≡ true)
          × (is_success answer ≡ true)
          × ((i : ℕ) × FirstIn test next 0 (some i) × (next.rids i ≡ rid)))
  NextOutcome test leaf start is_page next answer (err rc, s, f) =
      FirstIn test leaf start none
      × ((is_page ≡ false) × (rc ≡ record_eof)
          ⊎ (is_page ≡ true) × (is_success answer ≡ false) × (rc ≡ answer)
          ⊎ (is_page ≡ true)
            × (is_success answer ≡ true)
            × (rc ≡ record_no_more_idx_in_mem)
            × FirstIn test next 0 none)
  NextOutcome test leaf start is_page next answer (out_of_rounds, s, f) = ⊥

  -- The number of a page that may be loaded, as an int more than 0
  abbrev pub is_page : ℕ → Bool
  is_page n = ltb 0 n && ltb n (2 ^ 31)

module _ (vs : Values) (c : Config vs) where
  -- The next page is loaded, in place of the one that was looked into.
  find_idx_pages-standing :
      (op : CompOp) (value : Option vs.Value) (page next : ℕ) (f : Tree vs)
      → is_page vs next ≡ true
      → f.in_use next ≡ true
      → is_success (c.answer ((unpin_page page f).1) next) ≡ true
      → find_idx_pages vs c (record (standing vs op value page 0 next) { is_past = true }) f ≡ (
        ok tt,
        standing vs op value next 0 (child vs (f.content next) (c.order - 1)),
        pinned ((unpin_page page f).1) next,
      )
  unfolding find_idx_pages let_go
  find_idx_pages-standing op value page next f there used served =
      let get = get_this_page-pinned c.answer ((unpin_page page f).1) next served used in
      let free = record (standing vs op value page 0 next) { page = none } in
      rw there (ap (loaded vs c free) get)

  -- The pool refuses the next page, or there is none.
  find_idx_pages-ends :
      (test : Key vs → Bool) (leaf : Node vs) (start : ℕ) (op : CompOp) (value : Option vs.Value)
      (page next : ℕ) (f : Tree vs)
      → FirstIn vs test leaf start none
      → (is_page vs next ≡ false)
        ⊎ (is_page vs next ≡ true)
          × (f.in_use next ≡ true)
          × (is_success (c.answer ((unpin_page page f).1) next) ≡ false)
      → NextOutcome vs test leaf start
          (is_page vs next)
          (f.content next)
          (c.answer ((unpin_page page f).1) next)
          (look_again vs c test
            (find_idx_pages vs c (record (standing vs op value page 0 next) { is_past = true }) f))
  unfolding find_idx_pages let_go
  find_idx_pages-ends test leaf start op value page next f missed (inl nowhere) =
      rw nowhere (missed, inl (refl, refl))
  find_idx_pages-ends test leaf start op value page next f missed (inr (there, used, refused)) =
      elim (get_this_page-cases c.answer ((unpin_page page f).1) next used) [
        | inl (served, e) ↦ cc
        | inr (no_frame, e) ↦ rw (there, e) (missed, inr (inl (refl, refused, refl)))
      ]

  -- The second look, into the next leaf.
  look_again-NextOutcome :
      (test : Key vs → Bool) (leaf : Node vs) (start : ℕ) (op : CompOp) (value : Option vs.Value)
      (next behind : ℕ) (answer : Rc) (g : Tree vs)
      → FirstIn vs test leaf start none
      → is_page vs next ≡ true
      → is_success answer ≡ true
      → NextOutcome vs test leaf start
          (is_page vs next)
          (g.content next)
          answer
          (look_again vs c test (ok tt, standing vs op value next 0 behind, g))
  look_again-NextOutcome test leaf start op value next behind answer g missed there served =
      convert (get_next_idx_in_memory vs test (standing vs op value next 0 behind) g) (
        get_next_idx_in_memory-InMemory vs test op value next 0 behind g (omega arith)
          (ground arith))
    where
      convert :
          (x : Result Rid × Scanner vs)
          → InMemory vs test (g.content next) (standing vs op value next 0 behind) x
          → NextOutcome vs test leaf start (is_page vs next) (g.content next) answer (x.0, x.1, g)
      convert (ok rid, s) h = inr (missed, there, served, h)
      convert (err rc, s) h = (missed, inr (inr (there, served, h.0, h.1)))
      convert (out_of_rounds, s) h = absurd h

  -- An open scanner that stands in a leaf it has loaded, and whose next page, if its number is more than
  -- 0 as an int, is in use: `next_entry` returns the first entry from there on in this leaf that passes
  -- the test, or else the first one in the next leaf. If this leaf has none, the code is RECORD_EOF
  -- when there is no next page, that of the pool when it refuses the page, and
  -- RECORD_NO_MORE_IDX_IN_MEM when the next leaf has none either, whatever the leaves behind it hold.
  pub next_entry-NextOutcome :
      (test : Key vs → Bool) (op : CompOp) (value : Option vs.Value) (page i next : ℕ) (f : Tree vs)
      → i ≤ (f.content page).key_num
      → (next == minus_one && i == minus_one) ≡ false
      → (is_page vs next ≡ true → f.in_use next ≡ true)
      → NextOutcome vs test
          (f.content page)
          i
          (is_page vs next)
          (f.content next)
          (c.answer ((unpin_page page f).1) next)
          (next_entry vs c test (standing vs op value page i next) f)
  unfolding next_entry
  next_entry-NextOutcome test op value page i next f le live used =
      here (get_next_idx_in_memory vs test (standing vs op value page i next) f)
        (get_next_idx_in_memory-InMemory vs test op value page i next f le live)
    where
      answer : Rc
      answer = c.answer ((unpin_page page f).1) next

      again :
          FirstIn vs test (f.content page) i none
          → NextOutcome vs test (f.content page) i (is_page vs next) (f.content next) answer (
              look_again vs c test (
                find_idx_pages vs c
                  (record (standing vs op value page 0 next) { is_past = true })
                  f))
      again missed = elim (Bool-cases (is_page vs next)) [
        | inr nowhere ↦
            find_idx_pages-ends test (f.content page) i op value page next f missed (inl nowhere)
        | inl there ↦ elim (Bool-cases (is_success answer)) [
          | inr refused ↦
              find_idx_pages-ends test (f.content page) i op value page next f missed
                (inr (there, used there, refused))
          | inl served ↦
              subst
                (NextOutcome vs test (f.content page) i (is_page vs next) (f.content next) answer)
                (sym (
                  ap (look_again vs c test)
                    (find_idx_pages-standing op value page next f there (used there) served)))
                (look_again-NextOutcome test (f.content page) i op value next
                  (child vs (f.content next) (c.order - 1)) answer
                  (pinned ((unpin_page page f).1) next) missed there served)
        ]
      ]

      here :
          (x : Result Rid × Scanner vs)
          → InMemory vs test (f.content page) (standing vs op value page i next) x
          → NextOutcome vs test
              (f.content page)
              i
              (is_page vs next)
              (f.content next)
              answer
              (after_look vs c test f x)
      here (ok rid, s) h = inl h
      here (err rc, s) h =
          let past = record (standing vs op value page 0 next) { is_past = true } in
          let go : after_look vs c test f (err rc, s)
              ≡ look_again vs c test (find_idx_pages vs c past f) =
            ap (λ r. after_look vs c test f (err r, s)) h.0
            ∙ ap (λ t. look_again vs c test (find_idx_pages vs c t f)) h.2 in
          subst (NextOutcome vs test (f.content page) i (is_page vs next) (f.content next) answer)
            (sym go) (again h.1)
      here (out_of_rounds, s) h = absurd h
