-- ===== src/RecordFile.antt =====
-- RecordFileHandler and RecordFileScanner of src/observer/storage/common/record_manager.cpp: the
-- records of a file of pages.
--
-- A `Handle` is the RecordPageHandler that each of both keeps. `page` is the page its pointers lead
-- to, which stays when it lets go of it; `is_attached` tells that it has pinned the page. What a
-- handle that is not attached reads is the page as it is in its frame. The file is open. A call of
-- undefined behaviour returns none. Log output is left out.
pub mod Moves
pub mod Scan
pub mod NextRecord
mod Tests
use oceanbase.Base.{
  ℕ, zero, suc, ◌+◌, ◌-◌, ◌%◌, ◌^◌, ◌≡◌, Bool, true, false, not, ◌&&◌, ◌||◌, Option, none, some,
  ◌==◌, ltb, leb, if◌then◌else◌,
}
use oceanbase.Base.Memory.{Memory}
use oceanbase.Rc.{
  Rc, success, record_openned, record_closed, record_eof, bufferpool_invalid_page_num, is_success,
}
use oceanbase.RecordPage.{Page, Rid, init_empty_page, is_full}
use oceanbase.RecordPage as RecordPage
use oceanbase.Pages.{
  File, Result, ok, err, out_of_rounds, M, pure, fail, stop, continue, ◌>>=◌, ◌>>◌, read_page,
  write_page, read_handler, write_handler, unpin_page, dispose_page, get_this_page, allocate_page,
}

-- A handle that has left its page still shows the number of that page: its frame is taken not to be given
-- to another page before the handle moves on.
pub record Handle : Type 0 where
  pub page : Option ℕ
  pub is_attached : Bool

abbrev pub Records : Type 0
Records = File Page Handle

abbrev pub Op : Type 0 → Type 0
Op = M Page Handle

-- page_num == get_page_num()
abbrev pub is_at : Handle → ℕ → Bool
is_at h n = elim (h.page) [ none ↦ false | some page ↦ page == n ]

abbrev pub is_invalid_page : Rc → Bool
is_invalid_page bufferpool_invalid_page_num = true
is_invalid_page _ = false

-- The slot from which a search behind a record starts; the slot -1 is before the first.
abbrev pub after : Rid → ℕ
after rid = if rid.slot_num == 2 ^ 32 - 1 then 0 else rid.slot_num + 1

abbrev pub before_first : ℕ → Rid
before_first n = record { page_num = n; slot_num = 2 ^ 32 - 1 }

-- RecordPageHandler::deinit
unfoldable pub deinit : Op (Unit {0})
deinit f =
    if f.handler.is_attached
    then elim (f.handler.page) [
      | none ↦ (ok tt, record f { handler = record f.handler { is_attached = false } })
      | some n ↦ (unpin_page n >> write_handler (record f.handler { is_attached = false })) f
    ]
    else (ok tt, f)

-- Whether a page could be opened, where it may be one that is not in use.
abbrev pub moved : Result (Unit {0}) × Records → Result Bool × Records
moved (ok done, f) = (ok true, f)
moved (err rc, f) = if is_invalid_page rc then (ok false, f) else (err rc, f)
moved (out_of_rounds, f) = (out_of_rounds, f)

-- What a search on a page comes to: a record that passes the filter `keep`, or the next round of the
-- loop. `up` is that round; it takes the code in the variable `ret` and the record to go on behind.
abbrev pub on_found : (Page → ℕ → Bool) → (Rc → Rid → Op Rid) → ℕ → Page → Option Rid → Op Rid
on_found keep up n page none = up record_eof (before_first (n + 1))
on_found keep up n page (some next) = if keep page next.slot_num then pure next else up success next

unfoldable pub in_page : (Page → ℕ → Bool) → (Rc → Rid → Op Rid) → Rid → Bool → Op Rid
in_page keep up rid is_here = do
  page ← read_page rid.page_num
  let find = on_found keep up rid.page_num page ((RecordPage.get_next_record page (after rid)).1)
  if is_here then find else up bufferpool_invalid_page_num (before_first (rid.page_num + 1))

module _ (answer : Records → ℕ → Rc) where
  abbrev pub attach : ℕ → Op (Unit {0})
  attach n = get_this_page answer n >> write_handler (record { page = some n; is_attached = true })

  -- RecordPageHandler::init
  unfoldable pub init : ℕ → Op (Unit {0})
  init n = do h ← read_handler; if h.is_attached then fail record_openned else attach n

  -- The handle moves to a page, if it is not there. False tells that the page is not in use.
  unfoldable pub move_to : ℕ → Op Bool
  unfolding deinit init
  move_to n f = if is_at f.handler n then (ok true, f) else moved ((deinit >> init n) f)

  -- The loop of RecordFileScanner::get_next_record, with the number of pages.
  unfoldable pub next_in_pages : (Page → ℕ → Bool) → ℕ → ℕ → Rc → Rid → Op Rid
  unfolding move_to in_page
  next_in_pages keep zero count ret rid = stop
  next_in_pages keep (suc rounds) count ret rid =
      let search = move_to rid.page_num >>= in_page keep (next_in_pages keep rounds count) rid in
      let end = if is_success ret then pure rid else fail ret in
      if ltb rid.page_num count then search else end

  unfoldable pub get_next_record : (Page → ℕ → Bool) → ℕ → Rid → Op Rid
  unfolding next_in_pages
  get_next_record keep rounds rid f =
      if f.page_count == 1
      then (err record_eof, f)
      else next_in_pages keep rounds f.page_count success rid f

  unfoldable pub get_first_record : (Page → ℕ → Bool) → ℕ → Op Rid
  unfolding get_next_record
  get_first_record keep rounds = get_next_record keep rounds (before_first 1)

module _ (answer : Records → ℕ → Rc) (blank : Page) where
  -- The loop of RecordFileHandler::insert_record that looks for a page with room; the page number
  -- goes `i` further in round `i`. False tells that there is none.
  unfoldable pub find_room : ℕ → ℕ → ℕ → ℕ → Op Bool
  unfolding move_to
  find_room zero i count current = pure false
  find_room (suc rounds) i count current =
      let n = (current + i) % count in
      let next = find_room rounds (i + 1) count n in
      let look = do
        is_here ← move_to answer n
        h ← read_handler
        page ← read_page (elim (h.page) as (λ _. ℕ) [ none ↦ n | some at ↦ at ])
        if is_full page then next else pure true
      in if n == 0 then next else look

  -- The page that the search starts from: that of the handle, or the first one, which is then opened.
  unfoldable pub start_page : Op ℕ
  unfolding init
  start_page f = elim (f.handler.page) [
    | some n ↦ (ok n, f)
    | none ↦ if leb 2 f.page_count then (init answer 1 >> pure 1) f else (ok 0, f)
  ]

  -- init_empty_page on a page that is pinned, and the unpin behind it.
  unfoldable pub init_new_page : ℕ → ℕ → Op (Unit {0})
  unfolding init
  init_new_page n record_size f =
      let opened = init answer n f in
      let set_up = do
        page ← read_page n
        write_page n (init_empty_page n page.area record_size)
        unpin_page n
      in elim (opened.0) [
        | ok done ↦ set_up opened.1
        | err rc ↦ (unpin_page n >> fail rc) opened.1
        | out_of_rounds ↦ (out_of_rounds, opened.1)
      ]

  -- A new page, which the handle moves to.
  unfoldable pub add_page : ℕ → Op (Unit {0})
  unfolding deinit init_new_page
  add_page record_size = do n ← allocate_page answer blank; deinit; init_new_page n record_size

  -- RecordPageHandler::insert_record on the page of the handle.
  unfoldable pub insert_here : Memory → Op (Option Rid)
  insert_here bytes f = elim (f.handler.page) [
    | none ↦ (ok none, f)
    | some n ↦ elim (RecordPage.insert_record (f.content n) bytes) [
      | none ↦ (ok none, f)
      | some (rc, rid, page) ↦
          (let write = write_page n page >> pure rid in
            (if is_success rc then write else fail rc) f)
    ]
  ]

  -- RecordFileHandler::insert_record
  unfoldable pub insert_record : Memory → ℕ → Op (Option Rid)
  unfolding find_room start_page add_page insert_here
  insert_record bytes record_size f =
      let insert = do
        current ← start_page
        is_found ← find_room f.page_count 0 f.page_count current
        (if is_found then pure tt else add_page record_size)
        insert_here bytes
      in insert f

module _ (answer : Records → ℕ → Rc) where
  -- A handle of its own is opened for one page and closed again; when the page cannot be opened, the
  -- code is SUCCESS and there is no result.
  abbrev with_page : {A : Type 0} → A → ℕ → (Page → Op A) → Op A
  with_page nothing n work f =
      let opened = get_this_page answer n f in
      elim (opened.0) [
        | ok done ↦ work (opened.1.content n) opened.1
        | err rc ↦ (ok nothing, opened.1)
        | out_of_rounds ↦ (out_of_rounds, opened.1)
      ]

  -- The code of a call, as the end of an operation.
  abbrev ends : Rc → Op (Unit {0})
  ends rc = if is_success rc then pure tt else fail rc

  -- `none` is undefined behaviour: a write behind the page.
  unfoldable pub update_record : Rid → Memory → Op (Option (Unit {0}))
  update_record rid bytes = with_page (some tt) rid.page_num λ page.
      elim (RecordPage.update_record page rid.slot_num bytes) [
        | none ↦ pure none
        | some (rc, page') ↦
            write_page rid.page_num page'
            >> unpin_page rid.page_num
            >> (if is_success rc then pure (some tt) else fail rc)
      ]

  -- A page without records is handed back; the code of that is not looked at.
  unfoldable pub delete_record : Rid → Op (Unit {0})
  delete_record rid = with_page tt rid.page_num λ page.
      let (rc, page', is_empty) = RecordPage.delete_record page rid.slot_num in
      let hand_back = λ (f : Records). (ends rc) ((dispose_page rid.page_num f).1) in
      write_page rid.page_num page'
      >> unpin_page rid.page_num
      >> (if is_empty then hand_back else ends rc)

  -- The address of the record.
  unfoldable pub get_record : Rid → Op (Option ℕ)
  get_record rid = with_page none rid.page_num λ page.
      let (rc, address) = RecordPage.get_record page rid.slot_num in
      unpin_page rid.page_num >> (if is_success rc then pure address else fail rc)
