-- ===== src/Pages.antt =====
-- What the clients of src/observer/storage/default/disk_buffer_pool.cpp see of it: the pages of one
-- open file, with their contents and pin counts. Record files and indexes are modelled over this
-- view; the frames below it are the subject of BufferPool.
--
-- `answer` is the code that the pool gives to a request for a page that is in use: a code other than
-- SUCCESS tells that no frame could be had, or that the page could not be read. `blank` is what a
-- page behind the end of the file holds. `mark_dirty` and `unpin_page` cannot fail.
pub mod Laws
use oceanbase.Base.{
  ℕ, suc, ◌+◌, ◌-◌, ◌≡◌, Bool, true, false, not, Option, none, some, ◌==◌, if◌then◌else◌,
}
use oceanbase.Base.First.{first_from}
use oceanbase.Rc.{Rc, success, is_success, bufferpool_invalid_page_num, bufferpool_page_pinned}

-- The pages of a file, and the state of the object that works on them.
pub record File (C E : Type 0) : Type 0 where
  pub page_count : ℕ
  pub in_use : ℕ → Bool
  pub content : ℕ → C
  pub pins : ℕ → ℕ
  pub handler : E

-- How an operation ends: with a value, with a code, or by using up the rounds it was given.
pub data Result (A : Type 0) : Type 0 where
  ok : A → Result A
  err : Rc → Result A
  out_of_rounds : Result A

abbrev pub M : Type 0 → Type 0 → Type 0 → Type 0
M C E A = File C E → Result A × File C E

abbrev pub pure : {C E A : Type 0} → A → M C E A
pure a f = (ok a, f)

abbrev pub fail : {C E A : Type 0} → Rc → M C E A
fail rc f = (err rc, f)

abbrev pub stop : {C E A : Type 0} → M C E A
stop f = (out_of_rounds, f)

-- What follows a step, from what the step ended with.
abbrev pub continue : {C E A B : Type 0} → Result A × File C E → (A → M C E B) → Result B × File C E
continue (ok a, f) k = k a f
continue (err rc, f) k = (err rc, f)
continue (out_of_rounds, f) k = (out_of_rounds, f)

infixl 5 ◌>>=◌ ◌>>◌
abbrev pub ◌>>=◌ : {C E A B : Type 0} → M C E A → (A → M C E B) → M C E B
◌>>=◌ m k f = continue (m f) k

abbrev pub ◌>>◌ : {C E B : Type 0} → M C E (Unit {0}) → M C E B → M C E B
m >> k = m >>= λ _. k

-- An array with one entry replaced.
abbrev pub update : {A : Type 0} → (ℕ → A) → ℕ → A → ℕ → A
update a i x j = if i == j then x else a j

-- The content of a page that the operation has pinned, and a write to it.
abbrev pub read_page : {C E : Type 0} → ℕ → M C E C
read_page n f = (ok (f.content n), f)

abbrev pub write_page : {C E : Type 0} → ℕ → C → M C E (Unit {0})
write_page n c f = (ok tt, record f { content = update f.content n c })

abbrev pub read_handler : {C E : Type 0} → M C E E
read_handler f = (ok f.handler, f)

abbrev pub write_handler : {C E : Type 0} → E → M C E (Unit {0})
write_handler e f = (ok tt, record f { handler = e })

abbrev pub unpin_page : {C E : Type 0} → ℕ → M C E (Unit {0})
unpin_page n f = (ok tt, record f { pins = update f.pins n (f.pins n - 1) })

pub dispose_page : {C E : Type 0} → ℕ → M C E (Unit {0})
dispose_page n f =
    if f.in_use n
    then if f.pins n == 0
      then (ok tt, record f { in_use = update f.in_use n false })
      else (err bufferpool_page_pinned, f)
    else (err bufferpool_invalid_page_num, f)

module _ {C E : Type 0} (answer : File C E → ℕ → Rc) where
  unfoldable pub get_this_page : ℕ → M C E (Unit {0})
  get_this_page n f =
      if f.in_use n
      then if is_success (answer f n)
        then (ok tt, record f { pins = update f.pins n (f.pins n + 1) })
        else (err (answer f n), f)
      else (err bufferpool_invalid_page_num, f)

module _ {C E : Type 0} (answer : File C E → ℕ → Rc) (blank : C) where
  -- The first page that is not in use, with what it holds, or a blank one behind the end.
  unfoldable pub allocate_page : M C E ℕ
  unfolding get_this_page
  allocate_page f = elim (first_from (λ i. not (f.in_use i)) f.page_count 0) [
    | some i ↦
        (get_this_page answer i >>= λ _. pure i) (record f { in_use = update f.in_use i true })
    | none ↦
        if is_success (answer f f.page_count)
        then (
          ok f.page_count,
          record f {
            page_count = f.page_count + 1;
            in_use = update f.in_use f.page_count true;
            content = update f.content f.page_count blank;
            pins = update f.pins f.page_count 1;
          },
        )
        else (err (answer f f.page_count), f)
  ]
