-- ===== src/RecordFile/Moves.antt =====
-- How the handle of a record file moves from page to page.
use oceanbase.Base.{
  ℕ, ◌≡◌, inl, inr, refl, sym, ap, ◌∙◌, subst, Bool, true, false, Option, none, some, ◌==◌,
  if◌then◌else◌, arith, Bool-cases, Option-cases, ==_iff,
}
use oceanbase.Rc.{Rc, record_openned}
use oceanbase.RecordPage.{Page}
use oceanbase.Pages.{Result, ok, err, out_of_rounds, fail, continue, get_this_page}
use oceanbase.Pages.Laws.{IsReady}
use oceanbase.RecordFile.{Handle, Records, is_at, moved, attach, deinit, init, move_to}

module _ (used : ℕ → Bool) (content : ℕ → Page) where
  -- The file as it is during a scan, which changes pins and the handle only.
  abbrev pub Shows : Records → Type 0
  Shows f = (f.in_use ≡ used) × (f.content ≡ content)

  -- The handle stands on no page, or on one in use.
  abbrev pub IsHandle : Handle → Type 0
  IsHandle h = (n : ℕ) → h.page ≡ some n → used n ≡ true

  -- Letting a page go.
  deinit-Shows :
      (f : Records)
      → Shows f
      → (g : Records) × (deinit f ≡ (ok tt, g))
        × Shows g
        × (g.handler ≡ record { page = f.handler.page; is_attached = false })
  unfolding deinit
  deinit-Shows f s =
      by_handle f.page_count f.in_use f.content f.pins f.handler.page f.handler.is_attached s
    where
      by_handle :
          (count : ℕ) (u : ℕ → Bool) (c : ℕ → Page) (pins : ℕ → ℕ) (page : Option ℕ)
          (attached : Bool)
          → let f : Records = record {
            page_count = count;
            in_use = u;
            content = c;
            pins = pins;
            handler = record { page = page; is_attached = attached };
          } in
            Shows f
            → (g : Records) × (deinit f ≡ (ok tt, g))
              × Shows g
              × (g.handler ≡ record { page = page; is_attached = false })
      by_handle count u c pins page false s = (_, refl, s, refl)
      by_handle count u c pins none true s = (_, refl, s, refl)
      by_handle count u c pins (some n) true s = (_, refl, s, refl)

  -- What `move_to` leaves.
  abbrev pub MoveOutcome : ℕ → Result Bool × Records → Type 0
  MoveOutcome n (ok is_here, f') = (used n ≡ is_here) × Shows f' × IsHandle f'.handler
  MoveOutcome n (err rc, f') = ⊥
  MoveOutcome n (out_of_rounds, f') = ⊥

  is_at-used : (h : Handle) (n : ℕ) → IsHandle h → is_at h n ≡ true → used n ≡ true
  is_at-used h n ih here = elim (Option-cases h.page) [
    | inl e ↦ let q : false ≡ true = rw e at here in ground (arith, q)
    | inr (page, e) ↦
        let q : (page == n) ≡ true = rw e at here in ih n (e ∙ ap some ((==_iff page n).0 q))
  ]

  init-attach :
      (answer : Records → ℕ → Rc) (g : Records) (n : ℕ)
      → g.handler.is_attached ≡ false
      → init answer n g ≡ attach answer n g
  unfolding init
  init-attach answer g n free =
      ap (λ b. (if b then fail record_openned else attach answer n) g) free

  attach-MoveOutcome :
      (answer : Records → ℕ → Rc) (g : Records) (n : ℕ)
      → IsReady answer
      → Shows g
      → IsHandle g.handler
      → MoveOutcome n (moved (attach answer n g))
  unfolding get_this_page
  attach-MoveOutcome answer g n ready s h = elim (Bool-cases (used n)) [
    | inl is_used ↦
        let u : g.in_use n ≡ true = ap (λ (x : ℕ → Bool). x n) s.0 ∙ is_used in
        rw (u, ready g n) (is_used, s, λ m e. subst (λ x. used x ≡ true) (some-inj e) is_used)
    | inr unused ↦
        let u : g.in_use n ≡ false = ap (λ (x : ℕ → Bool). x n) s.0 ∙ unused in rw u (unused, s, h)
  ]
    where
      some-inj : {a b : ℕ} → some a ≡ some b → a ≡ b
      some-inj {a} e = ap (λ o. elim o [ none ↦ a | some x ↦ x ]) e

  pub move_to-MoveOutcome :
      (answer : Records → ℕ → Rc) (f : Records) (n : ℕ)
      → IsReady answer
      → Shows f
      → IsHandle f.handler
      → MoveOutcome n (move_to answer n f)
  unfolding move_to
  move_to-MoveOutcome answer f n ready s h = elim (Bool-cases (is_at f.handler n)) [
    | inl here ↦ rw here (is_at-used f.handler n h here, s, h)
    | inr away ↦
        let left = deinit-Shows f s in
        let g = left.0 in
        let free : g.handler.is_attached ≡ false = ap (λ (x : Handle). x.is_attached) left.3 in
        let go : move_to answer n f ≡ moved (attach answer n g) = rw away (
          ap (λ x. moved (continue x (λ _. init answer n))) left.1
          ∙ ap moved (init-attach answer g n free)) in
        subst (MoveOutcome n) (sym go) (
          attach-MoveOutcome answer g n ready left.2
            (λ m e. h m (sym (ap (λ (x : Handle). x.page) left.3) ∙ e)))
  ]
