-- ===== src/Spinitron/Pages/Calls.antt =====
-- A fetch ends, whatever the source answers.
use air_cover.Base.{
  ℕ, zero, suc, ◌+◌, ◌≤◌, ℤ, pos, Option, none, some, List, [], ◌++◌, ltb_ℤ, Bool-cases, inl, inr,
  arith,
}
use air_cover.Errors.{Error, Result, ok, err, Exec, continue, pure, ◌>>=◌}
use air_cover.Spinitron.Pages.{Page, max_catalog_pages, advance, fetch_from, fetch}

module _ {W A : Type 0} (get_page : ℤ → Exec W (Page A)) (too_many : Error) (calls : W → ℕ)
    (counted : (page : ℤ) (w : W) → calls (get_page page w).1 ≤ suc (calls w)) where
  advance-calls :
      (later : ℤ → Exec W (List A)) (items : List A) (o : Option ℤ) (w : W) (bound : ℕ)
      → calls w ≤ bound
      → ((next : ℤ) → calls (later next w).1 ≤ bound)
      → calls (advance later items o w).1 ≤ bound
  unfolding pure
  advance-calls later items none w bound here there = here
  advance-calls later items (some next) w bound here there = there next

  continue-calls :
      (r : Result (Page A)) (f : Page A → Exec W (List A)) (w : W) (bound : ℕ)
      → calls w ≤ bound
      → ((p : Page A) → calls (f p w).1 ≤ bound)
      → calls (continue r f w).1 ≤ bound
  continue-calls (ok p) f w bound here there = there p
  continue-calls (err e) f w bound here there = here

  fetch_from-calls :
      (rounds : ℕ) (page : ℤ) (items : List A) (w : W)
      → calls (fetch_from get_page too_many rounds page items w).1 ≤ calls w + rounds
  unfolding fetch_from ◌>>=◌
  fetch_from-calls zero page items w = elim (Bool-cases (ltb_ℤ (pos 0) page)) [
    | inl e ↦ rw e (omega arith)
    | inr e ↦ rw e (omega arith)
  ]
  fetch_from-calls (suc rounds) page items w = elim (Bool-cases (ltb_ℤ (pos 0) page)) [
    | inr e ↦ rw e (omega arith)
    | inl e ↦
        let w₁ = (get_page page w).1 in
        let bound = calls w + suc rounds in
        rw e (
          continue-calls (get_page page w).0 _ w₁ bound (omega (arith, counted page w)) λ p.
            advance-calls _ _ p.next_page w₁ bound (omega (arith, counted page w)) λ next.
              omega (arith, counted page w, fetch_from-calls rounds next (items ++ p.items) w₁))
  ]

  -- Whatever the source answers, a fetch asks it for at most a hundred pages, and ends.
  pub fetch-calls : (w : W) → calls (fetch get_page too_many w).1 ≤ calls w + max_catalog_pages
  unfolding fetch
  fetch-calls w = fetch_from-calls max_catalog_pages (pos 1) [] w
