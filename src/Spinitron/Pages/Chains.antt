-- ===== src/Spinitron/Pages/Chains.antt =====
-- What the loops fetch, and how often they call the source.
use mathlib.Core.Path.{subst}
use mathlib.Core.List.{append-nil, append_assoc}
use air_cover.Base.{
  ℕ, zero, suc, ◌≤◌, ℤ, pos, ◌≡◌, ◌↔◌, ◌⊎◌, inl, inr, refl, sym, ◌∙◌, ap, Bool, true, false, Option,
  none, some, List, [], ◌++◌, ltb_ℤ, Bool-cases, arith,
}
use air_cover.Errors.{Error, Result, ok, err, Exec, continue, raise, lift, ◌>>=◌}
use air_cover.Spinitron.Pages.{Page, max_catalog_pages, advance, fetch_from, fetch}

abbrev is_page : ℤ → Bool
is_page page = ltb_ℤ (pos 0) page

module _ {A : Type 0} (source : ℤ → Result (Page A)) where
  -- The items of `n` pages from a page on, each of which names the next; the last one names none, or
  -- none that is a page.
  abbrev pub Chain : ℕ → ℤ → List A → Type 0
  Chain zero page items = (is_page page ≡ false) × (items ≡ [])
  Chain (suc n) page items =
      (is_page page ≡ true)
      × (p : Page A) × (source page ≡ ok p)
      × (((p.next_page ≡ none) × (n ≡ 0) × (items ≡ p.items))
          ⊎ ((next : ℤ) × (rest : List A) × (p.next_page ≡ some next)
              × Chain n next rest
              × (items ≡ p.items ++ rest)))

  abbrev Fetched : ℕ → ℤ → List A → List A → Type 0
  Fetched rounds page acc out =
      (n : ℕ) × (items : List A) × (n ≤ rounds) × Chain n page items × (out ≡ acc ++ items)

  stopped :
      (rounds : ℕ) (page : ℤ) (acc out : List A)
      → is_page page ≡ false
      → ◌≡◌ {A = Result (List A)} (ok acc) (ok out)
      → Fetched rounds page acc out
  stopped rounds page acc out e h = (0, [], omega arith, (e, refl), cc (append-nil acc, h))

  module _ {W : Type 0} (too_many : Error) where
    abbrev get_page : ℤ → Exec W (Page A)
    get_page page = lift (source page)

    -- The round on a page that was read.
    abbrev round : ℕ → List A → Page A → Exec W (List A)
    round rounds acc p =
        advance (λ next. fetch_from get_page too_many rounds next (acc ++ p.items)) (acc ++ p.items)
          p.next_page

    -- A round that succeeds read a page, and went on or not.
    round-Fetched :
        (rounds : ℕ) (page : ℤ) (acc out : List A) (w : W)
        → ((next : ℤ) (acc' : List A)
            → (fetch_from get_page too_many rounds next acc' w).0 ≡ ok out
            → Fetched rounds next acc' out)
        → is_page page ≡ true
        → (r : Result (Page A)) → source page ≡ r
        → (continue r (round rounds acc) w).0 ≡ ok out
        → Fetched (suc rounds) page acc out
    unfolding ◌>>=◌
    round-Fetched rounds page acc out w later e (err x) read h = cc h
    round-Fetched rounds page acc out w later e (ok p) read h = go p.next_page refl h
      where
        go :
            (o : Option ℤ)
            → p.next_page ≡ o
            → (advance
                (λ next. fetch_from get_page too_many rounds next (acc ++ p.items))
                (acc ++ p.items)
                o
                w).0
              ≡ ok out
            → Fetched (suc rounds) page acc out
        go none last done = (1, p.items, omega arith, (e, p, read, inl (last, refl, refl)), cc done)
        go (some next) more done =
            let (n, rest, few, chain, same) = later next (acc ++ p.items) done in
            (
              suc n,
              p.items ++ rest,
              omega arith,
              (e, p, read, inr (next, rest, more, chain, refl)),
              same ∙ append_assoc acc p.items rest,
            )

    -- What the loop returns is a chain.
    fetch_from-Chain :
        (rounds : ℕ) (page : ℤ) (acc out : List A) (w : W)
        → (fetch_from get_page too_many rounds page acc w).0 ≡ ok out
        → Fetched rounds page acc out
    unfolding fetch_from ◌>>=◌ lift
    fetch_from-Chain zero page acc out w h = elim (Bool-cases (is_page page)) [
      | inl e ↦ absurd (refused (rw e at h))
      | inr e ↦ stopped zero page acc out e (rw e at h)
    ]
      where
        refused : (raise {W = W} {A = List A} too_many w).0 ≡ ok out → ⊥
        refused bad = cc bad
    fetch_from-Chain (suc rounds) page acc out w h = elim (Bool-cases (is_page page)) [
      | inl e ↦
          round-Fetched rounds page acc out w
            (λ next acc' g. fetch_from-Chain rounds next acc' out w g) e (source page) refl
            (rw e at h)
      | inr e ↦ stopped (suc rounds) page acc out e (rw e at h)
    ]

    -- A chain that is short enough is what the loop returns.
    Chain-fetch_from :
        (n rounds : ℕ) (page : ℤ) (acc items : List A) (w : W)
        → n ≤ rounds
        → Chain n page items
        → (fetch_from get_page too_many rounds page acc w).0 ≡ ok (acc ++ items)
    unfolding fetch_from ◌>>=◌ lift
    Chain-fetch_from zero zero page acc items w h (e, none_left) =
        rw (e, none_left, append-nil acc) refl
    Chain-fetch_from zero (suc rounds) page acc items w h (e, none_left) =
        rw (e, none_left, append-nil acc) refl
    Chain-fetch_from (suc n) zero page acc items w h chain = absurd (omega arith)
    Chain-fetch_from (suc n) (suc rounds) page acc items w h (e, p, read, inl (last, z, same)) =
        rw (e, read)
          (ap
              (λ o.
                (advance (λ next. fetch_from get_page too_many rounds next (acc ++ p.items))
                  (acc ++ p.items) o w).0)
              last
            ∙ ap (λ x. ok (acc ++ x)) (sym same))
    Chain-fetch_from (suc n) (suc rounds) page acc items w h
          (e, p, read, inr (next, rest, more, chain, same)) =
        rw (e, read)
          (ap
              (λ o.
                (advance (λ next. fetch_from get_page too_many rounds next (acc ++ p.items))
                  (acc ++ p.items) o w).0)
              more
            ∙ Chain-fetch_from n rounds next (acc ++ p.items) rest w (omega arith) chain
            ∙ ap ok (append_assoc acc p.items rest)
            ∙ ap (λ x. ok (acc ++ x)) (sym same))

    -- For a source whose pages do not change meanwhile, a fetch returns a list exactly when the
    -- pages from the first on, each naming the next, are at most a hundred and can all be read, and
    -- the list is that of their items, in order.
    pub fetch-iff-Chain :
        (out : List A) (w : W)
        → ((fetch get_page too_many w).0 ≡ ok out)
          ↔ ((n : ℕ) × (n ≤ max_catalog_pages) × Chain n (pos 1) out)
    unfolding fetch
    fetch-iff-Chain out w = (
      λ h.
          let (n, items, few, chain, same) =
            fetch_from-Chain max_catalog_pages (pos 1) [] out w h in
          (n, few, subst (Chain n (pos 1)) (sym same) chain),
      λ h. Chain-fetch_from h.0 max_catalog_pages (pos 1) [] out w h.1 h.2,
    )
