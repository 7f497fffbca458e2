-- ===== src/Strategy/Loader/Earned.antt =====
-- The engine trades the strategies that have earned the portfolio's mode, and no others.
use roi_gen.Base.{
  ℕ, ◌≡◌, ◌≢◌, ◌⊎◌, refl, sym, ap, ◌∙◌, subst, Bool, true, some, List, [], ◌∷◌, arith, leb,
  if_cases, select, All, All-weaken, Among, Among-head, Among-later, Bool-cases, inl, inr,
}
use roi_gen.Models.Enums.{PortfolioMode}
use roi_gen.Strategy.Runner.{Kind, Built, built, key_error, bad_params, other_error, create}
use roi_gen.Strategy.Loader.{
  StrategyRow, is_tradeable, insert_row, by_creation, keep, load_rows, load_active_strategies,
}

module _ {κ} (P : StrategyRow → Type κ) where
  All-insert_row :
      (x : StrategyRow) (ys : List StrategyRow) → P x → All P ys → All P (insert_row x ys)
  All-insert_row x [] p h = (p, tt)
  All-insert_row x (y ∷ ys) p h =
      if_cases (All P) (leb x.created_at y.created_at) _ _ (λ e. (p, h))
        (λ e. (h.0, All-insert_row x ys p h.1))

  All-by_creation : (xs : List StrategyRow) → All P xs → All P (by_creation xs)
  All-by_creation [] h = tt
  All-by_creation (x ∷ xs) h = All-insert_row x (by_creation xs) h.0 (All-by_creation xs h.1)

  insert_row-All :
      (x : StrategyRow) (ys : List StrategyRow) → All P (insert_row x ys) → P x × All P ys
  insert_row-All x [] h = h
  insert_row-All x (y ∷ ys) h = elim (Bool-cases (leb x.created_at y.created_at)) [
    | inl e ↦ rw e at h
    | inr e ↦
        let later : All P (y ∷ insert_row x ys) = rw e at h in
        let (p, rest) = insert_row-All x ys later.1 in (p, (later.0, rest))
  ]

  by_creation-All : (xs : List StrategyRow) → All P (by_creation xs) → All P xs
  by_creation-All [] h = tt
  by_creation-All (x ∷ xs) h =
      let (p, rest) = insert_row-All x (by_creation xs) h in (p, by_creation-All xs rest)

  select-All :
      (p : StrategyRow → Bool) (xs : List StrategyRow)
      → All P (select p xs)
      → All (λ x. p x ≡ true → P x) xs
  select-All p [] h = tt
  select-All p (x ∷ xs) h = elim (Bool-cases (p x)) [
    | inl e ↦
        let both : All P (x ∷ select p xs) = rw e at h in ((λ _. both.0), select-All p xs both.1)
    | inr e ↦ ((λ yes. absurd (ground (arith, e, yes))), select-All p xs (rw e at h))
  ]

module _ {κ} (P : StrategyRow → Type κ) where
  All-select-true :
      (p : StrategyRow → Bool) (xs : List StrategyRow)
      → All (λ x. p x ≡ true → P x) xs
      → All P (select p xs)
  All-select-true p [] h = tt
  All-select-true p (x ∷ xs) h =
      if_cases (All P) (p x) _ _ (λ e. (h.0 e, All-select-true p xs h.1))
        (λ e. All-select-true p xs h.1)

built_or {ℓ} : {S : Type ℓ} → S → Built S → S
built_or d (built x) = x
built_or d _ = d

built-injective {ℓ} : {S : Type ℓ} (s t : S) → built s ≡ built t → s ≡ t
unfolding built_or
built-injective s t e = ap (built_or s) e

-- The selected rows are rows of the table that pass the test.
selected :
    (p : StrategyRow → Bool) (xs : List StrategyRow)
    → All (λ x. Among x xs × (p x ≡ true)) (select p xs)
selected p [] = tt
selected p (x ∷ xs) =
    let rest =
      All-weaken _ (λ y. Among y (x ∷ xs) × (p y ≡ true)) (select p xs)
        (λ y h. (Among-later y x xs h.0, h.1)) (selected p xs) in
    if_cases (All (λ y. Among y (x ∷ xs) × (p y ≡ true))) (p x) _ _
      (λ e. ((Among-head x xs, e), rest)) (λ e. rest)

module _ {ℓ κ} {Args : Type ℓ} {S : Type κ} (kinds : List (Kind Args S))
    (arguments : StrategyRow → Args) where
  abbrev pub made : StrategyRow → Built S
  made row = create kinds row.kind (arguments row)

  -- A row's strategy joins the later ones, or its class refuses it.
  abbrev Kept : Built S → List S → List S → Type κ
  Kept b rest loaded =
      ((loaded ≡ rest) × ((s : S) → b ≢ built s)) ⊎ ((s : S) × (b ≡ built s) × (loaded ≡ s ∷ rest))

  keep-Kept :
      (b : Built S) (rest : List S)
      → b ≢ other_error
      → (loaded : List S) × (keep kinds arguments b (some rest) ≡ some loaded) × Kept b rest loaded
  keep-Kept (built s) rest h = (s ∷ rest, refl, inr (s, refl, refl))
  keep-Kept key_error rest h = (rest, refl, inl (refl, λ s e. absurd (cc e)))
  keep-Kept bad_params rest h = (rest, refl, inl (refl, λ s e. absurd (cc e)))
  keep-Kept other_error rest h = absurd (h refl)

  -- Where the loaded strategies come from, and what becomes of the rows.
  abbrev pub From {μ} : (StrategyRow → Type μ) → S → Type (κ ⊔ μ)
  From P s = (row : StrategyRow) × P row × (made row ≡ built s)

  abbrev pub IsLoaded : List S → StrategyRow → Type κ
  IsLoaded loaded row = (s : S) → made row ≡ built s → Among s loaded

  join {μ} :
      (P : StrategyRow → Type μ) (row : StrategyRow) (rows : List StrategyRow)
      (rest loaded : List S)
      → P row
      → Kept (made row) rest loaded
      → All (From P) rest
      → All (IsLoaded rest) rows
      → All (From P) loaded × All (IsLoaded loaded) (row ∷ rows)
  join P row rows rest loaded p (inl (same, refused)) from kept =
      subst (λ xs. All (From P) xs × All (IsLoaded xs) (row ∷ rows)) (sym same)
        (from, ((λ s e. absurd (refused s e)), kept))
  join P row rows rest loaded p (inr (s, e, same)) from kept =
      subst (λ xs. All (From P) xs × All (IsLoaded xs) (row ∷ rows)) (sym same)
        (
          ((row, p, e), from),
          (
            (λ t k.
                subst (λ x. Among x (s ∷ rest)) (built-injective s t (sym e ∙ k))
                  (Among-head s rest)),
            All-weaken _ _ rows (λ r h t k. Among-later t s rest (h t k)) kept,
          ),
        )

  load_rows-Loads {μ} :
      (P : StrategyRow → Type μ) (rows : List StrategyRow)
      → All (λ row. made row ≢ other_error) rows
      → All P rows
      → (loaded : List S) × (load_rows kinds arguments rows ≡ some loaded)
        × All (From P) loaded
        × All (IsLoaded loaded) rows
  unfolding load_rows
  load_rows-Loads P [] calm h = ([], refl, tt, tt)
  load_rows-Loads P (row ∷ rows) calm h =
      let (rest, e, from, kept) = load_rows-Loads P rows calm.1 h.1 in
      let (loaded, k, joined) = keep-Kept (made row) rest calm.0 in
      let both = join P row rows rest loaded h.0 joined from kept in
      (loaded, rw (e, load_rows) k, both.0, both.1)

  -- A row that the mode of its portfolio lets trade.
  abbrev pub HasEarned : ℕ → PortfolioMode → List StrategyRow → StrategyRow → Type 0
  HasEarned portfolio mode rows row = Among row rows × (is_tradeable portfolio mode row ≡ true)

  -- Where no class of a tradeable row raises an unexpected exception, loading ends: each loaded
  -- strategy is made from a row of the portfolio whose status its mode allows (live for a live
  -- portfolio, paper or live for a paper one), and each such row whose class accepts it is loaded,
  -- whatever rows the registry or a class refuses.
  pub load_active_strategies-Earned :
      (portfolio : ℕ) (mode : PortfolioMode) (rows : List StrategyRow)
      → All (λ row. is_tradeable portfolio mode row ≡ true → made row ≢ other_error) rows
      → (loaded : List S) × (load_active_strategies kinds arguments portfolio mode rows
          ≡ some loaded)
        × All (From (HasEarned portfolio mode rows)) loaded
        × All (λ row. is_tradeable portfolio mode row ≡ true → IsLoaded loaded row) rows
  unfolding load_active_strategies
  load_active_strategies-Earned portfolio mode rows calm =
      let test = is_tradeable portfolio mode in
      let chosen = select test rows in
      let (loaded, e, from, kept) =
        load_rows-Loads (HasEarned portfolio mode rows) (by_creation chosen)
          (All-by_creation _ chosen (All-select-true _ test rows calm))
          (All-by_creation _ chosen (selected test rows)) in
      (loaded, e, from, select-All _ test rows (by_creation-All _ chosen kept))
