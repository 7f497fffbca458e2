-- ===== src/Strategy/Runner/Routing.antt =====
-- Each event reaches the strategies that asked for it, and a registered kind is created by its class.
use mathlib.Core.Option.{some-injective}
use mathlib.Core.List.{append_assoc, append-nil}
use roi_gen.Base.{
  ℕ, ◌≡◌, refl, sym, ap, ◌∙◌, false, Option, none, some, List, [], ◌∷◌, ◌++◌, arith, ◌==◌, ==_iff,
  if◌then◌else◌, Bool-cases, Option-cases, inl, inr, subst,
}
use roi_gen.Strategy.Runner.{
  Kind, Built, class_of, register, create, Routed, get, put, as_list, or_empty, Runner, new_runner,
  add_symbols, add, receivers, fill_receivers,
}

module _ {ℓ} {A : Type ℓ} where
  get-put :
      (k key : ℕ) (a : A) (m : List (ℕ × A))
      → get key (put k a m) ≡ (if k == key then some a else get key m)
  get-put k key a [] = refl
  get-put k key a ((j, b) ∷ m) = ground (arith, get-put k key a m)

module _ {ℓ} {S : Type ℓ} where
  -- A strategy as often as a symbol stands among its symbols.
  abbrev pub copies : ℕ → Routed S → List ℕ → List (Routed S)
  copies symbol s [] = []
  copies symbol s (x ∷ xs) = if x == symbol then s ∷ copies symbol s xs else copies symbol s xs

  abbrev pub subscribed : ℕ → List (Routed S) → List (Routed S)
  subscribed symbol [] = []
  subscribed symbol (s ∷ ss) = copies symbol s s.symbols ++ subscribed symbol ss

  -- The last strategy with an id.
  abbrev pub holder : ℕ → List (Routed S) → Option (Routed S) → Option (Routed S)
  holder id [] found = found
  holder id (s ∷ ss) found = holder id ss (if s.strategy_id == id then some s else found)

  abbrev pub add_all : List (Routed S) → Runner S → Runner S
  add_all [] r = r
  add_all (s ∷ ss) r = add_all ss (add s r)

  get-add_symbols :
      (symbol : ℕ) (s : Routed S) (xs : List ℕ) (m : List (ℕ × List (Routed S)))
      → or_empty (get symbol (add_symbols s xs m)) ≡ or_empty (get symbol m) ++ copies symbol s xs
  unfolding add_symbols
  get-add_symbols symbol s [] m = sym (append-nil _)
  get-add_symbols symbol s (x ∷ xs) m =
      let rest = get-add_symbols symbol s xs (put x (or_empty (get x m) ++ (s ∷ [])) m) in
      let now = get-put x symbol (or_empty (get x m) ++ (s ∷ [])) m in
      elim (Bool-cases (x == symbol)) [
        | inr e ↦ rest ∙ (rw (now, e) refl)
        | inl e ↦
            let same : x ≡ symbol = (==_iff x symbol).0 e in
            rest
            ∙ (rw (now, e)
                (append_assoc (or_empty (get x m)) (s ∷ []) _
                  ∙ ap (λ k. or_empty (get k m) ++ (s ∷ copies symbol s xs)) same))
      ]

  added-receivers :
      (symbol : ℕ) (ss : List (Routed S)) (r : Runner S)
      → receivers symbol (add_all ss r) ≡ receivers symbol r ++ subscribed symbol ss
  unfolding add
  added-receivers symbol [] r = sym (append-nil _)
  added-receivers symbol (s ∷ ss) r =
      added-receivers symbol ss (add s r)
      ∙ (ap (λ xs. xs ++ subscribed symbol ss) (get-add_symbols symbol s s.symbols r.by_symbol)
          ∙ append_assoc (receivers symbol r) (copies symbol s s.symbols) (subscribed symbol ss))

  added-holder :
      (id : ℕ) (ss : List (Routed S)) (r : Runner S)
      → get id (add_all ss r).by_id ≡ holder id ss (get id r.by_id)
  unfolding add
  added-holder id [] r = refl
  added-holder id (s ∷ ss) r =
      added-holder id ss (add s r) ∙ ap (holder id ss) (get-put s.strategy_id id s r.by_id)

  added-strategies :
      (ss : List (Routed S)) (r : Runner S) → (add_all ss r).strategies ≡ r.strategies ++ ss
  unfolding add
  added-strategies [] r = sym (append-nil _)
  added-strategies (s ∷ ss) r =
      added-strategies ss (add s r) ∙ append_assoc r.strategies (s ∷ []) ss

  -- Once strategies have been added to a new runner, a market event of a symbol goes to the ones that
  -- list the symbol, in the order of their addition and once for each time they list it; a fill that
  -- names a strategy goes to the last one added with that id and to no other, and a fill that names
  -- none goes where a market event of its symbol goes.
  pub add_all-Routes :
      (ss : List (Routed S)) (id symbol : ℕ)
      → let r = add_all ss new_runner in
        (r.strategies ≡ ss)
        × (receivers symbol r ≡ subscribed symbol ss)
        × (fill_receivers (some id) symbol r ≡ as_list (holder id ss none))
        × (fill_receivers none symbol r ≡ subscribed symbol ss)
  add_all-Routes ss id symbol = (
    added-strategies ss new_runner,
    added-receivers symbol ss new_runner,
    ap as_list (added-holder id ss new_runner),
    added-receivers symbol ss new_runner,
  )

module _ {ℓ κ} {Args : Type ℓ} {S : Type κ} where
  class_of-last :
      (kind other : ℕ) (cls : Args → Built S) (ks : List (Kind Args S))
      → class_of kind ks ≡ none
      → class_of other (ks ++ (record { kind = kind; cls = cls } ∷ []))
        ≡ (if kind == other then some cls else class_of other ks)
  class_of-last kind other cls [] e = refl
  class_of-last kind other cls (k ∷ ks) e = ground (arith, e, class_of-last kind other cls ks)

  -- After a kind has been registered, creating it runs its class, creating any other kind does what it
  -- did before, and the kind cannot be registered again.
  create-register :
      (kind : ℕ) (cls : Args → Built S) (ks ks' : List (Kind Args S)) (other : ℕ)
      (again : Args → Built S) (args : Args)
      → register kind cls ks ≡ some ks'
      → (create ks' kind args ≡ cls args)
        × ((kind == other) ≡ false → create ks' other args ≡ create ks other args)
        × (register kind again ks' ≡ none)
  unfolding register create
  create-register kind cls ks ks' other again args h = elim (Option-cases (class_of kind ks)) [
    | inr (taken, e) ↦ let refused : none ≡ some ks' = rw (e, register) at h in absurd (cc refused)
    | inl e ↦
        let same : ks ++ (record { kind = kind; cls = cls } ∷ []) ≡ ks' =
          some-injective _ _ (rw (e, register) at h) in
        subst
          (λ xs.
            (create xs kind args ≡ cls args)
            × ((kind == other) ≡ false → create xs other args ≡ create ks other args)
            × (register kind again xs ≡ none))
          same
          (
            rw (class_of-last kind kind cls ks e, (==_iff kind kind).1 refl, create) refl,
            λ ne. rw (class_of-last kind other cls ks e, ne, create) refl,
            rw (class_of-last kind kind cls ks e, (==_iff kind kind).1 refl, register) refl,
          )
  ]
