-- ===== src/Strategy/Runner.antt =====
-- The registry of strategy kinds and the runner that routes events to strategies,
-- backend/app/engine/strategy.py. The class of a kind is the function that its constructor is.
use roi_gen.Base.{
  ℕ, Bool, true, false, Option, none, some, List, [], ◌∷◌, ◌++◌, ◌==◌, if◌then◌else◌,
}
pub mod Routing
mod Tests

-- A constructor returns, or raises KeyError, one of ValueError, TypeError and ArithmeticError, or
-- anything else.
pub data Built {ℓ} (S : Type ℓ) : Type ℓ where
  built : S → Built S
  key_error bad_params other_error : Built S

module _ {ℓ κ} (Args : Type ℓ) (S : Type κ) where
  pub record Kind : Type (ℓ ⊔ κ) where
    pub kind : ℕ
    pub cls : Args → Built S

module _ {ℓ κ} {Args : Type ℓ} {S : Type κ} where
  abbrev pub class_of : ℕ → List (Kind Args S) → Option (Args → Built S)
  class_of kind [] = none
  class_of kind (k ∷ ks) = if k.kind == kind then some k.cls else class_of kind ks

  -- `none` is the ValueError of a kind that is taken.
  unfoldable pub register : ℕ → (Args → Built S) → List (Kind Args S) → Option (List (Kind Args S))
  register kind cls ks = elim (class_of kind ks) [
    | some taken ↦ none
    | none ↦ some (ks ++ (record { kind = kind; cls = cls } ∷ []))
  ]

  unfoldable pub create : List (Kind Args S) → ℕ → Args → Built S
  create ks kind args = elim (class_of kind ks) [ none ↦ key_error | some cls ↦ cls args ]

-- What the runner reads of a strategy.
pub record Routed {ℓ} (S : Type ℓ) : Type ℓ where
  pub strategy_id : ℕ
  pub symbols : List ℕ
  pub strategy : S

module _ {κ} {A : Type κ} where
  -- A dictionary's value for a key, and `d[key] = value`.
  abbrev pub get : ℕ → List (ℕ × A) → Option A
  get key [] = none
  get key ((k, a) ∷ rest) = if k == key then some a else get key rest

  abbrev pub put : ℕ → A → List (ℕ × A) → List (ℕ × A)
  put key a [] = (key, a) ∷ []
  put key a ((k, b) ∷ rest) = if k == key then (k, a) ∷ rest else (k, b) ∷ put key a rest

  abbrev pub as_list : Option A → List A
  as_list none = []
  as_list (some a) = a ∷ []

  abbrev pub or_empty : Option (List A) → List A
  or_empty none = []
  or_empty (some xs) = xs

pub record Runner {ℓ} (S : Type ℓ) : Type ℓ where
  pub strategies : List (Routed S)
  pub by_symbol : List (ℕ × List (Routed S))
  pub by_id : List (ℕ × Routed S)

module _ {ℓ} {S : Type ℓ} where
  abbrev pub new_runner : Runner S
  new_runner = record { strategies = []; by_symbol = []; by_id = [] }

  -- `self._by_symbol[symbol].append(strategy)` for each symbol.
  unfoldable pub add_symbols :
      Routed S → List ℕ → List (ℕ × List (Routed S)) → List (ℕ × List (Routed S))
  add_symbols s [] m = m
  add_symbols s (symbol ∷ symbols) m =
      add_symbols s symbols (put symbol (or_empty (get symbol m) ++ (s ∷ [])) m)

  unfoldable pub add : Routed S → Runner S → Runner S
  unfolding add_symbols
  add s r = record {
    strategies = r.strategies ++ (s ∷ []);
    by_symbol = add_symbols s s.symbols r.by_symbol;
    by_id = put s.strategy_id s r.by_id;
  }

  -- The strategies whose `on_bar`, `on_quote` or `on_trade` an event of a symbol calls, in turn.
  abbrev pub receivers : ℕ → Runner S → List (Routed S)
  receivers symbol r = or_empty (get symbol r.by_symbol)

  -- `_on_fill`: by the strategy of the fill, and by its symbol where it names none.
  abbrev pub fill_receivers : Option ℕ → ℕ → Runner S → List (Routed S)
  fill_receivers none symbol r = receivers symbol r
  fill_receivers (some id) symbol r = as_list (get id r.by_id)
