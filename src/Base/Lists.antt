-- ===== src/Base/Lists.antt =====
-- Lists of rows: selection, sums, and predicates on every element.
use Prim.Native.Nat.{ℕ, suc, ◌+◌, ◌<◌}
use mathlib.Core.Path.{◌≡◌, refl, ap}
use mathlib.Core.Logic.{◌≢◌, inl, inr}
use mathlib.Core.Bool.{Bool, true, false}
use mathlib.Core.Option.{Option, none, some}
use mathlib.Core.List.{List, [], ◌∷◌, ◌++◌}
use native.Mathlib.Omega.{arith}
use roi_gen.Base.Tests.{if◌then◌else◌, Bool-cases}

module _ {ℓ} {A : Type ℓ} where
  abbrev pub length : List A → ℕ
  length [] = 0
  length (x ∷ xs) = suc (length xs)

  -- The rows that a test selects, in their order.
  abbrev pub select : (A → Bool) → List A → List A
  select p [] = []
  select p (x ∷ xs) = if p x then x ∷ select p xs else select p xs

  -- The first row that a test selects.
  abbrev pub find : (A → Bool) → List A → Option A
  find p [] = none
  find p (x ∷ xs) = if p x then some x else find p xs

  abbrev pub any : (A → Bool) → List A → Bool
  any p [] = false
  any p (x ∷ xs) = if p x then true else any p xs

  -- `sum(f(x) for x in xs)`
  abbrev pub sum_of : (A → ℕ) → List A → ℕ
  sum_of f [] = 0
  sum_of f (x ∷ xs) = f x + sum_of f xs

  abbrev pub All {κ} : (A → Type κ) → List A → Type κ
  All P [] = Unit
  All P (x ∷ xs) = P x × All P xs

  abbrev pub update_where : (A → Bool) → (A → A) → List A → List A
  update_where p f [] = []
  update_where p f (x ∷ xs) = (if p x then f x else x) ∷ update_where p f xs

module _ {ℓ} {A : Type ℓ} where
  pub All-append {κ} : (P : A → Type κ) (xs ys : List A) → All P xs → All P ys → All P (xs ++ ys)
  All-append P [] ys hx hy = hy
  All-append P (x ∷ xs) ys hx hy = (hx.0, All-append P xs ys hx.1 hy)

  pub All-select {κ} :
      (P : A → Type κ) (p : A → Bool) (xs : List A) → All P xs → All P (select p xs)
  All-select P p [] h = h
  All-select P p (x ∷ xs) h =
      elim (p x) as (λ b. All P (if b then x ∷ select p xs else select p xs)) [
        | true ↦ (h.0, All-select P p xs h.1)
        | false ↦ All-select P p xs h.1
      ]

  pub sum_of-append : (f : A → ℕ) (xs ys : List A) → sum_of f (xs ++ ys) ≡ sum_of f xs + sum_of f ys
  sum_of-append f [] ys = omega arith
  sum_of-append f (x ∷ xs) ys = omega (arith, sum_of-append f xs ys)

  pub All-weaken {κ μ} :
      (P : A → Type κ) (Q : A → Type μ) (xs : List A) → ((x : A) → P x → Q x) → All P xs → All Q xs
  All-weaken P Q [] f h = tt
  All-weaken P Q (x ∷ xs) f h = (f x h.0, All-weaken P Q xs f h.1)

module _ {ℓ} {A : Type ℓ} where
  -- Nothing was selected, so every row fails the test.
  pub select-empty :
      (p : A → Bool) (rows : List A) → select p rows ≡ [] → All (λ r. p r ≡ false) rows
  select-empty p [] h = tt
  select-empty p (row ∷ rows) h = elim (Bool-cases (p row)) [
    | inl e ↦ absurd (grind (arith, e))
    | inr e ↦ (e, select-empty p rows (grind (arith, e)))
  ]

-- `n` is none of the keys.
abbrev pub Fresh : ℕ → List ℕ → Type 0
Fresh n [] = Unit
Fresh n (x ∷ xs) = (n ≢ x) × Fresh n xs

-- No key occurs twice.
abbrev pub Distinct : List ℕ → Type 0
Distinct [] = Unit
Distinct (x ∷ xs) = Fresh x xs × Distinct xs

-- A key above all others is fresh.
pub Fresh-above : (n : ℕ) (xs : List ℕ) → All (λ x. x < n) xs → Fresh n xs
Fresh-above n [] h = tt
Fresh-above n (x ∷ xs) h = (omega arith, Fresh-above n xs h.1)

module _ {ℓ} {A : Type ℓ} where
  -- `x` stands in the list.
  abbrev pub Among : A → List A → Type ℓ
  Among x xs = (before : List A) × (after : List A) × (xs ≡ before ++ (x ∷ after))

  pub Among-head : (x : A) (xs : List A) → Among x (x ∷ xs)
  Among-head x xs = ([], xs, refl)

  pub Among-later : (x y : A) (xs : List A) → Among x xs → Among x (y ∷ xs)
  Among-later x y xs (before, after, e) = (y ∷ before, after, ap (λ ys. y ∷ ys) e)
