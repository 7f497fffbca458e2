-- ===== src/Handler/Flatten/Reduces.antt =====
-- A pass of a flatten only reduces: which orders it cancels and what it submits.
use mathlib.Core.List.{append_assoc, append-nil}
use roi_gen.Base.{
  ℕ, ◌≡◌, refl, sym, ap, ◌∙◌, Bool, false, not, Option, some, List, [], ◌∷◌, ◌++◌, any, map, select,
  All, All-weaken, Bool-cases, inl, inr, subst,
}
use roi_gen.Models.Commands.{Text}
use roi_gen.Models.Rows.{SymbolOutcome}
use roi_gen.Execution.Positions.{is_zero}
use roi_gen.Risk.Engine.{FlattenApproval}
use roi_gen.Handler.Submit.{Submission, World, Replies, has_client_id, persist_pending}
use roi_gen.Handler.Flatten.{
  WorkingOrder, Holding, FlattenReplies, is_prior_liquidation, covered_symbols, to_cancel,
  cancel_all, liquidation_request, liquidate_symbol, is_covered, liquidate, liquidate_all,
  execute_flatten,
}
use roi_gen.Handler.Flatten.Closes.{
  Closes, Closes-later, OnlyCloses, liquidate-OnlyCloses, then_closes,
}

canceled-cancel_all :
    (cancels : ℕ → Bool) (os : List WorkingOrder) (w : World)
    → ((cancel_all cancels os w).1.canceled ≡ w.canceled ++ map WorkingOrder.broker_order_id os)
      × ((cancel_all cancels os w).1.submissions ≡ w.submissions)
unfolding cancel_all
canceled-cancel_all cancels [] w = (sym (append-nil w.canceled), refl)
canceled-cancel_all cancels (o ∷ os) w =
    let (later, same) =
      canceled-cancel_all cancels os
        (record w { canceled = w.canceled ++ (o.broker_order_id ∷ []) }) in
    (later ∙ append_assoc w.canceled (o.broker_order_id ∷ []) _, same)

not_prior : (os : List WorkingOrder) → All (λ o. is_prior_liquidation o ≡ false) (to_cancel os)
not_prior [] = tt
not_prior (o ∷ os) = elim (Bool-cases (is_prior_liquidation o)) [
  | inl e ↦ rw e (not_prior os)
  | inr e ↦ rw e (e, not_prior os)
]

module _ (number_of : Text → ℕ) (hex lower : ℕ → Text) (approval : FlattenApproval)
    (covered : List ℕ) where
  -- A flat position is skipped.
  skip_closes :
      (p : Holding) (ps : List Holding) (w w' : World)
      → OnlyCloses number_of hex lower approval covered ps w w'
      → OnlyCloses number_of hex lower approval covered (p ∷ ps) w w'
  skip_closes p ps w w' ((xs, e, cs), k) =
      ((xs, e, All-weaken _ _ xs (Closes-later number_of hex lower approval covered p ps) cs), k)

  abbrev pub open_symbols : List Holding → List ℕ
  open_symbols ps = map Holding.symbol (select (λ p. not (is_zero p.qty)) ps)

  symbol-liquidate_symbol :
      (p : Holding) (replies : Replies) (w : World)
      → (liquidate_symbol number_of hex lower approval p replies w).0.symbol ≡ p.symbol
  unfolding liquidate_symbol persist_pending liquidation_request
  symbol-liquidate_symbol p replies w =
      elim (Bool-cases (
        any
          (has_client_id
            (liquidation_request number_of hex lower approval p.symbol p.qty).client_order_id)
          w.db.orders)) [ inl taken ↦ rw taken refl | inr new ↦ rw new refl ]

  symbol-liquidate :
      (p : Holding) (replies : Replies) (w : World)
      → (liquidate number_of hex lower approval covered p replies w).0.symbol ≡ p.symbol
  symbol-liquidate p replies w = elim (Bool-cases (is_covered number_of hex lower covered p)) [
    | inl c ↦ rw c refl
    | inr c ↦ rw c (symbol-liquidate_symbol p replies w)
  ]

  -- One outcome for each position that is not flat, and submissions that only close positions.
  abbrev pub Passed : List Holding → World → List SymbolOutcome × World → Type 0
  Passed ps w (outcomes, w') =
      (map SymbolOutcome.symbol outcomes ≡ open_symbols ps)
      × OnlyCloses number_of hex lower approval covered ps w w'

  liquidate_all-Passed :
      (submits : ℕ → Replies) (ps : List Holding) (w : World)
      → Passed ps w (liquidate_all number_of hex lower approval covered submits ps w)
  unfolding liquidate_all
  liquidate_all-Passed submits [] w = (refl, (([], refl, tt), refl))
  liquidate_all-Passed submits (p ∷ ps) w = elim (Bool-cases (is_zero p.qty)) [
    | inl flat ↦
        let (symbols, closes) = liquidate_all-Passed submits ps w in
        rw flat (
          symbols,
          skip_closes p ps w (liquidate_all number_of hex lower approval covered submits ps w).1
              closes,
        )
    | inr open_ ↦
        let closed = liquidate number_of hex lower approval covered p (submits p.symbol) w in
        let (symbols, closes) = liquidate_all-Passed submits ps closed.1 in
        let first =
          liquidate-OnlyCloses number_of hex lower approval covered p ps (submits p.symbol) w
            open_ in
        let named = symbol-liquidate p (submits p.symbol) w in
        rw open_ (
          rw named (ap (λ xs. p.symbol ∷ xs) symbols),
          then_closes number_of hex lower approval covered p ps w closed.1
              (liquidate_all number_of hex lower approval covered submits ps closed.1).1 first
              closes,
        )
  ]

-- The covered symbols are those of the liquidations that a prior pass left working.
module _ (number_of : Text → ℕ) (hex lower : ℕ → Text) where
  abbrev pub Careful :
      FlattenApproval
      → List WorkingOrder
      → List Holding
      → World
      → Option (List SymbolOutcome) × World
      → Type 0
  Careful approval os ps w (outcomes, w') =
      ((done : List SymbolOutcome) × (outcomes ≡ some done)
        × (map SymbolOutcome.symbol done
            ≡ open_symbols number_of hex lower approval (covered_symbols os) ps))
      × ((new : List Submission) × (w'.submissions ≡ new ++ w.submissions)
          × All (Closes number_of hex lower approval (covered_symbols os) ps) new)
      × (w'.canceled ≡ w.canceled ++ map WorkingOrder.broker_order_id (to_cancel os))
      × All (λ o. is_prior_liquidation o ≡ false) (to_cancel os)

  -- Where the broker lists its orders and positions, a pass runs to the end, whatever each cancel,
  -- poll and submission comes to: it has one outcome for each position that is not flat, in order;
  -- every submission closes such a position in full with an order that only reduces it, and none
  -- is for a symbol that a prior liquidation still works; it cancels, each once and in order, the
  -- open orders that are not liquidations, and no other.
  pub execute_flatten-Careful :
      (approval : FlattenApproval) (replies : FlattenReplies) (os : List WorkingOrder)
      (ps : List Holding) (w : World)
      → replies.open_orders ≡ some os
      → replies.positions ≡ some ps
      → Careful approval os ps w (execute_flatten number_of hex lower approval replies w)
  unfolding execute_flatten
  execute_flatten-Careful approval replies os ps w e f =
      let canceled = (cancel_all replies.cancels (to_cancel os) w).1 in
      let (calls, same) = canceled-cancel_all replies.cancels (to_cancel os) w in
      let done =
        liquidate_all number_of hex lower approval (covered_symbols os) replies.submits ps
          canceled in
      let (symbols, ((new, k, closes), l)) =
        liquidate_all-Passed number_of hex lower approval (covered_symbols os) replies.submits ps
          canceled in
      let runs : execute_flatten number_of hex lower approval replies w ≡ (some done.0, done.1) =
        rw (e, execute_flatten, f) refl in
      subst (Careful approval os ps w) (sym runs) (
        (done.0, refl, symbols),
        (new, k ∙ ap (λ x. new ++ x) same, closes),
        l ∙ calls,
        not_prior os,
      )
