-- ===== src/Handler/Flatten/Closes.antt =====
-- A liquidation closes its position in full, and only reduces it.
use mathlib.Core.List.{append_assoc}
use roi_gen.Base.{
  ℕ, ◌+◌, ◌≡◌, refl, sym, ap, ◌∙◌, false, some, List, [], ◌∷◌, ◌++◌, ℤ, pos, ◌+ℤ◌, ◌-ℤ◌, arith, abs,
  any, All, All-append, All-weaken, Among, Among-head, Among-later, Bool-cases, inl, inr,
}
use roi_gen.Models.Commands.{Text}
use roi_gen.Models.Rows.{ApprovalPayload, Db}
use roi_gen.Execution.Positions.{signed_qty, is_zero}
use roi_gen.Risk.Engine.{FlattenApproval}
use roi_gen.Handler.Submit.{Submission, World, Replies, has_client_id, pending_row, persist_pending}
use roi_gen.Handler.Submit.Calls.{submit_and_apply-once}
use roi_gen.Handler.Flatten.{
  Holding, close_side, liquidation_request, liquidation_identity, liquidate_symbol, is_covered,
  liquidate,
}

-- Closing in full: the position and the signed quantity of the order add up to nothing.
reducing : (q : ℤ) → q +ℤ signed_qty (close_side q) (abs q) ≡ pos 0
unfolding signed_qty ◌+ℤ◌ ◌-ℤ◌
reducing q = ground arith

module _ (number_of : Text → ℕ) (hex lower : ℕ → Text) (approval : FlattenApproval)
    (covered : List ℕ) where
  -- A submission that closes one of the positions in full, and that only reduces it.
  pub record Closes (ps : List Holding) (s : Submission) : Type 0 where
    pub holding : Holding
    pub held : Among holding ps
    pub open_ : is_zero holding.qty ≡ false
    pub uncovered : is_covered number_of hex lower covered holding ≡ false
    pub request :
        s.request ≡ liquidation_request number_of hex lower approval holding.symbol holding.qty
    pub in_full : s.request.qty ≡ some (pos (abs holding.qty))
    pub reduces : holding.qty +ℤ signed_qty s.request.side (abs holding.qty) ≡ pos 0

  pub Closes-later :
      (p : Holding) (ps : List Holding) (s : Submission) → Closes ps s → Closes (p ∷ ps) s
  Closes-later p ps s c = record {
    holding = c.holding;
    held = Among-later c.holding p ps c.held;
    open_ = c.open_;
    uncovered = c.uncovered;
    request = c.request;
    in_full = c.in_full;
    reduces = c.reduces;
  }

  -- New submissions, each of which closes a position, and no cancel.
  abbrev pub OnlyCloses : List Holding → World → World → Type 0
  OnlyCloses ps w w' =
      ((new : List Submission) × (w'.submissions ≡ new ++ w.submissions) × All (Closes ps) new)
      × (w'.canceled ≡ w.canceled)

  liquidate_symbol-OnlyCloses :
      (p : Holding) (ps : List Holding) (replies : Replies) (w : World)
      → is_zero p.qty ≡ false
      → is_covered number_of hex lower covered p ≡ false
      → OnlyCloses (p ∷ ps) w (liquidate_symbol number_of hex lower approval p replies w).1
  unfolding liquidate_symbol persist_pending liquidation_request
  liquidate_symbol-OnlyCloses p ps replies w open_ uncovered =
      let req = liquidation_request number_of hex lower approval p.symbol p.qty in
      let identity = liquidation_identity number_of hex lower approval req in
      let payload = ApprovalPayload.flatten approval.flatten_id in
      elim (Bool-cases (any (has_client_id req.client_order_id) w.db.orders)) [
        | inl taken ↦ rw taken (([], refl, tt), refl)
        | inr new ↦
            let row = pending_row req (abs p.qty) 1 identity payload w.db in
            let db : Db = record w.db { orders = row ∷ w.db.orders; next_id = w.db.next_id + 1 } in
            let once = submit_and_apply-once row.id req identity replies (record w { db = db }) in
            rw new (
              (
                record { request = req; committed = db } ∷ [],
                once.0,
                (
                  record {
                    holding = p;
                    held = Among-head p ps;
                    open_ = open_;
                    uncovered = uncovered;
                    request = refl;
                    in_full = refl;
                    reduces = reducing p.qty;
                  },
                  tt,
                ),
              ),
              once.1,
            )
      ]

  pub liquidate-OnlyCloses :
      (p : Holding) (ps : List Holding) (replies : Replies) (w : World)
      → is_zero p.qty ≡ false
      → OnlyCloses (p ∷ ps) w (liquidate number_of hex lower approval covered p replies w).1
  liquidate-OnlyCloses p ps replies w open_ =
      elim (Bool-cases (is_covered number_of hex lower covered p)) [
        | inl c ↦ rw c (([], refl, tt), refl)
        | inr c ↦ rw c (liquidate_symbol-OnlyCloses p ps replies w open_ c)
      ]

  pub then_closes :
      (p : Holding) (ps : List Holding) (w w' w'' : World)
      → OnlyCloses (p ∷ ps) w w'
      → OnlyCloses ps w' w''
      → OnlyCloses (p ∷ ps) w w''
  then_closes p ps w w' w'' ((xs, e, cs), k) ((ys, f, ds), l) = (
    (
      ys ++ xs,
      f ∙ (ap (λ x. ys ++ x) e ∙ sym (append_assoc ys xs w.submissions)),
      All-append (Closes (p ∷ ps)) ys xs (All-weaken _ _ ys (Closes-later p ps) ds) cs,
    ),
    l ∙ k,
  )
