-- ===== src/Handler/FlattenEvents/Replay.antt =====
-- The replay guard of flattens.
use roi_gen.Base.{
  ℕ, ◌≤◌, ◌≡◌, refl, true, false, some, List, ◌∷◌, arith, ltb, ◌==◌, ==_iff, any, length,
  Bool-cases, inl, inr,
}
use roi_gen.Models.Rows.{Db}
use roi_gen.Risk.Engine.{FlattenApproval}
use roi_gen.Handler.FlattenEvents.{seen_bound, remember, on_flatten}

remember-bound : (id : ℕ) (seen : List ℕ) → length (remember id seen) ≤ seen_bound
remember-bound id seen = elim (Bool-cases (ltb seen_bound (length (id ∷ seen)))) [
  | inl e ↦ rw e (omega arith)
  | inr e ↦ rw e (ground arith)
]

remember-holds : (id : ℕ) (seen : List ℕ) → any (λ i. i == id) (remember id seen) ≡ true
remember-holds id seen = elim (Bool-cases (ltb seen_bound (length (id ∷ seen)))) [
  | inl e ↦ rw (e, (==_iff id id).1 refl) refl
  | inr e ↦ rw (e, (==_iff id id).1 refl) refl
]

-- Whatever was seen, the replay guard holds at most 512 ids after an event if it did before, and the
-- same event again spawns no pass and changes no seen id.
on_flatten-replay :
    (approval : FlattenApproval) (seen : List ℕ) (db later : Db)
    → length seen ≤ seen_bound
    → let first = on_flatten (some approval) seen db in
      let again = on_flatten (some approval) first.seen later in
      (length first.seen ≤ seen_bound) × (again.spawned ≡ false) × (again.seen ≡ first.seen)
unfolding on_flatten
on_flatten-replay approval seen db later bound =
    let id = approval.flatten_id in
    elim (Bool-cases (any (λ i. i == id) seen)) [
      | inl e ↦ rw (e, e) (bound, refl, refl)
      | inr e ↦ rw (e, remember-holds id seen) (remember-bound id seen, refl, refl)
    ]
