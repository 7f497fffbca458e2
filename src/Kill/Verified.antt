-- ===== src/Kill/Verified.antt =====
-- The record of a verified flatten: backend/app/engine/kill_switch.py, `mark_flatten_verified`.
use roi_gen.Base.{
  ℕ, ◌≡◌, refl, sym, subst, ap, true, false, Option, none, some, List, [], ◌∷◌, arith, Option-cases,
  Bool-cases, inl, inr, update_where, find,
}
use roi_gen.Models.Commands.{EngineCommand, ResultText}
use roi_gen.Kill.Switch.{
  CommandLog, KillSwitch, with_result, has_seq, mark_flatten_verified, mark_row,
}

same_row : (r row : EngineCommand) → some r ≡ some row → r ≡ row
same_row r row h = grind arith

find-mark :
    (seq : ℕ) (rows : List EngineCommand) (row : EngineCommand)
    → find (has_seq seq) rows ≡ some row
    → find (has_seq seq) (update_where (has_seq seq) (with_result ResultText.flat_verified) rows)
      ≡ some (with_result ResultText.flat_verified row)
find-mark seq [] row h = absurd (grind arith)
find-mark seq (r ∷ rows) row h = elim (Bool-cases (has_seq seq r)) [
  | inl e ↦
      rw (e, e)
        (ap (λ s. some (with_result ResultText.flat_verified s))
          (same_row r row (grind (arith, e))))
  | inr e ↦ rw (e, e) (find-mark seq rows row (grind (arith, e)))
]

newly_found :
    (switch : KillSwitch) (log : CommandLog) (seq : ℕ) (found : Option EngineCommand)
    → (mark_row switch log seq found).newly ≡ true
    → (row : EngineCommand) × (found ≡ some row) × (row.result ≡ none)
newly_found switch log seq none h = absurd (grind arith)
newly_found switch log seq (some row) h = (
  row,
  refl,
  elim (Option-cases row.result) [ inl q ↦ q | inr (result, q) ↦ absurd (grind (arith, q)) ],
)

abbrev Once : KillSwitch → KillSwitch → CommandLog → ℕ → Option EngineCommand → Type 0
Once switch other log seq row =
    let marked = mark_row switch log seq row in
    (marked.switch.flattening ≡ false)
    × ((mark_flatten_verified other marked.log (some seq)).newly ≡ false)

-- A call that newly marks a row ends the flattening, and no later call for that row, by any switch,
-- marks it again: a verified flatten is audited once.
mark_flatten_verified-once :
    (switch other : KillSwitch) (log : CommandLog) (seq : ℕ)
    → (mark_flatten_verified switch log (some seq)).newly ≡ true
    → ((mark_flatten_verified switch log (some seq)).switch.flattening ≡ false)
      × ((mark_flatten_verified other
            (mark_flatten_verified switch log (some seq)).log
            (some seq)).newly
          ≡ false)
mark_flatten_verified-once switch other log seq h =
    let found = newly_found switch log seq (find (has_seq seq) log.rows) h in
    subst (Once switch other log seq) (sym found.1) (once found.0 found.1 found.2)
  where
    once :
        (row : EngineCommand)
        → find (has_seq seq) log.rows ≡ some row
        → row.result ≡ none
        → Once switch other log seq (some row)
    once row e q = rw (q, find-mark seq log.rows row e) (refl, refl)
