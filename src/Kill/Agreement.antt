-- ===== src/Kill/Agreement.antt =====
-- The engine's view after a sweep against the status that the API and the CLI read.
use roi_gen.Base.{
  ℕ, ◌≡◌, refl, sym, subst, ap, ◌∙◌, Bool, true, false, ◌&&◌, Option, none, some, List, [], ◌∷◌,
  arith, ltb, All, select, if◌then◌else◌, Option-cases, Bool-cases, inl, inr, update_where,
}
use roi_gen.Models.Commands.{EngineCommand, KillState, ResultText, is_flatten}
use roi_gen.Kill.Switch.{CommandLog, KillSwitch, latest_command, with_result}
use roi_gen.Kill.Sweeper.{
  sweep, sweep_write, unseen, with_applied_at, is_stale, stamp_applied, supersede_stale_flattens,
}
use roi_gen.Kill.Service.{read_status, status_of}
use roi_gen.Kill.Latest.{updated, latest_command-update}

-- What a switch says of the state, as the status reader says it.
abbrev pub state_of : KillSwitch → KillState
state_of switch = record { halted = switch.halted; flattening = switch.flattening }

stamp-seq :
    (now latest : ℕ) (r : EngineCommand)
    → (if unseen latest r then with_applied_at now r else r).seq ≡ r.seq
stamp-seq now latest r =
    elim (unseen latest r) as (λ b. (if b then with_applied_at now r else r).seq ≡ r.seq) [
      | true ↦ refl
      | false ↦ refl
    ]

supersede-seq :
    (latest : ℕ) (r : EngineCommand)
    → (if is_stale latest r then with_result ResultText.superseded r else r).seq ≡ r.seq
supersede-seq latest r =
    elim (is_stale latest r)
      as (λ b. (if b then with_result ResultText.superseded r else r).seq ≡ r.seq) [
        | true ↦ refl
        | false ↦ refl
      ]

-- The latest row is stamped, never superseded.
abbrev stamped : ℕ → ℕ → EngineCommand → EngineCommand
stamped now latest r = if unseen latest r then with_applied_at now r else r

own_seq-not_stale : (n : ℕ) (r : EngineCommand) → r.seq ≡ n → is_stale n r ≡ false
own_seq-not_stale n r e = grind (arith, e)

sweep-latest :
    (now : ℕ) (log : CommandLog) (latest : EngineCommand)
    → latest_command log.rows ≡ some latest
    → latest_command (sweep_write now log (some latest)).log.rows
      ≡ some (stamped now latest.seq latest)
sweep-latest now log latest h =
    latest_command-update (is_stale latest.seq) (with_result ResultText.superseded)
      (supersede-seq latest.seq) (update_where (unseen latest.seq) (with_applied_at now) log.rows)
    ∙ ap (updated (is_stale latest.seq) (with_result ResultText.superseded)) (
        latest_command-update (unseen latest.seq) (with_applied_at now) (stamp-seq now latest.seq)
          log.rows
        ∙ ap (updated (unseen latest.seq) (with_applied_at now)) h)
    ∙ ap some (not_stale (unseen latest.seq latest))
  where
    not_stale :
        (b : Bool)
        → let r = if b then with_applied_at now latest else latest in
          (if is_stale latest.seq r then with_result ResultText.superseded r else r) ≡ r
    not_stale true = rw (own_seq-not_stale latest.seq (with_applied_at now latest) refl) refl
    not_stale false = rw (own_seq-not_stale latest.seq latest refl) refl

stamped-status :
    (now : ℕ) (latest : EngineCommand)
    → status_of (some (stamped now latest.seq latest)) ≡ status_of (some latest)
stamped-status now latest =
    elim (unseen latest.seq latest)
      as (λ b.
        status_of (some (if b then with_applied_at now latest else latest))
        ≡ status_of (some latest)) [ true ↦ refl | false ↦ refl ]

-- After a sweep that nothing interleaves, the engine's switch, the status read before the sweep and
-- the status read after it are the same.
pub sweep-read_status :
    (now : ℕ) (log : CommandLog)
    → (state_of (sweep now log).switch ≡ read_status (sweep now log).log)
      × (read_status (sweep now log).log ≡ read_status log)
sweep-read_status now log = elim (Option-cases (latest_command log.rows)) [
  | inl e ↦ none_swept e
  | inr (latest, e) ↦ some_swept latest e
]
  where
    none_swept :
        latest_command log.rows ≡ none
        → (state_of (sweep now log).switch ≡ read_status (sweep now log).log)
          × (read_status (sweep now log).log ≡ read_status log)
    none_swept e = rw (e, e) (refl, refl)

    some_swept :
        (latest : EngineCommand)
        → latest_command log.rows ≡ some latest
        → (state_of (sweep now log).switch ≡ read_status (sweep now log).log)
          × (read_status (sweep now log).log ≡ read_status log)
    some_swept latest e =
        let kept = ap status_of (sweep-latest now log latest e) ∙ stamped-status now latest in
        (
          ap (λ o. state_of (sweep_write now log o).switch) e
              ∙ sym kept
              ∙ ap (λ o. status_of (latest_command (sweep_write now log o).log.rows)) (sym e),
          ap (λ o. status_of (latest_command (sweep_write now log o).log.rows)) e
              ∙ kept
              ∙ ap status_of (sym e),
        )

update_where-none :
    (p : EngineCommand → Bool) (f : EngineCommand → EngineCommand) (rows : List EngineCommand)
    → All (λ r. p r ≡ false) rows
    → update_where p f rows ≡ rows
update_where-none p f [] h = refl
update_where-none p f (r ∷ rows) h = rw (h.0, update_where-none p f rows h.1) refl

-- What a sweep leaves of a row.
abbrev swept_row : ℕ → ℕ → EngineCommand → EngineCommand
swept_row now top r =
    let s = stamped now top r in if is_stale top s then with_result ResultText.superseded s else s

superseded_row-fresh :
    (top : ℕ) (s : EngineCommand)
    → is_stale top (if is_stale top s then with_result ResultText.superseded s else s) ≡ false
superseded_row-fresh top s = elim (Bool-cases (is_stale top s)) [
  | inl e ↦ rw (e) (done (is_flatten s.action))
  | inr e ↦ rw (e) e
]
  where
    done : (b : Bool) → b && false && ltb s.seq top ≡ false
    done true = refl
    done false = refl

stamped-seen : (now top : ℕ) (r : EngineCommand) → unseen top (stamped now top r) ≡ false
stamped-seen now top r = elim (Bool-cases (unseen top r)) [ inl e ↦ rw (e) refl | inr e ↦ rw (e) e ]

swept_row-seen : (now top : ℕ) (r : EngineCommand) → unseen top (swept_row now top r) ≡ false
swept_row-seen now top r = superseded_seen (stamped now top r) (stamped-seen now top r)
  where
    superseded_seen :
        (s : EngineCommand)
        → unseen top s ≡ false
        → unseen top (if is_stale top s then with_result ResultText.superseded s else s) ≡ false
    superseded_seen s e =
        elim (is_stale top s)
          as (λ b. unseen top (if b then with_result ResultText.superseded s else s) ≡ false) [
            | true ↦ e
            | false ↦ e
          ]

swept_rows-seen :
    (now top : ℕ) (rows : List EngineCommand)
    → All (λ r. unseen top r ≡ false) (supersede_stale_flattens top (stamp_applied now top rows).0)
swept_rows-seen now top [] = tt
swept_rows-seen now top (r ∷ rows) = (swept_row-seen now top r, swept_rows-seen now top rows)

swept_rows-fresh :
    (now top : ℕ) (rows : List EngineCommand)
    → All
        (λ r. is_stale top r ≡ false)
        (supersede_stale_flattens top (stamp_applied now top rows).0)
swept_rows-fresh now top [] = tt
swept_rows-fresh now top (r ∷ rows) =
    (superseded_row-fresh top (stamped now top r), swept_rows-fresh now top rows)

select-none :
    (p : EngineCommand → Bool) (rows : List EngineCommand)
    → All (λ r. p r ≡ false) rows
    → select p rows ≡ []
select-none p [] h = refl
select-none p (r ∷ rows) h = rw (h.0) (select-none p rows h.1)

-- What a sweep does to a table of which the sweep has nothing left to write.
abbrev Quiet : ℕ → CommandLog → Option EngineCommand → Type 0
Quiet later log latest =
    ((sweep_write later log latest).log ≡ log) × ((sweep_write later log latest).newly_seen ≡ false)

Quiet-sweep :
    (later top : ℕ) (log : CommandLog) (latest : EngineCommand)
    → latest.seq ≡ top
    → All (λ r. unseen top r ≡ false) log.rows
    → All (λ r. is_stale top r ≡ false) log.rows
    → Quiet later log (some latest)
Quiet-sweep later top log latest e seen fresh =
    rw
      (
        e,
        update_where-none (unseen top) (with_applied_at later) log.rows seen,
        update_where-none (is_stale top) (with_result ResultText.superseded) log.rows fresh,
        select-none (unseen top) log.rows seen,
      )
      (refl, refl)

abbrev Settles : ℕ → ℕ → CommandLog → Option EngineCommand → Type 0
Settles now later log o =
    let first = (sweep_write now log o).log in Quiet later first (latest_command first.rows)

-- A second sweep of the same table, at any later time, changes no row and reports no new command.
pub sweep-settles :
    (now later : ℕ) (log : CommandLog)
    → let first = (sweep now log).log in
      ((sweep later first).log ≡ first) × ((sweep later first).newly_seen ≡ false)
sweep-settles now later log = elim (Option-cases (latest_command log.rows)) [
  | inl e ↦ subst (Settles now later log) (sym e) (subst (Quiet later log) (sym e) (refl, refl))
  | inr (latest, e) ↦ subst (Settles now later log) (sym e) (
      subst (Quiet later (sweep_write now log (some latest)).log)
        (sym (sweep-latest now log latest e))
        (Quiet-sweep later latest.seq (sweep_write now log (some latest)).log
          (stamped now latest.seq latest) (stamp-seq now latest.seq latest)
          (swept_rows-seen now latest.seq log.rows) (swept_rows-fresh now latest.seq log.rows)))
]
