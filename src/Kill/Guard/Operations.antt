-- ===== src/Kill/Guard/Operations.antt =====
-- Each operation on the command log keeps it guarded.
use roi_gen.Base.{ℕ, refl, true, false, Option, none, some, if◌then◌else◌}
use roi_gen.Models.Commands.{EngineCommand, ResultText}
use roi_gen.Kill.Switch.{
  CommandLog, KillSwitch, mark_flatten_verified, mark_row, has_seq, with_result,
}
use roi_gen.Kill.Sweeper.{sweep_write, unseen, with_applied_at, is_stale}
use roi_gen.Kill.Guard.{LogIsGuarded, Keeps, LogIsGuarded-update}

stamp-Keeps :
    (now latest : ℕ) (r : EngineCommand)
    → Keeps r (if unseen latest r then with_applied_at now r else r)
stamp-Keeps now latest r =
    elim (unseen latest r) as (λ b. Keeps r (if b then with_applied_at now r else r)) [
      | true ↦ record { seq = refl; action = refl; resolved = λ h. h }
      | false ↦ record { seq = refl; action = refl; resolved = λ h. h }
    ]

supersede-Keeps :
    (latest : ℕ) (r : EngineCommand)
    → Keeps r (if is_stale latest r then with_result ResultText.superseded r else r)
supersede-Keeps latest r =
    elim (is_stale latest r)
      as (λ b. Keeps r (if b then with_result ResultText.superseded r else r)) [
        | true ↦ record { seq = refl; action = refl; resolved = λ h. refl }
        | false ↦ record { seq = refl; action = refl; resolved = λ h. h }
      ]

mark-Keeps :
    (seq : ℕ) (r : EngineCommand)
    → Keeps r (if has_seq seq r then with_result ResultText.flat_verified r else r)
mark-Keeps seq r =
    elim (has_seq seq r)
      as (λ b. Keeps r (if b then with_result ResultText.flat_verified r else r)) [
        | true ↦ record { seq = refl; action = refl; resolved = λ h. refl }
        | false ↦ record { seq = refl; action = refl; resolved = λ h. h }
      ]

pub sweep_write-LogIsGuarded :
    (now : ℕ) (log : CommandLog) (latest : Option EngineCommand)
    → LogIsGuarded log
    → LogIsGuarded (sweep_write now log latest).log
sweep_write-LogIsGuarded now log none h = h
sweep_write-LogIsGuarded now log (some latest) h =
    LogIsGuarded-update (is_stale latest.seq) (with_result ResultText.superseded)
      (supersede-Keeps latest.seq) _ _
      (LogIsGuarded-update (unseen latest.seq) (with_applied_at now) (stamp-Keeps now latest.seq)
        log.rows log.next_seq h)

mark_row-LogIsGuarded :
    (switch : KillSwitch) (log : CommandLog) (seq : ℕ) (row : Option EngineCommand)
    → LogIsGuarded log
    → LogIsGuarded (mark_row switch log seq row).log
mark_row-LogIsGuarded switch log seq none h = h
mark_row-LogIsGuarded switch log seq (some row) h =
    elim row.result
      as (λ r.
        LogIsGuarded
          (mark_row switch log seq (
            some (record {
              seq = row.seq;
              action = row.action;
              scope = row.scope;
              reason = row.reason;
              actor = row.actor;
              issued_at = row.issued_at;
              applied_at = row.applied_at;
              result = r;
            }))).log) [
              | some result ↦ h
              | none ↦
                  LogIsGuarded-update (has_seq seq) (with_result ResultText.flat_verified)
                    (mark-Keeps seq) log.rows log.next_seq h
            ]

pub mark_flatten_verified-LogIsGuarded :
    (switch : KillSwitch) (log : CommandLog) (seq : Option ℕ)
    → LogIsGuarded log
    → LogIsGuarded (mark_flatten_verified switch log seq).log
mark_flatten_verified-LogIsGuarded switch log none h = h
mark_flatten_verified-LogIsGuarded switch log (some seq) h =
    mark_row-LogIsGuarded switch log seq _ h
