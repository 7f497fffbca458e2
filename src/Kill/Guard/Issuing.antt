-- ===== src/Kill/Guard/Issuing.antt =====
-- Issuing a command keeps the command log guarded.
use roi_gen.Base.{
  select-empty, ℕ, suc, ◌<◌, ◌≡◌, refl, sym, false, List, [], ◌∷◌, ◌++◌, arith, if◌then◌else◌, All,
  All-append, All-weaken, select,
}
use roi_gen.Models.Enums.{EngineCommandAction}
use roi_gen.Models.Commands.{Text, ActionText, EngineCommand, is_resume}
use roi_gen.Kill.Switch.{CommandLog}
use roi_gen.Kill.Service.{
  last_resume_seq, blocks_resume, insert_by_seq, order_by_seq, unresolved, issue_command,
  issue_stripped, issue_clean, insert_unless, insert_command, strip, default_resume_reason, new_row,
}
use roi_gen.Kill.Guard.{Settled, LogIsGuarded}

-- A row inserted at the end is the last resume when it is one.
last_resume-append :
    (rows : List EngineCommand) (row : EngineCommand)
    → All (λ r. r.seq < row.seq) rows
    → last_resume_seq (rows ++ (row ∷ []))
      ≡ (if is_resume row.action then row.seq else last_resume_seq rows)
last_resume-append [] row h = ground arith
last_resume-append (r ∷ rows) row h = rw (last_resume-append rows row h.1) (ground (arith, h.0))

insert_by_seq-nonempty :
    (row : EngineCommand) (rows : List EngineCommand) → insert_by_seq row rows ≡ [] → ⊥
insert_by_seq-nonempty row [] h = ground arith
insert_by_seq-nonempty row (other ∷ rows) h = ground arith

order_by_seq-empty : (rows : List EngineCommand) → order_by_seq rows ≡ [] → rows ≡ []
order_by_seq-empty [] h = refl
order_by_seq-empty (row ∷ rows) h = absurd (insert_by_seq-nonempty row (order_by_seq rows) h)

Settled-renumber :
    (next since : ℕ) (row : EngineCommand) → Settled next since row → Settled (suc next) since row
Settled-renumber next since row s = record {
  numbered = omega (arith, s.numbered);
  resolved = s.resolved;
}

-- A resume that no row blocks settles every row.
Settled-resume :
    (next since : ℕ) (row : EngineCommand)
    → blocks_resume since row ≡ false
    → Settled next since row
    → Settled (suc next) next row
Settled-resume next since row free s = record {
  numbered = omega (arith, s.numbered);
  resolved = λ hf hs. grind arith;
}

last_resume-below :
    (rows : List EngineCommand) (n : ℕ)
    → 0 < n
    → All (λ r. r.seq < n) rows
    → last_resume_seq rows < n
last_resume-below [] n z b = z
last_resume-below (row ∷ rows) n z b = ground (arith, b.0, last_resume-below rows n z b.1)

insert_plain-LogIsGuarded :
    (log : CommandLog) (action : EngineCommandAction) (reason actor : Text) (now : ℕ)
    → is_resume (ActionText.known action) ≡ false
    → LogIsGuarded log
    → LogIsGuarded (insert_command log action reason actor now).1
insert_plain-LogIsGuarded log action reason actor now e h =
    let row = new_row log action reason actor now in
    let below = All-weaken _ (λ r. r.seq < log.next_seq) log.rows (λ r s. s.numbered) h.1 in
    (
      omega arith,
      rw (last_resume-append log.rows row below, e)
          (All-append _ log.rows (row ∷ [])
            (All-weaken _ _ log.rows (Settled-renumber log.next_seq _) h.1)
            (
              record {
                numbered = omega arith;
                resolved = λ hf hs.
                    absurd (omega (arith, hs, last_resume-below log.rows log.next_seq h.0 below));
              },
              tt,
            )),
    )

insert_resume-LogIsGuarded :
    (log : CommandLog) (reason actor : Text) (now : ℕ)
    → select (blocks_resume (last_resume_seq log.rows)) log.rows ≡ []
    → LogIsGuarded log
    → LogIsGuarded (insert_command log EngineCommandAction.resume reason actor now).1
insert_resume-LogIsGuarded log reason actor now free h =
    let row = new_row log EngineCommandAction.resume reason actor now in
    let below = All-weaken _ (λ r. r.seq < log.next_seq) log.rows (λ r s. s.numbered) h.1 in
    (
      omega arith,
      rw (last_resume-append log.rows row below) (
          All-append _ log.rows (row ∷ [])
            (Settled-all log.next_seq _ log.rows (select-empty _ log.rows free) h.1)
            (
              record { numbered = omega arith; resolved = λ hf hs. absurd (grind (arith, hf)) },
              tt,
            )),
    )
  where
    Settled-all :
        (next since : ℕ) (rows : List EngineCommand)
        → All (λ r. blocks_resume since r ≡ false) rows
        → All (Settled next since) rows
        → All (Settled (suc next) next) rows
    Settled-all next since [] f s = tt
    Settled-all next since (r ∷ rows) f s =
        (Settled-resume next since r f.0 s.0, Settled-all next since rows f.1 s.1)

insert_unless-LogIsGuarded :
    (blocking : List EngineCommand) (log : CommandLog) (reason actor : Text) (now : ℕ)
    → blocking ≡ unresolved log.rows
    → LogIsGuarded log
    → LogIsGuarded (insert_unless blocking log EngineCommandAction.resume reason actor now).1
insert_unless-LogIsGuarded [] log reason actor now e h =
    insert_resume-LogIsGuarded log reason actor now (order_by_seq-empty _ (sym e)) h
insert_unless-LogIsGuarded (r ∷ rows) log reason actor now e h = h

issue_clean-LogIsGuarded :
    (log : CommandLog) (action : EngineCommandAction) (reason actor : Text) (now : ℕ)
    → LogIsGuarded log
    → LogIsGuarded (issue_clean log action reason actor now).1
issue_clean-LogIsGuarded log EngineCommandAction.resume reason actor now h =
    insert_unless-LogIsGuarded (unresolved log.rows) log reason actor now refl h
issue_clean-LogIsGuarded log EngineCommandAction.halt reason actor now h =
    insert_plain-LogIsGuarded log EngineCommandAction.halt reason actor now refl h
issue_clean-LogIsGuarded log EngineCommandAction.flatten reason actor now h =
    insert_plain-LogIsGuarded log EngineCommandAction.flatten reason actor now refl h

issue_stripped-LogIsGuarded :
    (log : CommandLog) (action : EngineCommandAction) (reason actor : Text) (now : ℕ)
    → LogIsGuarded log
    → LogIsGuarded (issue_stripped log action reason actor now).1
issue_stripped-LogIsGuarded log action (c ∷ text) actor now h =
    issue_clean-LogIsGuarded log action (c ∷ text) actor now h
issue_stripped-LogIsGuarded log EngineCommandAction.resume [] actor now h =
    issue_clean-LogIsGuarded log EngineCommandAction.resume default_resume_reason actor now h
issue_stripped-LogIsGuarded log EngineCommandAction.halt [] actor now h = h
issue_stripped-LogIsGuarded log EngineCommandAction.flatten [] actor now h = h

pub issue_command-LogIsGuarded :
    (log : CommandLog) (action : EngineCommandAction) (reason actor : Text) (now : ℕ)
    → LogIsGuarded log
    → LogIsGuarded (issue_command log action reason actor now).1
issue_command-LogIsGuarded log action reason actor now h =
    issue_stripped-LogIsGuarded log action (strip reason) actor now h
