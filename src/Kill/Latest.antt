-- ===== src/Kill/Latest.antt =====
-- The latest row of the command log.
use roi_gen.Base.{
  ℕ, ◌≤◌, ◌≡◌, ◌⊎◌, refl, Bool, true, false, Option, none, some, List, [], ◌∷◌, arith, ltb, All,
  All-weaken, if◌then◌else◌, Option-cases, Bool-cases, inl, inr, update_where,
}
use roi_gen.Models.Commands.{EngineCommand, is_resume}
use roi_gen.Kill.Switch.{newest, latest_command}
use roi_gen.Kill.Service.{last_resume_seq}

newest-some : (row : EngineCommand) (later : Option EngineCommand) → newest row later ≡ none → ⊥
newest-some row none h = ground arith
newest-some row (some later) h = ground arith

pub latest_command-none : (rows : List EngineCommand) → latest_command rows ≡ none → rows ≡ []
latest_command-none [] h = refl
latest_command-none (row ∷ rows) h = absurd (newest-some row (latest_command rows) h)

newest-max :
    (row : EngineCommand) (later : Option EngineCommand) (latest : EngineCommand)
    → newest row later ≡ some latest
    → (row.seq ≤ latest.seq) × ((l : EngineCommand) → later ≡ some l → l.seq ≤ latest.seq)
newest-max row none latest h = (grind arith, λ l e. absurd (grind arith))
newest-max row (some later) latest h = elim (Bool-cases (ltb later.seq row.seq)) [
  | inl b ↦ (grind (arith, b), λ l e. grind (arith, b))
  | inr b ↦ (grind (arith, b), λ l e. grind (arith, b))
]

pub latest_command-max :
    (rows : List EngineCommand) (latest : EngineCommand)
    → latest_command rows ≡ some latest
    → All (λ r. r.seq ≤ latest.seq) rows
latest_command-max [] latest h = tt
latest_command-max (row ∷ rows) latest h =
    let top = newest-max row (latest_command rows) latest h in
    (
      top.0,
      elim (Option-cases (latest_command rows)) [
        | inl e ↦ rw (latest_command-none rows e) tt
        | inr (later, e) ↦
            All-weaken _ _ rows (λ r b. omega (arith, b, top.1 later e))
              (latest_command-max rows later e)
      ],
    )

newest-resume :
    (row : EngineCommand) (later : Option EngineCommand) (latest : EngineCommand) (last : ℕ)
    → newest row later ≡ some latest
    → is_resume latest.action ≡ true
    → ((l : EngineCommand) → later ≡ some l → is_resume l.action ≡ true → l.seq ≤ last)
    → latest.seq ≤ last ⊎ (row ≡ latest)
newest-resume row none latest last h e k = inr (grind arith)
newest-resume row (some later) latest last h e k = elim (Bool-cases (ltb later.seq row.seq)) [
  | inl b ↦ inr (grind (arith, b))
  | inr b ↦ inl (k latest (grind (arith, b)) e)
]

last_resume-head :
    (row : EngineCommand) (rows : List EngineCommand)
    → is_resume row.action ≡ true
    → row.seq ≤ last_resume_seq (row ∷ rows)
last_resume-head row rows e = grind (arith, e)

last_resume-tail :
    (row : EngineCommand) (rows : List EngineCommand)
    → last_resume_seq rows ≤ last_resume_seq (row ∷ rows)
last_resume-tail row rows = ground arith

-- A resume that is the latest row is no later than the last resume.
pub latest_command-resume :
    (rows : List EngineCommand) (latest : EngineCommand)
    → latest_command rows ≡ some latest
    → is_resume latest.action ≡ true
    → latest.seq ≤ last_resume_seq rows
latest_command-resume [] latest h e = grind (arith, h)
latest_command-resume (row ∷ rows) latest h e =
    elim (newest-resume row (latest_command rows) latest (last_resume_seq rows) h e
      (λ l. latest_command-resume rows l)) [
        | inl b ↦ omega (arith, b, last_resume-tail row rows)
        | inr q ↦ grind (arith, q, last_resume-head row rows)
      ]

abbrev pub updated :
    (EngineCommand → Bool)
    → (EngineCommand → EngineCommand)
    → Option EngineCommand
    → Option EngineCommand
updated p f none = none
updated p f (some row) = some (if p row then f row else row)

newest-update :
    (p : EngineCommand → Bool) (f : EngineCommand → EngineCommand)
    → ((r : EngineCommand) → (if p r then f r else r).seq ≡ r.seq)
    → (row : EngineCommand) (later : Option EngineCommand)
    → newest (if p row then f row else row) (updated p f later) ≡ updated p f (newest row later)
newest-update p f h row none = refl
newest-update p f h row (some later) =
    rw (h row, h later)
      (elim (ltb later.seq row.seq)
        as (λ b.
          (if b
            then some (if p row then f row else row)
            else some (if p later then f later else later))
          ≡ updated p f (if b then some row else some later)) [ true ↦ refl | false ↦ refl ])

-- An update that keeps the keys updates the latest row in place.
pub latest_command-update :
    (p : EngineCommand → Bool) (f : EngineCommand → EngineCommand)
    → ((r : EngineCommand) → (if p r then f r else r).seq ≡ r.seq)
    → (rows : List EngineCommand)
    → latest_command (update_where p f rows) ≡ updated p f (latest_command rows)
latest_command-update p f h [] = refl
latest_command-update p f h (row ∷ rows) =
    rw (latest_command-update p f h rows) (newest-update p f h row (latest_command rows))
