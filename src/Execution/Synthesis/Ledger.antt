-- ===== src/Execution/Synthesis/Ledger.antt =====
-- The two ledgers agree: for every fill row, the lot tables hold exactly its quantity. Booking a fill
-- keeps that, and adds the fill to its order's cursor.
use roi_gen.Base.{
  ℕ, ◌+◌, ◌≤◌, ◌<◌, ◌≡◌, refl, ap, ◌∙◌, Bool, true, false, Option, some, List, [], ◌∷◌, ℤ, arith,
  ◌==◌, if◌then◌else◌, All, All-weaken, Bool-cases, Option-cases, inl, inr, subst,
}
use mathlib.Core.Option.{some-injective}
use roi_gen.Models.Rows.{Order, Fill, FillKey, execution, span, noexec, Db}
use roi_gen.Execution.Lots.{apply_fill_to_lots}
use roi_gen.Execution.Lots.Validity.{LedgerIsValid, renumber, apply_fill_to_lots-LedgerIsValid}
use roi_gen.Execution.Lots.Absorbed.{absorbed, apply_fill_to_lots-absorbed}
use roi_gen.Execution.Lots.Frame.{Untouched, apply_fill_to_lots-Untouched}
use roi_gen.Execution.Synthesis.{
  filled_by, same_key, has_key, recorded, lot_fill, add_fill, book_fill, synthesize_span,
}

-- The cumulative quantity that a key names is within what its order has recorded.
abbrev pub KeyWithin : List Fill → FillKey → Type 0
KeyWithin fills (execution e) = Unit
KeyWithin fills (span t o c) = c ≤ filled_by o fills
KeyWithin fills (noexec o c) = c ≤ filled_by o fills

abbrev pub FillWithin : List Fill → Fill → Type 0
FillWithin fills f = (k : FillKey) → f.broker_fill_id ≡ some k → KeyWithin fills k

-- The lots are valid, every fill row is held in the lot tables by exactly its quantity, and no key
-- that is still to be handed out is referred to.
pub record LedgersAgree (db : Db) : Type 0 where
  pub ledger : LedgerIsValid db
  pub fills_numbered : All (λ f. f.id < db.next_id) db.fills
  pub agreed : All (λ f. absorbed f.id db ≡ f.qty) db.fills
  pub unreferenced : (n : ℕ) → db.next_id ≤ n → absorbed n db ≡ 0
  pub keys_within : All (FillWithin db.fills) db.fills

module _ (divide : ℤ → ℕ → ℤ) (o : Order) (key : FillKey) (qty : ℕ) (price : ℤ) (at : ℕ) (db : Db)
    (v : LedgersAgree db) where
  added-LedgerIsValid : LedgerIsValid (add_fill o key qty price at db)
  added-LedgerIsValid = record {
    lots_valid = All-weaken _ _ db.lots (renumber db.lot_closes db.next_id) v.ledger.lots_valid;
    keys = v.ledger.keys;
    closes_numbered = All-weaken _ _ db.lot_closes (λ c h. omega arith) v.ledger.closes_numbered;
  }

  abbrev applied : Db
  applied =
      (apply_fill_to_lots (lot_fill o qty price at db.next_id) (add_fill o key qty price at db)).1

  applied-absorbed :
      (n : ℕ) → absorbed n applied ≡ absorbed n db + (if db.next_id == n then qty else 0)
  applied-absorbed n =
      apply_fill_to_lots-absorbed n (lot_fill o qty price at db.next_id)
        (add_fill o key qty price at db) added-LedgerIsValid refl

  older_fills :
      (fs : List Fill)
      → All (λ f. f.id < db.next_id) fs
      → All (λ f. absorbed f.id db ≡ f.qty) fs
      → All (λ f. absorbed f.id applied ≡ f.qty) fs
  older_fills [] h a = tt
  older_fills (f ∷ fs) h a =
      (ground (arith, applied-absorbed f.id, h.0, a.0), older_fills fs h.1 a.1)

  filled_by-grows :
      (p : ℕ) → filled_by p db.fills ≤ filled_by p (add_fill o key qty price at db).fills
  filled_by-grows p = ground arith

  KeyWithin-grows :
      (k : FillKey) → KeyWithin db.fills k → KeyWithin (add_fill o key qty price at db).fills k
  KeyWithin-grows (execution e) h = tt
  KeyWithin-grows (span t p c) h = omega (arith, filled_by-grows p, h)
  KeyWithin-grows (noexec p c) h = omega (arith, filled_by-grows p, h)

  untouched : Untouched (add_fill o key qty price at db) applied
  untouched =
      apply_fill_to_lots-Untouched (lot_fill o qty price at db.next_id)
        (add_fill o key qty price at db)

  FillWithin-grows :
      (fs : List Fill)
      → All (FillWithin db.fills) fs
      → All (FillWithin (add_fill o key qty price at db).fills) fs
  FillWithin-grows [] h = tt
  FillWithin-grows (f ∷ fs) h = ((λ k e. KeyWithin-grows k (h.0 k e)), FillWithin-grows fs h.1)

  applied-LedgersAgree : KeyWithin (add_fill o key qty price at db).fills key → LedgersAgree applied
  applied-LedgersAgree w = record {
    ledger = apply_fill_to_lots-LedgerIsValid _ _ added-LedgerIsValid;
    fills_numbered = rw untouched.fills (
      omega (arith, untouched.next_id),
      All-weaken _ _ db.fills (λ f h. omega (arith, untouched.next_id)) v.fills_numbered,
    );
    agreed = rw untouched.fills (
      ground (arith, applied-absorbed db.next_id, v.unreferenced db.next_id (omega arith)),
      older_fills db.fills v.fills_numbered v.agreed,
    );
    unreferenced = λ n h. ground (
      arith,
      applied-absorbed n,
      untouched.next_id,
      v.unreferenced n (omega (arith, untouched.next_id)),
    );
    keys_within = rw untouched.fills (
      (λ k e. subst (KeyWithin (add_fill o key qty price at db).fills) (some-injective _ _ e) w),
      FillWithin-grows db.fills v.keys_within,
    );
  }

  -- A fill whose own key is within the new cumulative quantity may be booked.
  pub book_fill-LedgersAgree :
      (with_position : Bool)
      → KeyWithin (add_fill o key qty price at db).fills key
      → LedgersAgree (book_fill divide o key qty price at with_position db)
  unfolding book_fill
  book_fill-LedgersAgree true k =
      let a = applied-LedgersAgree k in
      record {
        ledger = record {
          lots_valid = a.ledger.lots_valid;
          keys = a.ledger.keys;
          closes_numbered = a.ledger.closes_numbered;
        };
        fills_numbered = a.fills_numbered;
        agreed = a.agreed;
        unreferenced = a.unreferenced;
        keys_within = a.keys_within;
      }
  book_fill-LedgersAgree false k = applied-LedgersAgree k

  fills-book_fill :
      (with_position : Bool)
      → (book_fill divide o key qty price at with_position db).fills
        ≡ (add_fill o key qty price at db).fills
  unfolding book_fill
  fills-book_fill true = untouched.fills
  fills-book_fill false = untouched.fills

  -- The order's cursor advances by the quantity booked, and no other order's moves.
  pub filled_by-book_fill :
      (with_position : Bool) (p : ℕ)
      → filled_by p (book_fill divide o key qty price at with_position db).fills
        ≡ filled_by p db.fills + (if o.id == p then qty else 0)
  filled_by-book_fill with_position p = rw (fills-book_fill with_position) (ground arith)

pub same_key→eq : (j k : FillKey) → same_key j k ≡ true → j ≡ k
unfolding same_key
same_key→eq j k h = ground arith

pub has_key→eq : (key : FillKey) (f : Fill) → has_key key f ≡ true → f.broker_fill_id ≡ some key
has_key→eq key f h = elim (Option-cases f.broker_fill_id) [
  | inl absent ↦ cc (absent, h)
  | inr (k, e) ↦ e ∙ ap {B = Option FillKey} some (same_key→eq k key (rw e at h))
]

-- A span of the order that has not been recorded in full is not recorded under its key.
not-recorded :
    (key : FillKey) (o c t : ℕ) (all fs : List Fill)
    → key ≡ span t o c
    → filled_by o all < c
    → All (FillWithin all) fs
    → recorded key fs ≡ false
not-recorded key o c t all [] e lt w = refl
not-recorded key o c t all (f ∷ fs) e lt w = elim (Bool-cases (has_key key f)) [
  | inl found ↦
      absurd
        (omega (arith, w.0 (span t o c) (has_key→eq key f found ∙ ap {B = Option FillKey} some e)))
  | inr other ↦ rw other (not-recorded key o c t all fs e lt w.1)
]

module _ (divide : ℤ → ℕ → ℤ) (o : Order) (qty : ℕ) (price : ℤ) (at tag : ℕ) (db : Db) where
  -- On agreeing ledgers, synthesizing a positive span books it: the ledgers go on agreeing, the
  -- cursor of the order advances by exactly the span, and no other order's moves.
  pub synthesize_span_books :
      (with_position : Bool)
      → 0 < qty
      → LedgersAgree db
      → LedgersAgree (synthesize_span divide o qty price at tag with_position db)
        × ((p : ℕ)
            → filled_by p (synthesize_span divide o qty price at tag with_position db).fills
              ≡ filled_by p db.fills + (if o.id == p then qty else 0))
  unfolding synthesize_span
  synthesize_span_books with_position h v =
      rw
        (not-recorded _ o.id (filled_by o.id db.fills + qty) tag db.fills db.fills refl
          (omega arith) v.keys_within)
        (
          book_fill-LedgersAgree divide o _ qty price at db v with_position (ground arith),
          filled_by-book_fill divide o _ qty price at db v with_position,
        )
