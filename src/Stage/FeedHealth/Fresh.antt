-- ===== src/Stage/FeedHealth/Fresh.antt =====
-- The feed counts as live only on the evidence of the last poll.
use roi_gen.Base.{
  ℕ, ◌≡◌, refl, true, false, Option, none, some, List, [], ◌∷◌, ℤ, pos, ◌-ℤ◌, ltb_ℤ, Bool-cases,
  inl, inr,
}
use roi_gen.Stage.FeedHealth.{
  Stamp, HealthDocument, HealthKey, unreachable, absent, undecodable, not_an_object, document,
  is_outdated, read_level, FeedHealth, new_feed_health, or_stale, poll, poll_all,
}

-- At that instant the key held a document that says ok, stamped no longer ago than its own window.
pub record IsFresh (now : ℕ) (key : HealthKey) : Type 0 where
  pub found : HealthDocument
  pub held : key ≡ document found
  pub ok : found.status_is_ok ≡ true
  pub stamped : ℕ
  pub instant : found.stamped_at ≡ Stamp.at stamped
  pub limit : ℤ
  pub window : found.window ≡ some limit
  pub young : ltb_ℤ limit (pos now -ℤ pos stamped) ≡ false

-- The last poll found a fresh key.
abbrev pub EndsFresh : List (ℕ × HealthKey) → Type 0
EndsFresh [] = ⊥
EndsFresh ((now, key) ∷ []) = IsFresh now key
EndsFresh (_ ∷ later) = EndsFresh later

aged :
    (now : ℕ) (d : HealthDocument) (stamp : Stamp) (window : Option ℤ)
    → d.status_is_ok ≡ true
    → d.stamped_at ≡ stamp
    → d.window ≡ window
    → or_stale (is_outdated now stamp window) ≡ false
    → IsFresh now (document d)
aged now d stamp none ok e f h = absurd (cc h)
aged now d Stamp.not_a_text (some limit) ok e f h = absurd (cc h)
aged now d Stamp.unreadable (some limit) ok e f h = absurd (cc h)
aged now d Stamp.naive (some limit) ok e f h = absurd (cc h)
aged now d (Stamp.at stamped) (some limit) ok e f h = record {
  found = d;
  held = refl;
  ok = ok;
  stamped = stamped;
  instant = e;
  limit = limit;
  window = f;
  young = h;
}

pub level-IsFresh :
    (now : ℕ) (key : HealthKey) → or_stale (read_level now key) ≡ false → IsFresh now key
unfolding read_level
level-IsFresh now unreachable h = absurd (cc h)
level-IsFresh now absent h = absurd (cc h)
level-IsFresh now undecodable h = absurd (cc h)
level-IsFresh now not_an_object h = absurd (cc h)
level-IsFresh now (document d) h = elim (Bool-cases d.status_is_ok) [
  | inl ok ↦ aged now d d.stamped_at d.window ok refl refl (rw ok at h)
  | inr bad ↦ let stale : true ≡ false = rw bad at h in absurd (cc stale)
]

last-EndsFresh :
    (now : ℕ) (key : HealthKey) (reads : List (ℕ × HealthKey)) (health : FeedHealth)
    → (poll_all ((now, key) ∷ reads) health).stale ≡ false
    → EndsFresh ((now, key) ∷ reads)
unfolding poll_all poll
last-EndsFresh now key [] health h = level-IsFresh now key h
last-EndsFresh now key ((now', key') ∷ reads) health h =
    last-EndsFresh now' key' reads (poll now key health) h

-- Whatever the polls found, the feed counts as live only where the last one found a fresh key; before
-- the first poll it counts as stale.
pub poll_all-EndsFresh :
    (reads : List (ℕ × HealthKey))
    → (poll_all reads new_feed_health).stale ≡ false
    → EndsFresh reads
unfolding poll_all
poll_all-EndsFresh [] h = absurd (cc h)
poll_all-EndsFresh ((now, key) ∷ reads) h = last-EndsFresh now key reads new_feed_health h
