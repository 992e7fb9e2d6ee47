-- ===== src/Storage/Health.antt =====
-- `ConnectorHealthRepository` of catchment/storage/repositories.py.
use catchment.Prelude.{
  Bool, Option, Text, arith, false, find, find-upsert, if◌then◌else◌, nat_eq, none, pair_eq, some,
  text_eq, true, upsert, ℕ, ◌==◌, ◌≡◌,
}
use catchment.Storage.Enums.{Outcome, Source, failure, source_eq, success}
use catchment.Storage.Models.{ConnectorHealth, Store}
use catchment.Storage.Session.{Db, modify}

abbrev is_success : Outcome → Bool
is_success success = true
is_success failure = false

-- The row for a source that has none yet, and the update of one that has: a failure leaves the time
-- of the last success.
abbrev pub first_report : Outcome → ℕ → ℕ → Option Text → ℕ → ConnectorHealth
first_report outcome seen created detail now = record {
  last_success_at = if is_success outcome then some now else none;
  last_attempt_at = now;
  last_outcome = outcome;
  detail = detail;
  items_seen = seen;
  items_created = created;
}

abbrev pub next_report : Outcome → ℕ → ℕ → Option Text → ℕ → ConnectorHealth → ConnectorHealth
next_report outcome seen created detail now old = record {
  last_success_at = if is_success outcome then some now else old.last_success_at;
  last_attempt_at = now;
  last_outcome = outcome;
  detail = detail;
  items_seen = seen;
  items_created = created;
}

unfoldable pub record_health : Source → Outcome → ℕ → ℕ → Option Text → ℕ → Db (Unit {0})
record_health source outcome seen created detail now = modify (λ s. record s {
  health =
      upsert source (first_report outcome seen created detail now)
        (next_report outcome seen created detail now) s.health;
})

-- After a report the source's row tells of it, and its last success is this one if it succeeded and
-- else the one on record before; the rows of other sources are as they were.
pub record_health_lem :
    (source other : Source) (outcome : Outcome) (seen created : ℕ) (detail : Option Text) (now : ℕ)
    (s : Store)
    → find other (record_health source outcome seen created detail now s).1.health ≡ (
        if source == other
        then some (
            next_report outcome seen created detail now (elim (find source s.health) [
              | none ↦ first_report failure 0 0 none 0
              | some old ↦ old
            ]))
        else find other s.health)
unfolding record_health
record_health_lem source other outcome seen created detail now s = ground (
  arith,
  find-upsert source other (first_report outcome seen created detail now)
      (next_report outcome seen created detail now) s.health,
)
