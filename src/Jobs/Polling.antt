-- ===== src/Jobs/Polling.antt =====
-- catchment/jobs/polling.py: one poll of a connector. The connector and the queue are parameters:
-- what `list(connector.fetch())` gives, and whether the queue takes a job.
use catchment.Prelude.{
  All, List, Option, Text, [], arith, false, find, if◌then◌else◌, length, nat_eq, none, pair_eq,
  refl, some, text_eq, ℕ, ◌-◌, ◌∷◌, ◌≡◌,
}
use catchment.Storage.Enums.{Source, failure, source_beq, source_beq_iff, source_eq, success}
use catchment.Storage.Models.{ConnectorHealth, Store}
use catchment.Storage.Session.{Db, Error, Result, nested, ok, pure, raise, ◌>>=◌, ◌>>◌}
use catchment.Storage.Health.{first_report, next_report, record_health, record_health_lem}
use catchment.Ingestion.{IngestSummary, RawRecord, ingest_records}
use catchment.Ingestion.Repeated.{Fits, ingest_loop-again, ingest_loop-total}
use catchment.Jobs.Stages.{Outside}
use catchment.Ingestion.Grown.{IsFresh}

pub record PollSummary : Type 0 where
  pub source : Source
  pub seen : ℕ
  pub created : ℕ
  pub queued : ℕ

-- `PollSummary.duplicates`.
abbrev poll_duplicates : PollSummary → ℕ
poll_duplicates summary = summary.seen - summary.created

-- The first transaction after a fetch: the batch, and the report of its success.
unfoldable pub ingest_fetched : Source → ℕ → List RawRecord → Db IngestSummary
ingest_fetched source now records = do
  summary ← ingest_records records
  record_health source success summary.seen summary.created none now
  pure summary

-- The loop over the created ids: the jobs that the queue took, and how the loop ended.
unfoldable pub enqueue_all : (ℕ → Result (Unit {0})) → List ℕ → List ℕ × Result (Unit {0})
enqueue_all enqueue [] = ([], ok tt)
enqueue_all enqueue (id ∷ ids) =
    let rest = enqueue_all enqueue ids in
    elim (enqueue id) [ ok u ↦ (id ∷ rest.0, rest.1) | raise e ↦ ([], raise e) ]

abbrev summary_of : Source → IngestSummary → Result (Unit {0}) → Result PollSummary
summary_of source summary (raise e) = raise e
summary_of source summary (ok u) = ok (record {
  source = source;
  seen = summary.seen;
  created = summary.created;
  queued = length summary.created_item_ids;
})

-- After the transaction: nothing is queued where it raised.
unfoldable pub queue_created :
    (ℕ → Result (Unit {0}))
    → Source
    → Result IngestSummary × Store
    → Result PollSummary × List ℕ × Store
unfolding enqueue_all
queue_created enqueue source (raise e, s) = (raise e, [], s)
queue_created enqueue source (ok summary, s) =
    let jobs = enqueue_all enqueue summary.created_item_ids in
    (summary_of source summary jobs.1, jobs.0, s)

-- The result, the jobs queued, and the database.
unfoldable pub poll_source :
    Outside
    → (ℕ → Result (Unit {0}))
    → Source
    → ℕ
    → Result (List RawRecord)
    → Store
    → Result PollSummary × List ℕ × Store
unfolding queue_created ingest_fetched
poll_source x enqueue source now (raise e) s =
    (raise e, [], (nested (record_health source failure 0 0 (some (x.type_name e)) now) s).1)
poll_source x enqueue source now (ok records) s =
    queue_created enqueue source (nested (ingest_fetched source now records) s)

enqueue_all-ok :
    (enqueue : ℕ → Result (Unit {0})) (ids : List ℕ)
    → ((id : ℕ) → enqueue id ≡ ok tt)
    → enqueue_all enqueue ids ≡ (ids, ok tt)
unfolding enqueue_all
enqueue_all-ok enqueue [] takes = refl
enqueue_all-ok enqueue (id ∷ ids) takes = ground (arith, takes id, enqueue_all-ok enqueue ids takes)

-- Where no source_id has more than 512 characters, `uuid.uuid4` gives fresh values and the queue
-- takes every job, a poll that fetched a batch
-- returns, has seen every record, and queues one job for each row that it created and no other; a
-- poll that then fetches the same batch returns, creates nothing and queues nothing.
pub poll_source-twice :
    (x : Outside) (enqueue : ℕ → Result (Unit {0})) (source : Source) (now later : ℕ)
    (records : List RawRecord) (s : Store)
    → All Fits records
    → IsFresh s
    → ((id : ℕ) → enqueue id ≡ ok tt)
    → (ids : List ℕ) × (t : Store) × (t' : Store) × (poll_source x enqueue source now (ok records) s
        ≡ (
          ok (record {
            source = source;
            seen = length records;
            created = length ids;
            queued = length ids;
          }),
          ids,
          t,
        ))
      × (poll_source x enqueue source later (ok records) t ≡ (
        ok (record { source = source; seen = length records; created = 0; queued = 0 }),
        [],
        t',
      ))
unfolding poll_source queue_created ingest_fetched ingest_records record_health
poll_source-twice x enqueue source now later records s shorts fresh takes =
    let (first_source, ids, t, run, grown, all) = ingest_loop-total 0 none records s shorts fresh in
    let t1 = (record_health source success (length records) (length ids) none now t).1 in
    let (next_source, t', run', same) = ingest_loop-again 0 none records t1 shorts all in
    (
      ids,
      t1,
      (record_health source success (length records) 0 none later t').1,
      ground (arith, run, enqueue_all-ok enqueue ids takes),
      ground (arith, run', enqueue_all-ok enqueue [] takes),
    )

abbrev pub last_success : Option ConnectorHealth → Option ℕ
last_success none = none
last_success (some row) = row.last_success_at

-- Where the fetch raises, the poll raises the same and queues nothing; the connector's row then
-- tells of a failure at this time with the time of the last success as it was, and no other table
-- and no other connector's row changes.
pub poll_source-failure :
    (x : Outside) (enqueue : ℕ → Result (Unit {0})) (source : Source) (now : ℕ) (e : Error)
    (s : Store)
    → (t : Store) × (row : ConnectorHealth) × (poll_source x enqueue source now (raise e) s
        ≡ (raise e, [], t))
      × (t ≡ record s { health = t.health })
      × (find source t.health ≡ some row)
      × (row.last_outcome ≡ failure)
      × (row.last_attempt_at ≡ now)
      × (row.last_success_at ≡ last_success (find source s.health))
      × ((other : Source)
          → source_beq source other ≡ false
          → find other t.health ≡ find other s.health)
unfolding poll_source record_health
poll_source-failure x enqueue source now e s = (
  (record_health source failure 0 0 detail now s).1,
  row,
  refl,
  refl,
  ground (arith, found source, source_beq_iff source source),
  refl,
  refl,
  kept (find source s.health),
  λ other h. ground (arith, found other, h),
)
  where
    detail : Option Text
    detail = some (x.type_name e)

    before : ConnectorHealth
    before = elim (find source s.health) [ none ↦ first_report failure 0 0 none 0 | some old ↦ old ]

    row : ConnectorHealth
    row = next_report failure 0 0 detail now before

    found :
        (other : Source)
        → find other (record_health source failure 0 0 detail now s).1.health
          ≡ (if source_beq source other then some row else find other s.health)
    found other = record_health_lem source other failure 0 0 detail now s

    kept :
        (o : Option ConnectorHealth)
        → (elim o as (λ r. ConnectorHealth) [
          | none ↦ first_report failure 0 0 none 0
          | some old ↦ old
        ]).last_success_at
          ≡ last_success o
    kept none = refl
    kept (some old) = refl
