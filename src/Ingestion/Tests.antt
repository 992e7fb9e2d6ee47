-- ===== src/Ingestion/Tests.antt =====
-- A concrete batch.
use catchment.Prelude.{
  All, List, Text, [], arith, find, length, nat_eq, none, pair_eq, text_eq, ◌∷◌, ◌≡◌,
}
use catchment.Prelude.Json.{end}
use catchment.Prelude.Strip.{codes}
use catchment.Storage.Enums.{email, text}
use catchment.Storage.Models.{Store}
use catchment.Storage.Session.{ok}
use catchment.Storage.Tests.{sample}
use catchment.Ingestion.{IngestSummary, RawRecord, ingest_records}
use catchment.Ingestion.Repeated.{Fits, ingest_records-twice}
use catchment.Ingestion.Grown.{Grown, IsFresh, Known}

abbrev letter : Text → RawRecord
letter id = record {
  source = email;
  source_id = id;
  kind = text;
  url = none;
  title = none;
  author = none;
  published_at = none;
  raw_ref = none;
  meta = end;
}

abbrev pub batch : List RawRecord
batch = letter (codes "m1") ∷ letter (codes "m2") ∷ letter (codes "m2") ∷ []

pub sample-IsFresh : IsFresh (sample [] [])
unfolding find
sample-IsFresh = ((λ n m e. e), λ n le. ground (arith, le))

batch-Fits : All Fits batch
batch-Fits = ground arith

ingest_records-twice_example :
    (first : IngestSummary) × (t : Store) × (second : IngestSummary) × (t' : Store)
    × (ingest_records batch (sample [] []) ≡ (ok first, t))
    × (ingest_records batch t ≡ (ok second, t'))
    × (first.seen ≡ length batch)
    × (first.created ≡ length first.created_item_ids)
    × Grown first.created_item_ids (sample [] []) t
    × All (Known t.items) batch
    × (second.seen ≡ length batch)
    × (second.created ≡ 0)
    × (t'.items ≡ t.items)
ingest_records-twice_example = ingest_records-twice batch (sample [] []) batch-Fits sample-IsFresh
