-- ===== src/Ingestion.antt =====
-- catchment/ingestion/base.py: a batch of records becomes rows, each source record once.
use catchment.Prelude.{
  Bool, List, Option, Text, [], if◌then◌else◌, length, nat_eq, none, pair_eq, some, suc, text_eq, ℕ,
  ◌-◌, ◌∷◌,
}
use catchment.Prelude.Json.{Fields}
use catchment.Storage.Enums.{ItemKind, Source}
use catchment.Storage.Models.{Item}
use catchment.Storage.Session.{Db, pure, ◌>>=◌, ◌>>◌}
use catchment.Storage.Items.{upsert_item}
pub mod Mail
pub mod Media
pub mod Grown
pub mod Repeated
pub mod Substack
pub mod Values
pub mod Whatsapp
pub mod Tests

pub record RawRecord : Type 0 where
  pub source : Source
  pub source_id : Text
  pub kind : ItemKind
  pub url : Option Text
  pub title : Option Text
  pub author : Option Text
  pub published_at : Option ℕ
  pub raw_ref : Option Text
  pub meta : Fields

-- The row that `repository.upsert` is asked for.
abbrev pub row_of : RawRecord → Item
row_of r = record {
  source = r.source;
  source_id = r.source_id;
  kind = r.kind;
  url = r.url;
  title = r.title;
  author = r.author;
  published_at = r.published_at;
  raw_ref = r.raw_ref;
  meta = r.meta;
}

-- `source` is the empty text where the batch is empty.
pub record IngestSummary : Type 0 where
  pub source : Option Source
  pub seen : ℕ
  pub created : ℕ
  pub created_item_ids : List ℕ

-- `IngestSummary.duplicates`.
abbrev pub duplicates : IngestSummary → ℕ
duplicates summary = summary.seen - summary.created

abbrev pub or_source : Option Source → Source → Option Source
or_source none source = some source
or_source (some found) source = some found

abbrev pub add_created : Bool → ℕ → List ℕ → List ℕ
add_created was_created id ids = if was_created then id ∷ ids else ids

-- The loop, with `seen` and `source` so far; it gives them and the ids that it created, in order.
unfoldable pub ingest_loop : ℕ → Option Source → List RawRecord → Db (ℕ × Option Source × List ℕ)
ingest_loop seen source [] = pure (seen, source, [])
ingest_loop seen source (r ∷ rest) = do
  (id, item, was_created) ← upsert_item (row_of r)
  (seen', source', ids) ← ingest_loop (suc seen) (or_source source r.source) rest
  pure (seen', source', add_created was_created id ids)

unfoldable pub ingest_records : List RawRecord → Db IngestSummary
unfolding ingest_loop
ingest_records records = do
  (seen, source, ids) ← ingest_loop 0 none records
  pure (record { source = source; seen = seen; created = length ids; created_item_ids = ids })
