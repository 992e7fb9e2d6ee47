-- ===== src/Ingestion/Repeated.antt =====
-- `ingest_records` returns, and a batch that comes again creates nothing.
use catchment.Prelude.{
  All, List, Option, Option-cases, [], arith, inl, inr, length, nat_eq, none, pair_eq, refl, suc,
  text_eq, ℕ, ◌+◌, ◌∷◌, ◌≡◌, ◌≤◌,
}
use catchment.Storage.Enums.{Source}
use catchment.Storage.Models.{Store}
use catchment.Storage.Session.{ok}
use catchment.Storage.Items.{get_by_source, source_id_length}
use catchment.Ingestion.{
  IngestSummary, RawRecord, add_created, ingest_loop, ingest_records, or_source, row_of,
}
use catchment.Ingestion.Grown.{
  Grown, Grown-none, Grown-Step, IsFresh, Known, upsert_item-known, upsert_item-total,
}

-- The text fits the column of the source's own id.
abbrev pub Fits : RawRecord → Type 0
Fits r = length r.source_id ≤ source_id_length

pub ingest_loop-total :
    (seen : ℕ) (source : Option Source) (records : List RawRecord) (s : Store)
    → All Fits records
    → IsFresh s
    → (source' : Option Source) × (ids : List ℕ) × (t : Store) × (ingest_loop seen source records s
        ≡ (ok (seen + length records, source', ids), t))
      × Grown ids s t
      × All (Known t.items) records
unfolding ingest_loop
ingest_loop-total seen source [] s short fresh = (source, [], s, ground arith, Grown-none s, tt)
ingest_loop-total seen source (r ∷ rest) s (short, shorts) fresh =
    let (id, row, made, t, run, fresh', known, step) = upsert_item-total (row_of r) s short fresh in
    let (source', ids, t', run', grown, all) =
      ingest_loop-total (suc seen) (or_source source r.source) rest t shorts fresh' in
    (
      source',
      add_created made id ids,
      t',
      ground (arith, run, run'),
      Grown-Step made id (row_of r) row ids s t t' step grown,
      (grown.known r.source r.source_id known, all),
    )

pub ingest_loop-again :
    (seen : ℕ) (source : Option Source) (records : List RawRecord) (s : Store)
    → All Fits records
    → All (Known s.items) records
    → (source' : Option Source) × (t : Store) × (ingest_loop seen source records s
        ≡ (ok (seen + length records, source', []), t))
      × (t.items ≡ s.items)
unfolding ingest_loop get_by_source
ingest_loop-again seen source [] s shorts all = (source, s, ground arith, refl)
ingest_loop-again seen source (r ∷ rest) s (short, shorts) (known, all) =
    elim (Option-cases (get_by_source r.source r.source_id s)) [
      | inl gone ↦ ground (arith, gone, known)
      | inr ((k, old), found) ↦
          let (source', t, run, same) =
            ingest_loop-again (suc seen) (or_source source r.source) rest
              (record s { draws = s.draws + 1 }) shorts all in
          (source', t, ground (arith, run, upsert_item-known (row_of r) s k old short found), same)
    ]

-- Where no source_id has more than 512 characters and `uuid.uuid4` gives fresh values,
-- `ingest_records` returns and has seen every record; the ids it gives are those of the rows that
-- were added, with one row more for each, and the rows that were there are as they were. The same
-- batch right after it returns too, has seen every record, creates none, and leaves the items as
-- they are.
pub ingest_records-twice :
    (records : List RawRecord) (s : Store)
    → All Fits records
    → IsFresh s
    → (first : IngestSummary) × (t : Store) × (second : IngestSummary) × (t' : Store)
      × (ingest_records records s ≡ (ok first, t))
      × (ingest_records records t ≡ (ok second, t'))
      × (first.seen ≡ length records)
      × (first.created ≡ length first.created_item_ids)
      × Grown first.created_item_ids s t
      × All (Known t.items) records
      × (second.seen ≡ length records)
      × (second.created ≡ 0)
      × (t'.items ≡ t.items)
unfolding ingest_records
ingest_records-twice records s shorts fresh =
    let (source, ids, t, run, grown, all) = ingest_loop-total 0 none records s shorts fresh in
    let (source', t', run', same) = ingest_loop-again 0 none records t shorts all in
    (
      record {
        source = source;
        seen = length records;
        created = length ids;
        created_item_ids = ids;
      },
      t,
      record { source = source'; seen = length records; created = 0; created_item_ids = [] },
      t',
      ground (arith, run),
      ground (arith, run'),
      refl,
      refl,
      grown,
      all,
      refl,
      refl,
      same,
    )
