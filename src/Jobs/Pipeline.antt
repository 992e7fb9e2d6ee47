-- ===== src/Jobs/Pipeline.antt =====
-- catchment/jobs/pipeline.py: one item from its media to its tags.
use catchment.Prelude.{
  Bool, Option, Text, [], false, if◌then◌else◌, nat_eq, none, pair_eq, some, text_eq, true, ℕ,
}
use catchment.Prelude.Strip.{is_empty}
use catchment.Storage.Enums.{classification, text}
use catchment.Storage.Models.{Item}
use catchment.Storage.Session.{
  Db, Error, Result, gets, lookup_error, nested, ok, pure, raise, throw, value_error, ◌>>=◌, ◌>>◌,
}
use catchment.Storage.Items.{add_extraction, get_item}
use catchment.Storage.Proposals.{UuidText}
use catchment.Classification.Service.{ClassificationOutcome, Settings, classify_item}
use catchment.Jobs.Stages.{
  ExtractionResult, Outside, PipelineResult, assign_unclassified, extract_item_article,
  fetch_item_media, is_outage, note_failure, passthrough,
}
pub mod Degraded

abbrev unclassified_result : ℕ → Bool → PipelineResult
unclassified_result item_id extracted = record {
  item_id = item_id;
  extracted = extracted;
  tags_assigned = 1;
  classified = false;
  trace_id = none;
  media_fetched = false;
}

abbrev classified_result : ℕ → ClassificationOutcome → PipelineResult
classified_result item_id outcome = record {
  item_id = item_id;
  extracted = true;
  tags_assigned = outcome.assigned;
  classified = true;
  trace_id = outcome.trace_id;
  media_fetched = false;
}

-- The `except` clause of `_classify`, in the state that the failed classification leaves.
unfoldable pub degrade : Outside → Bool → ℕ → ℕ → Error → Db PipelineResult
unfolding note_failure assign_unclassified
degrade x with_failures now item_id error = do
  note_failure x with_failures now item_id classification error
  assign_unclassified item_id
  pure (unclassified_result item_id true)

unfoldable pub outcome_or_degrade :
    Outside → Bool → ℕ → ℕ → Result ClassificationOutcome → Db PipelineResult
unfolding degrade
outcome_or_degrade x with_failures now item_id (ok outcome) =
    pure (classified_result item_id outcome)
outcome_or_degrade x with_failures now item_id (raise e) =
    if is_outage e then degrade x with_failures now item_id e else throw e

-- `try`: what the attempt gives or raises, in the state that it leaves.
abbrev pub attempt {ℓ} : {A : Type ℓ} → Db A → Db (Result A)
attempt m s = (ok (m s).0, (m s).1)

unfoldable pub classify_text : Outside → Settings → ℕ → Bool → ℕ → ℕ → Text → Db PipelineResult
unfolding outcome_or_degrade
classify_text x settings own with_failures now item_id content =
    if is_empty content
    then (do assign_unclassified item_id; pure (unclassified_result item_id false))
    else (do
      outcome ← attempt (classify_item x.services settings own item_id content)
      outcome_or_degrade x with_failures now item_id outcome)

abbrev text_of : Option ExtractionResult → Text
text_of none = []
text_of (some e) = e.text

-- `if extraction is None: extraction = passthrough(text)`.
abbrev or_passthrough : Option ExtractionResult → Option Text → Option ExtractionResult
or_passthrough none content = passthrough content
or_passthrough (some e) content = some e

unfoldable pub store_extraction : ℕ → Option ExtractionResult → Db (Unit {0})
store_extraction item_id none = pure tt
store_extraction item_id (some e) =
    add_extraction item_id e.extractor e.text e.language e.confidence e.meta

unfoldable pub pipeline_steps :
    Outside → Settings → ℕ → Bool → ℕ → ℕ → Option Text → Option Item → Db PipelineResult
unfolding fetch_item_media extract_item_article store_extraction classify_text passthrough
pipeline_steps x settings own with_failures now item_id content none = throw lookup_error
pipeline_steps x settings own with_failures now item_id content (some item) = do
  media_fetched ← fetch_item_media x with_failures now item_id item
  found ← extract_item_article x with_failures now item_id item
  store_extraction item_id (or_passthrough found content)
  result ←
      classify_text x settings own with_failures now item_id
        (text_of (or_passthrough found content))
  pure (record result { media_fetched = media_fetched })

unfoldable pub run_pipeline :
    Outside → Settings → ℕ → Bool → ℕ → ℕ → Option Text → Db PipelineResult
unfolding pipeline_steps
run_pipeline x settings own with_failures now item_id content = do
  item ← gets (get_item item_id)
  pipeline_steps x settings own with_failures now item_id content item

-- `uuid.UUID(item_id)` raises ValueError; the rest is one transaction with a failure repository.
unfoldable pub process_item :
    UuidText → Outside → Settings → ℕ → ℕ → Text → Option Text → Db PipelineResult
unfolding run_pipeline
process_item u x settings own now item_id content = elim (u.read item_id) [
  | none ↦ throw value_error
  | some id ↦ nested (run_pipeline x settings own true now id content)
]
