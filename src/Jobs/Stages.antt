-- ===== src/Jobs/Stages.antt =====
-- The stages of catchment/jobs/pipeline.py before classification, catchment/extraction/passthrough.py and
-- catchment/classification/placeholder.py.
use catchment.Prelude.{
  Bool, Option, Text, false, if◌then◌else◌, is_some, nat_eq, none, pair_eq, some, text_eq, true, ℕ,
}
use catchment.Prelude.Strip.{codes, is_empty, strip}
use catchment.Prelude.Json.{Fields, Float, end, field, finite, get, one, str}
use catchment.Storage.Enums.{
  ItemKind, Stage, article, article_extraction, import, link, media_fetch,
}
use catchment.Storage.Models.{Item}
use catchment.Storage.Session.{
  Db, Error, Result, article_error, embedding_error, llm_error, media_fetch_error,
  media_not_available, missing_configuration, ok, parse_error, payload_error, pure, raise, throw,
  value_error, ◌>>=◌, ◌>>◌,
}
use catchment.Storage.Tags.{assign, get_or_create}
use catchment.Storage.Items.{set_raw_ref}
use catchment.Storage.Failures.{record_failure}
use catchment.Classification.Service.{Services}

pub record ExtractionResult : Type 0 where
  pub extractor : Text
  pub text : Text
  pub language : Option Text
  pub confidence : Option Float
  pub meta : Fields

-- What the pipeline calls and does not implement: the services of classification, the media
-- download (it gives the reference of the blob), the article reader, and the names of classes.
pub record Outside : Type 0 where
  pub services : Services
  pub fetch_media : Text → ℕ → Result Text
  pub extract_article : Text → Result ExtractionResult
  pub type_name : Error → Text

pub record PipelineResult : Type 0 where
  pub item_id : ℕ
  pub extracted : Bool
  pub tags_assigned : ℕ
  pub classified : Bool
  pub trace_id : Option Text
  pub media_fetched : Bool

abbrev pub unclassified_slug : Text
unclassified_slug = codes "unclassified"

abbrev unclassified_label : Text
unclassified_label = codes "Unclassified"

abbrev unclassified_description : Text
unclassified_description =
    codes
      "Placeholder applied by the ingestion pipeline before the classifier runs. Not a concept — a marker for items awaiting classification."

unfoldable pub assign_unclassified : ℕ → Db ℕ
assign_unclassified item_id = do
  (tag_id, tag, created) ←
      get_or_create unclassified_slug unclassified_label (some unclassified_description) import
  assign item_id tag_id one import none
  pure tag_id

abbrev inline_text : Text → ExtractionResult
inline_text cleaned = record {
  extractor = codes "passthrough";
  text = cleaned;
  language = none;
  confidence = some (finite false one);
  meta = field (codes "reason") (str (codes "source supplied text directly")) end;
}

unfoldable pub passthrough : Option Text → Option ExtractionResult
unfolding strip
passthrough none = none
passthrough (some content) =
    if is_empty (strip content) then none else some (inline_text (strip content))

-- `if failures is not None: failures.record(...)`; `with_failures` is that test.
unfoldable pub note_failure : Outside → Bool → ℕ → ℕ → Stage → Error → Db (Unit {0})
note_failure x with_failures now item_id stage error =
    if with_failures
    then (do record_failure item_id stage (x.type_name error) none now; pure tt)
    else pure tt

-- `except (MediaFetchError, MissingConfiguration)`; MediaNotAvailable is a MediaFetchError.
abbrev pub is_media_error : Error → Bool
is_media_error media_fetch_error = true
is_media_error media_not_available = true
is_media_error missing_configuration = true
is_media_error _ = false

abbrev pub is_article_error : Error → Bool
is_article_error article_error = true
is_article_error _ = false

-- `except (EmbeddingError, LLMError, MissingConfiguration, ValueError)`, with the subclasses of
-- ValueError.
abbrev pub is_outage : Error → Bool
is_outage embedding_error = true
is_outage llm_error = true
is_outage missing_configuration = true
is_outage value_error = true
is_outage payload_error = true
is_outage parse_error = true
is_outage _ = false

-- The media id of an item whose media are still to be fetched.
unfoldable pub media_of : Item → Option Text
media_of item = if is_some item.raw_ref then none else elim (get (codes "wa_media_id") item.meta) [
  | some (str media_id) ↦ some media_id
  | _ ↦ none
]

unfoldable pub media_fetched_as : Outside → Bool → ℕ → ℕ → Result Text → Db Bool
unfolding note_failure
media_fetched_as x with_failures now item_id (ok raw_ref) = do
  set_raw_ref item_id raw_ref
  pure true
media_fetched_as x with_failures now item_id (raise e) =
    if is_media_error e
    then (do note_failure x with_failures now item_id media_fetch e; pure false)
    else throw e

unfoldable pub fetch_item_media : Outside → Bool → ℕ → ℕ → Item → Db Bool
unfolding media_of media_fetched_as
fetch_item_media x with_failures now item_id item = elim (media_of item) [
  | none ↦ pure false
  | some media_id ↦ media_fetched_as x with_failures now item_id (x.fetch_media media_id item_id)
]

abbrev is_readable : ItemKind → Bool
is_readable link = true
is_readable article = true
is_readable _ = false

-- The URL of an item whose article is to be read.
abbrev non_empty : Option Text → Option Text
non_empty none = none
non_empty (some url) = if is_empty url then none else some url

unfoldable pub article_of : Item → Option Text
article_of item = if is_readable item.kind then non_empty item.url else none

unfoldable pub article_read_as :
    Outside → Bool → ℕ → ℕ → Result ExtractionResult → Db (Option ExtractionResult)
unfolding note_failure
article_read_as x with_failures now item_id (ok found) = pure (some found)
article_read_as x with_failures now item_id (raise e) =
    if is_article_error e
    then (do note_failure x with_failures now item_id article_extraction e; pure none)
    else throw e

unfoldable pub extract_item_article : Outside → Bool → ℕ → ℕ → Item → Db (Option ExtractionResult)
unfolding article_of article_read_as
extract_item_article x with_failures now item_id item = elim (article_of item) [
  | none ↦ pure none
  | some url ↦ article_read_as x with_failures now item_id (x.extract_article url)
]
