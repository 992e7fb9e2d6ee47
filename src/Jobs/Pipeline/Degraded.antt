-- ===== src/Jobs/Pipeline/Degraded.antt =====
-- What becomes of a job when a stage of it fails.
use catchment.Prelude.{
  Option, Text, arith, false, inl, inr, nat_eq, none, pair_eq, refl, some, text_eq, true, ℕ, ◌≡◌,
}
use catchment.Storage.Enums.{Stage, article_extraction, is_pipeline_stage, media_fetch}
use catchment.Storage.Models.{Item, Store}
use catchment.Storage.Session.{Db, Db-cases, Error, integrity_error, ok, raise, ◌>>=◌}
use catchment.Storage.Items.{get_item}
use catchment.Storage.Failures.{record_failure}
use catchment.Storage.Proposals.{UuidText}
use catchment.Classification.Service.{Settings}
use catchment.Jobs.Stages.{
  Outside, article_of, article_read_as, extract_item_article, fetch_item_media, is_article_error,
  is_media_error, media_fetched_as, media_of, note_failure,
}
use catchment.Jobs.Pipeline.{pipeline_steps, process_item, run_pipeline}

-- The two stages that `ck_failures_stage` refuses.
note_failure-refused :
    (x : Outside) (now item_id : ℕ) (stage : Stage) (e : Error) (s : Store)
    → is_pipeline_stage stage ≡ false
    → (note_failure x true now item_id stage e s).0 ≡ raise integrity_error
unfolding note_failure record_failure
note_failure-refused x now item_id stage e s h = ground (arith, h)

bind-raise :
    {A B : Type 0} (m : Db A) (f : A → Db B) (e : Error) (s : Store)
    → (m s).0 ≡ raise e
    → ((m >>= f) s).0 ≡ raise e
bind-raise m f e s h = elim (Db-cases m s) [
  | inl (a, t, run) ↦ ground (arith, h, run)
  | inr (a, t, run) ↦ ground (arith, h, run)
]

fetch_item_media-refused :
    (x : Outside) (now item_id : ℕ) (item : Item) (s : Store) (media_id : Text) (e : Error)
    → media_of item ≡ some media_id
    → x.fetch_media media_id item_id ≡ raise e
    → is_media_error e ≡ true
    → (fetch_item_media x true now item_id item s).0 ≡ raise integrity_error
unfolding fetch_item_media media_fetched_as
fetch_item_media-refused x now item_id item s media_id e media fails caught =
    ground (arith, media, fails, caught, note_failure-refused x now item_id media_fetch e s refl)

fetch_item_media-none :
    (x : Outside) (now item_id : ℕ) (item : Item) (s : Store)
    → media_of item ≡ none
    → fetch_item_media x true now item_id item s ≡ (ok false, s)
unfolding fetch_item_media
fetch_item_media-none x now item_id item s media = ground (arith, media)

extract_item_article-refused :
    (x : Outside) (now item_id : ℕ) (item : Item) (s : Store) (url : Text) (e : Error)
    → article_of item ≡ some url
    → x.extract_article url ≡ raise e
    → is_article_error e ≡ true
    → (extract_item_article x true now item_id item s).0 ≡ raise integrity_error
unfolding extract_item_article article_read_as
extract_item_article-refused x now item_id item s url e readable fails caught =
    ground (
      arith,
      readable,
      fails,
      caught,
      note_failure-refused x now item_id article_extraction e s refl,
    )

module _ (u : UuidText) (x : Outside) (settings : Settings) (own now : ℕ) (job_id : Text)
    (content : Option Text) (item_id : ℕ) (item : Item) (s : Store)
    (id_read : u.read job_id ≡ some item_id) (there : get_item item_id s ≡ some item) where
  nested-raise :
      (e : Error)
      → (run_pipeline x settings own true now item_id content s).0 ≡ raise e
      → process_item u x settings own now job_id content s ≡ (raise e, s)
  unfolding process_item
  nested-raise e h = elim (Db-cases (run_pipeline x settings own true now item_id content) s) [
    | inl (a, t, run) ↦ ground (arith, h, run)
    | inr (d, t, run) ↦ ground (arith, h, run, id_read)
  ]

  -- When the download of an item's media fails, in any of the ways that the code means to survive,
  -- the job does not degrade: it ends in an integrity error, and every row is as it was.
  pub process_item-media_failure :
      (media_id : Text) (e : Error)
      → media_of item ≡ some media_id
      → x.fetch_media media_id item_id ≡ raise e
      → is_media_error e ≡ true
      → process_item u x settings own now job_id content s ≡ (raise integrity_error, s)
  unfolding run_pipeline pipeline_steps
  process_item-media_failure media_id e media fails caught = nested-raise integrity_error (
      rw there (
        bind-raise (fetch_item_media x true now item_id item) _ integrity_error s
          (fetch_item_media-refused x now item_id item s media_id e media fails caught)))

  -- When an item has no media to fetch and the reading of its article fails, the job does not fall
  -- back to the text of the source: it ends in an integrity error, and every row is as it was.
  pub process_item-article_failure :
      (url : Text) (e : Error)
      → media_of item ≡ none
      → article_of item ≡ some url
      → x.extract_article url ≡ raise e
      → is_article_error e ≡ true
      → process_item u x settings own now job_id content s ≡ (raise integrity_error, s)
  unfolding run_pipeline pipeline_steps
  process_item-article_failure url e media readable fails caught = nested-raise integrity_error (
      rw (there, fetch_item_media-none x now item_id item s media)
        (bind-raise (extract_item_article x true now item_id item) _ integrity_error s
          (extract_item_article-refused x now item_id item s url e readable fails caught)))
