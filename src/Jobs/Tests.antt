-- ===== src/Jobs/Tests.antt =====
-- Jobs whose media, or whose article, cannot be had.
use catchment.Prelude.{
  Option, Text, [], find, nat_eq, none, pair_eq, refl, some, text_eq, ℕ, ◌∷◌, ◌≡◌,
}
use catchment.Prelude.Json.{end, field, str}
use catchment.Prelude.Strip.{codes}
use catchment.Storage.Enums.{link, source_eq}
use catchment.Storage.Models.{Item, Store}
use catchment.Storage.Session.{article_error, integrity_error, media_not_available, raise}
use catchment.Storage.Items.{get_item}
use catchment.Storage.Proposals.{UuidText}
use catchment.Storage.Tests.{plain_item, sample}
use catchment.Classification.Tests.{some_services, some_settings}
use catchment.Jobs.Stages.{Outside, article_of, media_of}
use catchment.Jobs.Pipeline.{process_item}
use catchment.Jobs.Pipeline.Degraded.{process_item-article_failure, process_item-media_failure}

abbrev read_letter : Text → Option ℕ
read_letter (id ∷ []) = some id
read_letter _ = none

abbrev one_letter : UuidText
one_letter = record { show = λ id. id ∷ []; read = read_letter; read-show = λ id. refl }

abbrev offline : Outside
offline = record {
  services = some_services;
  fetch_media = λ media_id id. raise media_not_available;
  extract_article = λ url. raise article_error;
  type_name = λ e. codes "Error";
}

abbrev voice_note : Item
voice_note = record plain_item { meta = field (codes "wa_media_id") (str (codes "9")) end }

abbrev shared_link : Item
shared_link = record plain_item { kind = link; url = some (codes "http://a") }

abbrev holding : Item → Store
holding item = record (sample [] []) { items = (7, item) ∷ [] }

process_item-media_failure_example :
    process_item one_letter offline some_settings 3 1
      (7 ∷ [])
      (some (codes "hi"))
      (holding voice_note)
    ≡ (raise integrity_error, (holding voice_note))
unfolding get_item find media_of
process_item-media_failure_example =
    process_item-media_failure one_letter offline some_settings 3 1 (7 ∷ []) (some (codes "hi")) 7
      voice_note (holding voice_note) refl refl (codes "9") media_not_available refl refl refl

process_item-article_failure_example :
    process_item one_letter offline some_settings 3 1
      (7 ∷ [])
      (some (codes "hi"))
      (holding shared_link)
    ≡ (raise integrity_error, (holding shared_link))
unfolding get_item find media_of article_of
process_item-article_failure_example =
    process_item-article_failure one_letter offline some_settings 3 1 (7 ∷ []) (some (codes "hi")) 7
      shared_link (holding shared_link) refl refl (codes "http://a") article_error refl refl refl
      refl
