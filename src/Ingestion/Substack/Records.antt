-- ===== src/Ingestion/Substack/Records.antt =====
-- catchment/ingestion/substack.py: from an entry to its record, and the poll of every feed.
use catchment.Prelude.{
  List, Option, Text, [], false, if◌then◌else◌, length, ltb, nat_eq, none, pair_eq, some, take,
  text_eq, true, ℕ, ◌*◌, ◌++◌, ◌||◌, ◌∷◌,
}
use catchment.Prelude.Json.{Fields, bool, end, field, int, str}
use catchment.Prelude.Strip.{codes, is_empty, strip}
use catchment.Storage.Session.{Error, Result, feed_error, ok, parse_error, raise, value_error}
use catchment.Ingestion.{RawRecord}
use catchment.Ingestion.Values.{map_ok}
use catchment.Ingestion.Substack.{
  Element, Feeds, atom, entry_author, entry_link, entry_published, entry_summary, entry_text,
  or_else,
}
use catchment.Storage.Enums
use catchment.Ingestion.Substack

abbrev pub title_of : Element → Option Text
title_of entry =
    or_else (entry_text entry (codes "title")) (entry_text entry (atom (codes "title")))

-- The id that the feed gives, or the address.
abbrev pub given_id : Element → Option Text
given_id entry =
    or_else (entry_text entry (codes "guid"))
      (or_else (entry_text entry (atom (codes "id"))) (entry_link entry))

abbrev pub hashed_id : Feeds → Text → Option Text → Option Text
hashed_id feeds feed_url none = none
hashed_id feeds feed_url (some title) = some (feeds.sha256 (feed_url ++ codes ":" ++ title))

unfoldable pub source_id_of : Feeds → Text → Element → Option Text
source_id_of feeds feed_url entry =
    or_else (given_id entry) (hashed_id feeds feed_url (title_of entry))

abbrev pub summary_fields : Option Text → Fields
summary_fields none = end
summary_fields (some summary) =
    field (codes "has_summary") (bool true)
      (field (codes "summary_chars") (int false (length summary)) end)

abbrev pub record_with : Text → Element → Text → Option ℕ → RawRecord
record_with feed_url entry source_id published_at = record {
  source = Enums.substack;
  source_id = take 512 source_id;
  kind = Enums.link;
  url = entry_link entry;
  title = title_of entry;
  author = entry_author entry;
  published_at = published_at;
  raw_ref = none;
  meta = field (codes "feed") (str feed_url) (summary_fields (entry_summary entry));
}

abbrev pub identified : Feeds → Text → Element → Option Text → Result (Option RawRecord)
identified feeds feed_url entry none = ok none
identified feeds feed_url entry (some source_id) =
    map_ok (λ at. some (record_with feed_url entry source_id at)) (entry_published feeds entry)

-- `_to_record`.
unfoldable pub to_record : Feeds → Text → Element → Result (Option RawRecord)
to_record feeds feed_url entry = identified feeds feed_url entry (source_id_of feeds feed_url entry)

abbrev pub add_record :
    Result (Option RawRecord) → Result (List RawRecord) → Result (List RawRecord)
add_record (raise e) rest = raise e
add_record (ok none) rest = rest
add_record (ok (some r)) rest = map_ok (λ rs. r ∷ rs) rest

unfoldable pub to_records : Feeds → Text → List Element → Result (List RawRecord)
to_records feeds feed_url [] = ok []
to_records feeds feed_url (e ∷ es) =
    add_record (to_record feeds feed_url e) (to_records feeds feed_url es)

-- `_entries`.
unfoldable pub entries : Element → List Element
entries root = Substack.iter (codes "item") root ++ Substack.iter (atom (codes "entry")) root

-- `except (ParseError, ValueError)`.
abbrev pub feed_failure : Error → Error
feed_failure parse_error = feed_error
feed_failure value_error = feed_error
feed_failure e = e

abbrev pub parse_root : Feeds → Text → Result Element → Result (List RawRecord)
parse_root feeds feed_url (ok root) = to_records feeds feed_url (entries root)
parse_root feeds feed_url (raise e) = raise (feed_failure e)

unfoldable pub parse_feed : Feeds → Text → Text → Result (List RawRecord)
parse_feed feeds document feed_url = parse_root feeds feed_url (feeds.fromstring document)

-- `_MAX_FEED_BYTES`, which the code compares with the number of characters.
unfoldable pub max_feed_bytes : ℕ
max_feed_bytes = 8 * 1024 * 1024

abbrev pub document_of : Result (Option Text) → Result Text
document_of (raise e) = raise feed_error
document_of (ok none) = raise feed_error
document_of (ok (some document)) =
    if is_empty (strip document) || ltb max_feed_bytes (length document)
    then raise feed_error
    else ok document

-- `_fetch_feed`.
unfoldable pub fetch_feed : Feeds → Text → Result Text
fetch_feed feeds url = document_of (feeds.http_get url)

abbrev pub parse_fetched : Feeds → Text → Result Text → Result (List RawRecord)
parse_fetched feeds feed_url (ok document) = parse_feed feeds document feed_url
parse_fetched feeds feed_url (raise e) = raise e

unfoldable pub poll_feed : Feeds → Text → Result (List RawRecord)
poll_feed feeds feed_url = parse_fetched feeds feed_url (fetch_feed feeds feed_url)

-- `except FeedError: continue`.
abbrev pub or_skip : Result (List RawRecord) → Result (List RawRecord) → Result (List RawRecord)
or_skip (ok rs) rest = map_ok (λ more. rs ++ more) rest
or_skip (raise feed_error) rest = rest
or_skip (raise e) rest = raise e

-- `SubstackConnector.fetch`, to its end: the records of every feed, or the exception that ends it.
unfoldable pub fetch_feeds : Feeds → List Text → Result (List RawRecord)
fetch_feeds feeds [] = ok []
fetch_feeds feeds (url ∷ urls) = or_skip (poll_feed feeds url) (fetch_feeds feeds urls)
