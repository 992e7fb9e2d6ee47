-- ===== src/Ingestion/Substack/Tests.antt =====
-- Two feeds, of which one is down.
use catchment.Prelude.{Option, Text, [], arith, nat_eq, none, pair_eq, some, text_eq, ◌↔◌, ◌∷◌, ◌≡◌}
use catchment.Prelude.Strip.{codes}
use catchment.Storage.Session.{Result, ok, other_error, raise, value_error}
use catchment.Ingestion.Substack.{Element, Feeds, child, childless, element}
use catchment.Ingestion.Substack.Records.{fetch_feeds, record_with}
use catchment.Ingestion.Substack.Read.{NoFeedError}
use catchment.Ingestion.Substack.Answered.{PolledFeeds, fetch_feeds-exact}

abbrev post : Element
post =
    element (codes "item") none []
      (child (element (codes "guid") (some (codes " g1 ")) [] childless) childless)

abbrev up_or_down : Text → Result (Option Text)
up_or_down (c ∷ []) = ok (some (codes "<rss/>"))
up_or_down _ = raise other_error

abbrev two_feeds : Feeds
two_feeds = record {
  fromstring = λ document. ok (element (codes "rss") none [] (child post childless));
  parse_rfc = λ t. raise value_error;
  parse_iso = λ t. raise value_error;
  sha256 = λ t. codes "0";
  http_get = up_or_down;
}

two_feeds-NoFeedError : NoFeedError two_feeds
two_feeds-NoFeedError =
    (λ t q. ground (arith, q), λ t q. ground (arith, q), λ t q. ground (arith, q))

fetch_feeds-exact_example :
    (fetch_feeds two_feeds (codes "a" ∷ codes "bb" ∷ [])
      ≡ ok (record_with (codes "a") post (codes "g1") none ∷ []))
    ↔ PolledFeeds two_feeds
        (codes "a" ∷ codes "bb" ∷ [])
        (record_with (codes "a") post (codes "g1") none ∷ [])
fetch_feeds-exact_example =
    fetch_feeds-exact two_feeds two_feeds-NoFeedError (codes "a" ∷ codes "bb" ∷ [])
      (record_with (codes "a") post (codes "g1") none ∷ [])
