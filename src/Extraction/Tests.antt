-- ===== src/Extraction/Tests.antt =====
-- A page with a hundred letters.
use catchment.Prelude.{Text, nat_eq, none, pair_eq, refl, some, text_eq}
use catchment.Prelude.Strip.{codes, strip}
use catchment.Storage.Session.{ok}
use catchment.Extraction.{
  Reader, article, extract_article, fetch_page, min_article_chars, parse_page, validate_url,
}
use catchment.Extraction.Kept.{IsKept, extract_article-IsKept}

abbrev page : Text
page =
    codes
      "aaaaaaaaaaaaaaaaaaaaaaaaaaaaaaaaaaaaaaaaaaaaaaaaaaaaaaaaaaaaaaaaaaaaaaaaaaaaaaaaaaaaaaaaaaaaaaaaaaaa"

abbrev reader : Reader
reader = record {
  urlparse = λ url. ok (codes "https", some (codes "a"));
  http_get = λ url. ok (record { raise_for_status = ok tt; text = some (codes "<p>") });
  extract = λ html url. ok (some page);
  extract_title = λ html url. ok none;
}

extract_article-IsKept_example :
    IsKept reader (some (codes " https://a ")) (article (codes "https://a") (page, none))
unfolding extract_article validate_url strip fetch_page parse_page min_article_chars
extract_article-IsKept_example =
    extract_article-IsKept reader (some (codes " https://a "))
      (article (codes "https://a") (page, none)) refl
