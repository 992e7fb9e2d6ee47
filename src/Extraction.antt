-- ===== src/Extraction.antt =====
-- catchment/extraction/article.py: the text of an article behind a link.
use catchment.Prelude.{
  Bool, Option, Text, [], false, if◌then◌else◌, length, ltb, nat_eq, none, not, pair_eq, some, take,
  text_beq, text_eq, ℕ, ◌&&◌, ◌++◌, ◌||◌,
}
use catchment.Prelude.Json.{Json, bool, end, field, null, str}
use catchment.Prelude.Strip.{codes, is_empty, rstrip, strip}
use catchment.Storage.Session.{Result, article_error, ok, raise}
use catchment.Jobs.Stages.{ExtractionResult}
pub mod Kept
pub mod Tests

unfoldable pub max_article_chars : ℕ
max_article_chars = 100000

unfoldable pub min_article_chars : ℕ
min_article_chars = 80

-- A response: whether its status is an error, and its text where that is a text.
pub record Page : Type 0 where
  pub raise_for_status : Result (Unit {0})
  pub text : Option Text

-- What is called: `urlparse`, by the scheme and the host name; the HTTP client; and `trafilatura`,
-- with the title of its metadata where that is a text.
pub record Reader : Type 0 where
  pub urlparse : Text → Result (Text × Option Text)
  pub http_get : Text → Result Page
  pub extract : Text → Text → Result (Option Text)
  pub extract_title : Text → Text → Result (Option Text)

abbrev pub is_allowed_scheme : Text → Bool
is_allowed_scheme scheme = text_beq scheme (codes "http") || text_beq scheme (codes "https")

abbrev pub has_host : Option Text → Bool
has_host none = false
has_host (some host) = not (is_empty host)

abbrev pub fetchable : Text → Result (Text × Option Text) → Result Text
fetchable candidate (raise e) = raise e
fetchable candidate (ok (scheme, hostname)) =
    if is_allowed_scheme scheme && has_host hostname then ok candidate else raise article_error

abbrev pub or_empty : Option Text → Text
or_empty none = []
or_empty (some t) = t

-- `_validate_url`.
unfoldable pub validate_url : Reader → Option Text → Result Text
validate_url reader url =
    if is_empty (strip (or_empty url))
    then raise article_error
    else fetchable (strip (or_empty url)) (reader.urlparse (strip (or_empty url)))

abbrev pub html_of : Option Text → Result Text
html_of none = raise article_error
html_of (some html) = if is_empty (strip html) then raise article_error else ok html

abbrev pub page_html : Result Page → Result Text
page_html (raise e) = raise article_error
page_html (ok page) = elim page.raise_for_status [
  | ok done ↦ html_of page.text
  | raise e ↦ raise article_error
]

-- `_fetch`.
unfoldable pub fetch_page : Reader → Text → Result Text
fetch_page reader url = page_html (reader.http_get url)

abbrev pub kept_title : Result (Option Text) → Option Text
kept_title (ok (some title)) = if is_empty (strip title) then none else some title
kept_title _ = none

abbrev pub article_text : Result (Option Text) → Result Text
article_text (raise e) = raise e
article_text (ok none) = raise article_error
article_text (ok (some found)) =
    if is_empty found || ltb (length (strip found)) min_article_chars
    then raise article_error
    else ok (strip found)

abbrev pub with_title : Option Text → Result Text → Result (Text × Option Text)
with_title title (raise e) = raise e
with_title title (ok found) = ok (found, title)

-- `_parse`, with `_title`.
unfoldable pub parse_page : Reader → Text → Text → Result (Text × Option Text)
parse_page reader html url =
    with_title (kept_title (reader.extract_title html url)) (article_text (reader.extract html url))

abbrev pub suffix : Text
suffix = codes "\n[truncated]"

unfoldable pub bounded_text : ℕ → Text → Text
bounded_text limit found =
    if ltb limit (length found) then rstrip (take limit found) ++ suffix else found

abbrev title_json : Option Text → Json
title_json none = null
title_json (some title) = str title

abbrev pub article : Text → Text × Option Text → ExtractionResult
article target (found, title) = record {
  extractor = codes "trafilatura";
  text = bounded_text max_article_chars found;
  language = none;
  confidence = none;
  meta = field (codes "url") (str target) (
      field (codes "title") (title_json title)
        (field (codes "truncated") (bool (ltb max_article_chars (length found))) end));
}

abbrev pub parsed_article : Text → Result (Text × Option Text) → Result ExtractionResult
parsed_article target (ok found) = ok (article target found)
parsed_article target (raise e) = raise e

abbrev pub fetched_article : Reader → Text → Result Text → Result ExtractionResult
fetched_article reader target (ok html) = parsed_article target (parse_page reader html target)
fetched_article reader target (raise e) = raise e

abbrev pub target_article : Reader → Result Text → Result ExtractionResult
target_article reader (ok target) = fetched_article reader target (fetch_page reader target)
target_article reader (raise e) = raise e

unfoldable pub extract_article : Reader → Option Text → Result ExtractionResult
extract_article reader url = target_article reader (validate_url reader url)
