-- ===== src/Ingestion/Substack.antt =====
-- catchment/ingestion/substack.py: the entries of RSS and Atom feeds become records.
use catchment.Prelude.{
  Bool, List, Option, Table, Text, [], find, if◌then◌else◌, nat_beq, nat_eq, none, pair_eq, some,
  text_beq, text_eq, true, ℕ, ◌++◌, ◌∷◌,
}
use catchment.Prelude.Strip.{codes, strip}
use catchment.Storage.Session.{Result, ok, raise, type_error, value_error}
use catchment.Storage.Enums.{link}
pub mod Records
pub mod Read
pub mod Answered
pub mod Polled
pub mod Tests
use catchment.Storage.Enums

mutual
  -- An element: its tag, its text, its attributes, and the elements in it.
  pub data Element : Type 0 where
    element : Text → Option Text → Table Text Text → Elements → Element

  pub data Elements : Type 0 where
    childless : Elements
    child : Element → Elements → Elements

abbrev pub tag_of : Element → Text
tag_of (element tag content attributes children) = tag

abbrev pub content_of : Element → Option Text
content_of (element tag content attributes children) = content

abbrev pub attribute : Text → Element → Option Text
attribute name (element tag content attributes children) = find name attributes

abbrev pub children_of : Element → Elements
children_of (element tag content attributes children) = children

-- `element.iter(tag)`: the element and all below it, in the order of the document.
unfoldable mutual
  pub iter : Text → Element → List Element
  iter tag (element t content attributes children) =
      if text_beq t tag
      then element t content attributes children ∷ iter_all tag children
      else iter_all tag children

  pub iter_all : Text → Elements → List Element
  iter_all tag childless = []
  iter_all tag (child e es) = iter tag e ++ iter_all tag es

unfoldable pub find_all : Text → Elements → List Element
find_all tag childless = []
find_all tag (child e es) =
    let rest = find_all tag es in if text_beq (tag_of e) tag then e ∷ rest else rest

abbrev pub first_of : List Element → Option Element
first_of [] = none
first_of (e ∷ es) = some e

abbrev pub find_child : Text → Element → Option Element
find_child tag entry = first_of (find_all tag (children_of entry))

-- What parses and hashes: `defusedxml`'s `fromstring`; a date of RFC 2822 and of ISO 8601, one
-- without a zone taken as UTC; the hexadecimal SHA-256; and the HTTP client, by the text of a
-- response whose status is no error, where that is a text.
pub record Feeds : Type 0 where
  pub fromstring : Text → Result Element
  pub parse_rfc : Text → Result ℕ
  pub parse_iso : Text → Result ℕ
  pub sha256 : Text → Text
  pub http_get : Text → Result (Option Text)

-- `text.strip() or None`.
abbrev pub nonempty : Text → Option Text
nonempty [] = none
nonempty (c ∷ cs) = some (c ∷ cs)

abbrev pub stripped : Option Text → Option Text
stripped none = none
stripped (some t) = nonempty (strip t)

abbrev pub text_in : Option Element → Option Text
text_in none = none
text_in (some e) = stripped (content_of e)

-- `_text`.
unfoldable pub entry_text : Element → Text → Option Text
entry_text entry tag = text_in (find_child tag entry)

-- `a or b` of two texts that are not empty or are none.
abbrev pub or_else : Option Text → Option Text → Option Text
or_else none b = b
or_else (some a) b = some a

abbrev pub atom : Text → Text
atom name = codes "{http://www.w3.org/2005/Atom}" ++ name

abbrev pub is_alternate : Option Text → Bool
is_alternate none = true
is_alternate (some rel) = text_beq rel (codes "alternate")

abbrev pub link_or : Option Text → Option Text → Option Text → Option Text
link_or (some (c ∷ cs)) rel rest = if is_alternate rel then nonempty (strip (c ∷ cs)) else rest
link_or _ rel rest = rest

-- The first link that is an alternate and has an address ends the search.
unfoldable pub atom_link : List Element → Option Text
atom_link [] = none
atom_link (e ∷ es) = link_or (attribute (codes "href") e) (attribute (codes "rel") e) (atom_link es)

-- `_link`.
unfoldable pub entry_link : Element → Option Text
entry_link entry =
    or_else (entry_text entry (codes "link"))
      (atom_link (find_all (atom (codes "link")) (children_of entry)))

abbrev pub creator : Element → Option Text
creator entry = entry_text entry (codes "{http://purl.org/dc/elements/1.1/}creator")

abbrev pub name_or : Option Text → Option Text → Option Text
name_or (some (c ∷ cs)) other = nonempty (strip (c ∷ cs))
name_or _ other = other

abbrev pub atom_author : Element → Option Element → Option Text
atom_author entry none = creator entry
atom_author entry (some author) = elim (find_child (atom (codes "name")) author) [
  | none ↦ creator entry
  | some name ↦ name_or (content_of name) (creator entry)
]

-- `_author`.
unfoldable pub entry_author : Element → Option Text
entry_author entry =
    or_else (entry_text entry (codes "author"))
      (atom_author entry (find_child (atom (codes "author")) entry))

-- `_summary`.
unfoldable pub entry_summary : Element → Option Text
entry_summary entry = or_else (entry_text entry (codes "description")) (
    or_else (entry_text entry (atom (codes "summary")))
      (entry_text entry (codes "{http://purl.org/rss/1.0/modules/content/}encoded")))

-- `iso.replace("Z", "+00:00")`.
unfoldable pub with_offset : Text → Text
with_offset [] = []
with_offset (c ∷ cs) = if nat_beq c 90 then codes "+00:00" ++ with_offset cs else c ∷ with_offset cs

-- `except ValueError: continue`.
abbrev pub or_next : Result ℕ → Result (Option ℕ) → Result (Option ℕ)
or_next (ok at) next = ok (some at)
or_next (raise value_error) next = next
or_next (raise e) next = raise e

unfoldable pub first_iso : Feeds → Element → List Text → Result (Option ℕ)
first_iso feeds entry [] = ok none
first_iso feeds entry (tag ∷ tags) =
    let next = first_iso feeds entry tags in
    elim (entry_text entry tag) [
      | none ↦ next
      | some iso ↦ or_next (feeds.parse_iso (with_offset iso)) next
    ]

abbrev pub or_iso : Result ℕ → Result (Option ℕ) → Result (Option ℕ)
or_iso (ok at) next = ok (some at)
or_iso (raise type_error) next = next
or_iso (raise value_error) next = next
or_iso (raise e) next = raise e

-- `_published`.
unfoldable pub entry_published : Feeds → Element → Result (Option ℕ)
entry_published feeds entry =
    let iso = first_iso feeds entry (atom (codes "published") ∷ atom (codes "updated") ∷ []) in
    elim (entry_text entry (codes "pubDate")) [
      | none ↦ iso
      | some rfc ↦ or_iso (feeds.parse_rfc rfc) iso
    ]
