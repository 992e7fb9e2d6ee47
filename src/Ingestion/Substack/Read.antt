-- ===== src/Ingestion/Substack/Read.antt =====
-- What a poll of every feed reads.
use catchment.Prelude.{
  Bool, Bool-cases, List, Option, Option-cases, Text, [], ap, arith, inl, inr, nat_eq, none,
  pair_eq, refl, select, some, sym, text_beq, text_eq, ℕ, ◌++◌, ◌∙◌, ◌∷◌, ◌≡◌, ◌≢◌, ◌⊎◌,
}
use catchment.Prelude.Strip.{codes}
use catchment.Storage.Session.{Result, Result-cases, feed_error, ok, raise, type_error, value_error}
use catchment.Ingestion.{RawRecord}
use catchment.Ingestion.Substack.{
  iter, iter_all, Element, Elements, Feeds, atom, child, childless, element, entry_published,
  entry_text, first_iso, or_iso, or_next, tag_of, with_offset,
}
use catchment.Ingestion.Substack.Records.{entries, record_with, source_id_of, to_record, to_records}

-- Every element of a document, in its order.
unfoldable mutual
  pub elements : Element → List Element
  elements (element tag content attributes children) =
      element tag content attributes children ∷ elements_of children

  elements_of : Elements → List Element
  elements_of childless = []
  elements_of (child e es) = elements e ++ elements_of es

abbrev has_tag : Text → Element → Bool
has_tag tag e = text_beq (tag_of e) tag

select-append :
    (p : Element → Bool) (xs ys : List Element) → select p (xs ++ ys) ≡ select p xs ++ select p ys
select-append p [] ys = refl
select-append p (x ∷ xs) ys = ground (arith, select-append p xs ys)

mutual
  unfolding iter elements

  iter-elements : (tag : Text) (e : Element) → iter tag e ≡ select (has_tag tag) (elements e)
  iter-elements tag (element t content attributes children) = elim (Bool-cases (text_beq t tag)) [
    | inl e ↦
        rw e
          (ap (λ es. element t content attributes children ∷ es) (iter_all-elements tag children))
    | inr e ↦ rw e (iter_all-elements tag children)
  ]

  iter_all-elements :
      (tag : Text) (es : Elements) → iter_all tag es ≡ select (has_tag tag) (elements_of es)
  iter_all-elements tag childless = refl
  iter_all-elements tag (child e es) =
      ap (λ xs. xs ++ iter_all tag es) (iter-elements tag e)
      ∙ ap (λ ys. select (has_tag tag) (elements e) ++ ys) (iter_all-elements tag es)
      ∙ sym (select-append (has_tag tag) (elements e) (elements_of es))

-- The entries of a feed: the items of RSS, then the entries of Atom, each in the order of the
-- document.
abbrev pub entries_in : Element → List Element
entries_in root =
    select (has_tag (codes "item")) (elements root)
    ++ select (has_tag (atom (codes "entry"))) (elements root)

pub entries-in : (root : Element) → entries root ≡ entries_in root
unfolding entries
entries-in root =
    ap (λ xs. xs ++ iter (atom (codes "entry")) root) (iter-elements (codes "item") root)
    ∙ ap (λ ys. select (has_tag (codes "item")) (elements root) ++ ys)
        (iter-elements (atom (codes "entry")) root)

-- `FeedError` is the connector's own: neither the parser of documents nor those of dates raise it.
abbrev pub NoFeedError : Feeds → Type 0
NoFeedError feeds =
    ((t : Text) → feeds.fromstring t ≢ raise feed_error)
    × ((t : Text) → feeds.parse_rfc t ≢ raise feed_error)
    × ((t : Text) → feeds.parse_iso t ≢ raise feed_error)

or_next-NoFeedError :
    (r : Result ℕ) (next : Result (Option ℕ))
    → r ≢ raise feed_error
    → next ≢ raise feed_error
    → or_next r next ≢ raise feed_error
or_next-NoFeedError (ok at) next h k q = ground (arith, q)
or_next-NoFeedError (raise value_error) next h k q = k q
or_next-NoFeedError (raise e) next h k q = h (ground (arith, q))

or_iso-NoFeedError :
    (r : Result ℕ) (next : Result (Option ℕ))
    → r ≢ raise feed_error
    → next ≢ raise feed_error
    → or_iso r next ≢ raise feed_error
or_iso-NoFeedError (ok at) next h k q = ground (arith, q)
or_iso-NoFeedError (raise type_error) next h k q = k q
or_iso-NoFeedError (raise value_error) next h k q = k q
or_iso-NoFeedError (raise e) next h k q = h (ground (arith, q))

module _ (feeds : Feeds) where
  -- The records of the entries, in their order: one for each that has an id, an address or a title,
  -- with its date.
  abbrev pub Recorded : Text → List Element → List RawRecord → Type 0
  Recorded url [] rs = rs ≡ []
  Recorded url (e ∷ es) rs =
      ((source_id_of feeds url e ≡ none) × Recorded url es rs)
      ⊎ ((id : Text) × (at : Option ℕ) × (rest : List RawRecord) × (source_id_of feeds url e
            ≡ some id)
          × (entry_published feeds e ≡ ok at)
          × (rs ≡ record_with url e id at ∷ rest)
          × Recorded url es rest)

  pub to_records-Recorded :
      (url : Text) (es : List Element) (rs : List RawRecord)
      → to_records feeds url es ≡ ok rs
      → Recorded url es rs
  unfolding to_records to_record
  to_records-Recorded url [] rs h = ground (arith, h)
  to_records-Recorded url (e ∷ es) rs h = elim (Option-cases (source_id_of feeds url e)) [
    | inl i ↦ inl (i, to_records-Recorded url es rs (ground (arith, i, h)))
    | inr (id, i) ↦ elim (Result-cases (entry_published feeds e)) [
      | inr (x, p) ↦ absurd (ground (arith, i, p, h))
      | inl (at, p) ↦ elim (Result-cases (to_records feeds url es)) [
        | inr (x, m) ↦ absurd (ground (arith, i, p, m, h))
        | inl (rest, m) ↦
            inr (id, at, rest, i, p, ground (arith, i, p, m, h), to_records-Recorded url es rest m)
      ]
    ]
  ]

  pub Recorded-to_records :
      (url : Text) (es : List Element) (rs : List RawRecord)
      → Recorded url es rs
      → to_records feeds url es ≡ ok rs
  unfolding to_records to_record
  Recorded-to_records url [] rs h = ap ok (sym h)
  Recorded-to_records url (e ∷ es) rs (inl (i, more)) = rw i (Recorded-to_records url es rs more)
  Recorded-to_records url (e ∷ es) rs (inr (id, at, rest, i, p, q, more)) =
      rw (i, p, Recorded-to_records url es rest more) (ap ok (sym q))

module _ (feeds : Feeds) (apart : NoFeedError feeds) where
  first_iso-NoFeedError :
      (entry : Element) (tags : List Text) → first_iso feeds entry tags ≢ raise feed_error
  unfolding first_iso
  first_iso-NoFeedError entry [] q = ground (arith, q)
  first_iso-NoFeedError entry (tag ∷ tags) q = elim (Option-cases (entry_text entry tag)) [
    | inl e ↦ first_iso-NoFeedError entry tags (ground (arith, e, q))
    | inr (iso, e) ↦
        or_next-NoFeedError (feeds.parse_iso (with_offset iso)) (first_iso feeds entry tags)
          (apart.2 (with_offset iso)) (first_iso-NoFeedError entry tags) (ground (arith, e, q))
  ]

  abbrev iso_tags : List Text
  iso_tags = atom (codes "published") ∷ atom (codes "updated") ∷ []

  entry_published-NoFeedError : (entry : Element) → entry_published feeds entry ≢ raise feed_error
  unfolding entry_published
  entry_published-NoFeedError entry q = elim (Option-cases (entry_text entry (codes "pubDate"))) [
    | inl e ↦ first_iso-NoFeedError entry iso_tags (ground (arith, e, q))
    | inr (rfc, e) ↦
        or_iso-NoFeedError (feeds.parse_rfc rfc) (first_iso feeds entry iso_tags) (apart.1 rfc)
          (first_iso-NoFeedError entry iso_tags) (ground (arith, e, q))
  ]

  pub to_records-NoFeedError :
      (url : Text) (es : List Element) → to_records feeds url es ≢ raise feed_error
  unfolding to_records to_record
  to_records-NoFeedError url [] h = ground (arith, h)
  to_records-NoFeedError url (e ∷ es) h = elim (Option-cases (source_id_of feeds url e)) [
    | inl i ↦ to_records-NoFeedError url es (ground (arith, i, h))
    | inr (id, i) ↦ elim (Result-cases (entry_published feeds e)) [
      | inr (x, p) ↦ entry_published-NoFeedError e (p ∙ ground (arith, i, p, h))
      | inl (at, p) ↦ elim (Result-cases (to_records feeds url es)) [
        | inr (x, m) ↦ to_records-NoFeedError url es (m ∙ ground (arith, i, p, m, h))
        | inl (rest, m) ↦ absurd (ground (arith, i, p, m, h))
      ]
    ]
  ]
