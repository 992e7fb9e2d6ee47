-- ===== src/Ingestion/Substack/Polled.antt =====
-- The ids of the records that a poll of every feed gives.
use catchment.Prelude.{
  All, All-append, Bool-cases, List, Option, Text, [], arith, inl, inr, length, length-take-le,
  nat_eq, none, pair_eq, refl, some, subst, take, text_eq, ◌++◌, ◌<◌, ◌∷◌, ◌≡◌, ◌≤◌,
}
use catchment.Prelude.Strip.{codes, strip}
use catchment.Storage.Session.{Error, Result, Result-cases, feed_error, ok, raise}
use catchment.Ingestion.{RawRecord}
use catchment.Ingestion.Substack.{
  Element, Feeds, atom, atom_link, attribute, children_of, content_of, entry_link, entry_published,
  entry_text, find_all, find_child, is_alternate, link_or, nonempty, or_else, stripped, text_in,
}
use catchment.Ingestion.Substack.Records.{
  add_record, entries, feed_failure, fetch_feed, fetch_feeds, given_id, hashed_id, identified,
  or_skip, parse_feed, parse_root, poll_feed, record_with, source_id_of, title_of, to_record,
  to_records,
}
use catchment.Storage.Enums

-- A record that the database takes: its id is there, and fits.
abbrev pub IsIdentified : RawRecord → Type 0
IsIdentified r = (r.source ≡ Enums.substack) × (0 < length r.source_id) × (length r.source_id ≤ 512)

abbrev AllGiven : Result (List RawRecord) → Type 0
AllGiven r = (rs : List RawRecord) → r ≡ ok rs → All IsIdentified rs

abbrev IsText : Option Text → Type 0
IsText o = (t : Text) → o ≡ some t → 0 < length t

nonempty-IsText : (t : Text) → IsText (nonempty t)
nonempty-IsText [] t h = ground (arith, h)
nonempty-IsText (c ∷ cs) t h = ground (arith, h)

stripped-IsText : (o : Option Text) → IsText (stripped o)
stripped-IsText none t h = ground (arith, h)
stripped-IsText (some u) t h = nonempty-IsText (strip u) t h

text_in-IsText : (o : Option Element) → IsText (text_in o)
text_in-IsText none t h = ground (arith, h)
text_in-IsText (some e) t h = stripped-IsText (content_of e) t h

entry_text-IsText : (entry : Element) (tag : Text) → IsText (entry_text entry tag)
unfolding entry_text
entry_text-IsText entry tag = text_in-IsText (find_child tag entry)

or_else-IsText : (a b : Option Text) → IsText a → IsText b → IsText (or_else a b)
or_else-IsText none b h k = k
or_else-IsText (some a) b h k = h

link_or-IsText : (href rel rest : Option Text) → IsText rest → IsText (link_or href rel rest)
link_or-IsText none rel rest later = later
link_or-IsText (some []) rel rest later = later
link_or-IsText (some (c ∷ cs)) rel rest later = elim (Bool-cases (is_alternate rel)) [
  | inl e ↦ rw e (nonempty-IsText (strip (c ∷ cs)))
  | inr e ↦ rw e later
]

atom_link-IsText : (es : List Element) → IsText (atom_link es)
unfolding atom_link
atom_link-IsText [] t h = ground (arith, h)
atom_link-IsText (e ∷ es) t h =
    link_or-IsText (attribute (codes "href") e) (attribute (codes "rel") e) (atom_link es)
      (atom_link-IsText es) t h

entry_link-IsText : (entry : Element) → IsText (entry_link entry)
unfolding entry_link
entry_link-IsText entry =
    or_else-IsText (entry_text entry (codes "link"))
      (atom_link (find_all (atom (codes "link")) (children_of entry)))
      (entry_text-IsText entry (codes "link"))
      (atom_link-IsText (find_all (atom (codes "link")) (children_of entry)))

ok-AllGiven : (rs : List RawRecord) → All IsIdentified rs → AllGiven (ok rs)
ok-AllGiven rs all qs h = subst (All IsIdentified) same all
  where
    same : rs ≡ qs
    same = ground (arith, h)

raise-AllGiven : (e : Error) → AllGiven (raise e)
raise-AllGiven e rs h = ground (arith, h)

add_record-AllGiven :
    (r : Result (Option RawRecord)) (rest : Result (List RawRecord))
    → ((x : RawRecord) → r ≡ ok (some x) → IsIdentified x)
    → AllGiven rest
    → AllGiven (add_record r rest)
add_record-AllGiven (raise e) rest this more = raise-AllGiven e
add_record-AllGiven (ok none) rest this more = more
add_record-AllGiven (ok (some r)) (raise e) this more = raise-AllGiven e
add_record-AllGiven (ok (some r)) (ok rs) this more =
    ok-AllGiven (r ∷ rs) (this r refl, more rs refl)

or_skip-AllGiven :
    (r rest : Result (List RawRecord)) → AllGiven r → AllGiven rest → AllGiven (or_skip r rest)
or_skip-AllGiven (ok rs) (ok more) here there =
    ok-AllGiven (rs ++ more) (All-append IsIdentified rs more (here rs refl) (there more refl))
or_skip-AllGiven (ok rs) (raise e) here there = raise-AllGiven e
or_skip-AllGiven (raise feed_error) rest here there = there
or_skip-AllGiven (raise e) rest here there = raise-AllGiven e

module _ (feeds : Feeds) (hashes : (t : Text) → 0 < length (feeds.sha256 t)) where
  hashed_id-IsText : (url : Text) (title : Option Text) → IsText (hashed_id feeds url title)
  hashed_id-IsText url none t h = ground (arith, h)
  hashed_id-IsText url (some title) t h =
      let same : feeds.sha256 (url ++ codes ":" ++ title) ≡ t = some_inj h in
      subst (λ x. 0 < length x) same (hashes (url ++ codes ":" ++ title))
    where
      some_inj : {a b : Text} → some a ≡ some b → a ≡ b
      some_inj e = ground (arith, e)

  source_id_of-IsText : (url : Text) (entry : Element) → IsText (source_id_of feeds url entry)
  unfolding source_id_of
  source_id_of-IsText url entry =
      or_else-IsText (given_id entry) (hashed_id feeds url (title_of entry))
        (or_else-IsText (entry_text entry (codes "guid"))
          (or_else (entry_text entry (atom (codes "id"))) (entry_link entry))
          (entry_text-IsText entry (codes "guid"))
          (or_else-IsText (entry_text entry (atom (codes "id"))) (entry_link entry)
            (entry_text-IsText entry (atom (codes "id"))) (entry_link-IsText entry)))
        (hashed_id-IsText url (title_of entry))

  identified-IsIdentified :
      (url : Text) (entry : Element) (id : Option Text) (r : RawRecord)
      → IsText id
      → identified feeds url entry id ≡ ok (some r)
      → IsIdentified r
  identified-IsIdentified url entry none r there h = ground (arith, h)
  identified-IsIdentified url entry (some id) r there h =
      elim (Result-cases (entry_published feeds entry)) [
        | inr (e, p) ↦ ground (arith, p, h)
        | inl (at, p) ↦
            let same : record_with url entry id at ≡ r = ground (arith, p, h) in
            subst IsIdentified same (refl, positive id (there id refl), length-take-le 512 id)
      ]
    where
      positive : (t : Text) → 0 < length t → 0 < length (take 512 t)
      positive [] p = p
      positive (c ∷ cs) p = omega arith

  to_record-IsIdentified :
      (url : Text) (entry : Element) (r : RawRecord)
      → to_record feeds url entry ≡ ok (some r)
      → IsIdentified r
  unfolding to_record
  to_record-IsIdentified url entry r =
      identified-IsIdentified url entry (source_id_of feeds url entry) r
        (source_id_of-IsText url entry)

  to_records-AllGiven : (url : Text) (es : List Element) → AllGiven (to_records feeds url es)
  unfolding to_records
  to_records-AllGiven url [] = ok-AllGiven [] tt
  to_records-AllGiven url (e ∷ es) =
      add_record-AllGiven (to_record feeds url e) (to_records feeds url es)
        (to_record-IsIdentified url e) (to_records-AllGiven url es)

  parse_root-AllGiven : (url : Text) (root : Result Element) → AllGiven (parse_root feeds url root)
  parse_root-AllGiven url (ok root) = to_records-AllGiven url (entries root)
  parse_root-AllGiven url (raise e) = raise-AllGiven (feed_failure e)

  poll_feed-AllGiven : (url : Text) → AllGiven (poll_feed feeds url)
  unfolding poll_feed parse_feed
  poll_feed-AllGiven url = elim (Result-cases (fetch_feed feeds url)) [
    | inl (document, f) ↦ rw f (parse_root-AllGiven url (feeds.fromstring document))
    | inr (e, f) ↦ rw f (raise-AllGiven e)
  ]

  -- Where hashes are not empty: every record that a poll gives has an id that is not empty and that
  -- fits its column, whatever the feeds are.
  pub fetch_feeds-IsIdentified :
      (urls : List Text) (rs : List RawRecord)
      → fetch_feeds feeds urls ≡ ok rs
      → All IsIdentified rs
  unfolding fetch_feeds
  fetch_feeds-IsIdentified [] rs h = ok-AllGiven [] tt rs h
  fetch_feeds-IsIdentified (url ∷ urls) rs h =
      or_skip-AllGiven (poll_feed feeds url) (fetch_feeds feeds urls) (poll_feed-AllGiven url)
        (fetch_feeds-IsIdentified urls) rs h
