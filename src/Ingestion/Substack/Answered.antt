-- ===== src/Ingestion/Substack/Answered.antt =====
-- Which feeds a poll reads, and what it gives.
use catchment.Prelude.{
  Bool-cases, List, Text, [], ap, arith, false, inl, inr, length, ltb, nat_eq, none, pair_eq, refl,
  some, sym, text_eq, true, ◌++◌, ◌↔◌, ◌∙◌, ◌∷◌, ◌≡◌, ◌≢◌, ◌⊎◌,
}
use catchment.Prelude.Strip.{is_empty, strip}
use catchment.Storage.Session.{
  Error, Result, Result-cases, feed_error, ok, parse_error, raise, value_error,
}
use catchment.Ingestion.{RawRecord}
use catchment.Ingestion.Substack.{Element, Feeds}
use catchment.Ingestion.Substack.Records.{
  entries, feed_failure, fetch_feed, fetch_feeds, max_feed_bytes, or_skip, parse_feed, poll_feed,
  to_records,
}
use catchment.Ingestion.Substack.Read.{
  NoFeedError, Recorded, Recorded-to_records, entries-in, entries_in, to_records-NoFeedError,
  to_records-Recorded,
}

module _ (feeds : Feeds) where
  -- A feed that is read: a document comes that is not blank and of at most 8 * 1024 * 1024
  -- characters, it is parsed, and the records are those of its entries.
  pub record IsUp (url : Text) (rs : List RawRecord) : Type 0 where
    pub document : Text
    pub fetched : feeds.http_get url ≡ ok (some document)
    pub some_text : is_empty (strip document) ≡ false
    pub in_size : ltb max_feed_bytes (length document) ≡ false
    pub root : Element
    pub parsed : feeds.fromstring document ≡ ok root
    pub recorded : Recorded feeds url (entries_in root) rs

  -- A feed that is left out: no document comes, or one that is blank, too long or not parsed.
  pub data IsDown (url : Text) : Type 0 where
    not_fetched : (e : Error) → feeds.http_get url ≡ raise e → IsDown url
    no_text : feeds.http_get url ≡ ok none → IsDown url
    refused :
        (document : Text)
        → feeds.http_get url ≡ ok (some document)
        → (is_empty (strip document) ≡ true) ⊎ (ltb max_feed_bytes (length document) ≡ true)
        → IsDown url
    not_parsed :
        (document : Text) (e : Error)
        → feeds.http_get url ≡ ok (some document)
        → feeds.fromstring document ≡ raise e
        → (e ≡ parse_error) ⊎ (e ≡ value_error)
        → IsDown url

  -- The records of the feeds in their order, of those that are read.
  abbrev pub PolledFeeds : List Text → List RawRecord → Type 0
  PolledFeeds [] rs = rs ≡ []
  PolledFeeds (url ∷ urls) rs =
      ((own : List RawRecord) × (rest : List RawRecord) × (rs ≡ own ++ rest)
        × IsUp url own
        × PolledFeeds urls rest)
      ⊎ (IsDown url × PolledFeeds urls rs)

  abbrev FailsOtherwise : Result (List RawRecord) → Type 0
  FailsOtherwise r = (e : Error) × (r ≡ raise e) × (e ≢ feed_error)

  -- How the poll of one feed ends.
  abbrev Ends : Text → Result (List RawRecord) → Type 0
  Ends url r =
      ((rs : List RawRecord) × (r ≡ ok rs) × IsUp url rs)
      ⊎ (((r ≡ raise feed_error) × IsDown url) ⊎ FailsOtherwise r)

  feed_failure-cases :
      (e : Error)
      → ((feed_failure e ≡ feed_error)
          × ((e ≡ parse_error) ⊎ ((e ≡ value_error) ⊎ (e ≡ feed_error))))
        ⊎ (feed_failure e ≢ feed_error)
  feed_failure-cases parse_error = inl (refl, inl refl)
  feed_failure-cases value_error = inl (refl, inr (inl refl))
  feed_failure-cases feed_error = inl (refl, inr (inr refl))
  feed_failure-cases e = inr (λ q. ground (arith, q))

module _ (feeds : Feeds) (apart : NoFeedError feeds) where
  parse_feed-Ends :
      (url document : Text)
      → feeds.http_get url ≡ ok (some document)
      → is_empty (strip document) ≡ false
      → ltb max_feed_bytes (length document) ≡ false
      → Ends feeds url (parse_feed feeds document url)
  unfolding parse_feed
  parse_feed-Ends url document f text small = elim (Result-cases (feeds.fromstring document)) [
    | inr (e, p) ↦ elim (feed_failure-cases feeds e) [
      | inl (q, inl k) ↦ rw p (inr (inl (ap raise q, not_parsed document e f p (inl k))))
      | inl (q, inr (inl k)) ↦ rw p (inr (inl (ap raise q, not_parsed document e f p (inr k))))
      | inl (q, inr (inr k)) ↦ absurd (apart.0 document (p ∙ ap raise k))
      | inr other ↦ rw p (inr (inr (feed_failure e, refl, other)))
    ]
    | inl (root, p) ↦ elim (Result-cases (to_records feeds url (entries root))) [
      | inl (rs, r) ↦
          rw (p, r)
            (inl (
              rs,
              refl,
              record {
                document = document;
                fetched = f;
                some_text = text;
                in_size = small;
                root = root;
                parsed = p;
                recorded =
                    to_records-Recorded feeds url (entries_in root) rs
                      (ap (to_records feeds url) (sym (entries-in root)) ∙ r);
              },
            ))
      | inr (e, r) ↦
          rw (p, r)
            (inr (
              inr (
                e,
                refl,
                λ q. to_records-NoFeedError feeds apart url (entries root) (r ∙ ap raise q),
              )))
    ]
  ]

  poll_feed-Ends : (url : Text) → Ends feeds url (poll_feed feeds url)
  unfolding poll_feed fetch_feed
  poll_feed-Ends url = elim (Result-cases (feeds.http_get url)) [
    | inr (e, f) ↦ rw f (inr (inl (refl, not_fetched e f)))
    | inl (none, f) ↦ rw f (inr (inl (refl, no_text f)))
    | inl (some document, f) ↦ elim (Bool-cases (is_empty (strip document))) [
      | inl blank ↦ rw (f, blank) (inr (inl (refl, refused document f (inl blank))))
      | inr text ↦ elim (Bool-cases (ltb max_feed_bytes (length document))) [
        | inl long ↦ rw (f, text, long) (inr (inl (refl, refused document f (inr long))))
        | inr small ↦ rw (f, text, small) (parse_feed-Ends url document f text small)
      ]
    ]
  ]

  IsUp-poll_feed :
      (url : Text) (rs : List RawRecord) → IsUp feeds url rs → poll_feed feeds url ≡ ok rs
  unfolding poll_feed fetch_feed parse_feed
  IsUp-poll_feed url rs h =
      rw (h.fetched, h.some_text, h.in_size, h.parsed)
        (ap (to_records feeds url) (entries-in h.root)
          ∙ Recorded-to_records feeds url (entries_in h.root) rs h.recorded)

  IsDown-poll_feed : (url : Text) → IsDown feeds url → poll_feed feeds url ≡ raise feed_error
  unfolding poll_feed fetch_feed parse_feed
  IsDown-poll_feed url (not_fetched e f) = rw f refl
  IsDown-poll_feed url (no_text f) = rw f refl
  IsDown-poll_feed url (refused document f (inl blank)) = rw (f, blank) refl
  IsDown-poll_feed url (refused document f (inr long)) =
      elim (Bool-cases (is_empty (strip document))) [
        | inl blank ↦ rw (f, blank) refl
        | inr text ↦ rw (f, text, long) refl
      ]
  IsDown-poll_feed url (not_parsed document e f p why) =
      elim (Bool-cases (is_empty (strip document))) [
        | inl blank ↦ rw (f, blank) refl
        | inr text ↦ elim (Bool-cases (ltb max_feed_bytes (length document))) [
          | inl long ↦ rw (f, text, long) refl
          | inr small ↦
              rw (f, text, small, p)
                (elim why [
                  | inl k ↦ ap (λ x. raise (feed_failure x)) k
                  | inr k ↦ ap (λ x. raise (feed_failure x)) k
                ])
        ]
      ]

  or_skip-other :
      (e : Error) (rest : Result (List RawRecord))
      → e ≢ feed_error
      → or_skip (raise e) rest ≡ raise e
  or_skip-other feed_error rest ne = absurd (ne refl)
  or_skip-other e rest ne = refl

  fetch_feeds-PolledFeeds :
      (urls : List Text) (rs : List RawRecord)
      → fetch_feeds feeds urls ≡ ok rs
      → PolledFeeds feeds urls rs
  unfolding fetch_feeds
  fetch_feeds-PolledFeeds [] rs h = ground (arith, h)
  fetch_feeds-PolledFeeds (url ∷ urls) rs h = elim (poll_feed-Ends url) [
    | inl (own, p, up) ↦ elim (Result-cases (fetch_feeds feeds urls)) [
      | inl (rest, r) ↦
          inl (own, rest, ground (arith, p, r, h), up, fetch_feeds-PolledFeeds urls rest r)
      | inr (e, r) ↦ absurd (ground (arith, p, r, h))
    ]
    | inr (inl (p, down)) ↦ inr (down, fetch_feeds-PolledFeeds urls rs (ground (arith, p, h)))
    | inr (inr (e, p, ne)) ↦
        let fails = or_skip-other e (fetch_feeds feeds urls) ne in
        absurd (ground (arith, p, fails, h))
  ]

  PolledFeeds-fetch_feeds :
      (urls : List Text) (rs : List RawRecord)
      → PolledFeeds feeds urls rs
      → fetch_feeds feeds urls ≡ ok rs
  unfolding fetch_feeds
  PolledFeeds-fetch_feeds [] rs h = ap ok (sym h)
  PolledFeeds-fetch_feeds (url ∷ urls) rs (inl (own, rest, q, up, more)) =
      rw (IsUp-poll_feed url own up, PolledFeeds-fetch_feeds urls rest more) (ap ok (sym q))
  PolledFeeds-fetch_feeds (url ∷ urls) rs (inr (down, more)) =
      rw (IsDown-poll_feed url down) (PolledFeeds-fetch_feeds urls rs more)

  -- Where neither the parser of documents nor those of dates raise the connector's own error: a poll
  -- of every feed returns these records exactly where each feed is read or left out, left out only
  -- where no document comes or one that is blank, too long or not parsed, and the records are those of
  -- the feeds that are read, in the order of the feeds, and of each feed those of its RSS items and
  -- then of its Atom entries, in the order of the document, that have an id, an address or a title.
  pub fetch_feeds-exact :
      (urls : List Text) (rs : List RawRecord)
      → (fetch_feeds feeds urls ≡ ok rs) ↔ PolledFeeds feeds urls rs
  fetch_feeds-exact urls rs = (fetch_feeds-PolledFeeds urls rs, PolledFeeds-fetch_feeds urls rs)
