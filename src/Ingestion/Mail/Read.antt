-- ===== src/Ingestion/Mail/Read.antt =====
-- What a poll reads of one message, and of a list of them.
use catchment.Prelude.{
  All, List, Option, Text, [], ap, arith, false, inl, inr, nat_eq, none, pair_eq, refl, some, subst,
  sym, text_eq, true, ℕ, ◌++◌, ◌↔◌, ◌∙◌, ◌∷◌, ◌≡◌, ◌⊎◌,
}
use catchment.Storage.Session.{
  Error, Result, Result-cases, imap4_error, imap_error, ok, raise, type_error, value_error,
}
use catchment.Ingestion.{RawRecord}
use catchment.Ingestion.Mail.{Decoders, to_raw_record}
use catchment.Ingestion.Mail.Poll.{
  Server, fetch_all, fetch_one, message_bytes, or_skipped, read_one,
}

-- The first part of an answer that has bytes, and where it stands.
abbrev pub FirstBytes : List (Option (List ℕ)) → List ℕ → Type 0
FirstBytes parts bytes =
    (before : List (Option (List ℕ))) × (after : List (Option (List ℕ))) × (parts
      ≡ before ++ (some bytes ∷ after))
    × All (λ p. p ≡ none) before

message_bytes-cases :
    (parts : List (Option (List ℕ)))
    → ((bytes : List ℕ) × FirstBytes parts bytes × (message_bytes parts ≡ ok bytes))
      ⊎ (All (λ p. p ≡ none) parts × (message_bytes parts ≡ raise imap_error))
unfolding message_bytes
message_bytes-cases [] = inr (tt, refl)
message_bytes-cases (some bytes ∷ parts) = inl (bytes, ([], parts, refl, tt), refl)
message_bytes-cases (none ∷ parts) = elim (message_bytes-cases parts) [
  | inl (bytes, (before, after, q, h), run) ↦
      inl (bytes, (none ∷ before, after, ap (λ ps. none ∷ ps) q, (refl, h)), run)
  | inr (h, run) ↦ inr ((refl, h), run)
]

message_bytes-first :
    (before after : List (Option (List ℕ))) (bytes : List ℕ)
    → All (λ p. p ≡ none) before
    → message_bytes (before ++ (some bytes ∷ after)) ≡ ok bytes
unfolding message_bytes
message_bytes-first [] after bytes h = refl
message_bytes-first (p ∷ before) after bytes (q, h) =
    subst (λ o. message_bytes (o ∷ (before ++ (some bytes ∷ after))) ≡ ok bytes) (sym q)
      (message_bytes-first before after bytes h)

message_bytes-none :
    (parts : List (Option (List ℕ)))
    → All (λ p. p ≡ none) parts
    → message_bytes parts ≡ raise imap_error
unfolding message_bytes
message_bytes-none [] h = refl
message_bytes-none (p ∷ parts) (q, h) =
    subst (λ o. message_bytes (o ∷ parts) ≡ raise imap_error) (sym q) (message_bytes-none parts h)

-- What the loop skips a message for.
abbrev pub IsTolerated : Error → Type 0
IsTolerated e = (e ≡ imap4_error) ⊎ ((e ≡ imap_error) ⊎ ((e ≡ value_error) ⊎ (e ≡ type_error)))

module _ (d : Decoders) (v : Server) (folder : Text) where
  -- The record of a message: of the first bytes of an answer whose status is OK.
  pub record IsMessage (uid : Text) (r : RawRecord) : Type 0 where
    pub parts : List (Option (List ℕ))
    pub bytes : List ℕ
    pub answered : v.fetch uid ≡ ok (true, parts)
    pub first : FirstBytes parts bytes
    pub mapped : to_raw_record d (v.message_from_bytes bytes) folder uid ≡ ok r

  -- A message that is skipped: the fetch fails, its status is not OK, no part has bytes, or the
  -- message cannot be mapped.
  pub data IsUnreadable (uid : Text) : Type 0 where
    not_fetched : (e : Error) → v.fetch uid ≡ raise e → IsTolerated e → IsUnreadable uid
    not_ok : (parts : List (Option (List ℕ))) → v.fetch uid ≡ ok (false, parts) → IsUnreadable uid
    no_bytes :
        (parts : List (Option (List ℕ)))
        → v.fetch uid ≡ ok (true, parts)
        → All (λ p. p ≡ none) parts
        → IsUnreadable uid
    not_mapped :
        (parts : List (Option (List ℕ))) (bytes : List ℕ) (e : Error)
        → v.fetch uid ≡ ok (true, parts)
        → FirstBytes parts bytes
        → to_raw_record d (v.message_from_bytes bytes) folder uid ≡ raise e
        → IsTolerated e
        → IsUnreadable uid

  -- The records of a list of messages: one for each that is read, in their order.
  abbrev pub Fetched : List Text → List RawRecord → Type 0
  Fetched [] rs = rs ≡ []
  Fetched (uid ∷ uids) rs =
      ((r : RawRecord) × (rest : List RawRecord) × (rs ≡ r ∷ rest)
        × IsMessage uid r
        × Fetched uids rest)
      ⊎ (IsUnreadable uid × Fetched uids rs)

  or_skipped-cases :
      (e : Error)
      → (IsTolerated e × (or_skipped d v folder (raise e) ≡ ok none))
        ⊎ (or_skipped d v folder (raise e) ≡ raise e)
  or_skipped-cases imap4_error = inl (inl refl, refl)
  or_skipped-cases imap_error = inl (inr (inl refl), refl)
  or_skipped-cases value_error = inl (inr (inr (inl refl)), refl)
  or_skipped-cases type_error = inl (inr (inr (inr refl)), refl)
  or_skipped-cases e = inr refl

  or_skipped-IsTolerated : (e : Error) → IsTolerated e → or_skipped d v folder (raise e) ≡ ok none
  or_skipped-IsTolerated e (inl q) = ap (λ x. or_skipped d v folder (raise x)) q
  or_skipped-IsTolerated e (inr (inl q)) = ap (λ x. or_skipped d v folder (raise x)) q
  or_skipped-IsTolerated e (inr (inr (inl q))) = ap (λ x. or_skipped d v folder (raise x)) q
  or_skipped-IsTolerated e (inr (inr (inr q))) = ap (λ x. or_skipped d v folder (raise x)) q

  IsMessage-fetch_one :
      (uid : Text) (r : RawRecord) → IsMessage uid r → fetch_one d v folder uid ≡ ok (some r)
  unfolding fetch_one read_one
  IsMessage-fetch_one uid r m =
      let (before, after, q, h) = m.first in
      let bytes = ap message_bytes q ∙ message_bytes-first before after m.bytes h in
      ground (arith, m.answered, bytes, m.mapped)

  IsUnreadable-fetch_one : (uid : Text) → IsUnreadable uid → fetch_one d v folder uid ≡ ok none
  unfolding fetch_one read_one
  IsUnreadable-fetch_one uid (not_fetched e f t) = rw f (or_skipped-IsTolerated e t)
  IsUnreadable-fetch_one uid (not_ok parts f) = rw f refl
  IsUnreadable-fetch_one uid (no_bytes parts f h) = rw (f, message_bytes-none parts h) refl
  IsUnreadable-fetch_one uid (not_mapped parts bytes e f (before, after, q, h) m t) =
      rw (f, ap message_bytes q ∙ message_bytes-first before after bytes h, m)
        (or_skipped-IsTolerated e t)

  -- Every way that a message can go.
  abbrev Goes : Text → Result (Option RawRecord) → Type 0
  Goes uid o =
      ((r : RawRecord) × (o ≡ ok (some r)) × IsMessage uid r)
      ⊎ (((o ≡ ok none) × IsUnreadable uid) ⊎ ((e : Error) × (o ≡ raise e)))

  fetch_one-cases : (uid : Text) → Goes uid (fetch_one d v folder uid)
  unfolding fetch_one read_one
  fetch_one-cases uid = elim (Result-cases (v.fetch uid)) [
    | inr (e, f) ↦ elim (or_skipped-cases e) [
      | inl (t, run) ↦ rw f (inr (inl (run, not_fetched e f t)))
      | inr run ↦ rw f (inr (inr (e, run)))
    ]
    | inl ((false, parts), f) ↦ rw f (inr (inl (refl, not_ok parts f)))
    | inl ((true, parts), f) ↦ elim (message_bytes-cases parts) [
      | inr (h, run) ↦ rw (f, run) (inr (inl (refl, no_bytes parts f h)))
      | inl (bytes, first, run) ↦
          elim (Result-cases (to_raw_record d (v.message_from_bytes bytes) folder uid)) [
            | inl (r, m) ↦
                rw (f, run, m)
                  (inl (
                    r,
                    refl,
                    record {
                      parts = parts;
                      bytes = bytes;
                      answered = f;
                      first = first;
                      mapped = m;
                    },
                  ))
            | inr (e, m) ↦ elim (or_skipped-cases e) [
              | inl (t, skip) ↦
                  rw (f, run, m) (inr (inl (skip, not_mapped parts bytes e f first m t)))
              | inr fails ↦ rw (f, run, m) (inr (inr (e, fails)))
            ]
          ]
    ]
  ]

  fetch_all-Fetched :
      (uids : List Text) (rs : List RawRecord) → fetch_all d v folder uids ≡ ok rs → Fetched uids rs
  unfolding fetch_all
  fetch_all-Fetched [] rs h = ground (arith, h)
  fetch_all-Fetched (uid ∷ uids) rs h = elim (Result-cases (fetch_all d v folder uids)) [
    | inr (e, f) ↦ elim (fetch_one-cases uid) [
      | inl (r, o, m) ↦ absurd (ground (arith, f, o, h))
      | inr (inl (o, m)) ↦ absurd (ground (arith, f, o, h))
      | inr (inr (e', o)) ↦ absurd (ground (arith, f, o, h))
    ]
    | inl (rest, f) ↦ elim (fetch_one-cases uid) [
      | inl (r, o, m) ↦ inl (r, rest, ground (arith, f, o, h), m, fetch_all-Fetched uids rest f)
      | inr (inl (o, m)) ↦
          let same : rest ≡ rs = ground (arith, f, o, h) in
          inr (m, subst (Fetched uids) same (fetch_all-Fetched uids rest f))
      | inr (inr (e', o)) ↦ absurd (ground (arith, f, o, h))
    ]
  ]

  Fetched-fetch_all :
      (uids : List Text) (rs : List RawRecord) → Fetched uids rs → fetch_all d v folder uids ≡ ok rs
  unfolding fetch_all
  Fetched-fetch_all [] rs h = ap ok (sym h)
  Fetched-fetch_all (uid ∷ uids) rs (inl (r, rest, q, m, more)) =
      rw (IsMessage-fetch_one uid r m, Fetched-fetch_all uids rest more) (ap ok (sym q))
  Fetched-fetch_all (uid ∷ uids) rs (inr (m, more)) =
      rw (IsUnreadable-fetch_one uid m, Fetched-fetch_all uids rs more) refl

  -- The loop over the ids gives exactly the records of those that are read, in order.
  pub fetch_all-exact :
      (uids : List Text) (rs : List RawRecord)
      → (fetch_all d v folder uids ≡ ok rs) ↔ Fetched uids rs
  fetch_all-exact uids rs = (fetch_all-Fetched uids rs, Fetched-fetch_all uids rs)
