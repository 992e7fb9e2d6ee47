-- ===== src/Ingestion/Mail/Polled.antt =====
-- What a poll of a folder gives.
use catchment.Prelude.{
  Bool, Bool-cases, List, Option, Text, [], ap, arith, false, inl, inr, leb, length, length-append,
  nat_eq, none, pair_eq, refl, some, suc, text_eq, true, zero, ℕ, ◌++◌, ◌+◌, ◌-◌, ◌↔◌, ◌∙◌, ◌∷◌,
  ◌≡◌, ◌≤◌, ◌⊎◌,
}
use catchment.Storage.Session.{Error, Result, imap4_error, ok, os_error, raise}
use catchment.Ingestion.{RawRecord}
use catchment.Ingestion.Mail.{Decoders, and_then}
use catchment.Ingestion.Mail.Poll.{
  Server, fetch_all, fetch_mail, found_uids, last_of, logged_out, raised_as, read_folder, refused,
  require, search_uids, skip_first, unreachable,
}
use catchment.Ingestion.Mail.Read.{Fetched, fetch_all-exact}

skip_first-append : (older newer : List Text) → skip_first (length older) (older ++ newer) ≡ newer
unfolding skip_first
skip_first-append [] newer = refl
skip_first-append (uid ∷ older) newer = skip_first-append older newer

skip_first-split :
    (n : ℕ) (uids : List Text)
    → (older : List Text) × (uids ≡ older ++ skip_first n uids)
      × ((length older ≡ n) ⊎ ((length older ≤ n) × (length (skip_first n uids) ≡ 0)))
unfolding skip_first
skip_first-split zero uids = ([], refl, inl refl)
skip_first-split (suc n) [] = ([], refl, inr (omega arith, refl))
skip_first-split (suc n) (uid ∷ uids) =
    let (older, q, h) = skip_first-split n uids in
    (
      uid ∷ older,
      ap (λ us. uid ∷ us) q,
      elim h [ inl e ↦ inl (omega (arith, e)) | inr (le, e) ↦ inr (omega (arith, le), e) ],
    )

-- The last ids of a list: so many of them, or all where there are no more.
abbrev pub IsLast : ℕ → List Text → List Text → Type 0
IsLast n uids newer =
    (older : List Text) × (uids ≡ older ++ newer)
    × ((length newer ≡ n) ⊎ ((older ≡ []) × (length newer ≤ n)))

no_texts : (older : List Text) → length older ≡ 0 → older ≡ []
no_texts [] h = refl
no_texts (uid ∷ older) h = absurd (ground (arith, h))

module _ (d : Decoders) (v : Server) (folder : Text) where
  last_of-IsLast : (n : ℕ) (uids : List Text) → IsLast n uids (last_of d v folder n uids)
  last_of-IsLast n uids =
      let (older, q, h) = skip_first-split (length uids - n) uids in
      let newer = last_of d v folder n uids in
      let whole : length uids ≡ length older + length newer =
        ap (λ us. length us) q ∙ length-append older newer in
      (older, q, sized older (length newer) h whole)
    where
      sized :
          (older : List Text) (m : ℕ)
          → (length older ≡ length uids - n) ⊎ ((length older ≤ length uids - n) × (m ≡ 0))
          → length uids ≡ length older + m
          → (m ≡ n) ⊎ ((older ≡ []) × (m ≤ n))
      sized older m (inl e) w = elim (Bool-cases (leb n (length uids))) [
        | inl le ↦ inl (ground (arith, le, e, w))
        | inr gt ↦ inr (no_texts older (ground (arith, gt, e, w)), ground (arith, gt, e, w))
      ]
      sized older m (inr (le, e)) w = elim (Bool-cases (leb 1 n)) [
        | inl one ↦ inr (no_texts older (ground (arith, one, le, e, w)), ground (arith, e))
        | inr none' ↦ inl (ground (arith, none', e))
      ]

  IsLast-last_of :
      (n : ℕ) (uids newer : List Text) → IsLast n uids newer → last_of d v folder n uids ≡ newer
  IsLast-last_of n uids newer (older, q, h) =
      let whole : length uids ≡ length older + length newer =
        ap (λ us. length us) q ∙ length-append older newer in
      ap (λ k. skip_first k uids) (gone h whole)
      ∙ ap (skip_first (length older)) q
      ∙ skip_first-append older newer
    where
      gone :
          (length newer ≡ n) ⊎ ((older ≡ []) × (length newer ≤ n))
          → length uids ≡ length older + length newer
          → length uids - n ≡ length older
      gone (inl e) w = omega (arith, e, w)
      gone (inr (e, le)) w = let z = ap (λ us. length us) e in omega (arith, z, le, w)

  -- What the server answers to a poll that returns these records.
  pub record IsPolled (batch_size : ℕ) (rs : List RawRecord) : Type 0 where
    pub configured : v.credentials ≡ ok tt
    pub connected : v.connect ≡ ok tt
    pub logged_in : v.login ≡ ok tt
    pub opened : v.select ≡ ok true
    pub uids : List Text
    pub found : v.search ≡ ok (true, some uids)
    pub closed : (v.logout ≡ ok tt) ⊎ ((v.logout ≡ raise os_error) ⊎ (v.logout ≡ raise imap4_error))
    pub newer : List Text
    pub last : IsLast batch_size uids newer
    pub fetched : Fetched d v folder newer rs

  raised_as-ok :
      {A : Type 0} (f : Error → Error) (r : Result A) (a : A) → raised_as f r ≡ ok a → r ≡ ok a
  raised_as-ok f (ok b) a h = h
  raised_as-ok f (raise e) a h = absurd (ground (arith, h))

  and_then-ok :
      {A B : Type 0} (r : Result A) (f : A → Result B) (b : B)
      → and_then r f ≡ ok b
      → (a : A) × (r ≡ ok a) × (f a ≡ ok b)
  and_then-ok (ok a) f b h = (a, refl, h)
  and_then-ok (raise e) f b h = absurd (ground (arith, h))

  logged_out-ok :
      (out : Result (Unit {0})) (r : Result (List RawRecord)) (rs : List RawRecord)
      → logged_out d v folder out r ≡ ok rs
      → ((out ≡ ok tt) ⊎ ((out ≡ raise os_error) ⊎ (out ≡ raise imap4_error))) × (r ≡ ok rs)
  logged_out-ok (ok u) r rs h = (inl refl, h)
  logged_out-ok (raise os_error) r rs h = (inr (inl refl), h)
  logged_out-ok (raise imap4_error) r rs h = (inr (inr refl), h)
  logged_out-ok (raise e) r rs h = absurd (ground (arith, h))

  closed-logged_out :
      (out : Result (Unit {0})) (r : Result (List RawRecord))
      → (out ≡ ok tt) ⊎ ((out ≡ raise os_error) ⊎ (out ≡ raise imap4_error))
      → logged_out d v folder out r ≡ r
  closed-logged_out out r (inl e) = ap (λ o. logged_out d v folder o r) e
  closed-logged_out out r (inr (inl e)) = ap (λ o. logged_out d v folder o r) e
  closed-logged_out out r (inr (inr e)) = ap (λ o. logged_out d v folder o r) e

  require-ok : (b : Bool) (u : Unit {0}) → require b ≡ ok u → b ≡ true
  require-ok true u h = refl
  require-ok false u h = absurd (ground (arith, h))

  found_uids-ok :
      (a : Bool × Option (List Text)) (uids : List Text)
      → found_uids a ≡ ok uids
      → a ≡ (true, some uids)
  found_uids-ok (true, some us) uids h = ground (arith, h)
  found_uids-ok (true, none) uids h = absurd (ground (arith, h))
  found_uids-ok (false, o) uids h = absurd (ground (arith, h))

  search_uids-ok :
      (uids : List Text)
      → search_uids v ≡ ok uids
      → (v.select ≡ ok true) × (v.search ≡ ok (true, some uids))
  unfolding search_uids
  search_uids-ok uids h =
      let (status, sel, h1) = and_then-ok (raised_as refused v.select) _ uids h in
      let (u, is, h2) = and_then-ok (require status) _ uids h1 in
      let (a, ans, h3) = and_then-ok (raised_as refused v.search) found_uids uids h2 in
      (
        raised_as-ok refused v.select status sel ∙ ap ok (require-ok status u is),
        raised_as-ok refused v.search a ans ∙ ap ok (found_uids-ok a uids h3),
      )

  fetch_mail-IsPolled :
      (batch_size : ℕ) (rs : List RawRecord)
      → fetch_mail d v folder batch_size ≡ ok rs
      → IsPolled batch_size rs
  unfolding fetch_mail read_folder
  fetch_mail-IsPolled n rs h =
      let (a, known, h1) = and_then-ok v.credentials _ rs h in
      let (b, reached, h2) = and_then-ok (raised_as unreachable v.connect) _ rs h1 in
      let (out, h3) = logged_out-ok v.logout (read_folder d v folder n) rs h2 in
      let (c, in_to, h4) = and_then-ok (raised_as refused v.login) _ rs h3 in
      let (uids, ids, h5) = and_then-ok (search_uids v) _ rs h4 in
      record {
        configured = known;
        connected = raised_as-ok unreachable v.connect b reached;
        logged_in = raised_as-ok refused v.login c in_to;
        opened = (search_uids-ok uids ids).0;
        uids = uids;
        found = (search_uids-ok uids ids).1;
        closed = out;
        newer = last_of d v folder n uids;
        last = last_of-IsLast n uids;
        fetched = (fetch_all-exact d v folder (last_of d v folder n uids) rs).0 h5;
      }

  IsPolled-fetch_mail :
      (batch_size : ℕ) (rs : List RawRecord)
      → IsPolled batch_size rs
      → fetch_mail d v folder batch_size ≡ ok rs
  unfolding fetch_mail read_folder search_uids
  IsPolled-fetch_mail n rs p =
      ap (λ r. and_then r (λ u. and_then (raised_as unreachable v.connect) close)) p.configured
      ∙ ap (λ r. and_then (raised_as unreachable r) close) p.connected
      ∙ closed-logged_out v.logout (read_folder d v folder n) p.closed
      ∙ ap (λ r. and_then (raised_as refused r) (λ u. and_then (search_uids v) batch)) p.logged_in
      ∙ ap
          (λ r.
            and_then (and_then (raised_as refused r) (λ status. and_then (require status) answered))
              batch)
          p.opened
      ∙ ap (λ r. and_then (and_then (raised_as refused r) found_uids) batch) p.found
      ∙ ap (fetch_all d v folder) (IsLast-last_of n p.uids p.newer p.last)
      ∙ (fetch_all-exact d v folder p.newer rs).1 p.fetched
    where
      close : Unit {0} → Result (List RawRecord)
      close u = logged_out d v folder v.logout (read_folder d v folder n)

      batch : List Text → Result (List RawRecord)
      batch ids = fetch_all d v folder (last_of d v folder n ids)

      answered : Unit {0} → Result (List Text)
      answered u = and_then (raised_as refused v.search) found_uids

  -- At a batch size from 1: a poll returns these records exactly where the server is configured,
  -- reached and logged in to, the folder opens, the search gives ids, the logout fails in no way but
  -- those that are tolerated, and the records are those of the last ids of the search, as many as the
  -- batch size or all, one for each message that is read and in the same order, where a message is
  -- left out only if it cannot be fetched or mapped, in a way that is tolerated.
  pub fetch_mail-exact :
      (batch_size : ℕ) (rs : List RawRecord)
      → 1 ≤ batch_size
      → (fetch_mail d v folder batch_size ≡ ok rs) ↔ IsPolled batch_size rs
  fetch_mail-exact n rs some' = (fetch_mail-IsPolled n rs, IsPolled-fetch_mail n rs)
