-- ===== src/Classification/Service/Applied.antt =====
-- `_apply`: what it may add to the tag graph, whether it returns or raises.
use catchment.Prelude.{
  Bool, Bool-cases, Eq, Option, Option-cases, Table, Text, [], arith, false, if◌then◌else◌, inl,
  inr, is_some, length, nat_eq, none, pair_eq, refl, some, suc, text_eq, true, upsert, ℕ, ◌+◌, ◌==◌,
  ◌∷◌, ◌≡◌, ◌≤◌, ◌⊎◌,
}
use catchment.Storage.Enums.{Origin, llm}
use catchment.Storage.Models.{Confidence, Store, Tag}
use catchment.Storage.Session.{
  Db, Db-cases, Error, Result, Result-cases, ok, pure, raise, ◌>>=◌, ◌>>◌,
}
use catchment.Storage.Tags.{
  add_edge, assign, broader, find_slug, get_by_slug, get_or_create, insert_tag, link_broader,
  new_tag, tag_depth_hard_ceiling,
}
use catchment.Storage.Tags.Cycles.{NoCycle, link_broader-NoCycle, link_broader-cases}
use catchment.Classification.Types.{TagSuggestion, slug_of}
use catchment.Classification.Service.{apply_suggestion, place, place_under}

length-upsert :
    {K V : Type 0} ⦃e : Eq K⦄ (k : K) (v : V) (f : V → V) (t : Table K V)
    → length (upsert k v f t) ≤ suc (length t)
unfolding upsert
length-upsert k v f [] = omega arith
length-upsert ⦃e⦄ k v f ((j, w) ∷ t) = ground (arith, length-upsert k v f t)

-- The tags hold the slug.
unfoldable pub slug_there : Text → Table ℕ Tag → Bool
slug_there slug t = is_some (find_slug slug t)

slug_there-upsert :
    (slug : Text) (id : ℕ) (row : Tag) (t : Table ℕ Tag)
    → slug_there slug t ≡ true
    → slug_there slug (upsert id row (λ old. old) t) ≡ true
unfolding find_slug upsert slug_there
slug_there-upsert slug id row [] h = cc
slug_there-upsert slug id row ((j, w) ∷ t) h = ground (arith, slug_there-upsert slug id row t)

-- `get_or_create` adds a tag only where the slug is not there, and loses none.
pub get_or_create-tags :
    (slug label : Text) (d : Option Text) (o : Origin) (s : Store)
    → length (get_or_create slug label d o s).1.tags
      ≤ length s.tags + (if slug_there slug s.tags then 0 else 1)
unfolding get_or_create insert_tag slug_there
get_or_create-tags slug label d o s = elim (Option-cases (find_slug slug s.tags)) [
  | inr (k, e) ↦ ground (arith, e)
  | inl e ↦
      ground
        (arith, e, length-upsert (s.uuids s.draws) (new_tag slug label d o) (λ old. old) s.tags)
]

pub get_or_create-keeps :
    (x slug label : Text) (d : Option Text) (o : Origin) (s : Store)
    → slug_there x s.tags ≡ true
    → slug_there x (get_or_create slug label d o s).1.tags ≡ true
unfolding get_or_create insert_tag slug_there
get_or_create-keeps x slug label d o s h = elim (Option-cases (find_slug slug s.tags)) [
  | inr (k, e) ↦ ground (arith, e)
  | inl e ↦ ground (arith, e, slug_there-upsert x (s.uuids s.draws) (new_tag slug label d o) s.tags)
]

edges-get_or_create :
    (slug label : Text) (d : Option Text) (o : Origin) (s : Store)
    → (get_or_create slug label d o s).1.edges ≡ s.edges
unfolding get_or_create
edges-get_or_create slug label d o s = elim (Option-cases (find_slug slug s.tags)) [
  | inr (k, e) ↦ ground (arith, e)
  | inl e ↦ ground (arith, e)
]

pub tags-assign :
    (i t : ℕ) (c : Confidence) (o : Origin) (d : Option Text) (s : Store)
    → ((assign i t c o d s).1.tags ≡ s.tags) × ((assign i t c o d s).1.edges ≡ s.edges)
unfolding assign
tags-assign i t c o d s = ground arith

abbrev edges_of_result : Result Bool → ℕ
edges_of_result (ok true) = 1
edges_of_result _ = 0

add_edge-length :
    (p c : ℕ) (s : Store)
    → length ((add_edge p c broader >> pure true) s).1.edges
      ≤ length s.edges + edges_of_result ((add_edge p c broader >> pure true) s).0
unfolding add_edge
add_edge-length p c s = ground (arith, length-upsert (p, c) broader (λ old. old) s.edges)

module _ (own : ℕ) (lo : 1 ≤ own) (hi : own ≤ tag_depth_hard_ceiling) where
  link_broader-length :
      (p c : ℕ) (s : Store)
      → length (link_broader own p c s).1.edges
        ≤ length s.edges + edges_of_result (link_broader own p c s).0
  link_broader-length p c s = elim (link_broader-cases own p c s lo hi) [
    | inl (run, why) ↦ rw run (omega arith)
    | inr (run, ne, free) ↦ rw run (add_edge-length p c s)
  ]

  pub place-length :
      (broader_than : Option Text) (c : ℕ) (s : Store)
      → length (place own broader_than c s).1.edges
        ≤ length s.edges + edges_of_result (place own broader_than c s).0
  unfolding place place_under
  place-length none c s = omega arith
  place-length (some slug) c s = elim (Option-cases (get_by_slug slug s)) [
    | inl e ↦ rw e (omega arith)
    | inr ((p, t), e) ↦ ground (arith, e, link_broader-length p c s)
  ]

  -- `place` keeps the graph free of short cycles.
  pub place-NoCycle :
      (broader_than : Option Text) (c : ℕ) (s : Store)
      → NoCycle s.edges (suc own)
      → NoCycle (place own broader_than c s).1.edges (suc own)
  unfolding place place_under
  place-NoCycle none c s keep = keep
  place-NoCycle (some slug) c s keep = elim (Option-cases (get_by_slug slug s)) [
    | inl e ↦ rw e keep
    | inr ((p, t), e) ↦ elim (Bool-cases (p == c)) [
      | inl same ↦ rw (e, same) keep
      | inr other ↦ rw (e, other) (link_broader-NoCycle own p c s lo hi keep)
    ]
  ]

-- What `apply_suggestion` does after the tag is assigned.
abbrev pub place_if : ℕ → Bool → Option Text → ℕ → Bool → Db (Bool × Bool)
place_if own may_link broader_than tag_id created = do
  placed ← if may_link then place own broader_than tag_id else pure false
  pure (created, placed)

module _ (normalize : Text → Text) (own item_id : ℕ) (trace_id : Option Text) (may_link : Bool)
    (x : TagSuggestion) where
  -- A round raises before it comes to the edges, or it leaves them to `place`.
  pub apply_suggestion-cases :
      (s : Store)
      → ((e : Error) × (t : Store) × (apply_suggestion normalize own item_id trace_id may_link x s
            ≡ (raise e, t))
          × (t.edges ≡ s.edges))
        ⊎ ((tag_id : ℕ) × (created : Bool) × (t : Store) × (t.edges ≡ s.edges)
            × (apply_suggestion normalize own item_id trace_id may_link x s
                ≡ place_if own may_link x.broader_than tag_id created t))
  unfolding apply_suggestion
  apply_suggestion-cases s = elim (Result-cases (slug_of normalize x)) [
    | inr (e, bad) ↦ inl (e, s, ground (arith, bad), refl)
    | inl (slug, good) ↦ elim (Db-cases (get_or_create slug x.label x.description llm) s) [
      | inr (e, t, bad) ↦ inl (
        e,
        t,
        ground (arith, good, bad),
        ground (arith, bad, edges-get_or_create slug x.label x.description llm s),
      )
      | inl ((tag_id, tag, created), t, got) ↦
          elim (Db-cases (assign item_id tag_id x.confidence llm trace_id) t) [
            | inr (e, t', bad) ↦ inl (
              e,
              t',
              ground (arith, good, got, bad),
              ground (
                arith,
                got,
                bad,
                edges-get_or_create slug x.label x.description llm s,
                tags-assign item_id tag_id x.confidence llm trace_id t,
              ),
            )
            | inl (u, t', done) ↦ inr (
              tag_id,
              created,
              t',
              ground (
                arith,
                got,
                done,
                edges-get_or_create slug x.label x.description llm s,
                tags-assign item_id tag_id x.confidence llm trace_id t,
              ),
              ground (arith, good, got, done),
            )
          ]
    ]
  ]
