-- ===== src/Classification/Service.antt =====
-- The decision path of catchment/classification/service.py.
-- `own` is the depth of the tag repository, `normalize` is NFKD normalisation.
use catchment.Prelude.{
  Bool, List, Option, Text, [], contains, false, if◌then◌else◌, leb, length, ltb, map, nat_eq, none,
  not, pair_eq, some, suc, text_eq, ℕ, ◌-◌, ◌==◌, ◌∷◌,
}
use catchment.Storage.Enums.{llm}
use catchment.Storage.Models.{Confidence, Tag, Vector, is_item}
use catchment.Storage.Session.{
  Db, Result, gets, lift, lookup_error, ok, pure, raise, throw, value_error, ◌>>=◌, ◌>>◌,
}
use catchment.Storage.Tags.{
  assign, existing_slugs, get_by_slug, get_or_create, labels_for_items, link_broader,
}
use catchment.Storage.Items.{nearest, set_embedding}
use catchment.Classification.Types.{ClassificationResult, TagSuggestion, above, slug_of}
pub mod Cap
pub mod Applied
pub mod Budget
pub mod Whole
pub mod Coined

-- The suggestions kept, and how many were dropped for being new beyond the limit.
pub record Capped : Type 0 where
  pub kept : List TagSuggestion
  pub capped : ℕ

-- `for suggestion in suggestions` of `_cap_new_tags`, over suggestions beside their slugs; `coined`
-- counts the new ones kept so far.
abbrev keep : TagSuggestion → Capped → Capped
keep s rest = record rest { kept = s ∷ rest.kept }

abbrev drop_one : Capped → Capped
drop_one rest = record rest { capped = suc rest.capped }

-- The outcome of one round: a known suggestion is kept, a new one unless the limit is reached.
unfoldable pub cap_round : Bool → Bool → TagSuggestion → Capped → Capped
cap_round known full s rest =
    if known then keep s rest else if full then drop_one rest else keep s rest

unfoldable pub coined_next : Bool → Bool → ℕ → ℕ
coined_next known full coined = if known then coined else if full then coined else suc coined

unfoldable pub cap_loop : List Text → ℕ → ℕ → List (Text × TagSuggestion) → Capped
unfolding cap_round coined_next
cap_loop existing limit coined [] = record { kept = []; capped = 0 }
cap_loop existing limit coined ((slug, s) ∷ rest) =
    cap_round (contains slug existing) (leb limit coined) s (
      cap_loop existing limit (coined_next (contains slug existing) (leb limit coined) coined) rest)

-- `[s.slug for s in suggestions]`.
unfoldable pub with_slugs :
    (Text → Text) → List TagSuggestion → Result (List (Text × TagSuggestion))
unfolding slug_of
with_slugs normalize [] = ok []
with_slugs normalize (s ∷ rest) = elim (slug_of normalize s) [
  | raise e ↦ raise e
  | ok slug ↦ elim (with_slugs normalize rest) [
    | raise e ↦ raise e
    | ok more ↦ ok ((slug, s) ∷ more)
  ]
]

unfoldable pub cap_new_tags : (Text → Text) → ℕ → List TagSuggestion → Db Capped
unfolding cap_loop
cap_new_tags normalize limit suggestions = do
  slugged ← lift (with_slugs normalize suggestions)
  existing ← gets (existing_slugs (map (λ p. p.0) slugged))
  pure (cap_loop existing limit 0 slugged)

unfoldable pub place_under : ℕ → ℕ → Option (ℕ × Tag) → Db Bool
place_under own child_id none = pure false
place_under own child_id (some (parent_id, parent)) =
    if parent_id == child_id then pure false else link_broader own parent_id child_id

unfoldable pub place : ℕ → Option Text → ℕ → Db Bool
unfolding place_under
place own none child_id = pure false
place own (some slug) child_id = do
  parent ← gets (get_by_slug slug)
  place_under own child_id parent

abbrev pub count : Bool → ℕ → ℕ
count b n = if b then suc n else n

-- One round of the loop of `_apply`: whether the tag was created, and whether it was placed.
unfoldable pub apply_suggestion :
    (Text → Text) → ℕ → ℕ → Option Text → Bool → TagSuggestion → Db (Bool × Bool)
unfolding place
apply_suggestion normalize own item_id trace_id may_link s = do
  slug ← lift (slug_of normalize s)
  (tag_id, tag, created) ← get_or_create slug s.label s.description llm
  assign item_id tag_id s.confidence llm trace_id
  placed ← if may_link then place own s.broader_than tag_id else pure false
  pure (created, placed)

unfoldable pub apply_suggestions :
    (Text → Text) → ℕ → ℕ → Option Text → ℕ → ℕ → ℕ → List TagSuggestion → Db (ℕ × ℕ)
apply_suggestions normalize own item_id trace_id max_edges coined linked [] = pure (coined, linked)
apply_suggestions normalize own item_id trace_id max_edges coined linked (s ∷ rest) = do
  (created, placed) ← apply_suggestion normalize own item_id trace_id (ltb linked max_edges) s
  apply_suggestions normalize own item_id trace_id max_edges (count created coined)
      (count placed linked) rest

pub record Settings : Type 0 where
  pub embedding_model : Text
  pub classification_threshold : Confidence
  pub classification_neighbours : ℕ
  pub max_new_tags_per_item : ℕ
  pub max_new_edges_per_item : ℕ

-- What the path calls and does not implement: NFKD, the embedder, the classifier, the cosine
-- distance of pgvector, and the collation of the database.
pub record Services : Type 0 where
  pub normalize : Text → Text
  pub embed : List Text → Result (List Vector)
  pub classify : Text → List Text → Result ClassificationResult
  pub distance : Vector → Vector → ℕ
  pub collate : Text → Text → Bool

pub record ClassificationOutcome : Type 0 where
  pub candidates : ℕ
  pub suggested : ℕ
  pub assigned : ℕ
  pub coined : ℕ
  pub model : Text
  pub trace_id : Option Text
  pub capped : ℕ
  pub linked : ℕ

-- `ClassificationOutcome.discarded`.
abbrev pub discarded : ClassificationOutcome → ℕ
discarded o = o.suggested - o.assigned

-- `_embed`.
unfoldable pub first_vector : Result (List Vector) → Result Vector
first_vector (raise e) = raise e
first_vector (ok []) = raise value_error
first_vector (ok (v ∷ vs)) = ok v

unfoldable pub candidate_tags : Services → Settings → Vector → ℕ → Db (List Text)
candidate_tags x settings vector item_id = do
  neighbours ← nearest x.distance vector settings.classification_neighbours (some item_id)
  gets (labels_for_items x.collate (map (λ n. n.0) neighbours))

unfoldable pub classify_item : Services → Settings → ℕ → ℕ → Text → Db ClassificationOutcome
unfolding first_vector candidate_tags cap_new_tags above
classify_item x settings own item_id content = do
  there ← gets (is_item item_id)
  if not there then throw lookup_error else do
    vector ← lift (first_vector (x.embed (content ∷ [])))
    set_embedding item_id settings.embedding_model vector
    candidates ← candidate_tags x settings vector item_id
    result ← lift (x.classify content candidates)
    c ←
        cap_new_tags x.normalize settings.max_new_tags_per_item
          (above settings.classification_threshold result)
    (coined, linked) ←
        apply_suggestions x.normalize own item_id result.trace_id settings.max_new_edges_per_item 0
          0 c.kept
    pure (record {
      candidates = length candidates;
      suggested = length result.suggestions;
      assigned = length c.kept;
      coined = coined;
      model = result.model;
      trace_id = result.trace_id;
      capped = c.capped;
      linked = linked;
    })
