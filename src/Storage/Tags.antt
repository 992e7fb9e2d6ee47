-- ===== src/Storage/Tags.antt =====
-- `TagRepository` of catchment/storage/repositories.py: the tag graph's reads and single writes.
-- A statement without ORDER BY gives its rows in the order of the table.
pub mod Paths
pub mod Rounds
pub mod Traversal
pub mod Cycles
use catchment.Prelude.{
  Bool, Eq, List, Option, Table, Text, [], any, contains, false, find, if◌then◌else◌, is_some, leb,
  ltb, map, nat_eq, none, not, order_by, pair_eq, select, some, suc, text_eq, true, upsert, zero, ℕ,
  ◌&&◌, ◌++◌, ◌==◌, ◌||◌, ◌∷◌,
}
use catchment.Prelude.Json.{one}
use catchment.Prelude.Strip.{codes}
use catchment.Storage.Enums.{Origin, active, is_active}
use catchment.Storage.Models.{Confidence, Edges, ItemTags, Store, Tag, is_item, is_tag}
use catchment.Storage.Session.{
  Db, Result, constraint, gets, modify, ok, pure, raise, unbounded_traversal, uuid4, ◌>>=◌, ◌>>◌,
}

abbrev pub tag_depth_hard_ceiling : ℕ
tag_depth_hard_ceiling = 32

abbrev pub default_tag_depth : ℕ
default_tag_depth = 8

pub record TagRef : Type 0 where
  pub tag_id : ℕ
  pub depth : ℕ

unfoldable pub validate_depth : ℕ → Result ℕ
validate_depth max_depth =
    if ltb max_depth 1 || ltb tag_depth_hard_ceiling max_depth
    then raise unbounded_traversal
    else ok max_depth

-- The other ends of the edges at a tag: `TagEdge.parent_id == tag_id`, or the other way.
unfoldable pub children : ℕ → Edges → List ℕ
children tag_id [] = []
children tag_id (((p, c), r) ∷ g) = if p == tag_id then c ∷ children tag_id g else children tag_id g

unfoldable pub parents : ℕ → Edges → List ℕ
parents tag_id [] = []
parents tag_id (((p, c), r) ∷ g) = if c == tag_id then p ∷ parents tag_id g else parents tag_id g

-- The rows that the recursive term joins to one row of the round before, and those of a round.
abbrev pub joined : (ℕ → List ℕ) → ℕ → TagRef → List TagRef
joined near bound r =
    if ltb r.depth bound
    then map (λ t. record { tag_id = t; depth = suc r.depth }) (near r.tag_id)
    else []

unfoldable pub next_round : (ℕ → List ℕ) → ℕ → List TagRef → List TagRef
next_round near bound [] = []
next_round near bound (r ∷ rs) = joined near bound r ++ next_round near bound rs

-- `WITH RECURSIVE ... UNION ALL`: rounds until one is empty.
unfoldable pub rounds : (ℕ → List ℕ) → ℕ → ℕ → List TagRef → List TagRef
rounds near bound zero rs = []
rounds near bound (suc fuel) rs = rs ++ rounds near bound fuel (next_round near bound rs)

-- The base of the query, at depth 1, and its rounds. The round after number `bound` is empty.
unfoldable pub recursive_walk : (ℕ → List ℕ) → ℕ → ℕ → List TagRef
unfolding rounds next_round
recursive_walk near bound tag_id =
    rounds near bound bound (map (λ t. record { tag_id = t; depth = 1 }) (near tag_id))

unfoldable pub build_ancestors_stmt : ℕ → ℕ → Result (Edges → List TagRef)
unfolding validate_depth recursive_walk
build_ancestors_stmt tag_id max_depth = elim (validate_depth max_depth) [
  | ok depth ↦ ok (λ g. recursive_walk (λ t. parents t g) depth tag_id)
  | raise e ↦ raise e
]

unfoldable pub build_descendants_stmt : ℕ → ℕ → Result (Edges → List TagRef)
unfolding validate_depth recursive_walk
build_descendants_stmt tag_id max_depth = elim (validate_depth max_depth) [
  | ok depth ↦ ok (λ g. recursive_walk (λ t. children t g) depth tag_id)
  | raise e ↦ raise e
]

-- `max_depth or self._max_depth`.
abbrev pub or_default : Option ℕ → ℕ → ℕ
or_default none own = own
or_default (some zero) own = own
or_default (some (suc d)) own = suc d

abbrev run_stmt : Result (Edges → List TagRef) → Db (List TagRef)
run_stmt (ok stmt) s = (ok (stmt s.edges), s)
run_stmt (raise e) s = (raise e, s)

-- `own` is the repository's `_max_depth`.
unfoldable pub ancestors : ℕ → ℕ → Option ℕ → Db (List TagRef)
unfolding build_ancestors_stmt
ancestors own tag_id max_depth = run_stmt (build_ancestors_stmt tag_id (or_default max_depth own))

unfoldable pub descendants : ℕ → ℕ → Option ℕ → Db (List TagRef)
unfolding build_descendants_stmt
descendants own tag_id max_depth =
    run_stmt (build_descendants_stmt tag_id (or_default max_depth own))

-- `Tag.slug == slug`, whatever the status.
unfoldable pub find_slug : Text → Table ℕ Tag → Option (ℕ × Tag)
find_slug slug [] = none
find_slug slug ((k, t) ∷ rest) = if t.slug == slug then some (k, t) else find_slug slug rest

abbrev pub new_tag : Text → Text → Option Text → Origin → Tag
new_tag slug label description origin = record {
  slug = slug;
  label = label;
  description = description;
  origin = origin;
  status = active;
  merged_into = none;
}

-- INSERT ... ON CONFLICT (slug) DO NOTHING, and the row that is there otherwise. The key of the row
-- to insert is drawn before the database looks for the conflict.
unfoldable pub insert_tag : Option (ℕ × Tag) → ℕ → Tag → Db (ℕ × Tag × Bool)
insert_tag (some (k, t)) id row = pure (k, t, false)
insert_tag none id row = do
  taken ← gets (λ s. is_tag id s)
  constraint (not taken)
  modify (λ s. record s { tags = upsert id row (λ old. old) s.tags })
  pure (id, row, true)

unfoldable pub get_or_create : Text → Text → Option Text → Origin → Db (ℕ × Tag × Bool)
unfolding insert_tag
get_or_create slug label description origin = do
  id ← uuid4
  existing ← gets (λ s. find_slug slug s.tags)
  insert_tag existing id (new_tag slug label description origin)

-- `ck_tag_edges_no_self_loop` and the two foreign keys, then ON CONFLICT DO NOTHING.
unfoldable pub add_edge : ℕ → ℕ → Text → Db (Unit {0})
add_edge parent_id child_id relation = do
  constraint (not (parent_id == child_id))
  present ← gets (λ s. is_tag parent_id s && is_tag child_id s)
  constraint present
  modify (λ s. record s { edges = upsert (parent_id, child_id) relation (λ old. old) s.edges })

abbrev pub reaches : ℕ → List TagRef → Bool
reaches tag_id = any (λ r. r.tag_id == tag_id)

abbrev pub broader : Text
broader = codes "broader"

unfoldable pub link_broader : ℕ → ℕ → ℕ → Db Bool
link_broader own parent_id child_id = if parent_id == child_id then pure false else do
  refs ← descendants own child_id none
  if reaches parent_id refs then pure false else do add_edge parent_id child_id broader; pure true

abbrev only_active : Option (ℕ × Tag) → Option (ℕ × Tag)
only_active none = none
only_active (some (k, t)) = if is_active t.status then some (k, t) else none

-- The slug is unique, so the filter on the status comes to the one row that has it.
unfoldable pub get_by_slug : Text → Store → Option (ℕ × Tag)
unfolding find_slug
get_by_slug slug s = only_active (find_slug slug s.tags)

unfoldable pub existing_slugs : List Text → Store → List Text
unfolding find_slug
existing_slugs slugs s = select (λ slug. is_some (find_slug slug s.tags)) slugs

-- The constraints of an assignment: both rows are there, and the confidence lies in [0, 1].
unfoldable pub assign : ℕ → ℕ → Confidence → Origin → Option Text → Db (Unit {0})
assign item_id tag_id confidence assigned_by trace_id = do
  present ← gets (λ s. is_item item_id s && is_tag tag_id s)
  constraint present
  constraint (leb confidence one)
  modify (λ s. record s {
    item_tags =
        upsert (item_id, tag_id)
          (record { confidence = confidence; assigned_by = assigned_by; trace_id = trace_id })
          (λ old. record {
            confidence = confidence;
            assigned_by = assigned_by;
            trace_id = trace_id;
          })
          s.item_tags;
  })

-- The ids of the active tags on the items, a join row at a time; and their labels, each once.
abbrev pub active_tag : Store → ℕ → Option Tag
active_tag s tag_id = elim (find tag_id s.tags) [
  | none ↦ none
  | some t ↦ if is_active t.status then some t else none
]

unfoldable pub labels_of : Store → List ℕ → ItemTags → List Text
labels_of s item_ids [] = []
labels_of s item_ids (((item_id, tag_id), row) ∷ rows) =
    let rest = labels_of s item_ids rows in
    if contains item_id item_ids
    then elim (active_tag s tag_id) [ none ↦ rest | some t ↦ t.label ∷ rest ]
    else rest

-- SELECT DISTINCT: the first of equal values.
unfoldable pub distinct {ℓ} : {A : Type ℓ} ⦃e : Eq A⦄ → List A → List A
distinct [] = []
distinct (a ∷ as') = let rest = distinct as' in if contains a rest then rest else a ∷ rest

-- `collate` is the order of the database's collation.
unfoldable pub labels_for_items : (Text → Text → Bool) → List ℕ → Store → List Text
unfolding labels_of distinct order_by
labels_for_items collate item_ids s = order_by collate (distinct (labels_of s item_ids s.item_tags))
