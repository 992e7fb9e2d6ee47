-- ===== src/Retrieval.antt =====
-- catchment/retrieval/graphrag.py: vector seeds, and what the tag graph reaches from them.
use catchment.Prelude.{
  List, Option, Table, Text, [], contains, find, if◌then◌else◌, is_some, leb, length, ltb, map,
  nat_eq, none, not, order_by, pair_eq, select, some, suc, take, text_eq, upsert, ℕ, ◌&&◌, ◌*◌,
  ◌++◌, ◌∷◌,
}
use catchment.Prelude.Floats.{FloatOps, half, seven_tenths, three_tenths}
use catchment.Prelude.Json.{one}
use catchment.Prelude.Strip.{is_empty, strip}
use catchment.Storage.Models.{ItemTags, Store, Vector}
use catchment.Storage.Session.{Db, Result, gets, lift, pure, throw, value_error, ◌>>=◌, ◌>>◌}
use catchment.Storage.Tags.{TagRef, active_tag, ancestors, descendants, distinct}
use catchment.Storage.Items.{nearest}
use catchment.Classification.Service.{first_vector}
pub mod Tagged
pub mod Walk
pub mod Ranking
pub mod Dedupe
pub mod Found
pub mod Tests
use Prim.Native.Nat.{min}

pub data Route : Type 0 where
  seed expanded : Route

pub record SearchHit : Type 0 where
  pub item_id : ℕ
  pub score : ℕ
  pub route : Route
  pub distance : Option ℕ
  pub graph_depth : Option ℕ
  pub matched_tags : Option ℕ

pub record SearchResult : Type 0 where
  pub hits : List SearchHit
  pub seed_count : ℕ
  pub expanded_count : ℕ
  pub tags_walked : ℕ

-- `TagRepository.tag_ids_for_items`: the active tags on the items, each once.
unfoldable pub active_ids : Store → List ℕ → ItemTags → List ℕ
active_ids s item_ids [] = []
active_ids s item_ids (((item_id, tag_id), row) ∷ rows) =
    let rest = active_ids s item_ids rows in
    if contains item_id item_ids && is_some (active_tag s tag_id) then tag_id ∷ rest else rest

unfoldable pub tag_ids_for_items : List ℕ → Store → List ℕ
unfolding active_ids distinct
tag_ids_for_items item_ids s = distinct (active_ids s item_ids s.item_tags)

-- `TagRepository.item_tag_pairs`.
unfoldable pub item_tag_pairs : List ℕ → List ℕ → ℕ → Store → List (ℕ × ℕ)
item_tag_pairs tag_ids exclude limit s = take limit (
    select (λ p. contains p.1 tag_ids && not (contains p.0 exclude))
      (map (λ row. row.0) s.item_tags))

-- The inner loop of `_walk`: the least depth at which each tag was met. `reached` holds the same
-- tags as the keys of `depths`.
unfoldable pub note_refs : List TagRef → Table ℕ ℕ → Table ℕ ℕ
note_refs [] depths = depths
note_refs (r ∷ refs) depths =
    note_refs refs (upsert r.tag_id r.depth (λ old. min old r.depth) depths)

unfoldable pub walk_tags : ℕ → List ℕ → Table ℕ ℕ → Db (Table ℕ ℕ)
unfolding note_refs
walk_tags own [] depths = pure depths
walk_tags own (tag_id ∷ rest) depths = do
  up ← ancestors own tag_id none
  down ← descendants own tag_id none
  walk_tags own rest (note_refs (up ++ down) (upsert tag_id 0 (λ old. 0) depths))

unfoldable pub walk : ℕ → List ℕ → Db (Table ℕ ℕ)
unfolding walk_tags tag_ids_for_items
walk own [] = pure []
walk own (id ∷ ids) = do tag_ids ← gets (tag_ids_for_items (id ∷ ids)); walk_tags own tag_ids []

-- `d.get(key, default)`.
abbrev pub get_or : ℕ → Option ℕ → ℕ
get_or default none = default
get_or default (some n) = n

-- The loop of `_aggregate`: `matches` and `nearest`.
unfoldable pub fold_pairs : Table ℕ ℕ → List (ℕ × ℕ) → Table ℕ ℕ → Table ℕ ℕ → Table ℕ ℕ × Table ℕ ℕ
fold_pairs tag_depth [] matches nearest = (matches, nearest)
fold_pairs tag_depth ((item_id, tag_id) ∷ pairs) matches nearest =
    let depth = get_or 1 (find tag_id tag_depth) in
    fold_pairs tag_depth pairs (upsert item_id 1 (λ n. suc n) matches)
      (upsert item_id depth (λ old. min old depth) nearest)

unfoldable pub aggregate : List (ℕ × ℕ) → Table ℕ ℕ → List (ℕ × ℕ × ℕ)
unfolding fold_pairs
aggregate pairs tag_depth =
    let folded = fold_pairs tag_depth pairs [] [] in
    map (λ row. (row.0, row.1, get_or 0 (find row.0 folded.1))) folded.0

-- `_dedupe`: the best hit of each item, the earlier of equal ones, in the order of first hits.
unfoldable pub keep_best : SearchHit → SearchHit → SearchHit
keep_best hit current = if ltb current.score hit.score then hit else current

unfoldable pub dedupe_into : Table ℕ SearchHit → List SearchHit → Table ℕ SearchHit
unfolding keep_best
dedupe_into best [] = best
dedupe_into best (hit ∷ hits) = dedupe_into (upsert hit.item_id hit (keep_best hit) best) hits

unfoldable pub dedupe : List SearchHit → List SearchHit
unfolding dedupe_into
dedupe hits = map (λ row. row.1) (dedupe_into [] hits)

-- `hits.sort(key=score, reverse=True)`, which keeps the order of equal hits.
unfoldable pub by_score : List SearchHit → List SearchHit
unfolding order_by
by_score hits = order_by (λ a b. leb b.score a.score) hits

module _ (ops : FloatOps) where
  unfoldable pub expanded_score : ℕ → ℕ → ℕ
  expanded_score depth matches =
      let proximity = ops.div one (ops.add one (ops.of_int depth)) in
      let density = ops.div (ops.of_int (min matches 5)) (ops.of_int 5) in
      ops.mul half (ops.add (ops.mul seven_tenths proximity) (ops.mul three_tenths density))

  unfoldable pub seed_hit : ℕ × ℕ → SearchHit
  seed_hit (item_id, distance) = record {
    item_id = item_id;
    score = ops.add half (ops.above one (ops.div distance (2 * one)));
    route = seed;
    distance = some distance;
    graph_depth = none;
    matched_tags = none;
  }

  unfoldable pub expanded_hit : ℕ × ℕ × ℕ → SearchHit
  unfolding expanded_score
  expanded_hit (item_id, matches, depth) = record {
    item_id = item_id;
    score = expanded_score depth matches;
    route = expanded;
    distance = none;
    graph_depth = some depth;
    matched_tags = some matches;
  }

  -- The hits that the walk reached, before they are merged with the seeds.
  unfoldable pub expanded_hits : List ℕ → Table ℕ ℕ → Store → List SearchHit
  unfolding aggregate expanded_hit item_tag_pairs
  expanded_hits seed_ids [] s = []
  expanded_hits seed_ids (row ∷ depths) s =
      map expanded_hit
        (aggregate (item_tag_pairs (map (λ r. r.0) (row ∷ depths)) seed_ids 500 s) (row ∷ depths))

  unfoldable pub found : ℕ → List (ℕ × ℕ) → Table ℕ ℕ → List SearchHit → SearchResult
  unfolding dedupe by_score seed_hit
  found limit seeds depths more = record {
    hits = take limit (by_score (dedupe (map seed_hit seeds ++ more)));
    seed_count = length seeds;
    expanded_count = length more;
    tags_walked = length depths;
  }

  -- From the vector on.
  unfoldable pub search_near : (Vector → Vector → ℕ) → Vector → ℕ → ℕ → ℕ → Db SearchResult
  unfolding walk found expanded_hits
  search_near distance vector own limit seed_limit = do
    seeds ← nearest distance vector seed_limit none
    depths ← walk own (map (λ p. p.0) seeds)
    more ← gets (expanded_hits (map (λ p. p.0) seeds) depths)
    pure (found limit seeds depths more)

  -- `embed` is the embedder, `distance` the cosine distance.
  unfoldable pub search :
      (List Text → Result (List Vector))
      → (Vector → Vector → ℕ)
      → ℕ
      → Text
      → ℕ
      → ℕ
      → Db SearchResult
  unfolding search_near first_vector
  search embed distance own query limit seed_limit =
      if is_empty (strip query) then throw value_error else do
        vector ← lift (first_vector (embed (strip query ∷ [])))
        search_near distance vector own limit seed_limit
