-- ===== src/Storage/TagGraph.antt =====
-- catchment/storage/tag_graph.py: what the explorer draws of the tag graph.
use catchment.Prelude.{
  Bool, List, Option, Table, Text, [], contains, false, find, if◌then◌else◌, leb, length, ltb, map,
  nat_eq, none, not, order_by, pair_eq, select, some, take, text_eq, true, upsert, ℕ, ◌&&◌, ◌==◌,
  ◌||◌, ◌∷◌,
}
use catchment.Prelude.Int.{abs, int_leb, neg, pos, text_leb, ℤ}
use catchment.Storage.Enums.{Origin, TagStatus}
use catchment.Storage.Models.{Store, Tag, is_tag}
use catchment.Storage.Session.{
  Db, Result, gets, lift, ok, other_error, pure, raise, throw, unbounded_traversal, ◌>>=◌, ◌>>◌,
}
use catchment.Storage.Tags.{TagRef, ancestors, descendants}
use catchment.Storage.Proposals.{UuidText}
use Prim.Native.Nat.{min, max}
pub mod Levels
pub mod Drawing
pub mod Whole
pub mod Tests

abbrev pub max_graph_nodes : ℕ
max_graph_nodes = 150

abbrev pub max_tag_list : ℕ
max_tag_list = 500

pub record TagSummary : Type 0 where
  pub tag_id : ℕ
  pub slug : Text
  pub label : Text
  pub status : TagStatus
  pub origin : Origin
  pub item_count : ℕ
  pub parent_count : ℕ
  pub child_count : ℕ

pub record TagNode : Type 0 where
  pub tag_id : ℕ
  pub slug : Text
  pub label : Text
  pub status : TagStatus
  pub origin : Origin
  pub item_count : ℕ
  pub level : ℤ

pub record TagEdgeRef : Type 0 where
  pub parent_id : ℕ
  pub child_id : ℕ
  pub relation : Text

pub record TagNeighbourhood : Type 0 where
  pub root : TagNode
  pub depth : ℕ
  pub nodes : List TagNode
  pub edges : List TagEdgeRef
  pub truncated : Bool

-- The three counts, of the rows that name the tag.
unfoldable pub item_count : ℕ → Store → ℕ
item_count tag_id s = length (select (λ row. row.0.1 == tag_id) s.item_tags)

unfoldable pub parent_count : ℕ → Store → ℕ
parent_count tag_id s = length (select (λ row. row.0.1 == tag_id) s.edges)

unfoldable pub child_count : ℕ → Store → ℕ
child_count tag_id s = length (select (λ row. row.0.0 == tag_id) s.edges)

unfoldable pub summary_of : Store → ℕ × Tag → TagSummary
unfolding item_count parent_count child_count
summary_of s (id, tag) = record {
  tag_id = id;
  slug = tag.slug;
  label = tag.label;
  status = tag.status;
  origin = tag.origin;
  item_count = item_count id s;
  parent_count = parent_count id s;
  child_count = child_count id s;
}

-- `items.desc(), Tag.label`: `collate` is the order of the database's collation.
unfoldable pub busier : (Text → Text → Bool) → TagSummary → TagSummary → Bool
busier collate a b =
    ltb b.item_count a.item_count || a.item_count == b.item_count && collate a.label b.label

unfoldable pub list_tags : (Text → Text → Bool) → ℕ → Store → List TagSummary
unfolding summary_of busier order_by
list_tags collate limit s =
    take (max 1 (min limit max_tag_list)) (order_by (busier collate) (map (summary_of s) s.tags))

-- `place` of `_levels`; `sign` is `pos` or `neg`. The nearer level stays.
unfoldable pub nearer : ℤ → ℤ → ℤ
nearer level current = if ltb (abs level) (abs current) then level else current

unfoldable pub place_refs : (ℕ → ℤ) → List TagRef → Table ℕ ℤ → Table ℕ ℤ
unfolding nearer
place_refs sign [] levels = levels
place_refs sign (r ∷ refs) levels =
    place_refs sign refs (upsert r.tag_id (sign r.depth) (nearer (sign r.depth)) levels)

unfoldable pub levels_of : ℕ → ℕ → ℕ → Db (Table ℕ ℤ)
unfolding place_refs
levels_of own tag_id depth = do
  up ← ancestors own tag_id (some depth)
  down ← descendants own tag_id (some depth)
  pure (
      upsert tag_id (pos 0) (λ old. pos 0)
        (place_refs pos down (place_refs neg up ((tag_id, pos 0) ∷ []))))

-- The key `(abs(level), str(id))`.
unfoldable pub closer : UuidText → ℕ × ℤ → ℕ × ℤ → Bool
closer u a b = ltb (abs a.1) (abs b.1) || abs a.1 == abs b.1 && text_leb (u.show a.0) (u.show b.0)

unfoldable pub bound_levels : UuidText → Table ℕ ℤ → ℕ → Table ℕ ℤ × Bool
unfolding closer order_by
bound_levels u levels root_id = if leb (length levels) max_graph_nodes then (levels, false) else (
  upsert root_id (pos 0) (λ old. pos 0) (take max_graph_nodes (order_by (closer u) levels)),
  true,
)

unfoldable pub level_at : Option ℤ → ℤ
level_at none = pos 0
level_at (some level) = level

unfoldable pub node_of : Store → Table ℕ ℤ → ℕ × Tag → TagNode
unfolding item_count level_at
node_of s levels (id, tag) = record {
  tag_id = id;
  slug = tag.slug;
  label = tag.label;
  status = tag.status;
  origin = tag.origin;
  item_count = item_count id s;
  level = level_at (find id levels);
}

unfoldable pub left_of : TagNode → TagNode → Bool
left_of a b =
    if int_leb a.level b.level && int_leb b.level a.level
    then text_leb a.label b.label
    else int_leb a.level b.level

unfoldable pub load_nodes : Table ℕ ℤ → Store → List TagNode
unfolding node_of left_of order_by
load_nodes levels s =
    order_by left_of
      (map (node_of s levels) (select (λ row. contains row.0 (map (λ l. l.0) levels)) s.tags))

unfoldable pub edges_among : List ℕ → Store → List TagEdgeRef
edges_among ids s =
    map (λ row. record { parent_id = row.0.0; child_id = row.0.1; relation = row.1 })
      (select (λ row. contains row.0.0 ids && contains row.0.1 ids) s.edges)

-- `next(node for node in nodes if node.tag_id == tag_id)`.
unfoldable pub node_with : ℕ → List TagNode → Option TagNode
node_with tag_id [] = none
node_with tag_id (n ∷ nodes) = if n.tag_id == tag_id then some n else node_with tag_id nodes

unfoldable pub drawn :
    ℕ → List TagNode → List TagEdgeRef → Bool → Option TagNode → Result (Option TagNeighbourhood)
drawn depth nodes edges truncated none = raise other_error
drawn depth nodes edges truncated (some root) = ok (
    some
      (record { root = root; depth = depth; nodes = nodes; edges = edges; truncated = truncated }))

unfoldable pub draw : UuidText → ℕ → ℕ → Table ℕ ℤ → Store → Result (Option TagNeighbourhood)
unfolding bound_levels load_nodes edges_among node_with drawn
draw u tag_id depth levels s =
    let bounded = bound_levels u levels tag_id in
    let nodes = load_nodes bounded.0 s in
    drawn depth nodes (edges_among (map (λ l. l.0) bounded.0) s) bounded.1 (node_with tag_id nodes)

unfoldable pub neighbourhood : UuidText → ℕ → ℕ → ℕ → Db (Option TagNeighbourhood)
unfolding levels_of draw
neighbourhood u own tag_id depth =
    if ltb depth 1 || ltb own depth then throw unbounded_traversal else do
      there ← gets (is_tag tag_id)
      if not there then pure none else do
        levels ← levels_of own tag_id depth
        result ← gets (draw u tag_id depth levels)
        lift result
