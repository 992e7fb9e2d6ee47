-- ===== src/Storage/TagGraph/Whole.antt =====
-- `neighbourhood` as a whole.
use catchment.Prelude.{
  All, All-Has, Bool-cases, Has, Has-found, Has-map, Has-of_map, Has-order_by, Has-order_by_new,
  Has-select, Has-select_in, IsKeyed, List, Option, Table, Text, [], ap, arith, contains, find,
  find-Has, inl, inr, is_some, length, length-map, length-order_by, map, nat_eq, none, pair_eq,
  refl, select, some, subst, suc, sym, text_eq, true, zero, ℕ, ◌&&◌, ◌==◌, ◌∙◌, ◌∷◌, ◌≡◌, ◌≤◌, ◌⊎◌,
}
use catchment.Prelude.Int.{abs, negsuc, pos, ℤ}
use catchment.Prelude.Least.{IsLeast}
use catchment.Storage.Models.{Edges, Store, is_tag}
use catchment.Storage.Session.{ok}
use catchment.Storage.Tags.{tag_depth_hard_ceiling}
use catchment.Storage.Proposals.{UuidText}
use catchment.Storage.Merge.Repointing.{NamesTags}
use catchment.Storage.TagGraph.{
  TagEdgeRef, TagNeighbourhood, TagNode, bound_levels, draw, drawn, edges_among, left_of, level_at,
  load_nodes, max_graph_nodes, neighbourhood, node_of, node_with,
}
use catchment.Storage.TagGraph.Levels.{Placed, levels_of-exact}
use catchment.Storage.TagGraph.Drawing.{IsCentred, bound_levels-IsBounded, length-select_keys}

abbrev keys : Table ℕ ℤ → List ℕ
keys t = map (λ l. l.0) t

contains-keys : (k : ℕ) (t : Table ℕ ℤ) → contains k (keys t) ≡ is_some (find k t)
unfolding find
contains-keys k [] = refl
contains-keys k ((j, l) ∷ t) = ground (arith, contains-keys k t)

some_of : {A : Type 0} (o : Option A) → is_some o ≡ true → (a : A) × (o ≡ some a)
some_of none h = ground (arith, h)
some_of (some a) h = (a, refl)

abbrev HasNode : ℕ → List TagNode → Type 0
HasNode id nodes = (n : TagNode) × Has n nodes × (n.tag_id ≡ id)

-- An edge of the graph between two of the nodes.
abbrev IsDrawn : Store → List TagNode → TagEdgeRef → Type 0
IsDrawn s nodes e =
    Has ((e.parent_id, e.child_id), e.relation) s.edges
    × HasNode e.parent_id nodes
    × HasNode e.child_id nodes

module _ (s : Store) (kept : Table ℕ ℤ) where
  load_nodes-HasNode :
      (id : ℕ)
      → is_tag id s ≡ true
      → contains id (keys kept) ≡ true
      → HasNode id (load_nodes kept s)
  unfolding load_nodes node_of
  load_nodes-HasNode id there in_kept =
      let (tag, found) = some_of (find id s.tags) there in
      let inside =
        Has-select_in (λ row. contains row.0 (keys kept)) (id, tag) s.tags
          (Has-found id tag s.tags found) in_kept in
      (
        node_of s kept (id, tag),
        Has-order_by_new left_of _ _ (Has-map (node_of s kept) (id, tag) _ inside),
        refl,
      )

  load_nodes-level :
      (n : TagNode)
      → Has n (load_nodes kept s)
      → (l : ℤ) × (find n.tag_id kept ≡ some l) × (n.level ≡ l)
  unfolding load_nodes node_of level_at
  load_nodes-level n m =
      let picked = select (λ row. contains row.0 (keys kept)) s.tags in
      let ((id, tag), inside, same) =
        Has-of_map (node_of s kept) n picked
          (Has-order_by left_of n (map (node_of s kept) picked) m) in
      let (_, in_kept) = Has-select (λ row. contains row.0 (keys kept)) (id, tag) s.tags inside in
      let (l, found) = some_of (find id kept) (sym (contains-keys id kept) ∙ in_kept) in
      subst (λ x. (l : ℤ) × (find x.tag_id kept ≡ some l) × (x.level ≡ l)) same
        (l, found, ground (arith, found))

  load_nodes-few : IsKeyed s.tags → length (load_nodes kept s) ≤ length kept
  unfolding load_nodes
  load_nodes-few k =
      let picked = select (λ row. contains row.0 (keys kept)) s.tags in
      let few = length-select_keys (keys kept) s.tags k in
      let sorted = length-order_by left_of (map (node_of s kept) picked) in
      omega (arith, length-map (node_of s kept) picked, length-map (λ (l : ℕ × ℤ). l.0) kept)

  node_with-HasNode :
      (id : ℕ) (nodes : List TagNode)
      → HasNode id nodes
      → (n : TagNode) × (node_with id nodes ≡ some n) × Has n nodes × (n.tag_id ≡ id)
  unfolding node_with
  node_with-HasNode id (x ∷ nodes) (n, m, e) = elim (Bool-cases (x.tag_id == id)) [
    | inl same ↦ (x, ground (arith, same), inl refl, (nat_eq.beq_iff x.tag_id id).0 same)
    | inr other ↦ elim m [
      | inl q ↦ ground (arith, other, q, e, nat_eq.beq_iff x.tag_id id)
      | inr k ↦
          let (y, got, at, is) = node_with-HasNode id nodes (n, k, e) in
          (y, ground (arith, other, got), inr at, is)
    ]
  ]
  node_with-HasNode id [] (n, m, e) = absurd m

  edges_among-HasNode :
      NamesTags s s.edges → All (IsDrawn s (load_nodes kept s)) (edges_among (keys kept) s)
  unfolding edges_among
  edges_among-HasNode named =
      each (select (λ row. contains row.0.0 (keys kept) && contains row.0.1 (keys kept)) s.edges)
        (λ row m.
          Has-select (λ row. contains row.0.0 (keys kept) && contains row.0.1 (keys kept)) row
            s.edges m)
    where
      each :
          (rows : Edges)
          → ((row : (ℕ × ℕ) × Text)
              → Has row rows
              → Has row s.edges
                × ((contains row.0.0 (keys kept) && contains row.0.1 (keys kept)) ≡ true))
          → All (IsDrawn s (load_nodes kept s)) (
              map
                (λ row. record { parent_id = row.0.0; child_id = row.0.1; relation = row.1 })
                rows)
      each [] h = tt
      each (((p, c), r) ∷ rows) h =
          let (m, kept_both) = h ((p, c), r) (inl refl) in
          let there =
            All-Has (λ row. (is_tag row.0.0 s && is_tag row.0.1 s) ≡ true) s.edges ((p, c), r) named
              m in
          (
            (
              m,
              load_nodes-HasNode p (ground (arith, there)) (ground (arith, kept_both)),
              load_nodes-HasNode c (ground (arith, there)) (ground (arith, kept_both)),
            ),
            each rows (λ row k. h row (inr k)),
          )

-- What is drawn around a seed: the seed on level 0; at most `max_graph_nodes` tags, each on a level
-- where a path of at most so many edges places it; and only edges of the graph both of whose ends
-- are drawn.
pub record IsDrawing (s : Store) (tag_id depth : ℕ) (n : TagNeighbourhood) : Type 0 where
  pub at_seed : n.root.tag_id ≡ tag_id
  pub seed_level : n.root.level ≡ pos 0
  pub few : length n.nodes ≤ max_graph_nodes
  pub placed :
      (node : TagNode) → Has node n.nodes → Placed s.edges tag_id depth node.tag_id node.level
  pub joined_nodes : All (IsDrawn s n.nodes) n.edges

levels-IsCentred :
    (g : Edges) (root depth : ℕ) (levels : Table ℕ ℤ)
    → IsKeyed levels
    → find root levels ≡ some (pos 0)
    → ((t : ℕ) → IsLeast abs (Placed g root depth t) (find t levels))
    → IsCentred root levels
levels-IsCentred g root depth levels k centre least = record {
  keyed = k;
  centre = centre;
  others = others;
}
  where
    others : (t : ℕ) (l : ℤ) → find t levels ≡ some l → (t ≡ root) ⊎ (1 ≤ abs l)
    others t (negsuc n) e = inr (omega arith)
    others t (pos (suc n)) e = inr (omega arith)
    others t (pos zero) e = inl (sym (subst (IsLeast abs (Placed g root depth t)) e (least t)).0.0)

module _ (u : UuidText) (s : Store) (tag_id depth : ℕ) (levels : Table ℕ ℤ)
    (there : is_tag tag_id s ≡ true) (keyed : IsKeyed s.tags) (named : NamesTags s s.edges)
    (k : IsKeyed levels) (centre : find tag_id levels ≡ some (pos 0))
    (least : (t : ℕ) → IsLeast abs (Placed s.edges tag_id depth t) (find t levels)) where
  draw-IsDrawing :
      (n : TagNeighbourhood) × (draw u tag_id depth levels s ≡ ok (some n))
      × IsDrawing s tag_id depth n
  unfolding draw drawn
  draw-IsDrawing =
      let bounded = bound_levels u levels tag_id in
      let b =
        bound_levels-IsBounded u tag_id levels
          (levels-IsCentred s.edges tag_id depth levels k centre least) in
      let nodes = load_nodes bounded.0 s in
      let (root, got, at, is) = node_with-HasNode s bounded.0 tag_id nodes (
        load_nodes-HasNode s bounded.0 tag_id there
          (contains-keys tag_id bounded.0 ∙ ground (arith, b.seed_kept))) in
      let (l, found, on) = load_nodes-level s bounded.0 root at in
      let few = load_nodes-few s bounded.0 keyed in
      let room = b.few in
      (
        record {
          root = root;
          depth = depth;
          nodes = nodes;
          edges = edges_among (keys bounded.0) s;
          truncated = bounded.1;
        },
        rw got refl,
        record {
          at_seed = is;
          seed_level = ground (arith, on, found, b.seed_kept, ap (λ j. find j bounded.0) is);
          few = omega arith;
          placed = λ node m.
              let (l', found', on') = load_nodes-level s bounded.0 node m in
              let in_levels =
                find-Has node.tag_id l' levels k
                  (b.from_levels (node.tag_id, l') (Has-found node.tag_id l' bounded.0 found')) in
              subst (Placed s.edges tag_id depth node.tag_id) (sym on')
                (subst (IsLeast abs (Placed s.edges tag_id depth node.tag_id)) in_levels
                  (least node.tag_id)).0;
          joined_nodes = edges_among-HasNode s bounded.0 named;
        },
      )

-- In a database whose tags have one row each and whose edges name tags that are there, at a depth
-- from 1 to that of the repository, which is at most 32: `neighbourhood` of a tag that is there
-- returns a drawing and writes nothing. The drawing has the tag as its root on level 0, at most
-- `max_graph_nodes` nodes, each on a level where a path of at most so many edges places it, and only
-- edges of the graph both of whose ends are nodes.
pub neighbourhood-IsDrawing :
    (u : UuidText) (own tag_id depth : ℕ) (s : Store)
    → 1 ≤ depth
    → depth ≤ own
    → own ≤ tag_depth_hard_ceiling
    → is_tag tag_id s ≡ true
    → IsKeyed s.tags
    → NamesTags s s.edges
    → (n : TagNeighbourhood) × (neighbourhood u own tag_id depth s ≡ (ok (some n), s))
      × IsDrawing s tag_id depth n
unfolding neighbourhood
neighbourhood-IsDrawing u own tag_id depth s lo within hi there keyed named =
    let (levels, run, k, centre, least) = levels_of-exact own tag_id depth s lo (omega arith) in
    let (n, drawn_as, is) =
      draw-IsDrawing u s tag_id depth levels there keyed named k centre least in
    (n, ground (arith, there, run, drawn_as), is)
