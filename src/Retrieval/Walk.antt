-- ===== src/Retrieval/Walk.antt =====
-- `_walk`: how near each tag lies to the tags of the seeds.
use catchment.Prelude.{
  Has, Has-append, Has-append_left, Has-append_right, List, Table, [], ap, arith, find, inl, inr,
  nat_eq, none, pair_eq, refl, subst, suc, sym, text_eq, upsert, zero, ℕ, ◌++◌, ◌↔◌, ◌∷◌, ◌≡◌, ◌≤◌,
  ◌⊎◌,
}
use catchment.Prelude.Least.{IsLeast, IsLeast-iff, note-IsLeast}
use catchment.Storage.Models.{Edges, Store}
use catchment.Storage.Session.{ok}
use catchment.Storage.Tags.{TagRef, tag_depth_hard_ceiling}
use catchment.Storage.Tags.Paths.{Down}
use catchment.Storage.Tags.Traversal.{ancestors-exact, descendants-exact}
use catchment.Retrieval.{note_refs, tag_ids_for_items, walk, walk_tags}
use catchment.Retrieval.Tagged.{Tagged, tag_ids_for_items-Tagged}
use Prim.Native.Nat.{min}

-- A row for the tag at that depth is among the references.
abbrev Met : List TagRef → ℕ → ℕ → Type 0
Met refs t d = Has (record { tag_id = t; depth = d }) refs

abbrev pub itself : ℕ → ℕ
itself n = n

note_refs-IsLeast :
    (P : ℕ → Type 0) (refs : List TagRef) (depths : Table ℕ ℕ) (t : ℕ)
    → IsLeast itself P (find t depths)
    → IsLeast itself (λ d. P d ⊎ Met refs t d) (find t (note_refs refs depths))
unfolding note_refs
note_refs-IsLeast P [] depths t h = IsLeast-iff itself P _ (find t depths) (λ d. (inl, drop d)) h
  where
    drop : (d : ℕ) → P d ⊎ Met [] t d → P d
    drop d (inl p) = p
    drop d (inr m) = absurd m
note_refs-IsLeast P (r ∷ refs) depths t h =
    IsLeast-iff itself (λ d. (P d ⊎ ((r.tag_id ≡ t) × (d ≡ r.depth))) ⊎ Met refs t d) _
      (find t (note_refs (r ∷ refs) depths)) (λ d. (join d, split d))
      (note_refs-IsLeast (λ d. P d ⊎ ((r.tag_id ≡ t) × (d ≡ r.depth))) refs
        (upsert r.tag_id r.depth (λ old. min old r.depth) depths) t
        (note-IsLeast itself P r.tag_id r.depth t (λ old. min old r.depth) depths
          (λ old. ground arith) h))
  where
    join :
        (d : ℕ) → (P d ⊎ ((r.tag_id ≡ t) × (d ≡ r.depth))) ⊎ Met refs t d → P d ⊎ Met (r ∷ refs) t d
    join d (inl (inl p)) = inl p
    join d (inl (inr q)) = inr (inl (ground (arith, q)))
    join d (inr m) = inr (inr m)

    split :
        (d : ℕ) → P d ⊎ Met (r ∷ refs) t d → (P d ⊎ ((r.tag_id ≡ t) × (d ≡ r.depth))) ⊎ Met refs t d
    split d (inl p) = inl (inl p)
    split d (inr (inl q)) = inl (inr (ap (λ x. x.tag_id) q, sym (ap (λ x. x.depth) q)))
    split d (inr (inr m)) = inr m

abbrev Among : List ℕ → ℕ → Type 0
Among tags t = Has t tags

-- A path of that many edges, up or down, joins one of those tags to this one.
pub record Near (g : Edges) (own : ℕ) (IsTag : ℕ → Type 0) (t d : ℕ) : Type 0 where
  pub from : ℕ
  pub is_tag : IsTag from
  pub within : d ≤ own
  pub path : Down g d from t ⊎ Down g d t from

module _ (own : ℕ) (s : Store) (lo : 1 ≤ own) (hi : own ≤ tag_depth_hard_ceiling) where
  -- What one tag adds: itself at depth 0, and what its two walks meet.
  Near-cons :
      (tag_id t d : ℕ) (rest : List ℕ) (up down : List TagRef) (P : Type 0)
      → ((r : TagRef)
          → Has r up ↔ (Down s.edges r.depth r.tag_id tag_id × (1 ≤ r.depth) × (r.depth ≤ own)))
      → ((r : TagRef)
          → Has r down ↔ (Down s.edges r.depth tag_id r.tag_id × (1 ≤ r.depth) × (r.depth ≤ own)))
      → ((P ⊎ ((tag_id ≡ t) × (d ≡ 0))) ⊎ Met (up ++ down) t d) ⊎ Near s.edges own (Among rest) t d
        ↔ (P ⊎ Near s.edges own (Among (tag_id ∷ rest)) t d)
  Near-cons tag_id t d rest up down P ups downs = (to, back d)
    where
      to :
          ((P ⊎ ((tag_id ≡ t) × (d ≡ 0))) ⊎ Met (up ++ down) t d)
            ⊎ Near s.edges own (Among rest) t d
          → P ⊎ Near s.edges own (Among (tag_id ∷ rest)) t d
      to (inl (inl (inl p))) = inl p
      to (inl (inl (inr q))) = inr (record {
        from = tag_id;
        is_tag = inl refl;
        within = ground (arith, q);
        path = inl (subst (λ n. Down s.edges n tag_id t) (sym q.1) q.0);
      })
      to (inl (inr m)) = elim (Has-append _ up down m) [
        | inl u ↦
            let (path, _, le) = (ups _).0 u in
            inr (record { from = tag_id; is_tag = inl refl; within = le; path = inr path })
        | inr w ↦
            let (path, _, le) = (downs _).0 w in
            inr (record { from = tag_id; is_tag = inl refl; within = le; path = inl path })
      ]
      to (inr n) =
          inr (record { from = n.from; is_tag = inr n.is_tag; within = n.within; path = n.path })

      here :
          (n : ℕ)
          → n ≤ own
          → Down s.edges n tag_id t ⊎ Down s.edges n t tag_id
          → (P ⊎ ((tag_id ≡ t) × (n ≡ 0))) ⊎ Met (up ++ down) t n
      here zero le (inl path) = inl (inr (path, refl))
      here zero le (inr path) = inl (inr (sym path, refl))
      here (suc n) le (inl path) = inr (
          Has-append_right _ up down
            ((downs (record { tag_id = t; depth = suc n })).1 (path, omega arith, le)))
      here (suc n) le (inr path) = inr (
          Has-append_left _ up down
            ((ups (record { tag_id = t; depth = suc n })).1 (path, omega arith, le)))

      back :
          (n : ℕ)
          → P ⊎ Near s.edges own (Among (tag_id ∷ rest)) t n
          → ((P ⊎ ((tag_id ≡ t) × (n ≡ 0))) ⊎ Met (up ++ down) t n)
            ⊎ Near s.edges own (Among rest) t n
      back n (inl p) = inl (inl (inl p))
      back n (inr near) = elim near.is_tag [
        | inl e ↦ inl (
            here n near.within
              (subst (λ f. Down s.edges n f t ⊎ Down s.edges n t f) (sym e) near.path))
        | inr m ↦
            inr (record { from = near.from; is_tag = m; within = near.within; path = near.path })
      ]

  walk_tags-IsLeast :
      (tags : List ℕ) (depths : Table ℕ ℕ) (P : ℕ → ℕ → Type 0)
      → ((t : ℕ) → IsLeast itself (P t) (find t depths))
      → (depths' : Table ℕ ℕ) × (walk_tags own tags depths s ≡ (ok depths', s))
        × ((t : ℕ)
            → IsLeast itself (λ d. P t d ⊎ Near s.edges own (Among tags) t d) (find t depths'))
  unfolding walk_tags
  walk_tags-IsLeast [] depths P h = (
    depths,
    refl,
    λ t. IsLeast-iff itself (P t) _ (find t depths) (λ d. (inl, only (P t d) d t)) (h t),
  )
    where
      only : (Q : Type 0) (d t : ℕ) → Q ⊎ Near s.edges own (Among []) t d → Q
      only Q d t (inl q) = q
      only Q d t (inr n) = absurd n.is_tag
  walk_tags-IsLeast (tag_id ∷ rest) depths P h =
      let (up, up_run, ups) = ancestors-exact own tag_id none s lo hi in
      let (down, down_run, downs) = descendants-exact own tag_id none s lo hi in
      let first = upsert tag_id 0 (λ old. 0) depths in
      let (depths', run, lowest) =
        walk_tags-IsLeast rest (note_refs (up ++ down) first)
          (λ t d. (P t d ⊎ ((tag_id ≡ t) × (d ≡ 0))) ⊎ Met (up ++ down) t d)
          (λ t.
            note_refs-IsLeast (λ d. P t d ⊎ ((tag_id ≡ t) × (d ≡ 0))) (up ++ down) first t
              (note-IsLeast itself (P t) tag_id 0 t (λ old. 0) depths (λ old. ground arith)
                (h t))) in
      (
        depths',
        ground (arith, up_run, down_run, run),
        λ t.
            IsLeast-iff itself _ _ (find t depths')
              (λ d. Near-cons tag_id t d rest up down (P t d) ups downs) (lowest t),
      )

from_Tagged :
    (own : ℕ) (s : Store) (item_ids : List ℕ) (t d : ℕ)
    → Near s.edges own (Among (tag_ids_for_items item_ids s)) t d
      ↔ Near s.edges own (Tagged s item_ids) t d
from_Tagged own s item_ids t d = (
  λ n. record {
    from = n.from;
    is_tag = (tag_ids_for_items-Tagged s item_ids n.from).0 n.is_tag;
    within = n.within;
    path = n.path;
  },
  λ n. record {
    from = n.from;
    is_tag = (tag_ids_for_items-Tagged s item_ids n.from).1 n.is_tag;
    within = n.within;
    path = n.path;
  },
)

-- At a depth of the tag repository from 1 to 32, `_walk` succeeds and writes nothing, and what it
-- returns gives each tag the least number of edges of a path, up or down, that joins it to an active
-- tag that a join row puts on one of the items, as far as the depth goes; a tag that no such path
-- joins has no entry.
pub walk-exact :
    (own : ℕ) (seed_ids : List ℕ) (s : Store)
    → 1 ≤ own
    → own ≤ tag_depth_hard_ceiling
    → (depths : Table ℕ ℕ) × (walk own seed_ids s ≡ (ok depths, s))
      × ((t : ℕ) → IsLeast itself (Near s.edges own (Tagged s seed_ids) t) (find t depths))
unfolding walk find
walk-exact own [] s lo hi = ([], refl, λ t d near. absurd near.is_tag.of_items)
walk-exact own (id ∷ ids) s lo hi =
    let (depths, run, lowest) =
      walk_tags-IsLeast own s lo hi (tag_ids_for_items (id ∷ ids) s) [] (λ t d. ⊥) (λ t d h. h) in
    (depths, run, λ t. IsLeast-iff itself _ _ (find t depths) (λ d. (drop t d, add t d)) (lowest t))
  where
    drop :
        (t d : ℕ)
        → ⊥ ⊎ Near s.edges own (Among (tag_ids_for_items (id ∷ ids) s)) t d
        → Near s.edges own (Tagged s (id ∷ ids)) t d
    drop t d (inl h) = absurd h
    drop t d (inr n) = (from_Tagged own s (id ∷ ids) t d).0 n

    add :
        (t d : ℕ)
        → Near s.edges own (Tagged s (id ∷ ids)) t d
        → ⊥ ⊎ Near s.edges own (Among (tag_ids_for_items (id ∷ ids) s)) t d
    add t d n = inr ((from_Tagged own s (id ∷ ids) t d).1 n)
