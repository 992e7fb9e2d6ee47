-- ===== src/Storage/Merge/Repointing.antt =====
-- `_repoint_edges`: the edges of the graph after a merge.
use mathlib.Core.Bool.{false≢true}
use catchment.Prelude.{
  All, Bool, Bool-cases, List, Text, [], any, arith, contains, delete_where, false, find,
  find-delete, find-upsert, if◌then◌else◌, inl, inr, is_some, nat_eq, not, pair_beq, pair_eq, refl,
  subst, sym, text_eq, true, upsert, ℕ, ◌&&◌, ◌==◌, ◌||◌, ◌↔◌, ◌∙◌, ◌∷◌, ◌≡◌, ◌≢◌,
}
use catchment.Storage.Models.{Edges, Store, is_tag}
use catchment.Storage.Session.{ok}
use catchment.Storage.Merge.{edges_of, insert_edge, repoint, repoint_edges, repoint_rows, touches}
use catchment.Storage.Tags.Paths.{Edge}

-- Both ends of every row are tags that are there.
abbrev pub NamesTags : Store → Edges → Type 0
NamesTags s rows = All (λ row. (is_tag row.0.0 s && is_tag row.0.1 s) ≡ true) rows

abbrev pub inserted_edge : ℕ → ℕ → Text → Edges → Edges
inserted_edge p c r g = if p == c then g else upsert (p, c) r (λ old. old) g

-- The edges after the loop.
abbrev pub repointed_rows : List ℕ → ℕ → Edges → Edges → Edges
repointed_rows sources target_id [] g = g
repointed_rows sources target_id (((p, c), r) ∷ rows) g =
    repointed_rows sources target_id rows
      (inserted_edge (repoint sources target_id p) (repoint sources target_id c) r g)

-- The edge that a row of the loop makes, if it is the one asked for.
abbrev pub makes : List ℕ → ℕ → ℕ × ℕ → ℕ × ℕ → Bool
makes sources target_id k (p, c) =
    not (repoint sources target_id p == repoint sources target_id c)
    && (pair_beq (repoint sources target_id p, repoint sources target_id c) k)

insert_edge-ok :
    (p c : ℕ) (r : Text) (s : Store)
    → is_tag p s ≡ true
    → is_tag c s ≡ true
    → insert_edge p c r s ≡ (ok tt, record s { edges = inserted_edge p c r s.edges })
unfolding insert_edge
insert_edge-ok p c r s hp hc = elim (Bool-cases (p == c)) [
  | inl e ↦ rw e refl
  | inr e ↦ rw (e, hp, hc) refl
]

is_tag-repoint :
    (sources : List ℕ) (target_id t : ℕ) (s : Store)
    → is_tag target_id s ≡ true
    → is_tag t s ≡ true
    → is_tag (repoint sources target_id t) s ≡ true
is_tag-repoint sources target_id t s ht h = elim (Bool-cases (contains t sources)) [
  | inl e ↦ rw e ht
  | inr e ↦ rw e h
]

pub repoint_rows-ok :
    (sources : List ℕ) (target_id : ℕ) (rows : Edges) (s : Store)
    → is_tag target_id s ≡ true
    → NamesTags s rows
    → repoint_rows sources target_id rows s
      ≡ (ok tt, record s { edges = repointed_rows sources target_id rows s.edges })
unfolding repoint_rows
repoint_rows-ok sources target_id [] s ht hs = refl
repoint_rows-ok sources target_id (((p, c), r) ∷ rows) s ht hs =
    rw
      (insert_edge-ok (repoint sources target_id p) (repoint sources target_id c) r s
        (is_tag-repoint sources target_id p s ht (ground arith))
        (is_tag-repoint sources target_id c s ht (ground arith)))
      (repoint_rows-ok sources target_id rows
        (record s {
          edges =
              inserted_edge (repoint sources target_id p) (repoint sources target_id c) r s.edges;
        })
        ht hs.1)

one_row :
    (k : ℕ × ℕ) (p c : ℕ) (r : Text) (g : Edges) (rest : Bool)
    → (is_some (find k (inserted_edge p c r g)) || rest)
      ≡ (is_some (find k g) || (not (p == c) && pair_beq (p, c) k || rest))
one_row k p c r g rest =
    ground (arith, find-upsert (p, c) k r (λ old. old) g, pair_eq.beq_iff (p, c) k)

find-repointed_rows :
    (sources : List ℕ) (target_id : ℕ) (k : ℕ × ℕ) (rows g : Edges)
    → is_some (find k (repointed_rows sources target_id rows g))
      ≡ (is_some (find k g) || any (λ row. makes sources target_id k row.0) rows)
find-repointed_rows sources target_id k [] g = ground arith
find-repointed_rows sources target_id k (((p, c), r) ∷ rows) g =
    let p' = repoint sources target_id p in
    let c' = repoint sources target_id c in
    find-repointed_rows sources target_id k rows (inserted_edge p' c' r g)
    ∙ one_row k p' c' r g (any (λ row. makes sources target_id k row.0) rows)

-- The edges that `_repoint_edges` leaves.
abbrev pub merged_edges : List ℕ → ℕ → Edges → Edges
merged_edges sources target_id g =
    delete_where (touches sources) (repointed_rows sources target_id (edges_of sources g) g)

NamesTags-edges_of :
    (sources : List ℕ) (s : Store) (g : Edges) → NamesTags s g → NamesTags s (edges_of sources g)
unfolding edges_of
NamesTags-edges_of sources s [] h = tt
NamesTags-edges_of sources s ((k, r) ∷ g) h = elim (Bool-cases (touches sources k)) [
  | inl e ↦ rw e (h.0, NamesTags-edges_of sources s g h.1)
  | inr e ↦ rw e (NamesTags-edges_of sources s g h.1)
]

pub repoint_edges-ok :
    (sources : List ℕ) (target_id : ℕ) (s : Store)
    → is_tag target_id s ≡ true
    → NamesTags s s.edges
    → repoint_edges sources target_id s
      ≡ (ok tt, record s { edges = merged_edges sources target_id s.edges })
unfolding repoint_edges
repoint_edges-ok sources target_id s ht hs =
    rw
      (repoint_rows-ok sources target_id (edges_of sources s.edges) s ht
        (NamesTags-edges_of sources s s.edges hs))
      refl

module _ (sources : List ℕ) (target_id : ℕ) (k : ℕ × ℕ) where
  Edge-of_any :
      (g : Edges)
      → any (λ row. makes sources target_id k row.0) (edges_of sources g) ≡ true
      → (p : ℕ) × (c : ℕ) × Edge g p c × (makes sources target_id k (p, c) ≡ true)
  unfolding edges_of find
  Edge-of_any [] h = absurd (false≢true h)
  Edge-of_any (((p, c), r) ∷ g) h =
      elim (Bool-cases (touches sources (p, c) && makes sources target_id k (p, c))) [
        | inl e ↦ (p, c, ground arith, ground arith)
        | inr e ↦ let (q, d, m, n) = Edge-of_any g (ground arith) in (q, d, ground arith, n)
      ]

  any_of_Edge :
      (g : Edges) (p c : ℕ)
      → Edge g p c
      → touches sources (p, c) ≡ true
      → makes sources target_id k (p, c) ≡ true
      → any (λ row. makes sources target_id k row.0) (edges_of sources g) ≡ true
  unfolding edges_of find
  any_of_Edge [] p c h t m = cc
  any_of_Edge (((q, d), r) ∷ g) p c h t m = ground (arith, any_of_Edge g p c)

-- No edge joins a tag to itself: `ck_tag_edges_no_self_loop`.
abbrev pub NoLoop : Edges → Type 0
NoLoop g = (p : ℕ) → ¬ Edge g p p

-- An edge of the merged graph, as the image of one before.
abbrev pub Image : List ℕ → ℕ → Edges → ℕ → ℕ → Type 0
Image sources target_id g p c =
    (p0 : ℕ) × (c0 : ℕ) × Edge g p0 c0
    × (repoint sources target_id p0 ≡ p)
    × (repoint sources target_id c0 ≡ c)

module _ (sources : List ℕ) (target_id : ℕ) (g : Edges)
    (h : contains target_id sources ≡ false) where
  find-merged_edges :
      (p c : ℕ)
      → is_some (find (p, c) (merged_edges sources target_id g)) ≡ (
          not (touches sources (p, c))
          && (is_some (find (p, c) g)
              || any (λ row. makes sources target_id (p, c) row.0) (edges_of sources g)))
  find-merged_edges p c = ground (
    arith,
    find-delete (touches sources) (p, c) (repointed_rows sources target_id (edges_of sources g) g),
    find-repointed_rows sources target_id (p, c) (edges_of sources g) g,
  )

  Image-of_Edge :
      NoLoop g
      → (p c : ℕ) → Edge (merged_edges sources target_id g) p c
      → (p ≢ c) × Image sources target_id g p c
  Image-of_Edge nl p c e = elim (Bool-cases (is_some (find (p, c) g))) [
    | inl old ↦ (
      (λ q. nl p (subst (Edge g p) (sym q) old)),
      (p, c, old, ground (arith, find-merged_edges p c), ground (arith, find-merged_edges p c)),
    )
    | inr new ↦
        let (q, d, m, n) =
          Edge-of_any sources target_id (p, c) g (ground (arith, find-merged_edges p c)) in
        (ground arith, (q, d, m, ground arith, ground arith))
  ]

  Edge-of_Image :
      (p c : ℕ)
      → p ≢ c
      → touches sources (p, c) ≡ false
      → Image sources target_id g p c
      → Edge (merged_edges sources target_id g) p c
  Edge-of_Image p c ne out (p0, c0, e, hp, hc) = elim (Bool-cases (touches sources (p0, c0))) [
    | inl t ↦
        ground (arith, find-merged_edges p c, any_of_Edge sources target_id (p, c) g p0 c0 e t)
    | inr f ↦ ground (arith, find-merged_edges p c)
  ]

  -- After the edges are repointed there is an edge from p to c exactly when neither is a source,
  -- they are two tags, and p and c are the images of the ends of an edge before. The graph before
  -- had no loop.
  pub merged_edges-exact :
      NoLoop g
      → (p c : ℕ)
      → Edge (merged_edges sources target_id g) p c ↔ (
          (contains p sources ≡ false)
          × (contains c sources ≡ false)
          × (p ≢ c)
          × Image sources target_id g p c)
  merged_edges-exact nl p c = (
    (λ e.
        let (ne, im) = Image-of_Edge nl p c e in
        (ground (arith, find-merged_edges p c), ground (arith, find-merged_edges p c), ne, im)),
    λ (hp, hc, ne, im). Edge-of_Image p c ne (ground arith) im,
  )
