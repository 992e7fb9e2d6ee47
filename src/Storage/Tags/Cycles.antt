-- ===== src/Storage/Tags/Cycles.antt =====
-- `TagRepository.link_broader`: which edges it adds, and what that keeps out of the graph.
use mathlib.Core.Bool.{false≢true}
use catchment.Prelude.{
  Bool-cases, Has, Has-any, List, Text, any-Has, arith, false, find-upsert, if◌then◌else◌, inl, inr,
  nat_eq, none, not, pair_eq, refl, subst, suc, sym, text_eq, true, upsert, zero, ℕ, ◌&&◌, ◌+◌,
  ◌==◌, ◌↔◌, ◌∙◌, ◌≡◌, ◌≢◌, ◌≤◌, ◌⊎◌,
}
use catchment.Storage.Models.{Edges, Store, is_tag}
use catchment.Storage.Session.{ok, pure, ◌>>◌}
use catchment.Storage.Tags.{
  TagRef, add_edge, broader, link_broader, reaches, tag_depth_hard_ceiling,
}
use catchment.Storage.Tags.Paths.{Down, Down-append, Down-cons, Edge}
use catchment.Storage.Tags.Traversal.{descendants-exact}
use native.Mathlib.Decide.{ℕ_discrete}

-- No tag lies below itself by a path of at most that many edges.
abbrev pub NoCycle : Edges → ℕ → Type 0
NoCycle g k = (n a : ℕ) → 1 ≤ n → n ≤ k → ¬ Down g n a a

-- The proposed parent lies below the child by a path of at most that many edges.
abbrev pub Below : Edges → ℕ → ℕ → ℕ → Type 0
Below g k child parent = (n : ℕ) × (1 ≤ n) × (n ≤ k) × Down g n child parent

abbrev pub linked : ℕ → ℕ → Text → Edges → Edges
linked p c r g = upsert (p, c) r (λ old. old) g

-- An edge after `add_edge` was there, or is the new one; and the other way.
pub Edge-link :
    (g : Edges) (p c : ℕ) (r : Text) (x y : ℕ)
    → Edge (linked p c r g) x y
    → Edge g x y ⊎ ((p ≡ x) × (c ≡ y))
Edge-link g p c r x y h = ground (arith, find-upsert (p, c) (x, y) r (λ old. old) g)

pub link-Edge : (g : Edges) (p c : ℕ) (r : Text) (x y : ℕ) → Edge g x y → Edge (linked p c r g) x y
link-Edge g p c r x y h = ground (arith, find-upsert (p, c) (x, y) r (λ old. old) g)

pub link-Down :
    (g : Edges) (p c : ℕ) (r : Text) (n a b : ℕ) → Down g n a b → Down (linked p c r g) n a b
link-Down g p c r zero a b h = h
link-Down g p c r (suc n) a b (d, h, e) = (d, link-Down g p c r n a d h, link-Edge g p c r d b e)

-- A path after `add_edge` is an old one, or reaches the parent and goes on from the child by old
-- paths: the part before the first use of the new edge, and the part after the last.
Through : Edges → ℕ → ℕ → ℕ → ℕ → ℕ → Type 0
Through g p c n a b = (i : ℕ) × (j : ℕ) × Down g i a p × Down g j c b × (i + j + 1 ≤ n)

Down-link :
    (g : Edges) (p c : ℕ) (r : Text) (n a b : ℕ)
    → Down (linked p c r g) n a b
    → Down g n a b ⊎ Through g p c n a b
unfolding Through
Down-link g p c r zero a b h = inl h
Down-link g p c r (suc n) a b (d, h, e) = elim (Edge-link g p c r d b e) [
  | inl old ↦ elim (Down-link g p c r n a d h) [
    | inl k ↦ inl (d, k, old)
    | inr (i, j, k, l, m) ↦ inr (i, suc j, k, (d, l, old), omega arith)
  ]
  | inr new ↦ elim (Down-link g p c r n a d h) [
    | inl k ↦ inr (n, 0, subst (Down g n a) (sym new.0) k, new.1, omega arith)
    | inr (i, j, k, l, m) ↦ inr (i, 0, k, new.1, omega arith)
  ]
]

module _ (own parent_id child_id : ℕ) (s : Store) (lo : 1 ≤ own)
    (hi : own ≤ tag_depth_hard_ceiling) where
  -- The test of `link_broader` over the rows of `descendants`.
  reaches-Below :
      (refs : List TagRef)
      → ((r : TagRef)
          → Has r refs ↔ (Down s.edges r.depth child_id r.tag_id × (1 ≤ r.depth) × (r.depth ≤ own)))
      → (reaches parent_id refs ≡ true) ↔ Below s.edges own child_id parent_id
  reaches-Below refs exact = (
    (λ h.
        let (r, m, e) = any-Has (λ r. r.tag_id == parent_id) refs h in
        let (d, l, u) = (exact r).0 m in
        (r.depth, l, u, subst (Down s.edges r.depth child_id) ((nat_eq.beq_iff _ _).0 e) d)),
    λ (n, l, u, d).
        Has-any (λ r. r.tag_id == parent_id) (record { tag_id = parent_id; depth = n }) refs
          ((exact (record { tag_id = parent_id; depth = n })).1 (d, l, u))
          ((nat_eq.beq_iff parent_id parent_id).1 refl),
  )

  -- `link_broader` refuses, and writes nothing, or goes on to `add_edge`.
  pub link_broader-cases :
      ((link_broader own parent_id child_id s ≡ (ok false, s))
        × ((parent_id ≡ child_id) ⊎ Below s.edges own child_id parent_id))
      ⊎ ((link_broader own parent_id child_id s
            ≡ (add_edge parent_id child_id broader >> pure true) s)
          × (parent_id ≢ child_id)
          × (¬ Below s.edges own child_id parent_id))
  unfolding link_broader
  link_broader-cases =
      let (refs, run, exact) = descendants-exact own child_id none s lo hi in
      elim (ℕ_discrete parent_id child_id) [
        | yes e ↦ inl (ground arith, inl e)
        | no ne ↦ elim (Bool-cases (reaches parent_id refs)) [
          | inl hit ↦ inl (ground (arith, run), inr ((reaches-Below refs exact).0 hit))
          | inr miss ↦
              inr (
                ground (arith, run),
                ne,
                λ b. false≢true (sym miss ∙ (reaches-Below refs exact).1 b),
              )
        ]
      ]

  -- At a depth from 1 to 32, `link_broader` on two tags that are there answers true and adds the
  -- one edge, exactly when they are two and no path of at most that many edges leads from the
  -- child down to the parent; otherwise it answers false and writes nothing.
  pub link_broader-exact :
      is_tag parent_id s ≡ true
      → is_tag child_id s ≡ true
      → ((link_broader own parent_id child_id s
            ≡ (ok true, record s { edges = linked parent_id child_id broader s.edges }))
          × (parent_id ≢ child_id)
          × (¬ Below s.edges own child_id parent_id))
        ⊎ ((link_broader own parent_id child_id s ≡ (ok false, s))
            × ((parent_id ≡ child_id) ⊎ Below s.edges own child_id parent_id))
  unfolding add_edge
  link_broader-exact tp tc = elim link_broader-cases [
    | inl refused ↦ inr refused
    | inr (run, ne, free) ↦ inl (run ∙ ground arith, ne, free)
  ]

  add_edge-edges :
      (s' : Store)
      → ((add_edge parent_id child_id broader >> pure true) s').1.edges ≡ (
          if not (parent_id == child_id) && (is_tag parent_id s' && is_tag child_id s')
          then linked parent_id child_id broader s'.edges
          else s'.edges)
  unfolding add_edge
  add_edge-edges s' = ground arith

NoCycle-link :
    (own p c : ℕ) (r : Text) (g : Edges)
    → p ≢ c
    → ¬ Below g own c p
    → NoCycle g (suc own)
    → NoCycle (linked p c r g) (suc own)
unfolding Through
NoCycle-link own p c r g ne free keep n a lo hi d = elim (Down-link g p c r n a a d) [
  | inl old ↦ keep n a lo hi old
  | inr (i, j, k, l, m) ↦ closed i j k l m
]
  where
    closed : (i j : ℕ) → Down g i a p → Down g j c a → i + j + 1 ≤ n → ⊥
    closed zero zero k l m = ne (sym (l ∙ k))
    closed zero (suc j) k l m =
        free (zero + suc j, omega arith, omega arith, Down-append g (suc j) zero c a p l k)
    closed (suc i) j k l m =
        free (suc i + j, omega arith, omega arith, Down-append g j (suc i) c a p l k)

-- At a depth from 1 to 32 and on any two identifiers, `link_broader` keeps the graph free of
-- cycles of up to one edge more than that depth.
pub link_broader-NoCycle :
    (own parent_id child_id : ℕ) (s : Store)
    → 1 ≤ own
    → own ≤ tag_depth_hard_ceiling
    → NoCycle s.edges (suc own)
    → NoCycle (link_broader own parent_id child_id s).1.edges (suc own)
link_broader-NoCycle own p c s lo hi keep = elim (link_broader-cases own p c s lo hi) [
  | inl (run, why) ↦ rw run keep
  | inr (run, ne, free) ↦
      rw (run, add_edge-edges own p c s lo hi s)
        (elim (Bool-cases (not (p == c) && (is_tag p s && is_tag c s))) [
          | inl there ↦ rw there (NoCycle-link own p c broader s.edges ne free keep)
          | inr gone ↦ rw gone keep
        ])
]

-- What the bound lets through: at a depth from 1 to 32, on two different tags that are there,
-- where paths lead from the child down to the parent but only longer ones than the depth,
-- `link_broader` adds the edge, and the parent then lies below itself.
pub link_broader-long_cycle :
    (own parent_id child_id n : ℕ) (s : Store)
    → 1 ≤ own
    → own ≤ tag_depth_hard_ceiling
    → is_tag parent_id s ≡ true
    → is_tag child_id s ≡ true
    → parent_id ≢ child_id
    → ¬ Below s.edges own child_id parent_id
    → Down s.edges n child_id parent_id
    → Down (link_broader own parent_id child_id s).1.edges (suc n) parent_id parent_id
link_broader-long_cycle own p c n s lo hi tp tc ne free d =
    elim (link_broader-exact own p c s lo hi tp tc) [
      | inl (run, _, _) ↦
          subst (λ after. Down after.1.edges (suc n) p p) (sym run)
            (Down-cons (linked p c broader s.edges) n p c p (new_edge p c broader s.edges)
              (link-Down s.edges p c broader n c p d))
      | inr (run, why) ↦ elim why [ inl e ↦ absurd (ne e) | inr b ↦ absurd (free b) ]
    ]
  where
    new_edge : (p c : ℕ) (r : Text) (g : Edges) → Edge (linked p c r g) p c
    new_edge p c r g = ground (arith, find-upsert (p, c) (p, c) r (λ old. old) g)
