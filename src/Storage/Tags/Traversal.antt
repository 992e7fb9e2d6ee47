-- ===== src/Storage/Tags/Traversal.antt =====
-- What `TagRepository.ancestors` and `.descendants` return.
use catchment.Prelude.{
  Has, List, Option, arith, nat_eq, pair_eq, text_eq, ℕ, ◌<◌, ◌↔◌, ◌≡◌, ◌≤◌, ◌⊎◌,
}
use catchment.Storage.Models.{Store}
use catchment.Storage.Session.{ok, raise, unbounded_traversal}
use catchment.Storage.Tags.{
  TagRef, ancestors, children, descendants, or_default, parents, recursive_walk,
  tag_depth_hard_ceiling, validate_depth,
}
use catchment.Storage.Tags.Paths.{Down, Walk-children, Walk-parents}
use catchment.Storage.Tags.Rounds.{recursive_walk-exact}

-- Over a depth from 1 to 32, `descendants` succeeds, writes nothing, and returns a row for a tag at
-- a depth exactly when a path of that many edges, at most the depth asked for, leads down to it.
pub descendants-exact :
    (own tag_id : ℕ) (max_depth : Option ℕ) (s : Store)
    → 1 ≤ or_default max_depth own
    → or_default max_depth own ≤ tag_depth_hard_ceiling
    → (refs : List TagRef) × (descendants own tag_id max_depth s ≡ (ok refs, s))
      × ((r : TagRef)
          → Has r refs ↔ (
              Down s.edges r.depth tag_id r.tag_id
              × (1 ≤ r.depth)
              × (r.depth ≤ or_default max_depth own)))
unfolding descendants validate_depth
descendants-exact own tag_id max_depth s lo hi = (
  recursive_walk (λ t. children t s.edges) (or_default max_depth own) tag_id,
  ground arith,
  λ r.
      let e =
        recursive_walk-exact (λ t. children t s.edges) (or_default max_depth own) tag_id r lo in
      let w = Walk-children s.edges r.depth tag_id r.tag_id in
      ((λ m. let h = e.0 m in (w.0 h.0, h.1, h.2)), λ h. e.1 (w.1 h.0, h.1, h.2)),
)

-- Over a depth from 1 to 32, `ancestors` succeeds, writes nothing, and returns a row for a tag at a
-- depth exactly when a path of that many edges, at most the depth asked for, leads from it down to
-- the tag asked about.
pub ancestors-exact :
    (own tag_id : ℕ) (max_depth : Option ℕ) (s : Store)
    → 1 ≤ or_default max_depth own
    → or_default max_depth own ≤ tag_depth_hard_ceiling
    → (refs : List TagRef) × (ancestors own tag_id max_depth s ≡ (ok refs, s))
      × ((r : TagRef)
          → Has r refs ↔ (
              Down s.edges r.depth r.tag_id tag_id
              × (1 ≤ r.depth)
              × (r.depth ≤ or_default max_depth own)))
unfolding ancestors validate_depth
ancestors-exact own tag_id max_depth s lo hi = (
  recursive_walk (λ t. parents t s.edges) (or_default max_depth own) tag_id,
  ground arith,
  λ r.
      let e =
        recursive_walk-exact (λ t. parents t s.edges) (or_default max_depth own) tag_id r lo in
      let w = Walk-parents s.edges r.depth tag_id r.tag_id in
      ((λ m. let h = e.0 m in (w.0 h.0, h.1, h.2)), λ h. e.1 (w.1 h.0, h.1, h.2)),
)

-- Where the depth is 0 or above 32, `descendants` and `ancestors` both refuse and write nothing.
pub walks_refused :
    (own tag_id : ℕ) (max_depth : Option ℕ) (s : Store)
    → (or_default max_depth own ≡ 0) ⊎ (tag_depth_hard_ceiling < or_default max_depth own)
    → (descendants own tag_id max_depth s ≡ (raise unbounded_traversal, s))
      × (ancestors own tag_id max_depth s ≡ (raise unbounded_traversal, s))
unfolding descendants ancestors validate_depth
walks_refused own tag_id max_depth s h = (ground arith, ground arith)
