-- ===== src/Storage/TagGraph/Drawing.antt =====
-- `neighbourhood`: what is drawn of the tags that have a level.
use catchment.Prelude.{
  Bool, Bool-cases, GoesFirst, Has, Has-found, Has-order_by, Has-take, IsKeyed, List, Table, [], ap,
  arith, contains, false, find, find-Has, inl, inr, leb, length, length-take-le, nat_eq, none,
  order_by-first, pair_eq, refl, select, some, subst, sym, take, text_eq, true, upsert, ℕ, ◌+◌,
  ◌==◌, ◌||◌, ◌∷◌, ◌≡◌, ◌≤◌, ◌⊎◌,
}
use catchment.Prelude.Int.{abs, pos, text_leb_refl, ℤ}
use catchment.Storage.Proposals.{UuidText}
use catchment.Storage.TagGraph.{bound_levels, closer, max_graph_nodes}
use native.Mathlib.Decide.{ℕ_discrete}

length-select_or :
    {A : Type 0} (p q : A → Bool) (xs : List A)
    → length (select (λ x. p x || q x) xs) ≤ length (select p xs) + length (select q xs)
length-select_or p q [] = omega arith
length-select_or p q (x ∷ xs) = ground (arith, length-select_or p q xs)

length-select-none :
    {W : Type 0} (y : ℕ) (t : Table ℕ W)
    → find y t ≡ none
    → length (select (λ row. y == row.0) t) ≡ 0
unfolding find
length-select-none y [] h = refl
length-select-none y ((k, v) ∷ t) h =
    ground (arith, nat_eq.beq_iff k y, nat_eq.beq_iff y k, length-select-none y t)

length-select_one :
    {W : Type 0} (y : ℕ) (t : Table ℕ W) → IsKeyed t → length (select (λ row. y == row.0) t) ≤ 1
length-select_one y [] h = omega arith
length-select_one y ((k, v) ∷ t) (absent, keyed) = elim (ℕ_discrete y k) [
  | yes same ↦
      ground (arith, length-select-none y t (subst (λ j. find j t ≡ none) (sym same) absent))
  | no other ↦ ground (arith, nat_eq.beq_iff y k, length-select_one y t keyed)
]

length-select-false : {A : Type 0} (xs : List A) → length (select (λ x. false) xs) ≤ 0
length-select-false [] = omega arith
length-select-false (x ∷ xs) = length-select-false xs

-- A keyed table has at most one row for each of the keys.
pub length-select_keys :
    {W : Type 0} (ids : List ℕ) (t : Table ℕ W)
    → IsKeyed t
    → length (select (λ row. contains row.0 ids) t) ≤ length ids
length-select_keys [] t h = length-select-false t
length-select_keys (y ∷ ids) t h = ground (
  arith,
  length-select_or (λ row. y == row.0) (λ row. contains row.0 ids) t,
  length-select_one y t h,
  length-select_keys ids t h,
)

-- What `_bound` relies on: the seed alone is on level 0, and each tag has one level.
pub record IsCentred (root : ℕ) (levels : Table ℕ ℤ) : Type 0 where
  pub keyed : IsKeyed levels
  pub centre : find root levels ≡ some (pos 0)
  pub others : (t : ℕ) (l : ℤ) → find t levels ≡ some l → (t ≡ root) ⊎ (1 ≤ abs l)

-- `_bound` keeps at most `max_graph_nodes` tags with the levels they have, the seed among them, and
-- says so where it drops one.
pub record IsBounded (root : ℕ) (levels : Table ℕ ℤ) (kept : Table ℕ ℤ × Bool) : Type 0 where
  pub few : length kept.0 ≤ max_graph_nodes
  pub seed_kept : find root kept.0 ≡ some (pos 0)
  pub from_levels : (row : ℕ × ℤ) → Has row kept.0 → Has row levels
  pub whole : kept.1 ≡ false → kept.0 ≡ levels

module _ (u : UuidText) (root : ℕ) (levels : Table ℕ ℤ) (c : IsCentred root levels) where
  seed_first : (row : ℕ × ℤ) → Has row levels → GoesFirst (closer u) (root, pos 0) row
  unfolding closer
  seed_first (t, l) m =
      let at_t = find-Has t l levels c.keyed m in
      elim (c.others t l at_t) [
        | inl same ↦ inl (ground (arith, same, at_t, c.centre, ap (λ k. find k levels) same))
        | inr far ↦ inr (ground (arith, far), ground (arith, far))
      ]

  closer-seed : closer u (root, pos 0) (root, pos 0) ≡ true
  unfolding closer
  closer-seed = ground (arith, text_leb_refl (u.show root))

  cut_IsBounded :
      (rest : List (ℕ × ℤ))
      → ((row : ℕ × ℤ) → Has row ((root, pos 0) ∷ rest) → Has row levels)
      → IsBounded root levels
          (upsert root (pos 0) (λ old. pos 0) ((root, pos 0) ∷ take 149 rest), true)
  unfolding upsert find
  cut_IsBounded rest inside = rw ((nat_eq.beq_iff root root).1 refl) (record {
    few = let few = length-take-le 149 rest in omega arith;
    seed_kept = ground (arith, nat_eq.beq_iff root root);
    from_levels =
        λ row m. inside row (elim m [ inl e ↦ inl e | inr k ↦ inr (Has-take 149 row rest k) ]);
    whole = λ e. ground (arith, e);
  })

  pub bound_levels-IsBounded : IsBounded root levels (bound_levels u levels root)
  unfolding bound_levels
  bound_levels-IsBounded = elim (Bool-cases (leb (length levels) max_graph_nodes)) [
    | inl fits ↦ rw fits (record {
      few = ground (arith, fits);
      seed_kept = c.centre;
      from_levels = λ row m. m;
      whole = λ e. refl;
    })
    | inr large ↦
        let in_levels = Has-found root (pos 0) levels c.centre in
        let (rest, first) =
          order_by-first (closer u) (root, pos 0) levels in_levels seed_first closer-seed in
        rw (large, first)
          (cut_IsBounded rest
            (λ row m. Has-order_by (closer u) row levels (subst (Has row) (sym first) m)))
  ]
