-- ===== src/Storage/TagGraph/Levels.antt =====
-- `_levels`: the level of a tag is the length of a shortest path to the seed, with its direction.
use catchment.Prelude.{
  Has, IsKeyed, List, Option, Table, [], ap, arith, find, find-upsert, inl, inr, nat_eq, none,
  pair_eq, refl, some, subst, suc, sym, text_eq, upsert, upsert-IsKeyed, zero, ℕ, ◌↔◌, ◌∙◌, ◌∷◌,
  ◌≡◌, ◌≤◌, ◌⊎◌,
}
use catchment.Prelude.Int.{abs, neg, negsuc, pos, ℤ}
use catchment.Prelude.Least.{IsLeast, IsLeast-iff, lesser, note-IsLeast}
use catchment.Storage.Models.{Edges, Store}
use catchment.Storage.Session.{ok}
use catchment.Storage.Tags.{TagRef, tag_depth_hard_ceiling}
use catchment.Storage.Tags.Paths.{Down}
use catchment.Storage.Tags.Traversal.{ancestors-exact, descendants-exact}
use catchment.Storage.TagGraph.{levels_of, nearer, place_refs}

-- A path of at most `depth` edges places the tag on that level: below the seed, or above it.
abbrev pub Placed : Edges → ℕ → ℕ → ℕ → ℤ → Type 0
Placed g root depth t (pos n) = Down g n root t × (n ≤ depth)
Placed g root depth t (negsuc n) = Down g (suc n) t root × (suc n ≤ depth)

abbrev Met : (ℕ → ℤ) → List TagRef → ℕ → ℤ → Type 0
Met sign refs t level = (d : ℕ) × Has (record { tag_id = t; depth = d }) refs × (sign d ≡ level)

place_refs-IsLeast :
    (sign : ℕ → ℤ) (P : ℤ → Type 0) (refs : List TagRef) (levels : Table ℕ ℤ) (t : ℕ)
    → IsLeast abs P (find t levels)
    → IsLeast abs (λ l. P l ⊎ Met sign refs t l) (find t (place_refs sign refs levels))
unfolding place_refs nearer
place_refs-IsLeast sign P [] levels t h = IsLeast-iff abs P _ (find t levels) (λ l. (inl, drop l)) h
  where
    drop : (l : ℤ) → P l ⊎ Met sign [] t l → P l
    drop l (inl p) = p
    drop l (inr (d, m, e)) = absurd m
place_refs-IsLeast sign P (r ∷ refs) levels t h =
    IsLeast-iff abs (λ l. (P l ⊎ ((r.tag_id ≡ t) × (l ≡ sign r.depth))) ⊎ Met sign refs t l) _
      (find t (place_refs sign (r ∷ refs) levels)) (λ l. (join l, split l))
      (place_refs-IsLeast sign (λ l. P l ⊎ ((r.tag_id ≡ t) × (l ≡ sign r.depth))) refs
        (upsert r.tag_id (sign r.depth) (nearer (sign r.depth)) levels) t
        (note-IsLeast abs P r.tag_id (sign r.depth) t (nearer (sign r.depth)) levels (λ old. refl)
          h))
  where
    join :
        (l : ℤ)
        → (P l ⊎ ((r.tag_id ≡ t) × (l ≡ sign r.depth))) ⊎ Met sign refs t l
        → P l ⊎ Met sign (r ∷ refs) t l
    join l (inl (inl p)) = inl p
    join l (inl (inr q)) = inr (r.depth, inl (ground (arith, q)), sym q.1)
    join l (inr (d, m, e)) = inr (d, inr m, e)

    split :
        (l : ℤ)
        → P l ⊎ Met sign (r ∷ refs) t l
        → (P l ⊎ ((r.tag_id ≡ t) × (l ≡ sign r.depth))) ⊎ Met sign refs t l
    split l (inl p) = inl (inl p)
    split l (inr (d, inl q, e)) =
        inl (inr (ap (λ x. x.tag_id) q, sym e ∙ ap sign (sym (ap (λ x. x.depth) q))))
    split l (inr (d, inr m, e)) = inr (d, m, e)

place_refs-IsKeyed :
    (sign : ℕ → ℤ) (refs : List TagRef) (levels : Table ℕ ℤ)
    → IsKeyed levels
    → IsKeyed (place_refs sign refs levels)
unfolding place_refs
place_refs-IsKeyed sign [] levels k = k
place_refs-IsKeyed sign (r ∷ refs) levels k =
    place_refs-IsKeyed sign refs _
      (upsert-IsKeyed r.tag_id (sign r.depth) (nearer (sign r.depth)) levels k)

seed_lesser : (old : ℤ) → pos 0 ≡ lesser abs (pos 0) old
seed_lesser (pos zero) = refl
seed_lesser (pos (suc n)) = ground arith
seed_lesser (negsuc n) = ground arith

seed_level :
    (tag_id : ℕ) (levels : Table ℕ ℤ)
    → find tag_id (upsert tag_id (pos 0) (λ old. pos 0) levels) ≡ some (pos 0)
seed_level tag_id levels = by_old (find tag_id levels) refl
  where
    by_old :
        (o : Option ℤ)
        → find tag_id levels ≡ o
        → find tag_id (upsert tag_id (pos 0) (λ old. pos 0) levels) ≡ some (pos 0)
    by_old none e = ground (
      arith,
      find-upsert tag_id tag_id (pos 0) (λ old. pos 0) levels,
      nat_eq.beq_iff tag_id tag_id,
      e,
    )
    by_old (some l) e = ground (
      arith,
      find-upsert tag_id tag_id (pos 0) (λ old. pos 0) levels,
      nat_eq.beq_iff tag_id tag_id,
      e,
    )

-- What the code notes is where paths place a tag.
Met-Placed :
    (tag_id t depth : ℕ) (s : Store) (up down : List TagRef)
    → ((r : TagRef)
        → Has r up ↔ (Down s.edges r.depth r.tag_id tag_id × (1 ≤ r.depth) × (r.depth ≤ depth)))
    → ((r : TagRef)
        → Has r down ↔ (Down s.edges r.depth tag_id r.tag_id × (1 ≤ r.depth) × (r.depth ≤ depth)))
    → (l : ℤ)
    → ((((⊥ ⊎ ((tag_id ≡ t) × (l ≡ pos 0))) ⊎ Met neg up t l) ⊎ Met pos down t l)
        ⊎ ((tag_id ≡ t) × (l ≡ pos 0)))
      ↔ Placed s.edges tag_id depth t l
Met-Placed tag_id t depth s up down ups downs l = (to, back l)
  where
    at_seed : (tag_id ≡ t) × (l ≡ pos 0) → Placed s.edges tag_id depth t l
    at_seed (same, e) = subst (Placed s.edges tag_id depth t) (sym e) (same, omega arith)

    above :
        (d : ℕ)
        → Down s.edges d t tag_id
        → 1 ≤ d
        → d ≤ depth
        → Placed s.edges tag_id depth t (neg d)
    above zero path pos' le = absurd (omega arith)
    above (suc n) path pos' le = (path, le)

    to :
        (((⊥ ⊎ ((tag_id ≡ t) × (l ≡ pos 0))) ⊎ Met neg up t l) ⊎ Met pos down t l)
          ⊎ ((tag_id ≡ t) × (l ≡ pos 0))
        → Placed s.edges tag_id depth t l
    to (inl (inl (inl (inl h)))) = absurd h
    to (inl (inl (inl (inr a)))) = at_seed a
    to (inl (inl (inr (d, m, e)))) =
        let (path, some_edge, le) = (ups _).0 m in
        subst (Placed s.edges tag_id depth t) e (above d path some_edge le)
    to (inl (inr (d, m, e))) =
        let (path, some_edge, le) = (downs _).0 m in
        subst (Placed s.edges tag_id depth t) e (path, le)
    to (inr a) = at_seed a

    back :
        (j : ℤ)
        → Placed s.edges tag_id depth t j
        → (((⊥ ⊎ ((tag_id ≡ t) × (j ≡ pos 0))) ⊎ Met neg up t j) ⊎ Met pos down t j)
          ⊎ ((tag_id ≡ t) × (j ≡ pos 0))
    back (pos zero) (path, le) = inr (path, refl)
    back (pos (suc n)) (path, le) = inl (
        inr (suc n, (downs (record { tag_id = t; depth = suc n })).1 (path, omega arith, le), refl))
    back (negsuc n) (path, le) = inl (
        inl (
          inr
            (suc n, (ups (record { tag_id = t; depth = suc n })).1 (path, omega arith, le), refl)))

-- At a depth from 1 to 32, `_levels` succeeds and writes nothing; it gives the seed level 0, and any
-- tag the level of a shortest path of at most so many edges that leads up or down to it, counted
-- negative upwards; a tag that no such path joins to the seed has no level.
pub levels_of-exact :
    (own tag_id depth : ℕ) (s : Store)
    → 1 ≤ depth
    → depth ≤ tag_depth_hard_ceiling
    → (levels : Table ℕ ℤ) × (levels_of own tag_id depth s ≡ (ok levels, s))
      × IsKeyed levels
      × (find tag_id levels ≡ some (pos 0))
      × ((t : ℕ) → IsLeast abs (Placed s.edges tag_id depth t) (find t levels))
unfolding levels_of upsert find
levels_of-exact own tag_id zero s lo hi = absurd (omega arith)
levels_of-exact own tag_id (suc k) s lo hi =
    let (up, up_run, ups) = ancestors-exact own tag_id (some (suc k)) s lo hi in
    let (down, down_run, downs) = descendants-exact own tag_id (some (suc k)) s lo hi in
    let placed = place_refs pos down (place_refs neg up ((tag_id, pos 0) ∷ [])) in
    (
      upsert tag_id (pos 0) (λ old. pos 0) placed,
      ground (arith, up_run, down_run),
      upsert-IsKeyed tag_id (pos 0) (λ old. pos 0) placed
          (place_refs-IsKeyed pos down _
            (place_refs-IsKeyed neg up ((tag_id, pos 0) ∷ []) (refl, tt))),
      seed_level tag_id placed,
      λ t.
          IsLeast-iff abs _ _ (find t (upsert tag_id (pos 0) (λ old. pos 0) placed))
            (Met-Placed tag_id t (suc k) s up down ups downs)
            (note-IsLeast abs _ tag_id (pos 0) t (λ old. pos 0) placed seed_lesser
              (place_refs-IsLeast pos _ down (place_refs neg up ((tag_id, pos 0) ∷ [])) t (
                place_refs-IsLeast neg _ up ((tag_id, pos 0) ∷ []) t (
                  note-IsLeast abs (λ l. ⊥) tag_id (pos 0) t (λ old. pos 0) [] seed_lesser
                    (λ l h. h))))),
    )
