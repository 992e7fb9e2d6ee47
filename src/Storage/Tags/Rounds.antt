-- ===== src/Storage/Tags/Rounds.antt =====
-- The rounds of a recursive query: what they reach, and that the bound stops them.
use native.Mathlib.Nat.{suc-add}
use native.Mathlib.Decide.{dec_lt}
use catchment.Prelude.{
  sym, All, All-Has, Bool-cases, Has, Has-append_left, Has-append_right, Has-map, List, [], ap,
  arith, inl, inr, ltb, ltb→lt, lt→ltb, map, nat_eq, pair_eq, refl, subst, suc, text_eq, zero, ℕ,
  ◌++◌, ◌+◌, ◌<◌, ◌↔◌, ◌∷◌, ◌≡◌, ◌≤◌,
}
use catchment.Storage.Tags.{joined, TagRef, next_round, recursive_walk, rounds}
use catchment.Storage.Tags.Paths.{Walk}

-- The row for a tag, at a depth.
abbrev pub at_depth : ℕ → ℕ → TagRef
at_depth d t = record { tag_id = t; depth = d }

All-append {κ} :
    {A : Type 0} (P : A → Type κ) (xs ys : List A) → All P xs → All P ys → All P (xs ++ ys)
All-append P [] ys h k = k
All-append P (x ∷ xs) ys h k = (h.0, All-append P xs ys h.1 k)

All-at_depth :
    (d : ℕ) (P : TagRef → Type 0) (ts : List ℕ)
    → ((t : ℕ) → Has t ts → P (at_depth d t))
    → All P (map (at_depth d) ts)
All-at_depth d P [] h = tt
All-at_depth d P (t ∷ ts) h = (h t (inl refl), All-at_depth d P ts (λ u m. h u (inr m)))

module _ (near : ℕ → List ℕ) (bound : ℕ) where
  -- A rule for every row of a round: from the row before it, below the bound, to its neighbours.
  next_round-All :
      (P Q : TagRef → Type 0) (rs : List TagRef)
      → ((r : TagRef) (t : ℕ)
          → P r
          → r.depth < bound
          → Has t (near r.tag_id)
          → Q (at_depth (suc r.depth) t))
      → All P rs
      → All Q (next_round near bound rs)
  unfolding next_round
  next_round-All P Q [] step h = tt
  next_round-All P Q (r ∷ rs) step h =
      All-append Q _ _
        (elim (Bool-cases (ltb r.depth bound)) [
          | inl below ↦ rw below (
              All-at_depth (suc r.depth) Q (near r.tag_id)
                (λ t m. step r t h.0 (ltb→lt r.depth bound below) m))
          | inr stop ↦ rw stop tt
        ])
        (next_round-All P Q rs step h.1)

  -- A row tells of a walk of its depth, within the bound.
  abbrev Sound : ℕ → TagRef → Type 0
  Sound a r = Walk near r.depth a r.tag_id × (1 ≤ r.depth) × (r.depth ≤ bound)

  Sound-next :
      (a : ℕ) (r : TagRef) (t : ℕ)
      → Sound a r
      → r.depth < bound
      → Has t (near r.tag_id)
      → Sound a (at_depth (suc r.depth) t)
  Sound-next a r t h below m = ((r.tag_id, h.0, m), omega arith, omega arith)

  rounds-Sound :
      (a fuel : ℕ) (rs : List TagRef) → All (Sound a) rs → All (Sound a) (rounds near bound fuel rs)
  unfolding rounds
  rounds-Sound a zero rs h = tt
  rounds-Sound a (suc fuel) rs h = All-append (Sound a) rs _ h (
      rounds-Sound a fuel (next_round near bound rs)
        (next_round-All (Sound a) (Sound a) rs (Sound-next a) h))

  Has-joined :
      (r : TagRef) (t : ℕ)
      → r.depth < bound
      → Has t (near r.tag_id)
      → Has (at_depth (suc r.depth) t) (joined near bound r)
  Has-joined r t below m =
      rw (lt→ltb r.depth bound below) (Has-map (at_depth (suc r.depth)) t (near r.tag_id) m)

  -- A row below the bound has its neighbours in the next round.
  Has-next_round :
      (r : TagRef) (t : ℕ) (rs : List TagRef)
      → r.depth < bound
      → Has t (near r.tag_id)
      → Has r rs
      → Has (at_depth (suc r.depth) t) (next_round near bound rs)
  unfolding next_round
  Has-next_round r t (q ∷ rs) below m (inr h) =
      Has-append_right _ _ _ (Has-next_round r t rs below m h)
  Has-next_round r t (q ∷ rs) below m (inl e) = Has-append_left _ (joined near bound q) _ (
      subst (λ k. Has (at_depth (suc r.depth) t) (joined near bound k)) (sym e)
        (Has-joined r t below m))
  Has-next_round r t [] below m h = absurd h

  -- Every walk of `d` steps has its row.
  abbrev IsFull : ℕ → ℕ → List TagRef → Type 0
  IsFull a d rs = (t : ℕ) → Walk near d a t → Has (at_depth d t) rs

  IsFull-next :
      (a d : ℕ) (rs : List TagRef)
      → d < bound
      → IsFull a d rs
      → IsFull a (suc d) (next_round near bound rs)
  IsFull-next a d rs below full t (b, w, m) = Has-next_round (at_depth d b) t rs below m (full b w)

  rounds_complete :
      (a n d fuel : ℕ) (rs : List TagRef)
      → IsFull a d rs
      → d ≤ n
      → n < d + fuel
      → n ≤ bound
      → IsFull a n (rounds near bound fuel rs)
  unfolding rounds
  rounds_complete a n d zero rs full lo hi cap t w = absurd (omega arith)
  rounds_complete a n d (suc fuel) rs full lo hi cap t w = elim (dec_lt d n) [
    | yes more ↦ Has-append_right _ rs _ (
        rounds_complete a n (suc d) fuel (next_round near bound rs)
          (IsFull-next a d rs (omega arith) full) more (omega arith) cap t w)
    | no done ↦
        Has-append_left _ rs _
          (let e : d ≡ n = omega arith in subst (λ k. IsFull a k rs) e full t w)
  ]

  base-IsFull : (a : ℕ) → IsFull a 1 (map (at_depth 1) (near a))
  base-IsFull a t (b, w, m) =
      Has-map (at_depth 1) t (near a) (subst (λ k. Has t (near k)) (sym w) m)

  base-Sound : (a : ℕ) → 1 ≤ bound → All (Sound a) (map (at_depth 1) (near a))
  base-Sound a h =
      All-at_depth 1 (Sound a) (near a) (λ t m. ((a, refl, m), omega arith, omega arith))

  -- The rows of the query are the walks of one step to `bound` steps, each at its length.
  pub recursive_walk-exact :
      (a : ℕ) (r : TagRef)
      → 1 ≤ bound
      → Has r (recursive_walk near bound a)
        ↔ (Walk near r.depth a r.tag_id × (1 ≤ r.depth) × (r.depth ≤ bound))
  unfolding recursive_walk
  recursive_walk-exact a r h = (
    (λ m. All-Has (Sound a) _ r (rounds-Sound a bound _ (base-Sound a h)) m),
    λ w.
        rounds_complete a r.depth 1 bound (map (at_depth 1) (near a)) (base-IsFull a) w.1
          (omega arith) w.2 r.tag_id w.0,
  )

  -- No row of the round after the last stands below the bound, so more rounds add nothing.
  abbrev AtDepth : ℕ → TagRef → Type 0
  AtDepth d r = (r.depth ≡ d) × (d ≤ bound)

  rounds-nil : (fuel : ℕ) → rounds near bound fuel [] ≡ []
  unfolding rounds next_round
  rounds-nil zero = refl
  rounds-nil (suc fuel) = rounds-nil fuel

  rounds_stop :
      (d fuel more : ℕ) (rs : List TagRef)
      → All (AtDepth d) rs
      → bound < d + fuel
      → rounds near bound (fuel + more) rs ≡ rounds near bound fuel rs
  unfolding rounds
  rounds_stop d zero more [] h e = rounds-nil (0 + more)
  rounds_stop d zero more (r ∷ rs) h e = absurd (omega arith)
  rounds_stop d (suc fuel) more rs h e =
      let ih : rounds near bound (fuel + more) (next_round near bound rs)
          ≡ rounds near bound fuel (next_round near bound rs) =
        rounds_stop (suc d) fuel more (next_round near bound rs)
          (next_round-All (AtDepth d) (AtDepth (suc d)) rs
            (λ r t p below m. (omega arith, omega arith)) h)
          (omega arith) in
      rw (suc-add fuel more) (ap (λ l. rs ++ l) ih)

  -- The query stops by itself: any number of further rounds leaves its result as it is.
  pub recursive_walk_stops :
      (a more : ℕ)
      → 1 ≤ bound
      → rounds near bound (bound + more) (map (at_depth 1) (near a)) ≡ recursive_walk near bound a
  unfolding recursive_walk
  recursive_walk_stops a more h =
      rounds_stop 1 bound more (map (at_depth 1) (near a))
        (All-at_depth 1 (AtDepth 1) (near a) (λ t m. (refl, h))) (omega arith)
