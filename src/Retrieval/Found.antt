-- ===== src/Retrieval/Found.antt =====
-- `search` as a whole.
use catchment.Prelude.{
  All, All-append, All-mono, All-of_map, Bool-cases, List, Ordered, Ordered-take, Table, Text, [],
  arith, false, inl, inr, length, length-take-le, map, nat_beq, nat_eq, none, pair_eq, refl,
  text_eq, true, ℕ, ◌*◌, ◌++◌, ◌∷◌, ◌≡◌, ◌≤◌, ◌⊎◌,
}
use catchment.Prelude.Floats.{FloatOps, half, seven_tenths, three_tenths}
use catchment.Prelude.Json.{one}
use catchment.Prelude.Strip.{is_empty, strip}
use catchment.Storage.Models.{Store, Vector}
use catchment.Storage.Session.{Result, integrity_error, ok, raise, value_error}
use catchment.Storage.Tags.{tag_depth_hard_ceiling}
use catchment.Storage.Items.{embedding_dim, nearest, nearest_rows}
use catchment.Classification.Service.{first_vector}
use catchment.Retrieval.{
  SearchHit, SearchResult, aggregate, by_score, dedupe, expanded, expanded_hit, expanded_hits,
  expanded_score, found, item_tag_pairs, search, search_near, seed, seed_hit,
}
use catchment.Retrieval.Walk.{walk-exact}
use catchment.Retrieval.Ranking.{IsScored, Outranks, by_score-Outranks}
use catchment.Retrieval.Dedupe.{dedupe-Precedes}
use Prim.Native.Nat.{min}

seed_hits-IsScored :
    (ops : FloatOps) (seeds : List (ℕ × ℕ)) → All IsScored (map (seed_hit ops) seeds)
unfolding seed_hit
seed_hits-IsScored ops [] = tt
seed_hits-IsScored ops ((item_id, distance) ∷ seeds) = (
  (λ e. ops.add_grows half (ops.above one (ops.div distance (2 * one))), λ e. ground (arith, e)),
  seed_hits-IsScored ops seeds,
)

expanded_score-le : (ops : FloatOps) (depth matches : ℕ) → expanded_score ops depth matches ≤ half
unfolding expanded_score
expanded_score-le ops depth matches =
    let proximity = ops.div one (ops.add one (ops.of_int depth)) in
    let density = ops.div (ops.of_int (min matches 5)) (ops.of_int 5) in
    let near =
      ops.div_shrinks one (ops.add one (ops.of_int depth)) (ops.add_grows one (ops.of_int depth)) in
    let dense =
      ops.div_le_one (ops.of_int (min matches 5)) (ops.of_int 5)
        (ops.of_int_mono (min matches 5) 5 (ground arith)) (ops.of_int_pos 5 (omega arith)) in
    let total =
      ops.add_mono (ops.mul seven_tenths proximity) seven_tenths (ops.mul three_tenths density)
        three_tenths (ops.mul_shrinks seven_tenths proximity near)
        (ops.mul_shrinks three_tenths density dense) in
    let weights = ops.weights in
    ops.mul_shrinks half (ops.add (ops.mul seven_tenths proximity) (ops.mul three_tenths density))
      (omega arith)

expanded_hits-route :
    (ops : FloatOps) (seed_ids : List ℕ) (depths : Table ℕ ℕ) (s : Store)
    → All (λ h. (h.route ≡ expanded) × IsScored h) (expanded_hits ops seed_ids depths s)
unfolding expanded_hits expanded_hit
expanded_hits-route ops seed_ids [] s = tt
expanded_hits-route ops seed_ids (row ∷ depths) s =
    All-of_map (λ h. (h.route ≡ expanded) × IsScored h) (expanded_hit ops)
      (aggregate (item_tag_pairs (map (λ r. r.0) (row ∷ depths)) seed_ids 500 s) (row ∷ depths))
      (λ x. (refl, ((λ e. ground (arith, e)), (λ e. expanded_score-le ops x.2 x.1))))

seeds_then_expanded :
    (ops : FloatOps) (seeds : List (ℕ × ℕ)) (more : List SearchHit)
    → All (λ h. (h.route ≡ expanded) × IsScored h) more
    → Ordered (λ h g. h.route ≡ expanded → g.route ≡ expanded) (map (seed_hit ops) seeds ++ more)
unfolding seed_hit
seeds_then_expanded ops [] more h = only more h
  where
    all_after :
        (x : SearchHit) (l : List SearchHit)
        → All (λ h. (h.route ≡ expanded) × IsScored h) l
        → All (λ g. x.route ≡ expanded → g.route ≡ expanded) l
    all_after x [] q = tt
    all_after x (g ∷ l) q = ((λ e. q.0.0), all_after x l q.1)

    only :
        (l : List SearchHit)
        → All (λ h. (h.route ≡ expanded) × IsScored h) l
        → Ordered (λ h g. h.route ≡ expanded → g.route ≡ expanded) l
    only [] q = tt
    only (x ∷ l) q = (all_after x l q.1, only l q.1)
seeds_then_expanded ops ((item_id, distance) ∷ seeds) more h =
    (vacuous (map (seed_hit ops) seeds ++ more), seeds_then_expanded ops seeds more h)
  where
    vacuous : (l : List SearchHit) → All (λ g. seed ≡ expanded → g.route ≡ expanded) l
    vacuous [] = tt
    vacuous (g ∷ l) = ((λ e. ground (arith, e)), vacuous l)

-- A page of results: no longer than asked for, the higher score first, no item twice, and no seed
-- after what the graph reached.
pub record IsPage (limit : ℕ) (r : SearchResult) : Type 0 where
  pub bounded : length r.hits ≤ limit
  pub ranked : Ordered Outranks r.hits

found-IsPage :
    (ops : FloatOps) (limit : ℕ) (seeds : List (ℕ × ℕ)) (depths : Table ℕ ℕ) (seed_ids : List ℕ)
    (s : Store)
    → IsPage limit (found ops limit seeds depths (expanded_hits ops seed_ids depths s))
unfolding found
found-IsPage ops limit seeds depths seed_ids s =
    let more = expanded_hits ops seed_ids depths s in
    let routes = expanded_hits-route ops seed_ids depths s in
    let (scored, precedes) =
      dedupe-Precedes (map (seed_hit ops) seeds ++ more)
        (All-append IsScored (map (seed_hit ops) seeds) more (seed_hits-IsScored ops seeds)
          (All-mono (λ h. (h.route ≡ expanded) × IsScored h) IsScored more (λ h q. q.1) routes))
        (seeds_then_expanded ops seeds more routes) in
    record {
      bounded = length-take-le limit (by_score (dedupe (map (seed_hit ops) seeds ++ more)));
      ranked = Ordered-take Outranks limit _ (by_score-Outranks _ scored precedes);
    }

-- At a depth of the tag repository from 1 to 32, a query with a character that is no space, for which
-- the embedder gives a vector: `search` writes nothing. Where the vector is of the dimension of the
-- column it returns, and its hits are no more than the limit, the higher score first, with no item
-- twice and no seed after what the graph reached; a vector of another dimension is refused.
pub search-IsPage :
    (ops : FloatOps) (embed : List Text → Result (List Vector)) (distance : Vector → Vector → ℕ)
    (own : ℕ) (query : Text) (limit seed_limit : ℕ) (v : Vector) (vs : List Vector) (s : Store)
    → 1 ≤ own
    → own ≤ tag_depth_hard_ceiling
    → is_empty (strip query) ≡ false
    → embed (strip query ∷ []) ≡ ok (v ∷ vs)
    → ((nat_beq (length v) embedding_dim ≡ true)
        × (r : SearchResult) × (search ops embed distance own query limit seed_limit s ≡ (ok r, s))
        × IsPage limit r)
      ⊎ ((nat_beq (length v) embedding_dim ≡ false)
          × (search ops embed distance own query limit seed_limit s ≡ (raise integrity_error, s)))
unfolding search search_near first_vector nearest
search-IsPage ops embed distance own query limit seed_limit v vs s lo hi some_query embedded =
    elim (Bool-cases (nat_beq (length v) embedding_dim)) [
      | inr other ↦ inr (other, ground (arith, some_query, embedded, other))
      | inl fit ↦
          let seeds = nearest_rows (distance v) seed_limit none s in
          let (depths, walked, _) = walk-exact own (map (λ p. p.0) seeds) s lo hi in
          inl (
            fit,
            found ops limit seeds depths (expanded_hits ops (map (λ p. p.0) seeds) depths s),
            ground (arith, some_query, embedded, fit, walked),
            found-IsPage ops limit seeds depths (map (λ p. p.0) seeds) s,
          )
    ]

-- A query that is empty or all spaces is refused, and nothing is written.
pub search-empty :
    (ops : FloatOps) (embed : List Text → Result (List Vector)) (distance : Vector → Vector → ℕ)
    (own : ℕ) (query : Text) (limit seed_limit : ℕ) (s : Store)
    → is_empty (strip query) ≡ true
    → search ops embed distance own query limit seed_limit s ≡ (raise value_error, s)
unfolding search
search-empty ops embed distance own query limit seed_limit s empty = ground (arith, empty)
