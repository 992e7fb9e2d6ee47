-- ===== src/Retrieval/Dedupe.antt =====
-- `_dedupe`: one hit for each item, and the seeds still before what the graph reached.
use catchment.Prelude.{
  All, All-mono, Bool, Bool-cases, IsKeyed, List, Ordered, Table, [], arith, false, find,
  if◌then◌else◌, inl, inr, ltb, map, nat_eq, none, pair_eq, refl, sym, text_eq, true, upsert,
  upsert-IsKeyed, ℕ, ◌++◌, ◌==◌, ◌∙◌, ◌∷◌, ◌≡◌, ◌≢◌,
}
use catchment.Retrieval.{Route, SearchHit, dedupe, dedupe_into, expanded, keep_best, seed}
use catchment.Retrieval.Ranking.{IsScored, Precedes}
use mathlib.Core.List.{append-nil}

abbrev Best : Type 0
Best = Table ℕ SearchHit

abbrev values : Best → List SearchHit
values best = map (λ row. row.1) best

abbrev noted : SearchHit → Best → Best
noted hit best = upsert hit.item_id hit (keep_best hit) best

abbrev SeedsFirst : SearchHit → SearchHit → Type 0
SeedsFirst h g = h.route ≡ expanded → g.route ≡ expanded

-- A hit of lower score, or of the same, does not replace the one that is there.
keep_best-route :
    (hit cur : SearchHit)
    → IsScored hit
    → IsScored cur
    → SeedsFirst cur hit
    → (keep_best hit cur).route ≡ cur.route
unfolding keep_best
keep_best-route hit cur sh sc first = by_routes hit.route cur.route refl refl
  where
    by_routes :
        (r q : Route) → hit.route ≡ r → cur.route ≡ q → (keep_best hit cur).route ≡ cur.route
    by_routes seed seed e f = ground (arith, e, f)
    by_routes expanded expanded e f = ground (arith, e, f)
    by_routes seed expanded e f = ground (arith, first f, e)
    by_routes expanded seed e f = ground (arith, sh.1 e, sc.0 f)

-- What holds of a list holds of one element and of the others.
All-without :
    (P : SearchHit → Type 0) (hit : SearchHit) (hs rest : List SearchHit)
    → All P (hs ++ hit ∷ rest)
    → P hit × All P (hs ++ rest)
All-without P hit [] rest h = h
All-without P hit (g ∷ hs) rest h =
    let (p, others) = All-without P hit hs rest h.1 in (p, (h.0, others))

All-noted :
    (P : SearchHit → Type 0) (hit : SearchHit) (best : Best) (rest : List SearchHit)
    → All P (values best ++ hit ∷ rest)
    → All P (values (noted hit best) ++ rest)
unfolding upsert keep_best
All-noted P hit [] rest h = h
All-noted P hit ((k, w) ∷ best) rest h = elim (Bool-cases (k == hit.item_id)) [
  | inl same ↦
      rw same (either (ltb w.score hit.score), (All-without P hit (values best) rest h.1).1)
  | inr other ↦ rw other (h.0, All-noted P hit best rest h.1)
]
  where
    either : (c : Bool) → P (if c then hit else w)
    either true = (All-without P hit (values best) rest h.1).0
    either false = h.0

Ordered-without :
    (R : SearchHit → SearchHit → Type 0) (hit : SearchHit) (hs rest : List SearchHit)
    → Ordered R (hs ++ hit ∷ rest)
    → Ordered R (hs ++ rest)
Ordered-without R hit [] rest h = h.1
Ordered-without R hit (g ∷ hs) rest h =
    ((All-without (R g) hit hs rest h.0).1, Ordered-without R hit hs rest h.1)

Ordered-noted :
    (hit : SearchHit) (best : Best) (rest : List SearchHit)
    → IsScored hit
    → All IsScored (values best)
    → Ordered SeedsFirst (values best ++ hit ∷ rest)
    → Ordered SeedsFirst (values (noted hit best) ++ rest)
unfolding upsert
Ordered-noted hit [] rest sh sc o = o
Ordered-noted hit ((k, w) ∷ best) rest sh sc o = elim (Bool-cases (k == hit.item_id)) [
  | inl same ↦ rw same (
    All-mono (SeedsFirst w) (SeedsFirst (keep_best hit w)) (values best ++ rest)
        (λ x q e. q (
          sym (
            keep_best-route hit w sh sc.0 (All-without (SeedsFirst w) hit (values best) rest o.0).0)
          ∙ e))
        (All-without (SeedsFirst w) hit (values best) rest o.0).1,
    Ordered-without SeedsFirst hit (values best) rest o.1,
  )
  | inr other ↦
      rw other (All-noted (SeedsFirst w) hit best rest o.0, Ordered-noted hit best rest sh sc.1 o.1)
]

-- The table's keys are the items of its hits.
abbrev IsFiled : Best → Type 0
IsFiled best = All (λ row. row.1.item_id ≡ row.0) best × IsKeyed best

noted-filed :
    (hit : SearchHit) (best : Best)
    → All (λ row. row.1.item_id ≡ row.0) best
    → All (λ row. row.1.item_id ≡ row.0) (noted hit best)
unfolding upsert keep_best
noted-filed hit [] h = (refl, tt)
noted-filed hit ((k, w) ∷ best) h = elim (Bool-cases (k == hit.item_id)) [
  | inl same ↦ rw same (either same (ltb w.score hit.score), h.1)
  | inr other ↦ rw other (h.0, noted-filed hit best h.1)
]
  where
    either : (k == hit.item_id) ≡ true → (c : Bool) → (if c then hit else w).item_id ≡ k
    either same true = sym ((nat_eq.beq_iff k hit.item_id).0 same)
    either same false = h.0

noted-IsFiled : (hit : SearchHit) (best : Best) → IsFiled best → IsFiled (noted hit best)
noted-IsFiled hit best (filed, keyed) =
    (noted-filed hit best filed, upsert-IsKeyed hit.item_id hit (keep_best hit) best keyed)

IsFiled-distinct :
    (best : Best) → IsFiled best → Ordered (λ h g. h.item_id ≢ g.item_id) (values best)
unfolding find
IsFiled-distinct [] f = tt
IsFiled-distinct ((k, w) ∷ best) ((here, filed), (absent, keyed)) =
    (others best filed absent, IsFiled-distinct best (filed, keyed))
  where
    others :
        (b : Best)
        → All (λ row. row.1.item_id ≡ row.0) b
        → find k b ≡ none
        → All (λ g. w.item_id ≢ g.item_id) (values b)
    others [] f e = tt
    others ((j, v) ∷ b) f e = elim (Bool-cases (j == k)) [
      | inl same ↦ ground (arith, e, same)
      | inr other ↦ (
        (λ q. ground (arith, q, here, f.0, other, nat_eq.beq_iff j k)),
        others b f.1 (ground (arith, e, other)),
      )
    ]

dedupe_into-Precedes :
    (best : Best) (hits : List SearchHit)
    → IsFiled best
    → All IsScored (values best ++ hits)
    → Ordered SeedsFirst (values best ++ hits)
    → All IsScored (values (dedupe_into best hits))
      × Ordered Precedes (values (dedupe_into best hits))
unfolding dedupe_into
dedupe_into-Precedes best [] f sc o =
    (rw append-nil at sc, both (values best) (IsFiled-distinct best f) (rw append-nil at o))
  where
    zip :
        (h : SearchHit) (hs : List SearchHit)
        → All (λ g. h.item_id ≢ g.item_id) hs
        → All (SeedsFirst h) hs
        → All (Precedes h) hs
    zip h [] d q = tt
    zip h (g ∷ hs) d q = (record { distinct_items = d.0; seeds_first = q.0 }, zip h hs d.1 q.1)

    both :
        (hs : List SearchHit)
        → Ordered (λ h g. h.item_id ≢ g.item_id) hs
        → Ordered SeedsFirst hs
        → Ordered Precedes hs
    both [] d q = tt
    both (h ∷ hs) d q = (zip h hs d.0 q.0, both hs d.1 q.1)
dedupe_into-Precedes best (hit ∷ hits) f sc o =
    let (sh, others) = All-without IsScored hit (values best) hits sc in
    dedupe_into-Precedes (noted hit best) hits (noted-IsFiled hit best f)
      (All-noted IsScored hit best hits sc)
      (Ordered-noted hit best hits sh (front (values best) sc) o)
  where
    front : (hs : List SearchHit) → All IsScored (hs ++ hit ∷ hits) → All IsScored hs
    front [] q = tt
    front (g ∷ hs) q = (q.0, front hs q.1)

-- The hits of `_dedupe`, where seeds stand first and are scored as seeds are.
pub dedupe-Precedes :
    (hits : List SearchHit)
    → All IsScored hits
    → Ordered (λ h g. h.route ≡ expanded → g.route ≡ expanded) hits
    → All IsScored (dedupe hits) × Ordered Precedes (dedupe hits)
unfolding dedupe
dedupe-Precedes hits sc o = dedupe_into-Precedes [] hits (tt, tt) sc o
