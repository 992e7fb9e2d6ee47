-- ===== src/Retrieval/Ranking.antt =====
-- The order of the hits that `search` returns.
use catchment.Prelude.{
  All, Bool, Bool-cases, List, Ordered, [], arith, false, inl, inr, insert_by, leb, nat_eq, pair_eq,
  refl, sym, text_eq, ◌∷◌, ◌≡◌, ◌≢◌, ◌≤◌,
}
use catchment.Prelude.Floats.{half}
use catchment.Retrieval.{Route, SearchHit, by_score, expanded, seed}

-- A seed scores at least the ceiling, and what the graph reached at most that.
abbrev pub IsScored : SearchHit → Type 0
IsScored h = (h.route ≡ seed → half ≤ h.score) × (h.route ≡ expanded → h.score ≤ half)

-- Of two hits, in this order: no item stands twice, and no seed after what the graph reached.
pub record Precedes (h g : SearchHit) : Type 0 where
  pub distinct_items : h.item_id ≢ g.item_id
  pub seeds_first : h.route ≡ expanded → g.route ≡ expanded

-- The same, and the higher score first.
pub record Outranks (h g : SearchHit) : Type 0 where
  pub precedes : Precedes h g
  pub higher : g.score ≤ h.score

abbrev no_later : SearchHit → SearchHit → Bool
no_later a b = leb b.score a.score

All-insert_by :
    (P : SearchHit → Type 0) (a : SearchHit) (bs : List SearchHit)
    → P a
    → All P bs
    → All P (insert_by no_later a bs)
unfolding insert_by
All-insert_by P a [] p h = (p, tt)
All-insert_by P a (b ∷ bs) p h = elim (Bool-cases (no_later a b)) [
  | inl here ↦ rw here (p, h)
  | inr later ↦ rw later (h.0, All-insert_by P a bs p h.1)
]

All-by_score : (P : SearchHit → Type 0) (hits : List SearchHit) → All P hits → All P (by_score hits)
unfolding by_score
All-by_score P [] h = tt
All-by_score P (a ∷ hits) h = All-insert_by P a (by_score hits) h.0 (All-by_score P hits h.1)

-- What is passed over scores more, so it is a seed where the hit that passes it is one.
passed-Outranks :
    (a b : SearchHit) → IsScored a → IsScored b → Precedes a b → no_later a b ≡ false → Outranks b a
passed-Outranks a b (a_seed, a_graph) (b_seed, b_graph) p h = record {
  precedes = record {
    distinct_items = λ e. p.distinct_items (sym e);
    seeds_first = route a.route refl;
  };
  higher = ground (arith, h);
}
  where
    route : (r : Route) → a.route ≡ r → b.route ≡ expanded → a.route ≡ expanded
    route expanded e f = e
    route seed e f = absurd (ground (arith, a_seed e, b_graph f, h))

insert_by-Outranks :
    (a : SearchHit) (bs : List SearchHit)
    → IsScored a
    → All IsScored bs
    → All (Precedes a) bs
    → Ordered Outranks bs
    → Ordered Outranks (insert_by no_later a bs)
unfolding insert_by
insert_by-Outranks a [] sa sb p o = (tt, tt)
insert_by-Outranks a (b ∷ bs) sa sb p o = elim (Bool-cases (no_later a b)) [
  | inl here ↦
      rw here
        (((front b p.0 (ground (arith, here))), all_front bs p.1 o.0 (ground (arith, here))), o)
  | inr later ↦ rw later (
    All-insert_by (Outranks b) a bs (passed-Outranks a b sa sb.0 p.0 later) o.0,
    insert_by-Outranks a bs sa sb.1 p.1 o.1,
  )
]
  where
    front : (g : SearchHit) → Precedes a g → g.score ≤ a.score → Outranks a g
    front g q le = record { precedes = q; higher = le }

    all_front :
        (gs : List SearchHit)
        → All (Precedes a) gs
        → All (Outranks b) gs
        → b.score ≤ a.score
        → All (Outranks a) gs
    all_front [] q r le = tt
    all_front (g ∷ gs) q r le =
        (front g q.0 (let higher = r.0.higher in omega arith), all_front gs q.1 r.1 le)

pub by_score-Outranks :
    (hits : List SearchHit)
    → All IsScored hits
    → Ordered Precedes hits
    → Ordered Outranks (by_score hits)
unfolding by_score
by_score-Outranks [] sc o = tt
by_score-Outranks (a ∷ hits) sc o =
    insert_by-Outranks a (by_score hits) sc.0 (All-by_score IsScored hits sc.1)
      (All-by_score (Precedes a) hits o.0) (by_score-Outranks hits sc.1 o.1)
