-- ===== src/Classification/Service/Budget.antt =====
-- `_apply`: the budget of edges, and the graph that `classify_item` leaves.
use catchment.Prelude.{
  Bool, List, Option, Text, [], arith, false, if◌then◌else◌, inl, inr, length, ltb, nat_eq, pair_eq,
  subst, suc, sym, text_eq, true, ℕ, ◌+◌, ◌-◌, ◌∷◌, ◌≡◌, ◌≤◌,
}
use catchment.Storage.Models.{Store}
use catchment.Storage.Session.{Db-cases, Result, bind-pure_state, ok}
use catchment.Storage.Tags.{tag_depth_hard_ceiling}
use catchment.Storage.Tags.Cycles.{NoCycle}
use catchment.Classification.Types.{TagSuggestion}
use catchment.Classification.Service.{apply_suggestions, count, place}
use catchment.Classification.Service.Applied.{
  apply_suggestion-cases, place-NoCycle, place-length, place_if,
}

abbrev placed_in : Result (Bool × Bool) → ℕ
placed_in (ok (created, true)) = 1
placed_in _ = 0

module _ (own : ℕ) (lo : 1 ≤ own) (hi : own ≤ tag_depth_hard_ceiling) where
  place_if-length :
      (may_link : Bool) (b : Option Text) (c : ℕ) (made : Bool) (s : Store)
      → length (place_if own may_link b c made s).1.edges
        ≤ length s.edges + (if may_link then placed_in (place_if own may_link b c made s).0 else 0)
  place_if-length false b c made s = omega arith
  place_if-length true b c made s = elim (Db-cases (place own b c) s) [
    | inl (true, t, e) ↦ ground (arith, e, place-length own lo hi b c s)
    | inl (false, t, e) ↦ ground (arith, e, place-length own lo hi b c s)
    | inr (x, t, e) ↦ ground (arith, e, place-length own lo hi b c s)
  ]

  place_if-NoCycle :
      (may_link : Bool) (b : Option Text) (c : ℕ) (made : Bool) (s : Store)
      → NoCycle s.edges (suc own)
      → NoCycle (place_if own may_link b c made s).1.edges (suc own)
  place_if-NoCycle false b c made s keep = keep
  place_if-NoCycle true b c made s keep =
      subst (λ t. NoCycle t.edges (suc own))
        (sym (bind-pure_state (place own b c) (λ placed. (made, placed)) s))
        (place-NoCycle own lo hi b c s keep)

  module _ (normalize : Text → Text) (item_id : ℕ) (trace_id : Option Text) where
    -- `max_edges - linked` edges are left to add, whether the loop returns or raises.
    pub apply_suggestions-edges :
        (max_edges coined linked : ℕ) (l : List TagSuggestion) (s : Store)
        → length
            (apply_suggestions normalize own item_id trace_id max_edges coined linked l s).1.edges
          ≤ length s.edges + (max_edges - linked)
    unfolding apply_suggestions
    apply_suggestions-edges m coined linked [] s = omega arith
    apply_suggestions-edges m coined linked (x ∷ rest) s =
        elim (apply_suggestion-cases normalize own item_id trace_id (ltb linked m) x s) [
          | inl (e, t, run, same) ↦ rw run (ground (arith, same))
          | inr (tag_id, created, t, same, run) ↦
              elim (Db-cases (place_if own (ltb linked m) x.broader_than tag_id created) t) [
                | inr (e, t', bad) ↦
                    rw (run, bad)
                      (ground (
                        arith,
                        same,
                        bad,
                        place_if-length (ltb linked m) x.broader_than tag_id created t,
                      ))
                | inl ((made, placed), t', good) ↦
                    rw (run, good)
                      (ground (
                        arith,
                        same,
                        good,
                        place_if-length (ltb linked m) x.broader_than tag_id created t,
                        apply_suggestions-edges m (count made coined) (count placed linked) rest t',
                      ))
              ]
        ]

    pub apply_suggestions-NoCycle :
        (max_edges coined linked : ℕ) (l : List TagSuggestion) (s : Store)
        → NoCycle s.edges (suc own)
        → NoCycle
            (apply_suggestions normalize own item_id trace_id max_edges coined linked l s).1.edges
            (suc own)
    unfolding apply_suggestions
    apply_suggestions-NoCycle m coined linked [] s keep = keep
    apply_suggestions-NoCycle m coined linked (x ∷ rest) s keep =
        elim (apply_suggestion-cases normalize own item_id trace_id (ltb linked m) x s) [
          | inl (e, t, run, same) ↦ rw (run, same) keep
          | inr (tag_id, created, t, same, run) ↦
              elim (Db-cases (place_if own (ltb linked m) x.broader_than tag_id created) t) [
                | inr (e, t', bad) ↦
                    rw (run, bad) (kept tag_id created t t' same (ground (arith, bad)))
                | inl ((made, placed), t', good) ↦
                    rw (run, good)
                      (apply_suggestions-NoCycle m (count made coined) (count placed linked) rest t'
                        (kept tag_id created t t' same (ground (arith, good))))
              ]
        ]
      where
        kept :
            (tag_id : ℕ) (created : Bool) (t t' : Store)
            → t.edges ≡ s.edges
            → (place_if own (ltb linked m) x.broader_than tag_id created t).1 ≡ t'
            → NoCycle t'.edges (suc own)
        kept tag_id created t t' same is =
            subst (λ u. NoCycle u.edges (suc own)) is
              (place_if-NoCycle (ltb linked m) x.broader_than tag_id created t (rw same keep))
