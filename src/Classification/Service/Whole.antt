-- ===== src/Classification/Service/Whole.antt =====
-- `classify_item` as a whole: what a run may add, whether it returns or raises.
use catchment.Prelude.{
  Bool-cases, List, Text, [], arith, inl, inr, length, map, nat_beq, nat_eq, pair_eq, some, suc,
  text_eq, ℕ, ◌+◌, ◌∷◌, ◌≡◌, ◌≤◌, ◌⊎◌,
}
use catchment.Storage.Models.{Store, Vector, is_item}
use catchment.Storage.Session.{Db-cases, Result-cases, integrity_error, ok, raise}
use catchment.Storage.Tags.{labels_for_items, tag_depth_hard_ceiling}
use catchment.Storage.Tags.Cycles.{NoCycle}
use catchment.Storage.Items.{embedding_dim, nearest, nearest_rows, set_embedding}
use catchment.Classification.Types.{ClassificationResult, TagSuggestion, above}
use catchment.Classification.Service.{
  Capped, Services, Settings, apply_suggestions, candidate_tags, cap_new_tags, classify_item,
  first_vector, with_slugs,
}
use catchment.Classification.Service.Budget.{apply_suggestions-NoCycle, apply_suggestions-edges}

set_embedding-frame :
    (i : ℕ) (model : Text) (v : Vector) (s : Store)
    → ((set_embedding i model v s).1.edges ≡ s.edges)
      × ((set_embedding i model v s).1.tags ≡ s.tags)
unfolding set_embedding
set_embedding-frame i model v s = ground arith

cap_new_tags-state :
    (normalize : Text → Text) (limit : ℕ) (l : List TagSuggestion) (s : Store)
    → (cap_new_tags normalize limit l s).1 ≡ s
unfolding cap_new_tags
cap_new_tags-state normalize limit l s = elim (Result-cases (with_slugs normalize l)) [
  | inl (a, e) ↦ ground (arith, e)
  | inr (a, e) ↦ ground (arith, e)
]

candidate_tags-cases :
    (x : Services) (settings : Settings) (v : Vector) (i : ℕ) (s : Store)
    → ((tags : List Text) × (candidate_tags x settings v i s ≡ (ok tags, s)))
      ⊎ (candidate_tags x settings v i s ≡ (raise integrity_error, s))
unfolding candidate_tags nearest
candidate_tags-cases x settings v i s = elim (Bool-cases (nat_beq (length v) embedding_dim)) [
  | inl fit ↦
      let near = nearest_rows (x.distance v) settings.classification_neighbours (some i) s in
      inl (labels_for_items x.collate (map (λ n. n.0) near) s, ground (arith, fit))
  | inr other ↦ inr (ground (arith, other))
]

-- The state that `classify_item` leaves, by the point at which it stops.
abbrev pub Stopped : (Store → Store → Type 0)
Stopped s t = (t.edges ≡ s.edges) × (t.tags ≡ s.tags)

module _ (x : Services) (settings : Settings) (own item_id : ℕ) (content : Text) where
  pub classify_item-cases :
      (s : Store)
      → Stopped s (classify_item x settings own item_id content s).1
        ⊎ ((result : ClassificationResult) × (c : Capped) × (t : Store) × Stopped s t
            × (cap_new_tags x.normalize settings.max_new_tags_per_item
                  (above settings.classification_threshold result)
                  t
                ≡ (ok c, t))
            × ((classify_item x settings own item_id content s).1
                ≡ (apply_suggestions x.normalize own item_id result.trace_id
                    settings.max_new_edges_per_item 0 0 c.kept t).1))
  unfolding classify_item
  classify_item-cases s = elim (Bool-cases (is_item item_id s)) [
    | inr gone ↦ inl (ground (arith, gone))
    | inl there ↦ elim (Result-cases (first_vector (x.embed (content ∷ [])))) [
      | inr (e, bad) ↦ inl (ground (arith, there, bad))
      | inl (v, got) ↦ elim (Db-cases (set_embedding item_id settings.embedding_model v) s) [
        | inr (e, t, bad) ↦ inl (
            ground
              (arith, there, got, bad, set_embedding-frame item_id settings.embedding_model v s))
        | inl (u, t, set) ↦ elim (candidate_tags-cases x settings v item_id t) [
          | inr far ↦ inl (
              ground (
                arith,
                there,
                got,
                set,
                far,
                set_embedding-frame item_id settings.embedding_model v s,
              ))
          | inl (tags, near) ↦ elim (Result-cases (x.classify content tags)) [
            | inr (e, bad) ↦ inl (
                ground (
                  arith,
                  there,
                  got,
                  set,
                  near,
                  bad,
                  set_embedding-frame item_id settings.embedding_model v s,
                ))
            | inl (result, read) ↦
                elim (Db-cases
                  (cap_new_tags x.normalize settings.max_new_tags_per_item
                    (above settings.classification_threshold result))
                  t) [
                    | inr (e, t', bad) ↦ inl (
                        ground (
                          arith,
                          there,
                          got,
                          set,
                          near,
                          read,
                          bad,
                          set_embedding-frame item_id settings.embedding_model v s,
                          cap_new_tags-state x.normalize settings.max_new_tags_per_item
                              (above settings.classification_threshold result) t,
                        ))
                    | inl (c, t', cap) ↦
                        elim (Db-cases
                          (apply_suggestions x.normalize own item_id result.trace_id
                            settings.max_new_edges_per_item 0 0 c.kept)
                          t) [
                            | inl (n, t'', done) ↦ inr (
                              result,
                              c,
                              t,
                              ground (
                                arith,
                                set,
                                set_embedding-frame item_id settings.embedding_model v s,
                              ),
                              ground (
                                arith,
                                cap,
                                cap_new_tags-state x.normalize settings.max_new_tags_per_item
                                    (above settings.classification_threshold result) t,
                              ),
                              ground (
                                arith,
                                there,
                                got,
                                set,
                                near,
                                read,
                                cap,
                                done,
                                cap_new_tags-state x.normalize settings.max_new_tags_per_item
                                    (above settings.classification_threshold result) t,
                              ),
                            )
                            | inr (n, t'', done) ↦ inr (
                              result,
                              c,
                              t,
                              ground (
                                arith,
                                set,
                                set_embedding-frame item_id settings.embedding_model v s,
                              ),
                              ground (
                                arith,
                                cap,
                                cap_new_tags-state x.normalize settings.max_new_tags_per_item
                                    (above settings.classification_threshold result) t,
                              ),
                              ground (
                                arith,
                                there,
                                got,
                                set,
                                near,
                                read,
                                cap,
                                done,
                                cap_new_tags-state x.normalize settings.max_new_tags_per_item
                                    (above settings.classification_threshold result) t,
                              ),
                            )
                          ]
                  ]
          ]
        ]
      ]
    ]
  ]

-- Where the depth of the tag repository is from 1 to 32, `classify_item` adds at most
-- `max_new_edges_per_item` edges to the tag graph, whatever the embedder and the classifier
-- answer, and whether it returns or raises.
pub classify_item-edges :
    (x : Services) (settings : Settings) (own item_id : ℕ) (content : Text) (s : Store)
    → 1 ≤ own
    → own ≤ tag_depth_hard_ceiling
    → length (classify_item x settings own item_id content s).1.edges
      ≤ length s.edges + settings.max_new_edges_per_item
classify_item-edges x settings own i content s lo hi =
    elim (classify_item-cases x settings own i content s) [
      | inl (same, _) ↦ ground (arith, same)
      | inr (result, c, t, (same, _), _, run) ↦ rw run (
          ground (
            arith,
            same,
            apply_suggestions-edges own lo hi x.normalize i result.trace_id
                settings.max_new_edges_per_item 0 0 c.kept t,
          ))
    ]

-- Where the depth of the tag repository is from 1 to 32, `classify_item` keeps the tag graph free
-- of cycles of up to one edge more than that depth, whatever the classifier suggests, and whether
-- it returns or raises.
pub classify_item-NoCycle :
    (x : Services) (settings : Settings) (own item_id : ℕ) (content : Text) (s : Store)
    → 1 ≤ own
    → own ≤ tag_depth_hard_ceiling
    → NoCycle s.edges (suc own)
    → NoCycle (classify_item x settings own item_id content s).1.edges (suc own)
classify_item-NoCycle x settings own i content s lo hi keep =
    elim (classify_item-cases x settings own i content s) [
      | inl (same, _) ↦ rw same keep
      | inr (result, c, t, (same, _), _, run) ↦ rw run (
          apply_suggestions-NoCycle own lo hi x.normalize i result.trace_id
            settings.max_new_edges_per_item 0 0 c.kept t (rw same keep))
    ]
