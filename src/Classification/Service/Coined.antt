-- ===== src/Classification/Service/Coined.antt =====
-- The limit of `_cap_new_tags` holds for the tags that `_apply` creates.
use catchment.Prelude.{
  All, Bool, Bool-cases, List, Option, Table, Text, [], ap, arith, contains, false, if◌then◌else◌,
  inl, inr, leb, length, ltb, map, nat_eq, none, pair_eq, refl, some, subst, suc, text_eq, true, ℕ,
  ◌+◌, ◌-◌, ◌∙◌, ◌∷◌, ◌≡◌, ◌≤◌,
}
use catchment.Storage.Enums.{llm}
use catchment.Storage.Models.{Store, Tag}
use catchment.Storage.Session.{Db-cases, Error, Result, Result-cases, bind-pure_state, ok, raise}
use catchment.Storage.Tags.{
  add_edge, assign, descendants, existing_slugs, get_or_create, link_broader, recursive_walk,
}
use catchment.Classification.Types.{TagSuggestion, above, slug_of}
use catchment.Classification.Service.{
  Capped, Services, Settings, apply_suggestion, apply_suggestions, cap_loop, cap_new_tags,
  cap_round, classify_item, coined_next, count, place, place_under, with_slugs,
}
use catchment.Classification.Service.Applied.{
  get_or_create-keeps, get_or_create-tags, place_if, slug_there, tags-assign,
}
use catchment.Classification.Service.Whole.{classify_item-cases}

abbrev missing_slug : Table ℕ Tag → Result Text → ℕ
missing_slug t (raise e) = 0
missing_slug t (ok slug) = if slug_there slug t then 0 else 1

abbrev missing_one : (Text → Text) → Table ℕ Tag → TagSuggestion → ℕ
missing_one normalize t x = missing_slug t (slug_of normalize x)

-- How many suggestions have a slug that no tag has.
unfoldable pub missing : (Text → Text) → Table ℕ Tag → List TagSuggestion → ℕ
missing normalize t [] = 0
missing normalize t (x ∷ rest) = missing_one normalize t x + missing normalize t rest

abbrev Grown : Table ℕ Tag → Table ℕ Tag → Type 0
Grown t u = (slug : Text) → slug_there slug t ≡ true → slug_there slug u ≡ true

missing_slug-Grown :
    (t u : Table ℕ Tag) (slug : Result Text) → Grown t u → missing_slug u slug ≤ missing_slug t slug
missing_slug-Grown t u (raise e) grown = omega arith
missing_slug-Grown t u (ok slug) grown = elim (Bool-cases (slug_there slug t)) [
  | inl there ↦ rw (there, grown slug there) (omega arith)
  | inr gone ↦ ground (arith, gone)
]

missing-Grown :
    (normalize : Text → Text) (t u : Table ℕ Tag) (l : List TagSuggestion)
    → Grown t u
    → missing normalize u l ≤ missing normalize t l
unfolding missing
missing-Grown normalize t u [] grown = omega arith
missing-Grown normalize t u (x ∷ rest) grown = ground (
  arith,
  missing_slug-Grown t u (slug_of normalize x) grown,
  missing-Grown normalize t u rest grown,
)

place-tags : (own : ℕ) (b : Option Text) (c : ℕ) (s : Store) → (place own b c s).1.tags ≡ s.tags
unfolding place place_under link_broader descendants recursive_walk add_edge
place-tags own none c s = refl
place-tags own (some slug) c s = ground arith

place_if-tags :
    (own : ℕ) (may : Bool) (b : Option Text) (c : ℕ) (made : Bool) (s : Store)
    → (place_if own may b c made s).1.tags ≡ s.tags
place_if-tags own false b c made s = refl
place_if-tags own true b c made s =
    ap (λ t. t.tags) (bind-pure_state (place own b c) (λ placed. (made, placed)) s)
    ∙ place-tags own b c s

module _ (normalize : Text → Text) (own item_id : ℕ) (trace_id : Option Text) where
  apply_suggestion-tags :
      (may : Bool) (x : TagSuggestion) (slug : Text) (s : Store)
      → slug_of normalize x ≡ ok slug
      → (apply_suggestion normalize own item_id trace_id may x s).1.tags
        ≡ (get_or_create slug x.label x.description llm s).1.tags
  unfolding apply_suggestion
  apply_suggestion-tags may x slug s good =
      elim (Db-cases (get_or_create slug x.label x.description llm) s) [
        | inr (e, t, bad) ↦ ground (arith, good, bad)
        | inl ((tag_id, tag, created), t, got) ↦
            elim (Db-cases (assign item_id tag_id x.confidence llm trace_id) t) [
              | inr (e, t', bad) ↦
                  ground
                    (arith, good, got, bad, tags-assign item_id tag_id x.confidence llm trace_id t)
              | inl (u, t', done) ↦ ground (
                arith,
                good,
                got,
                done,
                tags-assign item_id tag_id x.confidence llm trace_id t,
                place_if-tags own may x.broader_than tag_id created t',
              )
            ]
      ]

  apply_suggestion-stops :
      (may : Bool) (x : TagSuggestion) (e : Error) (s : Store)
      → slug_of normalize x ≡ raise e
      → (apply_suggestion normalize own item_id trace_id may x s).1 ≡ s
  unfolding apply_suggestion
  apply_suggestion-stops may x e s bad = ground (arith, bad)

  -- A round adds at most the tag that its suggestion misses, and loses none.
  apply_suggestion-Grown :
      (may : Bool) (x : TagSuggestion) (s : Store)
      → (length (apply_suggestion normalize own item_id trace_id may x s).1.tags
          ≤ length s.tags + missing_one normalize s.tags x)
        × Grown s.tags (apply_suggestion normalize own item_id trace_id may x s).1.tags
  apply_suggestion-Grown may x s = elim (Result-cases (slug_of normalize x)) [
    | inr (e, bad) ↦ rw (bad, apply_suggestion-stops may x e s bad) (omega arith, λ slug h. h)
    | inl (slug, good) ↦
        rw (good, apply_suggestion-tags may x slug s good)
          (
            get_or_create-tags slug x.label x.description llm s,
            λ y. get_or_create-keeps y slug x.label x.description llm s,
          )
  ]

  apply_suggestions-tags :
      (m coined linked : ℕ) (l : List TagSuggestion) (s : Store)
      → length (apply_suggestions normalize own item_id trace_id m coined linked l s).1.tags
        ≤ length s.tags + missing normalize s.tags l
  unfolding apply_suggestions missing
  apply_suggestions-tags m coined linked [] s = omega arith
  apply_suggestions-tags m coined linked (x ∷ rest) s =
      elim (Db-cases (apply_suggestion normalize own item_id trace_id (ltb linked m) x) s) [
        | inr (e, t, bad) ↦
            let (few, _) = apply_suggestion-Grown (ltb linked m) x s in ground (arith, bad, few)
        | inl ((made, placed), t, good) ↦
            let (few, grown) = apply_suggestion-Grown (ltb linked m) x s in
            ground (
              arith,
              good,
              few,
              missing-Grown normalize s.tags t.tags rest (
                  subst (Grown s.tags)
                    {x = (apply_suggestion normalize own item_id trace_id (ltb linked m) x
                      s).1.tags}
                    (ground (arith, good)) grown),
              apply_suggestions-tags m (count made coined) (count placed linked) rest t,
            )
      ]

-- A suggestion beside its slug, and the slugs that are known to have a tag.
IsSlugged : (Text → Text) → Text × TagSuggestion → Type 0
IsSlugged normalize p = slug_of normalize p.1 ≡ ok p.0

module _ (normalize : Text → Text) (existing : List Text) (t : Table ℕ Tag)
    (known : (slug : Text) → contains slug existing ≡ true → slug_there slug t ≡ true) where
  cap_loop-missing :
      (limit coined : ℕ) (l : List (Text × TagSuggestion))
      → All (IsSlugged normalize) l
      → missing normalize t (cap_loop existing limit coined l).kept ≤ limit - coined
  unfolding cap_loop cap_round coined_next missing IsSlugged
  cap_loop-missing limit coined [] all = omega arith
  cap_loop-missing limit coined ((slug, x) ∷ rest) (good, all) =
      elim (Bool-cases (contains slug existing)) [
        | inl old ↦
            rw (old, good, known slug old) (ground (arith, cap_loop-missing limit coined rest all))
        | inr new ↦ elim (Bool-cases (leb limit coined)) [
          | inl full ↦ rw (new, full) (cap_loop-missing limit coined rest all)
          | inr room ↦
              rw (new, room, good)
                (ground (arith, room, cap_loop-missing limit (suc coined) rest all))
        ]
      ]

with_slugs-IsSlugged :
    (normalize : Text → Text) (l : List TagSuggestion) (slugged : List (Text × TagSuggestion))
    → with_slugs normalize l ≡ ok slugged
    → All (IsSlugged normalize) slugged
unfolding with_slugs IsSlugged
with_slugs-IsSlugged normalize [] slugged h = ground (arith, h)
with_slugs-IsSlugged normalize (x ∷ rest) slugged h = elim (Result-cases (slug_of normalize x)) [
  | inr (e, bad) ↦ ground (arith, h, bad)
  | inl (slug, good) ↦ elim (Result-cases (with_slugs normalize rest)) [
    | inr (e, bad) ↦ ground (arith, h, good, bad)
    | inl (more, ok_more) ↦
        subst (All (IsSlugged normalize)) {x = (slug, x) ∷ more} (ground (arith, h, good, ok_more))
          (good, with_slugs-IsSlugged normalize rest more ok_more)
  ]
]

existing_slugs-known :
    (slugs : List Text) (s : Store) (slug : Text)
    → contains slug (existing_slugs slugs s) ≡ true
    → slug_there slug s.tags ≡ true
unfolding existing_slugs slug_there
existing_slugs-known [] s slug h = ground (arith, h)
existing_slugs-known (y ∷ rest) s slug h =
    ground (arith, h, text_eq.beq_iff y slug, existing_slugs-known rest s slug)

at_most : (limit n : ℕ) → n ≤ limit - 0 → n ≤ limit
at_most limit n h = omega arith

-- The suggestions that the cap keeps miss at most `limit` tags.
cap_new_tags-missing :
    (normalize : Text → Text) (limit : ℕ) (l : List TagSuggestion) (c : Capped) (s : Store)
    → cap_new_tags normalize limit l s ≡ (ok c, s)
    → missing normalize s.tags c.kept ≤ limit
unfolding cap_new_tags
cap_new_tags-missing normalize limit l c s h = elim (Result-cases (with_slugs normalize l)) [
  | inr (e, bad) ↦ ground (arith, h, bad)
  | inl (slugged, good) ↦
      subst (λ (d : Capped). missing normalize s.tags d.kept ≤ limit)
        {x = cap_loop (existing_slugs (map (λ p. p.0) slugged) s) limit 0 slugged} {y = c}
        (ground (arith, h, good))
        (at_most limit
          (missing normalize s.tags
            (cap_loop (existing_slugs (map (λ p. p.0) slugged) s) limit 0 slugged).kept)
          (cap_loop-missing normalize (existing_slugs (map (λ p. p.0) slugged) s) s.tags
            (existing_slugs-known (map (λ p. p.0) slugged) s) limit 0 slugged
            (with_slugs-IsSlugged normalize l slugged good)))
]

-- `classify_item` creates at most `max_new_tags_per_item` tags, whatever the embedder and the
-- classifier answer, and whether it returns or raises.
pub classify_item-tags :
    (x : Services) (settings : Settings) (own item_id : ℕ) (content : Text) (s : Store)
    → length (classify_item x settings own item_id content s).1.tags
      ≤ length s.tags + settings.max_new_tags_per_item
classify_item-tags x settings own i content s =
    elim (classify_item-cases x settings own i content s) [
      | inl (_, same) ↦ ground (arith, same)
      | inr (result, c, t, (_, same), cap, run) ↦ rw run (
          ground (
            arith,
            same,
            apply_suggestions-tags x.normalize own i result.trace_id settings.max_new_edges_per_item
                0 0 c.kept t,
            cap_new_tags-missing x.normalize settings.max_new_tags_per_item
                (above settings.classification_threshold result) c t cap,
          ))
    ]
