-- ===== src/Retrieval/Tagged.antt =====
-- `tag_ids_for_items`: the tags that the join rows and the tags table say are on the items.
use catchment.Prelude.{
  Bool-cases, Has, List, Option-cases, [], ap, arith, contains, false, find, inl, inr, is_some,
  nat_eq, pair_eq, refl, some, subst, sym, text_eq, true, ℕ, ◌&&◌, ◌==◌, ◌↔◌, ◌∙◌, ◌∷◌, ◌≡◌, ◌⊎◌,
}
use catchment.Storage.Enums.{TagStatus, active, is_active, merged, retired}
use catchment.Storage.Models.{ItemTag, ItemTags, Store, Tag}
use catchment.Storage.Tags.{active_tag, distinct}
use catchment.Retrieval.{active_ids, tag_ids_for_items}
use mathlib.Core.Bool.{false≢true, ◌&&◌}

-- A join row puts the tag on one of the items, and the tag is active.
pub record Tagged (s : Store) (item_ids : List ℕ) (t : ℕ) : Type 0 where
  pub item : ℕ
  pub of_items : Has item item_ids
  pub row : ItemTag
  pub assigned : Has ((item, t), row) s.item_tags
  pub tag : Tag
  pub found : find t s.tags ≡ some tag
  pub is_active_tag : tag.status ≡ active

contains-Has : (n : ℕ) (xs : List ℕ) → contains n xs ≡ true → Has n xs
contains-Has n [] h = absurd (false≢true h)
contains-Has n (x ∷ xs) h = elim (Bool-cases (x == n)) [
  | inl e ↦ inl (ground (arith, e))
  | inr e ↦ inr (contains-Has n xs (ground (arith, e, h)))
]

Has-contains : (n : ℕ) (xs : List ℕ) → Has n xs → contains n xs ≡ true
Has-contains n (x ∷ xs) (inl e) = ground (arith, e)
Has-contains n (x ∷ xs) (inr m) = ground (arith, Has-contains n xs m)
Has-contains n [] m = absurd m

Has-distinct : (n : ℕ) (xs : List ℕ) → Has n (distinct xs) ↔ Has n xs
unfolding distinct
Has-distinct n [] = (λ h. h, λ h. h)
Has-distinct n (x ∷ xs) =
    let (to, back) = Has-distinct n xs in
    elim (Bool-cases (contains x (distinct xs))) [
      | inl e ↦ (
        λ h. inr (to (rw e at h)),
        λ h. rw e (elim h [
          | inl q ↦ subst (λ y. Has y (distinct xs)) q (contains-Has x (distinct xs) e)
          | inr m ↦ back m
        ]),
      )
      | inr e ↦ (
        λ h. elim (rw e at h) [ inl q ↦ inl q | inr m ↦ inr (to m) ],
        λ h. rw e (elim h [ inl q ↦ inl q | inr m ↦ inr (back m) ]),
      )
    ]

-- The same of a part of the join rows.
abbrev OnRows : Store → List ℕ → ItemTags → ℕ → Type 0
OnRows s item_ids rows t =
    (item : ℕ) × Has item item_ids
    × (row : ItemTag) × Has ((item, t), row) rows
    × (tag : Tag) × (find t s.tags ≡ some tag)
    × (tag.status ≡ active)

is_active-active : (x : TagStatus) → is_active x ≡ true → x ≡ active
is_active-active active e = refl
is_active-active merged e = absurd (false≢true e)
is_active-active retired e = absurd (false≢true e)

active_tag-status :
    (s : Store) (t : ℕ)
    → is_some (active_tag s t) ≡ true
    → (tag : Tag) × (find t s.tags ≡ some tag) × (tag.status ≡ active)
active_tag-status s t h = elim (Option-cases (find t s.tags)) [
  | inl e ↦ absurd (ground (arith, e, h))
  | inr (tag, e) ↦ (tag, e, is_active-active tag.status (ground (arith, e, h)))
]

status-active_tag :
    (s : Store) (t : ℕ) (tag : Tag)
    → find t s.tags ≡ some tag
    → tag.status ≡ active
    → is_some (active_tag s t) ≡ true
status-active_tag s t tag e is = ground (arith, e, is)

on_row :
    (s : Store) (item_ids : List ℕ) (item t : ℕ) (row : ItemTag) (rows : ItemTags)
    → contains item item_ids && is_some (active_tag s t) ≡ true
    → OnRows s item_ids (((item, t), row) ∷ rows) t
on_row s item_ids item t row rows e =
    let (tag, found, is) = active_tag-status s t (ground (arith, e)) in
    (item, contains-Has item item_ids (ground (arith, e)), row, inl refl, tag, found, is)

Has-active_ids :
    (s : Store) (item_ids : List ℕ) (rows : ItemTags) (t : ℕ)
    → Has t (active_ids s item_ids rows) ↔ OnRows s item_ids rows t
unfolding active_ids
Has-active_ids s item_ids [] t = (λ h. absurd h, λ (item, m, row, k, tag, found, is). absurd k)
Has-active_ids s item_ids (((item_id, tag_id), row) ∷ rows) t =
    let (down, up) = Has-active_ids s item_ids rows t in
    (to (Bool-cases (contains item_id item_ids && is_some (active_tag s tag_id))) down, back up)
  where
    later : OnRows s item_ids rows t → OnRows s item_ids (((item_id, tag_id), row) ∷ rows) t
    later (item, m, r, k, tag, found, is) = (item, m, r, inr k, tag, found, is)

    to :
        (contains item_id item_ids && is_some (active_tag s tag_id) ≡ true)
          ⊎ (contains item_id item_ids && is_some (active_tag s tag_id) ≡ false)
        → (Has t (active_ids s item_ids rows) → OnRows s item_ids rows t)
        → Has t (active_ids s item_ids (((item_id, tag_id), row) ∷ rows))
        → OnRows s item_ids (((item_id, tag_id), row) ∷ rows) t
    to (inl e) down h = elim (rw e at h) [
      | inl q ↦
          subst (OnRows s item_ids (((item_id, tag_id), row) ∷ rows)) q
            (on_row s item_ids item_id tag_id row rows e)
      | inr m ↦ later (down m)
    ]
    to (inr e) down h = later (down (rw e at h))

    passes :
        (item : ℕ) (tag : Tag)
        → Has item item_ids
        → find t s.tags ≡ some tag
        → tag.status ≡ active
        → item_id ≡ item
        → tag_id ≡ t
        → contains item_id item_ids && is_some (active_tag s tag_id) ≡ true
    passes item tag m found is same here =
        let one = Has-contains item_id item_ids (subst (λ n. Has n item_ids) (sym same) m) in
        let two = status-active_tag s tag_id tag (ap (λ n. find n s.tags) here ∙ found) is in
        ground (arith, one, two)

    back :
        (OnRows s item_ids rows t → Has t (active_ids s item_ids rows))
        → OnRows s item_ids (((item_id, tag_id), row) ∷ rows) t
        → Has t (active_ids s item_ids (((item_id, tag_id), row) ∷ rows))
    back up (item, m, r, inl q, tag, found, is) =
        rw (passes item tag m found is (ap (λ x. x.0.0) q) (ap (λ x. x.0.1) q))
          (inl (ap (λ x. x.0.1) q))
    back up (item, m, r, inr k, tag, found, is) =
        let below = up (item, m, r, k, tag, found, is) in
        elim (Bool-cases (contains item_id item_ids && is_some (active_tag s tag_id))) [
          | inl e ↦ rw e (inr below)
          | inr e ↦ rw e below
        ]

-- `tag_ids_for_items` gives the active tags of the items, and no other.
pub tag_ids_for_items-Tagged :
    (s : Store) (item_ids : List ℕ) (t : ℕ)
    → Has t (tag_ids_for_items item_ids s) ↔ Tagged s item_ids t
unfolding tag_ids_for_items
tag_ids_for_items-Tagged s item_ids t =
    let (out, into) = Has-distinct t (active_ids s item_ids s.item_tags) in
    let (to, back) = Has-active_ids s item_ids s.item_tags t in
    (
      λ h.
          let (item, m, row, k, tag, found, is) = to (out h) in
          record {
            item = item;
            of_items = m;
            row = row;
            assigned = k;
            tag = tag;
            found = found;
            is_active_tag = is;
          },
      λ g. into (back (g.item, g.of_items, g.row, g.assigned, g.tag, g.found, g.is_active_tag)),
    )
