-- ===== src/Storage/Merge/Assignments.antt =====
-- `_move_assignments`: what becomes of the tags on an item.
use Prim.Native.Nat.{max}
use catchment.Prelude.{
  All, Bool-cases, IsKeyed, List, Option, [], ap, arith, contains, delete_where, false, find,
  find-delete, find-upsert, if◌then◌else◌, inl, inr, length, nat_eq, none, pair_eq, refl, some,
  subst, text_eq, true, ℕ, ◌&&◌, ◌==◌, ◌∷◌, ◌≡◌, ◌≢◌,
}
use catchment.Storage.Models.{Confidence, ItemTag, ItemTags, Store, is_item, is_tag}
use catchment.Storage.Session.{ok}
use catchment.Storage.Merge.{
  delete_sources, keep_greatest, move_assignments, move_row, move_rows, rows_of,
}

-- The rows after the loop.
abbrev pub moved_rows : ℕ → ItemTags → ItemTags → ItemTags
moved_rows target_id [] t = t
moved_rows target_id (((item_id, tag_id), row) ∷ rows) t =
    moved_rows target_id rows (move_row target_id item_id row t)

-- Every row names an item that is there.
abbrev pub NamesItems : Store → ItemTags → Type 0
NamesItems s rows = All (λ row. is_item row.0.0 s ≡ true) rows

pub move_rows-ok :
    (target_id : ℕ) (rows : ItemTags) (s : Store)
    → is_tag target_id s ≡ true
    → NamesItems s rows
    → move_rows target_id rows s
      ≡ (ok tt, record s { item_tags = moved_rows target_id rows s.item_tags })
unfolding move_rows
move_rows-ok target_id [] s ht hs = refl
move_rows-ok target_id (((i, t), row) ∷ rows) s ht hs = ground (
  arith,
  move_rows-ok target_id rows (record s { item_tags = move_row target_id i row s.item_tags }) ht
      hs.1,
  ht,
  hs.0,
)

-- The stronger of two confidences, where there is one.
abbrev pub stronger : Option Confidence → Option Confidence → Option Confidence
stronger none b = b
stronger (some a) none = some a
stronger (some a) (some b) = some (max a b)

abbrev pub confidence_of : Option ItemTag → Option Confidence
confidence_of none = none
confidence_of (some row) = some row.confidence

-- The greatest confidence among the rows that join the item to one of the tags.
pub strongest : ℕ → List ℕ → ItemTags → Option Confidence
strongest item_id tag_ids [] = none
strongest item_id tag_ids (((i, t), row) ∷ rows) =
    if i == item_id && contains t tag_ids
    then stronger (some row.confidence) (strongest item_id tag_ids rows)
    else strongest item_id tag_ids rows

stronger_assoc : (a b c : Option Confidence) → stronger (stronger a b) c ≡ stronger a (stronger b c)
stronger_assoc a b c = ground arith

moved_rows-target :
    (target_id item_id : ℕ) (sources : List ℕ) (rows t : ItemTags)
    → All (λ row. contains row.0.1 sources ≡ true) rows
    → confidence_of (find (item_id, target_id) (moved_rows target_id rows t))
      ≡ stronger (confidence_of (find (item_id, target_id) t)) (strongest item_id sources rows)
unfolding strongest
moved_rows-target target_id item_id sources [] t h = ground arith
moved_rows-target target_id item_id sources (((i, u), row) ∷ rows) t h = ground (
  arith,
  moved_rows-target target_id item_id sources rows (move_row target_id i row t) h.1,
  find-upsert (i, target_id) (item_id, target_id) row (keep_greatest row.confidence) t,
  h.0,
  stronger_assoc (confidence_of (find (item_id, target_id) t)) (some row.confidence)
      (strongest item_id sources rows),
)

moved_rows-other :
    (target_id item_id tag_id : ℕ) (rows t : ItemTags)
    → tag_id ≢ target_id
    → find (item_id, tag_id) (moved_rows target_id rows t) ≡ find (item_id, tag_id) t
moved_rows-other target_id item_id tag_id [] t ne = refl
moved_rows-other target_id item_id tag_id (((i, u), row) ∷ rows) t ne = ground (
  arith,
  moved_rows-other target_id item_id tag_id rows (move_row target_id i row t) ne,
  find-upsert (i, target_id) (item_id, tag_id) row (keep_greatest row.confidence) t,
)

All-rows_of :
    (sources : List ℕ) (t : ItemTags)
    → All (λ row. contains row.0.1 sources ≡ true) (rows_of sources t)
unfolding rows_of
All-rows_of sources [] = tt
All-rows_of sources (((i, u), row) ∷ t) = elim (Bool-cases (contains u sources)) [
  | inl e ↦ rw e (e, All-rows_of sources t)
  | inr e ↦ rw e (All-rows_of sources t)
]

NamesItems-rows_of :
    (sources : List ℕ) (s : Store) (t : ItemTags)
    → NamesItems s t
    → NamesItems s (rows_of sources t)
unfolding rows_of
NamesItems-rows_of sources s [] h = tt
NamesItems-rows_of sources s (((i, u), row) ∷ t) h = elim (Bool-cases (contains u sources)) [
  | inl e ↦ rw e (h.0, NamesItems-rows_of sources s t h.1)
  | inr e ↦ rw e (NamesItems-rows_of sources s t h.1)
]

strongest-rows_of :
    (item_id : ℕ) (sources : List ℕ) (t : ItemTags)
    → strongest item_id sources (rows_of sources t) ≡ strongest item_id sources t
unfolding rows_of strongest
strongest-rows_of item_id sources [] = refl
strongest-rows_of item_id sources (((i, u), row) ∷ t) =
    ground (arith, strongest-rows_of item_id sources t)

-- The strongest of the target's row and the sources' rows, where a key stands in one row.
strongest-none :
    (item_id target_id : ℕ) (sources : List ℕ) (t : ItemTags)
    → find (item_id, target_id) t ≡ none
    → strongest item_id (target_id ∷ sources) t ≡ strongest item_id sources t
unfolding strongest find
strongest-none item_id target_id sources [] h = refl
strongest-none item_id target_id sources (((i, u), row) ∷ t) h =
    ground (arith, strongest-none item_id target_id sources t)

stronger_swap : (a b c : Option Confidence) → stronger a (stronger b c) ≡ stronger b (stronger a c)
stronger_swap a b c = ground arith

strongest-cons :
    (item_id target_id : ℕ) (sources : List ℕ) (t : ItemTags)
    → IsKeyed t
    → contains target_id sources ≡ false
    → strongest item_id (target_id ∷ sources) t
      ≡ stronger (confidence_of (find (item_id, target_id) t)) (strongest item_id sources t)
unfolding strongest find
strongest-cons item_id target_id sources [] k h = refl
strongest-cons item_id target_id sources (((i, u), row) ∷ t) k h = ground (
  arith,
  strongest-cons item_id target_id sources t k.1 h,
  strongest-none item_id target_id sources t,
  k.0,
  stronger_swap (some row.confidence) (confidence_of (find (item_id, target_id) t))
      (strongest item_id sources t),
)

delete-rows_of-nil :
    (sources : List ℕ) (t : ItemTags)
    → length (rows_of sources t) ≡ 0
    → delete_sources sources t ≡ t
unfolding rows_of delete_where
delete-rows_of-nil sources [] h = refl
delete-rows_of-nil sources (((i, u), row) ∷ t) h = ground (arith, delete-rows_of-nil sources t)

-- The assignments that `move_assignments` leaves.
abbrev pub reassigned : List ℕ → ℕ → ItemTags → ItemTags
reassigned sources target_id t = delete_sources sources (moved_rows target_id (rows_of sources t) t)

pub move_assignments-ok :
    (sources : List ℕ) (target_id : ℕ) (s : Store)
    → is_tag target_id s ≡ true
    → NamesItems s s.item_tags
    → move_assignments sources target_id s ≡ (
      ok (length (rows_of sources s.item_tags)),
      record s { item_tags = reassigned sources target_id s.item_tags },
    )
unfolding move_assignments
move_assignments-ok sources target_id s ht hs = rows_case (rows_of sources s.item_tags) refl
  where
    rows_case :
        (rows : ItemTags)
        → rows_of sources s.item_tags ≡ rows
        → move_assignments sources target_id s ≡ (
          ok (length rows),
          record s { item_tags = delete_sources sources (moved_rows target_id rows s.item_tags) },
        )
    rows_case [] e = rw (e, delete-rows_of-nil sources s.item_tags (ap length e))
    rows_case (row ∷ rows) e = ground (
      arith,
      e,
      move_rows-ok target_id (row ∷ rows) s ht
          (subst (NamesItems s) e (NamesItems-rows_of sources s s.item_tags hs)),
    )

-- What `reassigned` says of an item and a tag.
pub reassigned_lem :
    (sources : List ℕ) (target_id item_id tag_id : ℕ) (t : ItemTags)
    → IsKeyed t
    → contains target_id sources ≡ false
    → confidence_of (find (item_id, tag_id) (reassigned sources target_id t)) ≡ (
        if contains tag_id sources
        then none
        else if tag_id == target_id
        then strongest item_id (target_id ∷ sources) t
        else confidence_of (find (item_id, tag_id) t))
reassigned_lem sources target_id item_id tag_id t k h = ground (
  arith,
  find-delete (λ k. contains k.1 sources) (item_id, tag_id)
      (moved_rows target_id (rows_of sources t) t),
  moved_rows-other target_id item_id tag_id (rows_of sources t) t,
  moved_rows-target target_id item_id sources (rows_of sources t) t (All-rows_of sources t),
  strongest-rows_of item_id sources t,
  strongest-cons item_id target_id sources t k h,
)
