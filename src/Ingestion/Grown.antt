-- ===== src/Ingestion/Grown.antt =====
-- What `upsert_item` does to the items, a call at a time.
use catchment.Prelude.{
  Bool, Bool-cases, Has, List, Option-cases, Table, Text, [], ap, arith, false, find, find-upsert,
  inl, inr, is_some, length, nat_eq, none, pair_eq, refl, some, subst, suc, sym, text_eq, true,
  upsert, ℕ, ◌+◌, ◌==◌, ◌||◌, ◌↔◌, ◌∙◌, ◌∷◌, ◌≡◌, ◌≤◌,
}
use catchment.Storage.Enums.{Source, source_beq_iff}
use catchment.Storage.Models.{Item, Store, is_item}
use catchment.Storage.Session.{ok}
use catchment.Storage.Items.{
  get_by_source, get_by_source_in, insert_item, insert_row, source_id_length, upsert_item,
}
use catchment.Ingestion.{RawRecord, add_created}

-- `uuid.uuid4` gives no value twice, and none that is the key of an item.
abbrev pub IsFresh : Store → Type 0
IsFresh s =
    ((n m : ℕ) → s.uuids n ≡ s.uuids m → n ≡ m)
    × ((n : ℕ) → s.draws ≤ n → is_item (s.uuids n) s ≡ false)

abbrev pub is_known : Source → Text → Table ℕ Item → Bool
is_known source source_id t = is_some (get_by_source_in source source_id t)

abbrev pub Known : Table ℕ Item → RawRecord → Type 0
Known t r = is_known r.source r.source_id t ≡ true

pub upsert_item-known :
    (item : Item) (s : Store) (k : ℕ) (old : Item)
    → length item.source_id ≤ source_id_length
    → get_by_source item.source item.source_id s ≡ some (k, old)
    → upsert_item item s ≡ (ok (k, old, false), record s { draws = s.draws + 1 })
unfolding upsert_item insert_item insert_row get_by_source
upsert_item-known item s k old short h = ground (arith, short, h)

upsert_item-new :
    (item : Item) (s : Store)
    → length item.source_id ≤ source_id_length
    → get_by_source item.source item.source_id s ≡ none
    → is_item (s.uuids s.draws) s ≡ false
    → upsert_item item s ≡ (
      ok (s.uuids s.draws, item, true),
      record s { draws = s.draws + 1; items = upsert (s.uuids s.draws) item (λ old. old) s.items },
    )
unfolding upsert_item insert_item insert_row get_by_source
upsert_item-new item s short h free = ground (arith, short, h, free)

-- A row that is added is found by its source, and hides none.
is_known-upsert :
    (source : Source) (source_id : Text) (id : ℕ) (row : Item) (t : Table ℕ Item)
    → is_known source source_id t ≡ true
    → is_known source source_id (upsert id row (λ old. old) t) ≡ true
unfolding get_by_source_in upsert
is_known-upsert source source_id id row [] h = ground (arith, h)
is_known-upsert source source_id id row ((k, old) ∷ t) h =
    ground (arith, h, is_known-upsert source source_id id row t)

is_known-added :
    (id : ℕ) (row : Item) (t : Table ℕ Item)
    → is_some (find id t) ≡ false
    → is_known row.source row.source_id (upsert id row (λ old. old) t) ≡ true
unfolding get_by_source_in upsert find
is_known-added id row [] h =
    ground
      (arith, h, source_beq_iff row.source row.source, text_eq.beq_iff row.source_id row.source_id)
is_known-added id row ((k, old) ∷ t) h = ground (arith, h, is_known-added id row t)

-- What one call does to the rows: none for an item that is there, one more for a new one.
abbrev pub Step : Bool → ℕ → Item → Item → Store → Store → Type 0
Step false id item row s t = t.items ≡ s.items
Step true id item row s t =
    (row ≡ item) × (is_item id s ≡ false) × (t.items ≡ upsert id item (λ old. old) s.items)

-- One call: it returns, the record is then known, and it adds at most its row.
pub upsert_item-total :
    (item : Item) (s : Store)
    → length item.source_id ≤ source_id_length
    → IsFresh s
    → (id : ℕ) × (row : Item) × (made : Bool) × (t : Store) × (upsert_item item s
        ≡ (ok (id, row, made), t))
      × IsFresh t
      × (is_known item.source item.source_id t.items ≡ true)
      × Step made id item row s t
unfolding get_by_source
upsert_item-total item s short (apart, free) =
    elim (Option-cases (get_by_source item.source item.source_id s)) [
      | inr ((k, old), found) ↦ (
        k,
        old,
        false,
        record s { draws = s.draws + 1 },
        upsert_item-known item s k old short found,
        (apart, λ n le. free n (omega arith)),
        ground (arith, found),
        refl,
      )
      | inl new ↦
          let none_there = free s.draws (omega arith) in
          (
            s.uuids s.draws,
            item,
            true,
            record s {
              draws = s.draws + 1;
              items = upsert (s.uuids s.draws) item (λ old. old) s.items;
            },
            upsert_item-new item s short new none_there,
            (
              apart,
              λ n le. ground (
                arith,
                free n,
                apart s.draws n,
                find-upsert (s.uuids s.draws) (s.uuids n) item (λ old. old) s.items,
              ),
            ),
            is_known-added (s.uuids s.draws) item s.items none_there,
            (refl, none_there, refl),
          )
    ]

length-upsert_new :
    (id : ℕ) (row : Item) (t : Table ℕ Item)
    → is_some (find id t) ≡ false
    → length (upsert id row (λ old. old) t) ≡ suc (length t)
unfolding upsert find
length-upsert_new id row [] h = refl
length-upsert_new id row ((k, old) ∷ t) h = ground (arith, h, length-upsert_new id row t)

-- What a batch does to the items: the ids it created are those that were no key before, there is one
-- more row for each, and the rows that were there are as they were and known as before.
pub record Grown (ids : List ℕ) (s t : Store) : Type 0 where
  pub created : (id : ℕ) → Has id ids ↔ ((is_item id t ≡ true) × (is_item id s ≡ false))
  pub counted : length t.items ≡ length s.items + length ids
  pub rows : (id : ℕ) → is_item id s ≡ true → find id t.items ≡ find id s.items
  pub known :
      (source : Source) (source_id : Text)
      → is_known source source_id s.items ≡ true
      → is_known source source_id t.items ≡ true

pub Grown-none : (s : Store) → Grown [] s s
Grown-none s = record {
  created = λ id. (λ m. absurd m, λ (there, gone). absurd (ground (arith, there, gone)));
  counted = omega arith;
  rows = λ id h. refl;
  known = λ a b h. h;
}

Step-is_item :
    (id : ℕ) (item row : Item) (s t : Store)
    → Step true id item row s t
    → (x : ℕ) → is_item x t ≡ (id == x || is_item x s)
Step-is_item id item row s t (e, free, added) x =
    let at = ap (find x) added ∙ find-upsert id x item (λ old. old) s.items in
    ground (arith, free, at)

Step-find :
    (id : ℕ) (item row : Item) (s t : Store)
    → Step true id item row s t
    → (x : ℕ) → is_item x s ≡ true
    → find x t.items ≡ find x s.items
Step-find id item row s t (e, free, added) x h =
    let at = ap (find x) added ∙ find-upsert id x item (λ old. old) s.items in
    ground (arith, free, at, h)

-- The new row itself.
pub Step-find_new :
    (id : ℕ) (item row : Item) (s t : Store)
    → Step true id item row s t
    → find id t.items ≡ some item
Step-find_new id item row s t (e, free, added) =
    let at = ap (find id) added ∙ find-upsert id id item (λ old. old) s.items in
    ground (arith, free, at)

kept_item :
    (ids : List ℕ) (s t : Store) → Grown ids s t → (x : ℕ) → is_item x s ≡ true → is_item x t ≡ true
kept_item ids s t g x h = ap is_some (g.rows x h) ∙ h

Step-Has :
    (id x : ℕ) (item row : Item) (ids : List ℕ) (s t t' : Store)
    → Step true id item row s t
    → Grown ids t t'
    → Has x (id ∷ ids) ↔ ((is_item x t' ≡ true) × (is_item x s ≡ false))
Step-Has id x item row ids s t t' step g = (to, back)
  where
    to : Has x (id ∷ ids) → (is_item x t' ≡ true) × (is_item x s ≡ false)
    to (inl q) =
        subst (λ y. (is_item y t' ≡ true) × (is_item y s ≡ false)) q
          (
            kept_item ids t t' g id (ap is_some (Step-find_new id item row s t step)),
            (let (e, free, added) = step in free),
          )
    to (inr m) =
        let (there, new) = (g.created x).0 m in
        (there, ground (arith, new, Step-is_item id item row s t step x))

    back : (is_item x t' ≡ true) × (is_item x s ≡ false) → Has x (id ∷ ids)
    back (there, gone) = elim (Bool-cases (id == x)) [
      | inl e ↦ inl (ground (arith, e))
      | inr e ↦
          inr
            ((g.created x).1 (there, ground (arith, e, gone, Step-is_item id item row s t step x)))
    ]

-- A call in front of a batch.
pub Grown-Step :
    (made : Bool) (id : ℕ) (item row : Item) (ids : List ℕ) (s t t' : Store)
    → Step made id item row s t
    → Grown ids t t'
    → Grown (add_created made id ids) s t'
Grown-Step false id item row ids s t t' same g = record {
  created = λ x.
      let was = ap (λ n. is_some (find x n)) same in
      (
        λ m. let (there, gone) = (g.created x).0 m in (there, sym was ∙ gone),
        λ (there, gone). (g.created x).1 (there, was ∙ gone),
      );
  counted = g.counted ∙ ap (λ n. length n + length ids) same;
  rows = λ x h. g.rows x (ap (λ n. is_some (find x n)) same ∙ h) ∙ ap (find x) same;
  known = λ a b h. g.known a b (subst (λ n. is_known a b n ≡ true) (sym same) h);
}
Grown-Step true id item row ids s t t' (e, free, added) g = record {
  created = λ x. Step-Has id x item row ids s t t' (e, free, added) g;
  counted =
      ground (arith, g.counted, length-upsert_new id item s.items free, ap (λ n. length n) added);
  rows = λ x h.
      g.rows x (ap is_some (Step-find id item row s t (e, free, added) x h) ∙ h)
      ∙ Step-find id item row s t (e, free, added) x h;
  known = λ a b h.
      g.known a b
        (subst (λ n. is_known a b n ≡ true) (sym added) (is_known-upsert a b id item s.items h));
}
