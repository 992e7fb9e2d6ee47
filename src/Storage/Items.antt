-- ===== src/Storage/Items.antt =====
-- `ItemRepository` of catchment/storage/repositories.py.
use catchment.Prelude.{
  Bool, List, Option, Table, Text, [], false, find, if◌then◌else◌, leb, length, nat_beq, nat_eq,
  none, not, order_by, pair_eq, select, some, take, text_beq, text_eq, true, update_where, upsert,
  ℕ, ◌&&◌, ◌==◌, ◌∷◌,
}
use catchment.Prelude.Json.{Fields, Float}
use catchment.Storage.Enums.{Source, source_beq}
use catchment.Storage.Models.{Embedding, Item, Store, Vector, is_item}
use catchment.Storage.Session.{Db, constraint, gets, modify, pure, uuid4, varchar, ◌>>=◌, ◌>>◌}

unfoldable pub get_by_source_in : Source → Text → Table ℕ Item → Option (ℕ × Item)
get_by_source_in source source_id [] = none
get_by_source_in source source_id ((k, item) ∷ rest) =
    if source_beq item.source source && text_beq item.source_id source_id
    then some (k, item)
    else get_by_source_in source source_id rest

unfoldable pub get_by_source : Source → Text → Store → Option (ℕ × Item)
unfolding get_by_source_in
get_by_source source source_id s = get_by_source_in source source_id s.items

unfoldable pub get_item : ℕ → Store → Option Item
get_item item_id s = find item_id s.items

-- `items.source_id` is a `String(512)`.
abbrev pub source_id_length : ℕ
source_id_length = 512

-- INSERT ... ON CONFLICT (source, source_id) DO NOTHING, and the row that is there otherwise. The
-- key is drawn in either case, and a source_id that is too long is refused in either; a key that is
-- taken violates the primary key.
unfoldable pub insert_row : Option (ℕ × Item) → ℕ → Item → Db (ℕ × Item × Bool)
insert_row (some (k, old)) id item = pure (k, old, false)
insert_row none id item = do
  taken ← gets (is_item id)
  constraint (not taken)
  modify (λ s. record s { items = upsert id item (λ old. old) s.items })
  pure (id, item, true)

unfoldable pub insert_item : Option (ℕ × Item) → ℕ → Item → Db (ℕ × Item × Bool)
unfolding insert_row
insert_item existing id item = do
  varchar source_id_length item.source_id
  insert_row existing id item

-- The item's id, its row, and whether it was created.
unfoldable pub upsert_item : Item → Db (ℕ × Item × Bool)
unfolding insert_item get_by_source
upsert_item item = do
  id ← uuid4
  existing ← gets (get_by_source item.source item.source_id)
  insert_item existing id item

unfoldable pub set_raw_ref : ℕ → Text → Db (Unit {0})
set_raw_ref item_id raw_ref = modify (λ s. record s {
  items = update_where (λ k. k == item_id) (λ item. record item { raw_ref = some raw_ref }) s.items;
})

-- One row for an item and an extractor: a new run replaces text, language and confidence, and keeps
-- the metadata of the first.
unfoldable pub add_extraction :
    ℕ → Text → Text → Option Text → Option Float → Fields → Db (Unit {0})
add_extraction item_id extractor content language confidence meta = do
  id ← uuid4
  present ← gets (is_item item_id)
  constraint present
  modify (λ s. record s {
    extractions =
        upsert (item_id, extractor)
          (record {
            id = id;
            text = content;
            language = language;
            confidence = confidence;
            meta = meta;
          })
          (λ old. record old { text = content; language = language; confidence = confidence })
          s.extractions;
  })

abbrev pub embedding_dim : ℕ
embedding_dim = 1024

-- The column has `embedding_dim` components: any other vector is refused.
unfoldable pub set_embedding : ℕ → Text → Vector → Db (Unit {0})
set_embedding item_id model vector = do
  id ← uuid4
  present ← gets (is_item item_id)
  constraint (present && nat_beq (length vector) embedding_dim)
  modify (λ s. record s {
    embeddings =
        upsert item_id (record { id = id; model = model; dim = length vector; vector = vector })
          (λ old. record old { model = model; dim = length vector; vector = vector }) s.embeddings;
  })

-- `Embedding.item_id != exclude`.
abbrev not_excluded : Option ℕ → ℕ → Bool
not_excluded none k = true
not_excluded (some x) k = not (k == x)

abbrev with_distance : (Vector → ℕ) → Table ℕ Embedding → List (ℕ × ℕ)
with_distance distance [] = []
with_distance distance ((k, e) ∷ rest) = (k, distance e.vector) ∷ with_distance distance rest

-- The nearest items and their distances; `distance` is the cosine distance to the vector asked for.
unfoldable pub nearest_rows : (Vector → ℕ) → ℕ → Option ℕ → Store → List (ℕ × ℕ)
unfolding order_by
nearest_rows distance limit exclude s = take limit (
    order_by (λ a b. leb a.1 b.1)
      (with_distance distance (select (λ row. not_excluded exclude row.0) s.embeddings)))

-- The vector asked for is bound as one of the column: any other dimension is refused.
unfoldable pub nearest : (Vector → Vector → ℕ) → Vector → ℕ → Option ℕ → Db (List (ℕ × ℕ))
unfolding nearest_rows
nearest distance vector limit exclude = do
  constraint (nat_beq (length vector) embedding_dim)
  gets (nearest_rows (distance vector) limit exclude)
