-- ===== src/Storage/Merge.antt =====
-- `TagRepository.merge_into` of catchment/storage/repositories.py: folding tags into another.
pub mod Assignments
pub mod Repointing
pub mod Whole
use Prim.Native.Nat.{max}
use catchment.Prelude.{
  Bool, List, Text, [], any, contains, delete_where, if◌then◌else◌, length, nat_beq, nat_eq, not,
  pair_eq, select, some, text_eq, update_where, upsert, ℕ, ◌&&◌, ◌==◌, ◌||◌, ◌∷◌,
}
use catchment.Storage.Enums.{merged}
use catchment.Storage.Models.{Confidence, Edges, ItemTag, ItemTags, Tag, is_item, is_tag}
use catchment.Storage.Session.{Db, constraint, gets, modify, pure, throw, value_error, ◌>>=◌, ◌>>◌}

pub record MergeStats : Type 0 where
  pub tags_merged : ℕ
  pub assignments_moved : ℕ

-- `SELECT ... FROM item_tags WHERE tag_id IN sources`.
unfoldable pub rows_of : List ℕ → ItemTags → ItemTags
rows_of sources t = select (λ row. contains row.0.1 sources) t

-- `set_={"confidence": func.greatest(ItemTag.confidence, confidence)}`.
abbrev pub keep_greatest : Confidence → ItemTag → ItemTag
keep_greatest confidence old = record old { confidence = max old.confidence confidence }

abbrev pub move_row : ℕ → ℕ → ItemTag → ItemTags → ItemTags
move_row target_id item_id row t = upsert (item_id, target_id) row (keep_greatest row.confidence) t

-- The loop over the rows: each insert wants its item and the target to be there.
unfoldable pub move_rows : ℕ → ItemTags → Db (Unit {0})
move_rows target_id [] = pure tt
move_rows target_id (((item_id, tag_id), row) ∷ rows) = do
  present ← gets (λ s. is_item item_id s && is_tag target_id s)
  constraint present
  modify (λ s. record s { item_tags = move_row target_id item_id row s.item_tags })
  move_rows target_id rows

abbrev pub delete_sources : List ℕ → ItemTags → ItemTags
delete_sources sources = delete_where (λ k. contains k.1 sources)

unfoldable pub move_assignments : List ℕ → ℕ → Db ℕ
move_assignments sources target_id = do
  rows ← gets (λ s. rows_of sources s.item_tags)
  if nat_beq (length rows) 0 then pure 0 else do
    move_rows target_id rows
    modify (λ s. record s { item_tags = delete_sources sources s.item_tags })
    pure (length rows)

-- `target_id if parent_id in source_list else parent_id`.
abbrev pub repoint : List ℕ → ℕ → ℕ → ℕ
repoint sources target_id tag_id = if contains tag_id sources then target_id else tag_id

abbrev pub touches : List ℕ → ℕ × ℕ → Bool
touches sources k = contains k.0 sources || contains k.1 sources

unfoldable pub edges_of : List ℕ → Edges → Edges
edges_of sources g = select (λ row. touches sources row.0) g

-- The body of the loop over the edges: a loop that repointing would make is skipped.
unfoldable pub insert_edge : ℕ → ℕ → Text → Db (Unit {0})
insert_edge new_parent new_child relation = if new_parent == new_child then pure tt else do
  present ← gets (λ s. is_tag new_parent s && is_tag new_child s)
  constraint present
  modify (λ s. record s { edges = upsert (new_parent, new_child) relation (λ old. old) s.edges })

unfoldable pub repoint_rows : List ℕ → ℕ → Edges → Db (Unit {0})
repoint_rows sources target_id [] = pure tt
repoint_rows sources target_id (((parent_id, child_id), relation) ∷ rows) = do
  insert_edge (repoint sources target_id parent_id) (repoint sources target_id child_id) relation
  repoint_rows sources target_id rows

unfoldable pub repoint_edges : List ℕ → ℕ → Db (Unit {0})
repoint_edges sources target_id = do
  rows ← gets (λ s. edges_of sources s.edges)
  repoint_rows sources target_id rows
  modify (λ s. record s { edges = delete_where (touches sources) s.edges })

abbrev pub retire : ℕ → Tag → Tag
retire target_id t = record t { status = merged; merged_into = some target_id }

-- `UPDATE tags SET status = 'merged', merged_into_id = target`: the foreign key is checked for the
-- rows that are written.
unfoldable pub mark_merged : List ℕ → ℕ → Db (Unit {0})
mark_merged sources target_id = do
  present ← gets (λ s. not (any (λ row. contains row.0 sources) s.tags) || is_tag target_id s)
  constraint present
  modify (λ s. record s { tags = update_where (λ k. contains k sources) (retire target_id) s.tags })

abbrev pub other_than : ℕ → List ℕ → List ℕ
other_than target_id = select (λ tag_id. not (tag_id == target_id))

unfoldable pub merge_sources : List ℕ → ℕ → Db MergeStats
merge_sources [] target_id = throw value_error
merge_sources (source ∷ more) target_id = do
  moved ← move_assignments (source ∷ more) target_id
  repoint_edges (source ∷ more) target_id
  mark_merged (source ∷ more) target_id
  pure (record { tags_merged = length (source ∷ more); assignments_moved = moved })

unfoldable pub merge_into : List ℕ → ℕ → Db MergeStats
unfolding merge_sources
merge_into source_ids target_id = merge_sources (other_than target_id source_ids) target_id
