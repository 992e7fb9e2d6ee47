-- ===== src/Taxonomy/Frame.antt =====
-- Executing a proposal leaves the review queue alone, whether it succeeds or raises part-way.
use catchment.Prelude.{List, Text, [], arith, inl, inr, nat_eq, pair_eq, refl, text_eq, ℕ, ◌∷◌, ◌≡◌}
use catchment.Storage.Enums.{ProposalKind, merge, split}
use catchment.Storage.Models.{Edges, ItemTags, Store, TaxonomyProposal}
use catchment.Storage.Session.{Result-cases}
use catchment.Storage.Merge.{
  edges_of, insert_edge, mark_merged, merge_into, merge_sources, move_assignments, move_row,
  move_rows, other_than, repoint, repoint_edges, repoint_rows, rows_of,
}
use catchment.Storage.Proposals.{UuidText}
use catchment.Taxonomy.{execute, execute_kind, merge_payload}

proposals-move_rows :
    (target_id : ℕ) (rows : ItemTags) (s : Store)
    → (move_rows target_id rows s).1.proposals ≡ s.proposals
unfolding move_rows
proposals-move_rows target_id [] s = refl
proposals-move_rows target_id (((i, t), row) ∷ rows) s = ground (
  arith,
  proposals-move_rows target_id rows
      (record s { item_tags = move_row target_id i row s.item_tags }),
)

proposals-move_assignments :
    (sources : List ℕ) (target_id : ℕ) (s : Store)
    → (move_assignments sources target_id s).1.proposals ≡ s.proposals
unfolding move_assignments
proposals-move_assignments sources target_id s =
    ground (arith, proposals-move_rows target_id (rows_of sources s.item_tags) s)

proposals-insert_edge :
    (p c : ℕ) (r : Text) (s : Store) → (insert_edge p c r s).1.proposals ≡ s.proposals
unfolding insert_edge
proposals-insert_edge p c r s = ground arith

proposals-repoint_rows :
    (sources : List ℕ) (target_id : ℕ) (rows : Edges) (s : Store)
    → (repoint_rows sources target_id rows s).1.proposals ≡ s.proposals
unfolding repoint_rows
proposals-repoint_rows sources target_id [] s = refl
proposals-repoint_rows sources target_id (((p, c), r) ∷ rows) s =
    let p' = repoint sources target_id p in
    let c' = repoint sources target_id c in
    ground (
      arith,
      proposals-insert_edge p' c' r s,
      proposals-repoint_rows sources target_id rows (insert_edge p' c' r s).1,
    )

proposals-repoint_edges :
    (sources : List ℕ) (target_id : ℕ) (s : Store)
    → (repoint_edges sources target_id s).1.proposals ≡ s.proposals
unfolding repoint_edges
proposals-repoint_edges sources target_id s =
    ground (arith, proposals-repoint_rows sources target_id (edges_of sources s.edges) s)

proposals-mark_merged :
    (sources : List ℕ) (target_id : ℕ) (s : Store)
    → (mark_merged sources target_id s).1.proposals ≡ s.proposals
unfolding mark_merged
proposals-mark_merged sources target_id s = ground arith

proposals-merge_sources :
    (sources : List ℕ) (target_id : ℕ) (s : Store)
    → (merge_sources sources target_id s).1.proposals ≡ s.proposals
unfolding merge_sources
proposals-merge_sources [] target_id s = refl
proposals-merge_sources (source ∷ more) target_id s =
    let sources = source ∷ more in
    let s1 = (move_assignments sources target_id s).1 in
    let s2 = (repoint_edges sources target_id s1).1 in
    ground (
      arith,
      proposals-move_assignments sources target_id s,
      proposals-repoint_edges sources target_id s1,
      proposals-mark_merged sources target_id s2,
    )

pub proposals-merge_into :
    (source_ids : List ℕ) (target_id : ℕ) (s : Store)
    → (merge_into source_ids target_id s).1.proposals ≡ s.proposals
unfolding merge_into
proposals-merge_into source_ids target_id s =
    proposals-merge_sources (other_than target_id source_ids) target_id s

proposals-execute_kind :
    (u : UuidText) (kind : ProposalKind) (p : TaxonomyProposal) (s : Store)
    → (execute_kind u kind p s).1.proposals ≡ s.proposals
unfolding execute_kind
proposals-execute_kind u split p s = refl
proposals-execute_kind u merge p s = elim (Result-cases (merge_payload u p)) [
  | inl (ids, e) ↦ rw e (proposals-merge_into ids.0 ids.1 s)
  | inr (x, e) ↦ rw e
]

pub proposals-execute :
    (u : UuidText) (p : TaxonomyProposal) (s : Store) → (execute u p s).1.proposals ≡ s.proposals
unfolding execute
proposals-execute u p s = proposals-execute_kind u p.kind p s
