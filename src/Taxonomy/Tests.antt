-- ===== src/Taxonomy/Tests.antt =====
-- Concrete inputs of the theorems on the review queue and the applier.
use catchment.Prelude.{
  Has, List, Option, Text, [], arith, false, find, nat_eq, none, pair_eq, refl, select, some,
  text_eq, ℕ, ◌∷◌, ◌≡◌, ◌⊎◌,
}
use catchment.Prelude.Json.{end}
use catchment.Prelude.Strip.{codes}
use catchment.Storage.Enums.{ProposalKind, approved, merge, pending, rejected, split}
use catchment.Storage.Models.{Store, TaxonomyProposal}
use catchment.Storage.Session.{ok}
use catchment.Storage.Merge.{
  MergeStats, edges_of, insert_edge, mark_merged, merge_into, move_assignments, move_rows,
  repoint_edges, repoint_rows, rows_of,
}
use catchment.Storage.Proposals.{Row, UuidText, mark_applied, merge_fields, not_after}
use catchment.Storage.Proposals.Review.{Moves}
use catchment.Storage.Tests.{chain, leaf, proposal, root, sample}
use catchment.Taxonomy.{AppliedProposal, apply_all, apply_one, apply_proposal, merge_payload}
use catchment.Taxonomy.Apply.{Succeeds, applied_store, apply_one-cases}
use catchment.Taxonomy.Calls.{
  AllReviewed, Call, apply_every, apply_it, approve_it, propose_a_merge, run_call, run_call-Moves,
  run_calls, run_calls-AllReviewed, run_calls-settled,
}
use catchment.Taxonomy.Effects.{
  NoneApproved, apply_all-stuck, apply_proposal-again, is_approved_row,
}

abbrev read_letter : Text → Option ℕ
read_letter (id ∷ []) = some id
read_letter _ = none

-- A UUID written as the one character with its number.
abbrev one_letter : UuidText
one_letter = record { show = λ id. id ∷ []; read = read_letter; read-show = λ id. refl }

abbrev done : AppliedProposal
done = record {
  proposal_id = 5;
  kind = merge;
  stats = record { tags_merged = 1; assignments_moved = 1 };
}

abbrev calls : List Call
calls =
    propose_a_merge (leaf ∷ []) root none (codes "curator") 1
    ∷ approve_it 5 (codes "ann") 2
    ∷ apply_every 10 3
    ∷ []

none_approved : NoneApproved (sample chain ((5, proposal merge pending end) ∷ []))
none_approved row h = ground (arith, h)

pending-IsReviewed : AllReviewed (sample chain ((5, proposal merge pending end) ∷ []))
unfolding find
pending-IsReviewed id p e = record {
  reviewer = ground (arith, e);
  applied_status = ground (arith, e);
  applied_kind = ground (arith, e);
}

apply_one-cases_example :
    (apply_one one_letter 9
        (5, (proposal merge approved (merge_fields one_letter (leaf ∷ []) root)))
        (sample chain
          ((5, proposal merge approved (merge_fields one_letter (leaf ∷ []) root)) ∷ []))
      ≡ (
        ok none,
        (sample chain
            ((5, proposal merge approved (merge_fields one_letter (leaf ∷ []) root)) ∷ [])),
      ))
    ⊎ ((sources : List ℕ) × (target : ℕ) × (stats : MergeStats) × (t : Store) × Succeeds one_letter
          9 5
          (proposal merge approved (merge_fields one_letter (leaf ∷ []) root))
          (sample chain
            ((5, proposal merge approved (merge_fields one_letter (leaf ∷ []) root)) ∷ []))
          sources
          target
          stats
          t
        × (apply_one one_letter 9
              (5, (proposal merge approved (merge_fields one_letter (leaf ∷ []) root)))
              (sample chain
                ((5, proposal merge approved (merge_fields one_letter (leaf ∷ []) root)) ∷ []))
            ≡ (
              ok (
                  some (record {
                    proposal_id = 5;
                    kind =
                        (proposal merge approved (merge_fields one_letter (leaf ∷ []) root)).kind;
                    stats = stats;
                  })),
              applied_store one_letter 9 5
                  (proposal merge approved (merge_fields one_letter (leaf ∷ []) root))
                  (sample chain
                    ((5, proposal merge approved (merge_fields one_letter (leaf ∷ []) root)) ∷ []))
                  t,
            )))
apply_one-cases_example =
    apply_one-cases one_letter 9 5
      (proposal merge approved (merge_fields one_letter (leaf ∷ []) root))
      (sample chain ((5, proposal merge approved (merge_fields one_letter (leaf ∷ []) root)) ∷ []))

run_call-Moves_example :
    Moves
      (find 5
        (sample chain
          ((5, proposal merge approved (merge_fields one_letter (leaf ∷ []) root)) ∷ [])).proposals)
      (find 5
        (run_call one_letter (apply_it 5 9) (
          sample chain (
            (5, proposal merge approved (merge_fields one_letter (leaf ∷ []) root))
            ∷ []))).proposals)
unfolding find
run_call-Moves_example =
    run_call-Moves one_letter (apply_it 5 9)
      (sample chain ((5, proposal merge approved (merge_fields one_letter (leaf ∷ []) root)) ∷ []))
      5 (refl, tt)

run_calls-AllReviewed_example :
    AllReviewed (run_calls one_letter calls (sample chain ((5, proposal merge pending end) ∷ [])))
unfolding find
run_calls-AllReviewed_example =
    run_calls-AllReviewed one_letter calls (sample chain ((5, proposal merge pending end) ∷ []))
      (refl, tt) pending-IsReviewed

run_calls-settled_example :
    find 5
      (run_calls one_letter calls (sample chain ((5, proposal merge rejected end) ∷ []))).proposals
    ≡ some (proposal merge rejected end)
unfolding find
run_calls-settled_example =
    run_calls-settled one_letter calls (sample chain ((5, proposal merge rejected end) ∷ [])) 5
      (proposal merge rejected end) (refl, tt) refl refl

abbrev reviewed : ProposalKind → ℕ → TaxonomyProposal
reviewed kind at = record (proposal kind approved end) { reviewed_at = some at }

-- Two splits that were approved before a merge.
abbrev two_splits : Store
two_splits =
    sample chain ((7, reviewed merge 5) ∷ (5, reviewed split 2) ∷ (6, reviewed split 3) ∷ [])

splits_first :
    (a b : Row)
    → Has a (select is_approved_row two_splits.proposals)
    → Has b (select is_approved_row two_splits.proposals)
    → a.1.kind ≡ split
    → b.1.kind ≡ merge
    → not_after b.1.reviewed_at a.1.reviewed_at ≡ false
splits_first a b m k e f = ground (arith, m, k, e, f)

apply_all-stuck_example : apply_all one_letter 2 9 two_splits ≡ (ok [], two_splits)
apply_all-stuck_example = apply_all-stuck one_letter 2 9 two_splits (omega arith) splits_first

apply_proposal-again_example :
    apply_proposal one_letter 5 10
      (apply_proposal one_letter 5 9 (
        sample chain
          ((5, proposal merge approved (merge_fields one_letter (leaf ∷ []) root)) ∷ []))).1
    ≡ (
      ok none,
      (apply_proposal one_letter 5 9 (
          sample chain
            ((5, proposal merge approved (merge_fields one_letter (leaf ∷ []) root)) ∷ []))).1,
    )
unfolding apply_proposal find apply_one merge_payload merge_into move_assignments rows_of move_rows
    repoint_edges repoint_rows edges_of insert_edge mark_merged mark_applied
apply_proposal-again_example =
    apply_proposal-again one_letter 5 9 10
      (sample chain ((5, proposal merge approved (merge_fields one_letter (leaf ∷ []) root)) ∷ []))
      (apply_proposal one_letter 5 9 (
        sample chain
          ((5, proposal merge approved (merge_fields one_letter (leaf ∷ []) root)) ∷ []))).1
      done refl
