-- ===== src/Taxonomy.antt =====
-- catchment/taxonomy/apply.py: the execution of approved proposals.
pub mod Frame
pub mod Apply
pub mod Lifecycle
pub mod Calls
pub mod Effects
pub mod Tests
use catchment.Prelude.{
  List, Option, [], find, if◌then◌else◌, nat_eq, none, not, pair_eq, some, text_eq, ℕ, ◌∷◌,
}
use catchment.Prelude.Json.{Json, arr, cons, get, str, to_list}
use catchment.Storage.Enums.{ProposalKind, is_approved, merge, split}
use catchment.Storage.Models.{Store, TaxonomyProposal}
use catchment.Storage.Session.{
  Db, Result, gets, lift, nested, ok, payload_error, pure, raise, throw, ◌>>=◌, ◌>>◌,
}
use catchment.Storage.Merge.{MergeStats, merge_into}
use catchment.Storage.Proposals.{
  Row, UuidText, list_approved, mark_applied, source_tag_ids, target_tag_id,
}

pub record AppliedProposal : Type 0 where
  pub proposal_id : ℕ
  pub kind : ProposalKind
  pub stats : MergeStats

module _ (u : UuidText) where
  -- `[uuid.UUID(value) for value in raw_sources]`: every way to fail is made one error.
  unfoldable pub read_id : Json → Result ℕ
  read_id (str t) = elim (u.read t) [ none ↦ raise payload_error | some id ↦ ok id ]
  read_id _ = raise payload_error

  unfoldable pub read_ids : List Json → Result (List ℕ)
  unfolding read_id
  read_ids [] = ok []
  read_ids (j ∷ js) = elim (read_id j) [
    | ok id ↦ elim (read_ids js) [ ok ids ↦ ok (id ∷ ids) | raise e ↦ raise e ]
    | raise e ↦ raise e
  ]

  -- The checks on `source_tag_ids` and on `target_tag_id`, in the code's order.
  unfoldable pub read_payload : Option Json → Option Json → Result (List ℕ × ℕ)
  unfolding read_ids
  read_payload (some (arr (cons j js))) (some (str t)) = elim (read_ids (to_list (cons j js))) [
    | ok sources ↦ elim (read_id (str t)) [ ok target ↦ ok (sources, target) | raise e ↦ raise e ]
    | raise e ↦ raise e
  ]
  read_payload sources target = raise payload_error

  unfoldable pub merge_payload : TaxonomyProposal → Result (List ℕ × ℕ)
  unfolding read_payload
  merge_payload proposal =
      read_payload (get source_tag_ids proposal.payload) (get target_tag_id proposal.payload)

  unfoldable pub execute_kind : ProposalKind → TaxonomyProposal → Db MergeStats
  execute_kind merge proposal = do ids ← lift (merge_payload proposal); merge_into ids.0 ids.1
  execute_kind split proposal = throw payload_error

  unfoldable pub execute : TaxonomyProposal → Db MergeStats
  unfolding execute_kind
  execute proposal = execute_kind proposal.kind proposal

  -- `except Exception: return None`, outside the savepoint.
  abbrev pub or_none : {A : Type 0} → Result A × Store → Result (Option A) × Store
  or_none (ok a, s) = (ok (some a), s)
  or_none (raise e, s) = (ok none, s)

  unfoldable pub run_one : ℕ → Row → Db AppliedProposal
  unfolding execute
  run_one now (proposal_id, proposal) = do
    stats ← execute proposal
    mark_applied proposal_id now
    pure (record { proposal_id = proposal_id; kind = proposal.kind; stats = stats })

  unfoldable pub apply_one : ℕ → Row → Db (Option AppliedProposal)
  unfolding run_one
  apply_one now row s = or_none (nested (run_one now row) s)

  abbrev pub append_outcome : Option AppliedProposal → List AppliedProposal → List AppliedProposal
  append_outcome none rest = rest
  append_outcome (some a) rest = a ∷ rest

  unfoldable pub apply_rows : ℕ → List Row → Db (List AppliedProposal)
  apply_rows now [] = pure []
  apply_rows now (row ∷ rows) = do
    outcome ← apply_one now row
    rest ← apply_rows now rows
    pure (append_outcome outcome rest)

  -- `_apply_all`; `apply_approved_proposals` runs it in the session given, or in one of its own.
  unfoldable pub apply_all : ℕ → ℕ → Db (List AppliedProposal)
  apply_all limit now = do rows ← gets (list_approved limit); apply_rows now rows

  unfoldable pub apply_approved_proposals : ℕ → ℕ → Db (List AppliedProposal)
  unfolding apply_all
  apply_approved_proposals limit now = nested (apply_all limit now)

  unfoldable pub apply_found : ℕ → ℕ → Option TaxonomyProposal → Db (Option AppliedProposal)
  apply_found proposal_id now none = pure none
  apply_found proposal_id now (some p) =
      if not (is_approved p.status) then pure none else apply_one now (proposal_id, p)

  unfoldable pub apply_proposal : ℕ → ℕ → Db (Option AppliedProposal)
  unfolding apply_found
  apply_proposal proposal_id now = do
    p ← gets (λ s. find proposal_id s.proposals)
    apply_found proposal_id now p
