-- ===== src/Storage/Proposals.antt =====
-- `TaxonomyProposalRepository` of catchment/storage/repositories.py: the review queue.
-- The argument `now` is what `_now()`, or the database's `now()`, gives.
use catchment.Prelude.{
  Bool, List, Option, Text, [], false, find, if◌then◌else◌, is_some, leb, nat_eq, none, not,
  order_by, pair_eq, select, some, take, text_eq, true, update_where, upsert, ℕ, ◌==◌, ◌∷◌, ◌≡◌,
}
use catchment.Prelude.Json.{Fields, Items, arr, cons, end, field, nil, str}
use catchment.Prelude.Strip.{codes, is_empty, strip}
use catchment.Storage.Enums.{
  ProposalKind, ProposalStatus, applied, approved, is_approved, is_pending, merge, pending,
  rejected, split,
}
use catchment.Storage.Models.{Store, TaxonomyProposal}
use catchment.Storage.Session.{
  Db, constraint, gets, modify, not_approved, pure, repository_error, throw, uuid4, varchar, ◌>>=◌,
  ◌>>◌,
}
pub mod Review
pub mod Listing

-- What the code relies on of Python's `uuid`: `uuid.UUID(str(u))` is `u`.
pub record UuidText : Type 0 where
  pub show : ℕ → Text
  pub read : Text → Option ℕ
  pub read-show : (id : ℕ) → read (show id) ≡ some id

-- The fields of a payload.
abbrev pub source_tag_ids : Text
source_tag_ids = codes "source_tag_ids"

abbrev pub target_tag_id : Text
target_tag_id = codes "target_tag_id"

abbrev tag_id_field : Text
tag_id_field = codes "tag_id"

abbrev into_field : Text
into_field = codes "into"

abbrev pub new_proposal : ProposalKind → Fields → Option Text → Text → ℕ → TaxonomyProposal
new_proposal kind payload rationale proposed_by now = record {
  kind = kind;
  status = pending;
  payload = payload;
  rationale = rationale;
  proposed_by = proposed_by;
  created_at = now;
  reviewed_by = none;
  reviewed_at = none;
  applied_at = none;
}

unfoldable pub create : ProposalKind → Fields → Option Text → Text → ℕ → Db ℕ
create kind payload rationale proposed_by now = do
  id ← uuid4
  taken ← gets (λ s. is_some (find id s.proposals))
  constraint (not taken)
  modify (λ s. record s {
    proposals =
        upsert id (new_proposal kind payload rationale proposed_by now) (λ old. old) s.proposals;
  })
  pure id

-- `[str(tag_id) for tag_id in source_tag_ids]`.
abbrev pub show_ids : UuidText → List ℕ → Items
show_ids u [] = nil
show_ids u (id ∷ ids) = cons (str (u.show id)) (show_ids u ids)

abbrev pub merge_fields : UuidText → List ℕ → ℕ → Fields
merge_fields u sources target =
    field source_tag_ids (arr (show_ids u sources)) (field target_tag_id (str (u.show target)) end)

unfoldable pub propose_merge : UuidText → List ℕ → ℕ → Option Text → Text → ℕ → Db ℕ
unfolding create
propose_merge u sources target rationale proposed_by now =
    create merge (merge_fields u sources target) rationale proposed_by now

unfoldable pub propose_split : UuidText → ℕ → Items → Option Text → Text → ℕ → Db ℕ
unfolding create
propose_split u tag into rationale proposed_by now =
    create split (field tag_id_field (str (u.show tag)) (field into_field (arr into) end)) rationale
      proposed_by now

-- `ORDER BY key` with nulls last, as Postgres sorts; rows that tie stay in the table's order.
abbrev pub not_after : Option ℕ → Option ℕ → Bool
not_after none none = true
not_after none (some b) = false
not_after (some a) none = true
not_after (some a) (some b) = leb a b

abbrev pub Row : Type 0
Row = ℕ × TaxonomyProposal

unfoldable pub list_pending : ℕ → Store → List Row
unfolding order_by
list_pending limit s = take limit (
    order_by (λ a b. leb a.1.created_at b.1.created_at)
      (select (λ row. is_pending row.1.status) s.proposals))

unfoldable pub list_approved : ℕ → Store → List Row
unfolding order_by
list_approved limit s = take limit (
    order_by (λ a b. not_after a.1.reviewed_at b.1.reviewed_at)
      (select (λ row. is_approved row.1.status) s.proposals))

abbrev pub is_in : (ProposalStatus → Bool) → Option TaxonomyProposal → Bool
is_in test none = false
is_in test (some p) = test p.status

abbrev pub decided : ProposalStatus → Text → ℕ → TaxonomyProposal → TaxonomyProposal
decided status reviewer now p = record p {
  status = status;
  reviewed_by = some reviewer;
  reviewed_at = some now;
}

-- `taxonomy_proposals.reviewed_by` is a `String(128)`.
abbrev pub reviewer_length : ℕ
reviewer_length = 128

-- The statement casts the reviewer to its column, so one that is too long is refused in either case.
unfoldable pub decide : ℕ → ProposalStatus → Text → ℕ → Db ℕ
decide proposal_id status reviewer now =
    if is_empty (strip reviewer) then throw repository_error else do
      varchar reviewer_length reviewer
      found ← gets (λ s. is_in is_pending (find proposal_id s.proposals))
      if not found then throw repository_error else do
        modify (λ s. record s {
          proposals =
              update_where (λ k. k == proposal_id) (decided status reviewer now) s.proposals;
        })
        pure proposal_id

unfoldable pub approve : ℕ → Text → ℕ → Db ℕ
unfolding decide
approve proposal_id reviewer now = decide proposal_id approved reviewer now

unfoldable pub reject : ℕ → Text → ℕ → Db ℕ
unfolding decide
reject proposal_id reviewer now = decide proposal_id rejected reviewer now

abbrev pub as_applied : ℕ → TaxonomyProposal → TaxonomyProposal
as_applied now p = record p { status = applied; applied_at = some now }

-- The status that `session.get` finds, and the write.
unfoldable pub mark_found : Option TaxonomyProposal → ℕ → ℕ → Db ℕ
mark_found none proposal_id now = throw repository_error
mark_found (some p) proposal_id now = if not (is_approved p.status) then throw not_approved else do
  modify (λ s. record s {
    proposals = update_where (λ k. k == proposal_id) (as_applied now) s.proposals;
  })
  pure proposal_id

unfoldable pub mark_applied : ℕ → ℕ → Db ℕ
unfolding mark_found
mark_applied proposal_id now = do
  p ← gets (λ s. find proposal_id s.proposals)
  mark_found p proposal_id now
