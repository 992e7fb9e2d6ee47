-- ===== src/Interfaces.antt =====
-- catchment/internal_auth.py, and the review route of catchment/internal_api.py.
use catchment.Prelude.{
  Bool, Option, Text, false, find, if◌then◌else◌, nat_eq, none, pair_eq, some, text_eq, true, ℕ,
}
use catchment.Prelude.Strip.{is_empty, strip}
use catchment.Storage.Session.{
  Db, Error, Result, conflict, forbidden, gets, lift, missing_configuration, nested,
  no_result_found, ok, pure, raise, repository_error, service_unavailable, throw, value_error,
  ◌>>=◌, ◌>>◌,
}
use catchment.Storage.Models.{Store, TaxonomyProposal}
use catchment.Storage.Enums.{ProposalStatus, approved, rejected}
use catchment.Storage.Proposals.{UuidText, approve, reject}
use catchment.Taxonomy.{AppliedProposal, apply_proposal}
use catchment.Ingestion.Whatsapp.Webhook.{compare_digest}
pub mod Decisions
pub mod Tests

abbrev pub allowed : Result Bool → Result (Unit {0})
allowed (ok true) = ok tt
allowed (ok false) = raise forbidden
allowed (raise e) = raise e

-- `except MissingConfiguration`.
abbrev pub not_configured : Error → Error
not_configured missing_configuration = service_unavailable
not_configured e = e

abbrev pub matches : Option Text → Text → Result Bool
matches none expected = ok false
matches (some token) expected = compare_digest token expected

abbrev pub check_token : Result Text → Option Text → Result (Unit {0})
check_token (raise e) token = raise (not_configured e)
check_token (ok expected) token = allowed (matches token expected)

-- The first argument is what `settings.require_internal_token()` gives.
unfoldable pub require_internal_token : Result Text → Option Text → Result (Unit {0})
require_internal_token = check_token

pub data Decision : Type 0 where
  to_approve to_reject : Decision

-- `ProposalDecision._reject_blank`; value_error stands for the refusal of the request.
unfoldable pub checked_reviewer : Text → Result Text
checked_reviewer value = if is_empty (strip value) then raise value_error else ok (strip value)

pub record ProposalDecisionResponse : Type 0 where
  pub id : ℕ
  pub status : ProposalStatus
  pub reviewed_by : Option Text
  pub reviewed_at : Option ℕ
  pub assignments_moved : Option ℕ

-- `except RepositoryError`.
abbrev pub as_conflict : Error → Error
as_conflict repository_error = conflict
as_conflict e = e

abbrev pub or_conflict : {A : Type 0} → Result A × Store → Result A × Store
or_conflict (ok a, s) = (ok a, s)
or_conflict (raise e, s) = (raise (as_conflict e), s)

abbrev pub moved : Option AppliedProposal → Option ℕ
moved none = none
moved (some a) = some a.stats.assignments_moved

abbrev pub response_of :
    ℕ → Option AppliedProposal → Option TaxonomyProposal → Result ProposalDecisionResponse
response_of id outcome none = raise no_result_found
response_of id outcome (some p) = ok (record {
  id = id;
  status = p.status;
  reviewed_by = p.reviewed_by;
  reviewed_at = p.reviewed_at;
  assignments_moved = moved outcome;
})

abbrev pub decision_status : Decision → ProposalStatus
decision_status to_approve = approved
decision_status to_reject = rejected

module _ (u : UuidText) (decision : Decision) (proposal_id : ℕ) (now later : ℕ) where
  abbrev pub take_decision : Decision → Text → Db ℕ
  take_decision to_approve reviewer = approve proposal_id reviewer now
  take_decision to_reject reviewer = reject proposal_id reviewer now

  abbrev pub carry_out : Decision → Db (Option AppliedProposal)
  carry_out to_approve = apply_proposal u proposal_id later
  carry_out to_reject = pure none

  unfoldable pub decide_in_session : Text → Db ProposalDecisionResponse
  decide_in_session reviewer = do
    id ← λ s. or_conflict (take_decision decision reviewer s)
    outcome ← carry_out decision
    response ← gets (λ s. response_of id outcome (find proposal_id s.proposals))
    lift response

  abbrev pub with_reviewer : Result Text → Db ProposalDecisionResponse
  with_reviewer (raise e) = throw e
  with_reviewer (ok reviewer) = nested (decide_in_session reviewer)

  abbrev pub if_allowed : Result (Unit {0}) → Result Text → Db ProposalDecisionResponse
  if_allowed (raise e) reviewer = throw e
  if_allowed (ok u) reviewer = with_reviewer reviewer

  -- The route: the token and the body are checked, and the decision is taken and carried out
  -- in one transaction.
  unfoldable pub decide_proposal : Result Text → Option Text → Text → Db ProposalDecisionResponse
  decide_proposal expected token value =
      if_allowed (require_internal_token expected token) (checked_reviewer value)
