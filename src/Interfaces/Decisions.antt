-- ===== src/Interfaces/Decisions.antt =====
-- What a request for a decision does.
use catchment.Prelude.{
  Bool, Bool-cases, Option, Text, ap, arith, false, find, inl, inr, nat_eq, none, pair_eq, refl,
  some, text_beq_iff, text_eq, true, update_where, ℕ, ◌==◌, ◌≡◌, ◌⊎◌,
}
use catchment.Prelude.Strip.{is_empty, strip}
use catchment.Storage.Session.{Db-cases, Error, Result, Result-cases, ok, raise, value_error}
use catchment.Storage.Models.{Store}
use catchment.Storage.Enums.{approved, rejected}
use catchment.Storage.Proposals.{UuidText, approve, decided, reject}
use catchment.Storage.Proposals.Review.{CanDecide, decide-exact}
use catchment.Taxonomy.{AppliedProposal}
use catchment.Ingestion.Whatsapp.Webhook.{compare_digest}
use catchment.Interfaces.{
  Decision, ProposalDecisionResponse, allowed, as_conflict, carry_out, checked_reviewer,
  decide_in_session, decide_proposal, decision_status, matches, require_internal_token, response_of,
  take_decision, to_approve, to_reject,
}

compare_digest-same : (a b : Text) → compare_digest a b ≡ ok true → a ≡ b
unfolding compare_digest
compare_digest-same a b h = ground (arith, h, text_beq_iff a b)

matches-same :
    (token : Option Text) (expected : Text)
    → matches token expected ≡ ok true
    → token ≡ some expected
matches-same none expected h = ground (arith, h)
matches-same (some t) expected h = ap some (compare_digest-same t expected h)

allowed-ok : (r : Result Bool) (v : Unit {0}) → allowed r ≡ ok v → r ≡ ok true
allowed-ok (ok true) v h = refl
allowed-ok (ok false) v h = ground (arith, h)
allowed-ok (raise e) v h = ground (arith, h)

require_internal_token-ok :
    (expected : Result Text) (token : Option Text) (v : Unit {0})
    → require_internal_token expected token ≡ ok v
    → (t : Text) × (expected ≡ ok t) × (token ≡ some t)
unfolding require_internal_token
require_internal_token-ok (raise e) token v h = ground (arith, h)
require_internal_token-ok (ok t) token v h =
    (t, refl, matches-same token t (allowed-ok (matches token t) v h))

-- The store after a decision is recorded.
abbrev pub recorded : ℕ → Decision → Text → ℕ → Store → Store
recorded proposal_id decision reviewer now s = record s {
  proposals =
      update_where (λ k. k == proposal_id) (decided (decision_status decision) reviewer now)
        s.proposals;
}

module _ (u : UuidText) (proposal_id now later : ℕ) where
  take_decision-exact :
      (decision : Decision) (reviewer : Text) (s : Store)
      → (CanDecide proposal_id reviewer s
          × (take_decision u decision proposal_id now later decision reviewer s
              ≡ (ok proposal_id, recorded proposal_id decision reviewer now s)))
        ⊎ ((e : Error) × (take_decision u decision proposal_id now later decision reviewer s
              ≡ (raise e, s)))
  unfolding approve reject
  take_decision-exact to_approve reviewer s =
      elim (decide-exact proposal_id now approved reviewer s) [
        | inl (can, run) ↦ inl (can, run)
        | inr refused ↦ inr refused
      ]
  take_decision-exact to_reject reviewer s =
      elim (decide-exact proposal_id now rejected reviewer s) [
        | inl (can, run) ↦ inl (can, run)
        | inr refused ↦ inr refused
      ]

  -- A request for a decision raises and leaves the database as it was, or it carries the token that
  -- is configured and a reviewer with a character that is no space, of at most 128 characters when
  -- stripped, the proposal was pending, and what then happens in the one transaction is the record of
  -- the decision and its carrying out.
  pub decide_proposal-gated :
      (decision : Decision) (expected : Result Text) (token : Option Text) (value : Text)
      (s : Store)
      → ((e : Error) × (decide_proposal u decision proposal_id now later expected token value s
            ≡ (raise e, s)))
        ⊎ ((t : Text) × (r : ProposalDecisionResponse) × (outcome : Option AppliedProposal)
            × (s' : Store) × (expected ≡ ok t)
            × (token ≡ some t)
            × CanDecide proposal_id (strip value) s
            × (carry_out u decision proposal_id now later decision
                  (recorded proposal_id decision (strip value) now s)
                ≡ (ok outcome, s'))
            × (response_of proposal_id outcome (find proposal_id s'.proposals) ≡ ok r)
            × (decide_proposal u decision proposal_id now later expected token value s
                ≡ (ok r, s')))
  unfolding decide_proposal decide_in_session checked_reviewer
  decide_proposal-gated decision expected token value s =
      elim (Result-cases (require_internal_token expected token)) [
        | inr (e, q) ↦ inl (e, rw q refl)
        | inl (v, q) ↦ elim (Bool-cases (is_empty (strip value))) [
          | inl blank ↦ inl (value_error, rw q (rw blank refl))
          | inr named ↦ elim (take_decision-exact decision (strip value) s) [
            | inr (e, refused) ↦ inl (as_conflict e, rw q (rw named (rw refused refl)))
            | inl (can, taken) ↦
                let s1 = recorded proposal_id decision (strip value) now s in
                elim (Db-cases (carry_out u decision proposal_id now later decision) s1) [
                  | inr (e, s', c) ↦ inl (e, rw q (rw named (rw taken (rw c refl))))
                  | inl (outcome, s', c) ↦
                      elim (Result-cases
                        (response_of proposal_id outcome (find proposal_id s'.proposals))) [
                          | inr (e, o) ↦ inl (e, rw q (rw named (rw taken (rw c (rw o refl)))))
                          | inl (r, o) ↦
                              let (t, known, same) = require_internal_token-ok expected token v q in
                              inr (
                                t,
                                r,
                                outcome,
                                s',
                                known,
                                same,
                                can,
                                c,
                                o,
                                rw q (rw named (rw taken (rw c (rw o refl)))),
                              )
                        ]
                ]
          ]
        ]
      ]
