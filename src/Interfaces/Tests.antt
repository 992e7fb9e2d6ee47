-- ===== src/Interfaces/Tests.antt =====
-- A pending proposal that a reviewer approves.
use catchment.Prelude.{
  Option, Text, [], find, nat_eq, none, pair_eq, refl, some, text_eq, ℕ, ◌∷◌, ◌≡◌, ◌⊎◌,
}
use catchment.Prelude.Strip.{codes, strip}
use catchment.Storage.Session.{Error, ok, raise}
use catchment.Storage.Models.{Store}
use catchment.Storage.Enums.{merge, pending}
use catchment.Storage.Proposals.{UuidText, merge_fields}
use catchment.Storage.Proposals.Review.{CanDecide}
use catchment.Storage.Tests.{chain, leaf, proposal, root, sample}
use catchment.Taxonomy.{AppliedProposal}
use catchment.Interfaces.{
  ProposalDecisionResponse, carry_out, decide_proposal, response_of, to_approve,
}
use catchment.Interfaces.Decisions.{decide_proposal-gated, recorded}

abbrev read_letter : Text → Option ℕ
read_letter (id ∷ []) = some id
read_letter _ = none

-- A UUID written as the one character with its number.
abbrev one_letter : UuidText
one_letter = record { show = λ id. id ∷ []; read = read_letter; read-show = λ id. refl }

abbrev queue : Store
queue = sample chain ((5, proposal merge pending (merge_fields one_letter (leaf ∷ []) root)) ∷ [])

decide_proposal-gated_example :
    ((e : Error) × (decide_proposal one_letter to_approve 5 9 9
          (ok (codes "t"))
          (some (codes "t"))
          (codes " ann ")
          queue
        ≡ (raise e, queue)))
    ⊎ ((t : Text) × (r : ProposalDecisionResponse) × (outcome : Option AppliedProposal)
        × (s' : Store) × ((ok (codes "t")) ≡ ok t)
        × ((some (codes "t")) ≡ some t)
        × CanDecide 5 (strip (codes " ann ")) queue
        × (carry_out one_letter to_approve 5 9 9 to_approve
              (recorded 5 to_approve (strip (codes " ann ")) 9 queue)
            ≡ (ok outcome, s'))
        × (response_of 5 outcome (find 5 s'.proposals) ≡ ok r)
        × (decide_proposal one_letter to_approve 5 9 9
              (ok (codes "t"))
              (some (codes "t"))
              (codes " ann ")
              queue
            ≡ (ok r, s')))
decide_proposal-gated_example =
    decide_proposal-gated one_letter 5 9 9 to_approve (ok (codes "t")) (some (codes "t"))
      (codes " ann ") queue
