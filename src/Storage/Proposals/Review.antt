-- ===== src/Storage/Proposals/Review.antt =====
-- The decisions on a proposal, and how its row may change.
use catchment.Prelude.{
  Bool, Bool-cases, Option, Option-cases, Text, arith, false, find, find-update, find-upsert, inl,
  inr, leb, length, nat_eq, none, pair_eq, refl, some, text_eq, true, update_where, ℕ, ◌==◌, ◌≡◌,
  ◌⊎◌,
}
use catchment.Prelude.Json.{Fields}
use catchment.Prelude.Strip.{is_empty, strip}
use catchment.Storage.Enums.{
  ProposalKind, ProposalStatus, approved, is_approved, is_pending, merge, pending, rejected,
}
use catchment.Storage.Models.{Store, TaxonomyProposal}
use catchment.Storage.Session.{Error, data_error, not_approved, ok, raise, repository_error}
use catchment.Storage.Proposals.{
  as_applied, create, decide, decided, is_in, mark_applied, new_proposal, reviewer_length,
}
use mathlib.Core.Bool.{false≢true}
use native.Mathlib.Decide.{ℕ_discrete}

-- A named reviewer that fits its column, and a proposal that is pending.
abbrev pub CanDecide : ℕ → Text → Store → Type 0
CanDecide proposal_id reviewer s =
    (is_empty (strip reviewer) ≡ false)
    × (leb (length reviewer) reviewer_length ≡ true)
    × (is_in is_pending (find proposal_id s.proposals) ≡ true)

-- A decision is recorded in full, or it raises and writes nothing.
pub decide-exact :
    (proposal_id now : ℕ) (status : ProposalStatus) (reviewer : Text) (s : Store)
    → (CanDecide proposal_id reviewer s
        × (decide proposal_id status reviewer now s ≡ (
          ok proposal_id,
          record s {
            proposals =
                update_where (λ k. k == proposal_id) (decided status reviewer now) s.proposals;
          },
        )))
      ⊎ ((e : Error) × (decide proposal_id status reviewer now s ≡ (raise e, s)))
unfolding decide
decide-exact proposal_id now status reviewer s = elim (Bool-cases (is_empty (strip reviewer))) [
  | inl blank ↦ inr (repository_error, rw blank)
  | inr named ↦ elim (Bool-cases (leb (length reviewer) reviewer_length)) [
    | inr long ↦ inr (data_error, rw (named, long))
    | inl short ↦ elim (Bool-cases (is_in is_pending (find proposal_id s.proposals))) [
      | inl pending_row ↦ inl ((named, short, pending_row), rw (named, short, pending_row))
      | inr other ↦ inr (repository_error, rw (named, short, other))
    ]
  ]
]

abbrev pub CanApply : ℕ → Store → Type 0
CanApply proposal_id s = is_in is_approved (find proposal_id s.proposals) ≡ true

-- A proposal is marked as applied exactly where it is approved; otherwise nothing is written.
pub mark_applied-cases :
    (proposal_id now : ℕ) (s : Store)
    → (CanApply proposal_id s
        × (mark_applied proposal_id now s ≡ (
          ok proposal_id,
          record s {
            proposals = update_where (λ k. k == proposal_id) (as_applied now) s.proposals;
          },
        )))
      ⊎ ((¬ CanApply proposal_id s) × (e : Error) × (mark_applied proposal_id now s ≡ (raise e, s)))
unfolding mark_applied
mark_applied-cases proposal_id now s = elim (Option-cases (find proposal_id s.proposals)) [
  | inl gone ↦ inr (ground (arith, gone), repository_error, rw gone)
  | inr (p, found) ↦ elim (Bool-cases (is_approved p.status)) [
    | inl y ↦ inl (ground (arith, found, y), rw (found, y))
    | inr n ↦ inr (ground (arith, found, n), not_approved, rw (found, n))
  ]
]

-- How the row of one proposal may change in one call: not at all; from no row to a pending one; from
-- pending to a decision by a named reviewer; from an approved merge to an applied one.
pub data Moves (before after : Option TaxonomyProposal) : Type 0 where
  unchanged : after ≡ before → Moves before after
  proposed :
      (p : TaxonomyProposal)
      → before ≡ none
      → after ≡ some p
      → p.status ≡ pending
      → p.applied_at ≡ none
      → Moves before after
  reviewed :
      (p : TaxonomyProposal) (status : ProposalStatus) (reviewer : Text) (now : ℕ)
      → before ≡ some p
      → p.status ≡ pending
      → (status ≡ approved) ⊎ (status ≡ rejected)
      → is_empty (strip reviewer) ≡ false
      → after ≡ some (decided status reviewer now p)
      → Moves before after
  executed :
      (p : TaxonomyProposal) (now : ℕ)
      → before ≡ some p
      → p.status ≡ approved
      → p.kind ≡ merge
      → after ≡ some (as_applied now p)
      → Moves before after

pub create-Moves :
    (kind : ProposalKind) (payload : Fields) (rationale : Option Text) (by : Text) (now : ℕ)
    (s : Store) (id : ℕ)
    → Moves (find id s.proposals) (find id (create kind payload rationale by now s).1.proposals)
unfolding create
create-Moves kind payload rationale by now s id =
    let new = s.uuids s.draws in
    let row = new_proposal kind payload rationale by now in
    let law = find-upsert new id row (λ old. old) s.proposals in
    elim (Option-cases (find new s.proposals)) [
      | inr (p, taken) ↦ unchanged (ground (arith, taken))
      | inl free ↦ elim (ℕ_discrete new id) [
        | yes e ↦ proposed row (ground (arith, free)) (ground (arith, free, law)) refl refl
        | no ne ↦ unchanged (ground (arith, free, law))
      ]
    ]

pub found_row :
    (test : ProposalStatus → Bool) (o : Option TaxonomyProposal)
    → is_in test o ≡ true
    → (p : TaxonomyProposal) × (o ≡ some p) × (test p.status ≡ true)
found_row test none h = absurd (false≢true h)
found_row test (some p) h = (p, refl, h)

pub decide-Moves :
    (proposal_id now : ℕ) (status : ProposalStatus) (reviewer : Text) (s : Store) (id : ℕ)
    → (status ≡ approved) ⊎ (status ≡ rejected)
    → Moves (find id s.proposals) (find id (decide proposal_id status reviewer now s).1.proposals)
decide-Moves proposal_id now status reviewer s id h =
    let law = find-update (λ k. k == proposal_id) (decided status reviewer now) id s.proposals in
    elim (decide-exact proposal_id now status reviewer s) [
      | inr (e, run) ↦ unchanged (rw run)
      | inl ((named, short, waiting), run) ↦
          let (p, found, is) = found_row is_pending (find proposal_id s.proposals) waiting in
          elim (ℕ_discrete id proposal_id) [
            | yes e ↦
                reviewed p status reviewer now (ground (arith, found)) (ground arith) h named
                  (rw run (ground (arith, law, found)))
            | no ne ↦ unchanged (rw run (ground (arith, law)))
          ]
    ]

pub mark_applied-Moves :
    (proposal_id now : ℕ) (s : Store) (id : ℕ) (p : TaxonomyProposal)
    → find proposal_id s.proposals ≡ some p
    → p.kind ≡ merge
    → Moves (find id s.proposals) (find id (mark_applied proposal_id now s).1.proposals)
mark_applied-Moves proposal_id now s id p found is_merge =
    let law = find-update (λ k. k == proposal_id) (as_applied now) id s.proposals in
    elim (mark_applied-cases proposal_id now s) [
      | inr (no_way, e, run) ↦ unchanged (rw run)
      | inl (can, run) ↦ elim (ℕ_discrete id proposal_id) [
        | yes e ↦
            executed p now (ground (arith, found)) (ground (arith, found, can)) is_merge
              (rw run (ground (arith, law, found)))
        | no ne ↦ unchanged (rw run (ground (arith, law)))
      ]
    ]
