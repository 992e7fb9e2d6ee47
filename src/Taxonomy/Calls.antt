-- ===== src/Taxonomy/Calls.antt =====
-- Any sequence of calls of the review queue and of the applier.
use catchment.Prelude.{
  Bool, Bool-cases, IsKeyed, List, Option, Text, [], arith, false, find, inl, inr, is_some, nat_eq,
  none, pair_eq, refl, some, subst, sym, text_eq, true, update-IsKeyed, upsert-IsKeyed, ℕ, ◌==◌,
  ◌∙◌, ◌∷◌, ◌≡◌,
}
use catchment.Prelude.Json.{Fields, Items}
use catchment.Storage.Enums.{
  ProposalKind, ProposalStatus, applied, approved, is_approved, is_pending, merge, rejected, split,
}
use catchment.Storage.Models.{Store, TaxonomyProposal}
use catchment.Storage.Session.{Db, Db-cases, nested}
use catchment.Storage.Proposals.{
  Row, UuidText, approve, as_applied, create, decide, decided, list_approved, merge_fields,
  new_proposal, propose_merge, propose_split, reject,
}
use catchment.Storage.Proposals.Review.{
  Moves, create-Moves, decide-Moves, decide-exact, executed, proposed, reviewed, unchanged,
}
use catchment.Taxonomy.{apply_all, apply_found, apply_one, apply_proposal, apply_rows}
use catchment.Taxonomy.Apply.{apply_one-cases}
use catchment.Taxonomy.Lifecycle.{
  Executes-Moves, apply_all-Executes, apply_found-Executes, state-apply_rows,
}

-- The calls that a caller can make.
pub data Call : Type 0 where
  propose_a_merge : List ℕ → ℕ → Option Text → Text → ℕ → Call
  propose_a_split : ℕ → Items → Option Text → Text → ℕ → Call
  approve_it : ℕ → Text → ℕ → Call
  reject_it : ℕ → Text → ℕ → Call
  apply_it : ℕ → ℕ → Call
  apply_every : ℕ → ℕ → Call

module _ (u : UuidText) where
  -- The state after a call; a call that raises is rolled back.
  unfoldable pub run_call : Call → Store → Store
  run_call (propose_a_merge sources target rationale by now) s =
      (nested (propose_merge u sources target rationale by now) s).1
  run_call (propose_a_split tag into rationale by now) s =
      (nested (propose_split u tag into rationale by now) s).1
  run_call (approve_it id reviewer now) s = (nested (approve id reviewer now) s).1
  run_call (reject_it id reviewer now) s = (nested (reject id reviewer now) s).1
  run_call (apply_it id now) s = (nested (apply_proposal u id now) s).1
  run_call (apply_every limit now) s = (nested (apply_all u limit now) s).1

  nested-Moves :
      {A : Type 0} (m : Db A) (s : Store) (id : ℕ)
      → Moves (find id s.proposals) (find id (m s).1.proposals)
      → Moves (find id s.proposals) (find id (nested m s).1.proposals)
  nested-Moves m s id h = elim (Db-cases m s) [
    | inl (a, t, e) ↦ rw e (rw e at h)
    | inr (x, t, e) ↦ rw e (unchanged refl)
  ]

  -- With one row for each proposal, in one call the row of a proposal stays as it is, or goes on
  -- by one step of its life: it is queued as pending; a named reviewer decides on it while it is
  -- pending; or it is marked as applied, being an approved merge.
  pub run_call-Moves :
      (c : Call) (s : Store) (id : ℕ)
      → IsKeyed s.proposals
      → Moves (find id s.proposals) (find id (run_call c s).proposals)
  unfolding run_call propose_merge propose_split approve reject apply_proposal
  run_call-Moves (propose_a_merge sources target rationale by now) s id k =
      nested-Moves (create merge (merge_fields u sources target) rationale by now) s id
        (create-Moves merge (merge_fields u sources target) rationale by now s id)
  run_call-Moves (propose_a_split tag into rationale by now) s id k =
      nested-Moves (propose_split u tag into rationale by now) s id
        (create-Moves split _ rationale by now s id)
  run_call-Moves (approve_it p reviewer now) s id k =
      nested-Moves (decide p approved reviewer now) s id
        (decide-Moves p now approved reviewer s id (inl refl))
  run_call-Moves (reject_it p reviewer now) s id k =
      nested-Moves (decide p rejected reviewer now) s id
        (decide-Moves p now rejected reviewer s id (inr refl))
  run_call-Moves (apply_it p now) s id k =
      nested-Moves (apply_proposal u p now) s id
        (Executes-Moves _ _ (apply_found-Executes u p now s id (find p s.proposals) refl))
  run_call-Moves (apply_every limit now) s id k =
      nested-Moves (apply_all u limit now) s id
        (Executes-Moves _ _ (apply_all-Executes u limit now s id k))

  unfoldable pub run_calls : List Call → Store → Store
  run_calls [] s = s
  run_calls (c ∷ calls) s = run_calls calls (run_call c s)

-- What the check constraints on `taxonomy_proposals` promise of a row, and that only a merge is
-- ever applied.
pub record IsReviewed (p : TaxonomyProposal) : Type 0 where
  pub reviewer : is_pending p.status ≡ false → is_some p.reviewed_by ≡ true
  pub applied_status : is_some p.applied_at ≡ true → p.status ≡ applied
  pub applied_kind : p.status ≡ applied → p.kind ≡ merge

abbrev pub AllReviewed : Store → Type 0
AllReviewed s = (id : ℕ) (p : TaxonomyProposal) → find id s.proposals ≡ some p → IsReviewed p

Moves-IsReviewed :
    (before after : Option TaxonomyProposal)
    → Moves before after
    → ((p : TaxonomyProposal) → before ≡ some p → IsReviewed p)
    → (p : TaxonomyProposal) → after ≡ some p
    → IsReviewed p
Moves-IsReviewed b a (unchanged e) h p f = h p (sym e ∙ f)
Moves-IsReviewed b a (proposed q e f st ap') h p g = record {
  reviewer = ground arith;
  applied_status = ground arith;
  applied_kind = ground arith;
}
Moves-IsReviewed b a (reviewed q st who now e is_p dec named f) h p g = record {
  reviewer = ground arith;
  applied_status = λ k. absurd (ground (arith, (h q e).applied_status));
  applied_kind = ground arith;
}
Moves-IsReviewed b a (executed q now e is_a is_m f) h p g = record {
  reviewer = λ k. ground (arith, (h q e).reviewer);
  applied_status = ground arith;
  applied_kind = ground arith;
}

-- The row is decided for good: rejected or applied.
abbrev pub is_settled : ProposalStatus → Bool
is_settled rejected = true
is_settled applied = true
is_settled _ = false

Moves-settled :
    (before after : Option TaxonomyProposal) (p : TaxonomyProposal)
    → Moves before after
    → before ≡ some p
    → is_settled p.status ≡ true
    → after ≡ some p
Moves-settled b a p (unchanged e) f h = e ∙ f
Moves-settled b a p (proposed q e _ _ _) f h = absurd (ground arith)
Moves-settled b a p (reviewed q st who now e is_p _ _ _) f h = absurd (ground arith)
Moves-settled b a p (executed q now e is_a _ _) f h = absurd (ground arith)

module _ (u : UuidText) where
  nested-IsKeyed :
      {A : Type 0} (m : Db A) (s : Store)
      → IsKeyed s.proposals
      → IsKeyed (m s).1.proposals
      → IsKeyed (nested m s).1.proposals
  nested-IsKeyed m s k h = elim (Db-cases m s) [
    | inl (a, t, e) ↦ rw e (rw e at h)
    | inr (x, t, e) ↦ rw e k
  ]

  create-IsKeyed :
      (kind : ProposalKind) (payload : Fields) (rationale : Option Text) (by : Text) (now : ℕ)
      (s : Store)
      → IsKeyed s.proposals
      → IsKeyed (create kind payload rationale by now s).1.proposals
  unfolding create
  create-IsKeyed kind payload rationale by now s k =
      elim (Bool-cases (is_some (find (s.uuids s.draws) s.proposals))) [
        | inl taken ↦ rw taken k
        | inr free ↦ rw free (
            upsert-IsKeyed (s.uuids s.draws) (new_proposal kind payload rationale by now)
              (λ old. old) s.proposals k)
      ]

  decide-IsKeyed :
      (proposal_id now : ℕ) (status : ProposalStatus) (reviewer : Text) (s : Store)
      → IsKeyed s.proposals
      → IsKeyed (decide proposal_id status reviewer now s).1.proposals
  decide-IsKeyed id now status reviewer s k = elim (decide-exact id now status reviewer s) [
    | inl (can, run) ↦
        rw run (update-IsKeyed (λ k. k == id) (decided status reviewer now) s.proposals k)
    | inr (no_way, run) ↦ rw run k
  ]

  apply_one-IsKeyed :
      (now : ℕ) (row : Row) (s : Store)
      → IsKeyed s.proposals
      → IsKeyed (apply_one u now row s).1.proposals
  apply_one-IsKeyed now (id, p) s k = elim (apply_one-cases u now id p s) [
    | inl run ↦ rw run k
    | inr (sources, target, stats, t, why, run) ↦
        rw run (update-IsKeyed (λ k. k == id) (as_applied now) s.proposals k)
  ]

  apply_rows-IsKeyed :
      (now : ℕ) (rows : List Row) (s : Store)
      → IsKeyed s.proposals
      → IsKeyed (apply_rows u now rows s).1.proposals
  apply_rows-IsKeyed now [] s k = unfold apply_rows in k
  apply_rows-IsKeyed now (row ∷ rows) s k =
      subst (λ t. IsKeyed t.proposals) (sym (state-apply_rows u now row rows s))
        (apply_rows-IsKeyed now rows (apply_one u now row s).1 (apply_one-IsKeyed now row s k))

  apply_found-IsKeyed :
      (id now : ℕ) (o : Option TaxonomyProposal) (s : Store)
      → IsKeyed s.proposals
      → IsKeyed (apply_found u id now o s).1.proposals
  unfolding apply_found
  apply_found-IsKeyed id now none s k = k
  apply_found-IsKeyed id now (some p) s k = elim (Bool-cases (is_approved p.status)) [
    | inl y ↦ rw y (apply_one-IsKeyed now (id, p) s k)
    | inr n ↦ rw n k
  ]

  run_call-IsKeyed :
      (c : Call) (s : Store) → IsKeyed s.proposals → IsKeyed (run_call u c s).proposals
  unfolding run_call propose_merge propose_split approve reject apply_proposal apply_all
  run_call-IsKeyed (propose_a_merge sources target rationale by now) s k =
      nested-IsKeyed (propose_merge u sources target rationale by now) s k
        (create-IsKeyed merge (merge_fields u sources target) rationale by now s k)
  run_call-IsKeyed (propose_a_split tag into rationale by now) s k =
      nested-IsKeyed (propose_split u tag into rationale by now) s k
        (create-IsKeyed split _ rationale by now s k)
  run_call-IsKeyed (approve_it id reviewer now) s k =
      nested-IsKeyed (decide id approved reviewer now) s k
        (decide-IsKeyed id now approved reviewer s k)
  run_call-IsKeyed (reject_it id reviewer now) s k =
      nested-IsKeyed (decide id rejected reviewer now) s k
        (decide-IsKeyed id now rejected reviewer s k)
  run_call-IsKeyed (apply_it id now) s k =
      nested-IsKeyed (apply_proposal u id now) s k
        (apply_found-IsKeyed id now (find id s.proposals) s k)
  run_call-IsKeyed (apply_every limit now) s k =
      nested-IsKeyed (apply_all u limit now) s k
        (apply_rows-IsKeyed now (list_approved limit s) s k)

  -- From a queue in which every row is reviewed as it should be, any sequence of calls leads to such
  -- a queue: whatever is no longer pending has a reviewer on record, only what has the status
  -- `applied` has a time of application, and only merges are applied.
  pub run_calls-AllReviewed :
      (calls : List Call) (s : Store)
      → IsKeyed s.proposals
      → AllReviewed s
      → AllReviewed (run_calls u calls s)
  unfolding run_calls
  run_calls-AllReviewed [] s k h = h
  run_calls-AllReviewed (c ∷ calls) s k h =
      run_calls-AllReviewed calls (run_call u c s) (run_call-IsKeyed c s k)
        (λ id. Moves-IsReviewed (find id s.proposals) _ (run_call-Moves u c s id k) (h id))

  -- A proposal that was rejected or applied stays as it is through any sequence of calls.
  pub run_calls-settled :
      (calls : List Call) (s : Store) (id : ℕ) (p : TaxonomyProposal)
      → IsKeyed s.proposals
      → find id s.proposals ≡ some p
      → is_settled p.status ≡ true
      → find id (run_calls u calls s).proposals ≡ some p
  unfolding run_calls
  run_calls-settled [] s id p k f h = f
  run_calls-settled (c ∷ calls) s id p k f h =
      run_calls-settled calls (run_call u c s) id p (run_call-IsKeyed c s k)
        (Moves-settled (find id s.proposals) _ p (run_call-Moves u c s id k) f h) h
