-- ===== src/Taxonomy/Apply.antt =====
-- What applying proposals does.
use catchment.Prelude.{
  List, ap, find, inl, inr, nat_eq, none, pair_eq, refl, some, subst, sym, text_eq, true,
  update_where, ℕ, ◌==◌, ◌∙◌, ◌≡◌, ◌⊎◌,
}
use catchment.Storage.Enums.{ProposalKind, is_approved, merge, split}
use catchment.Storage.Models.{Store, TaxonomyProposal}
use catchment.Storage.Session.{Db-cases, Error, Result, Result-cases, ok, payload_error, raise}
use catchment.Storage.Merge.{MergeStats, merge_into}
use catchment.Storage.Proposals.{UuidText, as_applied, is_in}
use catchment.Storage.Proposals.Review.{CanApply, mark_applied-cases}
use catchment.Taxonomy.{apply_one, execute, execute_kind, merge_payload}
use catchment.Taxonomy.Frame.{proposals-execute}

module _ (u : UuidText) (now proposal_id : ℕ) (p : TaxonomyProposal) (s : Store) where
  -- The one way to succeed: the proposal is approved in the database, it is a merge, its payload
  -- reads as ids, and merging those succeeds.
  abbrev pub Succeeds : List ℕ → ℕ → MergeStats → Store → Type 0
  Succeeds sources target stats t =
      (p.kind ≡ merge)
      × (merge_payload u p ≡ ok (sources, target))
      × (merge_into sources target s ≡ (ok stats, t))
      × CanApply proposal_id s

  abbrev pub applied_store : Store → Store
  applied_store t = record t {
    proposals = update_where (λ k. k == proposal_id) (as_applied now) s.proposals;
  }

  -- How executing it ends, by its kind.
  abbrev Ends : ProposalKind → Result MergeStats × Store → Type 0
  Ends kind run =
      ((e : Error) × (t : Store) × (run ≡ (raise e, t)))
      ⊎ ((sources : List ℕ) × (target : ℕ) × (stats : MergeStats) × (t : Store) × (kind ≡ merge)
          × (merge_payload u p ≡ ok (sources, target))
          × (merge_into sources target s ≡ (ok stats, t))
          × (run ≡ (ok stats, t)))

  execute_kind-cases : (kind : ProposalKind) → Ends kind (execute_kind u kind p s)
  unfolding execute_kind
  execute_kind-cases split = inl (payload_error, s, refl)
  execute_kind-cases merge = elim (Result-cases (merge_payload u p)) [
    | inr (e, unread) ↦ inl (e, s, rw unread)
    | inl (ids, got) ↦ elim (Db-cases (merge_into ids.0 ids.1) s) [
      | inr (e, t, run) ↦ inl (e, t, rw (got, run))
      | inl (stats, t, run) ↦ inr (ids.0, ids.1, stats, t, refl, got, run, rw (got, run))
    ]
  ]

  execute-cases : Ends p.kind (execute u p s)
  unfolding execute
  execute-cases = execute_kind-cases p.kind

  -- Applying one proposal either returns nothing and leaves the whole database as it was, or it is
  -- an approved merge whose payload reads as ids and whose merging succeeds: the database is then that
  -- of the merge, with this proposal marked as applied and the others as they were.
  pub apply_one-cases :
      (apply_one u now (proposal_id, p) s ≡ (ok none, s))
      ⊎ ((sources : List ℕ) × (target : ℕ) × (stats : MergeStats) × (t : Store) × Succeeds sources
            target stats t
          × (apply_one u now (proposal_id, p) s ≡ (
            ok (some (record { proposal_id = proposal_id; kind = p.kind; stats = stats })),
            applied_store t,
          )))
  unfolding apply_one
  apply_one-cases = elim execute-cases [
    | inl (e, t, failed) ↦ inl (rw failed)
    | inr (sources, target, stats, t, is_merge, got, run, done) ↦
        let same : t.proposals ≡ s.proposals =
          ap (λ r. r.1.proposals) (sym done) ∙ proposals-execute u p s in
        elim (mark_applied-cases proposal_id now t) [
          | inr (no_way, e, refused) ↦ inl (rw (done, refused))
          | inl (can, marked) ↦ inr (
            sources,
            target,
            stats,
            t,
            (
              is_merge,
              got,
              run,
              subst (λ q. is_in is_approved (find proposal_id q) ≡ true) same can,
            ),
            rw (done, marked, same),
          )
        ]
  ]
