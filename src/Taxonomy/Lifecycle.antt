-- ===== src/Taxonomy/Lifecycle.antt =====
-- The life of a proposal over any sequence of calls of the review queue and of the applier.
use native.Mathlib.Decide.{ℕ_discrete}
use catchment.Prelude.{
  All, Bool-cases, Has, IsKeyed, List, Option, [], ap, arith, find, find-Has, find-update, inl, inr,
  nat_eq, none, pair_eq, refl, some, subst, sym, text_eq, ℕ, ◌==◌, ◌∙◌, ◌∷◌, ◌≡◌, ◌⊎◌,
}
use catchment.Storage.Enums.{approved, is_approved, merge}
use catchment.Storage.Models.{Store, TaxonomyProposal}
use catchment.Storage.Session.{bind-pure_state, continue, ok, pure, ◌>>=◌}
use catchment.Storage.Proposals.{Row, UuidText, as_applied, list_approved}
use catchment.Storage.Proposals.Review.{Moves, executed, found_row, unchanged}
use catchment.Storage.Proposals.Listing.{Has-list_approved}
use catchment.Taxonomy.{
  AppliedProposal, append_outcome, apply_all, apply_found, apply_one, apply_rows,
}
use catchment.Taxonomy.Apply.{apply_one-cases}

-- A proposal's row after applying: as it was, or an approved merge marked as applied.
abbrev pub Executes : Option TaxonomyProposal → Option TaxonomyProposal → Type 0
Executes before after =
    (after ≡ before)
    ⊎ ((p : TaxonomyProposal) × (now : ℕ) × (before ≡ some p)
        × (p.status ≡ approved)
        × (p.kind ≡ merge)
        × (after ≡ some (as_applied now p)))

Executes-trans : (a b c : Option TaxonomyProposal) → Executes a b → Executes b c → Executes a c
Executes-trans a b c (inl e) (inl f) = inl (f ∙ e)
Executes-trans a b c (inl e) (inr (p, now, g, h, k, l)) = inr (p, now, sym e ∙ g, h, k, l)
Executes-trans a b c (inr (p, now, g, h, k, l)) (inl f) = inr (p, now, g, h, k, f ∙ l)
Executes-trans a b c (inr (p, now, g, h, k, l)) (inr (q, then', g', h', k', l')) =
    absurd (ground arith)

pub Executes-Moves : (a b : Option TaxonomyProposal) → Executes a b → Moves a b
Executes-Moves a b (inl e) = unchanged e
Executes-Moves a b (inr (p, now, g, h, k, l)) = executed p now g h k l

-- The queue's row for a listed proposal is of the kind that the listing saw.
abbrev OfKind : Store → Row → Type 0
OfKind s (proposal_id, p) =
    (q : TaxonomyProposal) → find proposal_id s.proposals ≡ some q → q.kind ≡ p.kind

module _ (u : UuidText) where
  apply_one-Executes :
      (now : ℕ) (row : Row) (s : Store) (id : ℕ)
      → OfKind s row
      → Executes (find id s.proposals) (find id (apply_one u now row s).1.proposals)
  apply_one-Executes now (proposal_id, p) s id kind = elim (apply_one-cases u now proposal_id p s) [
    | inl run ↦ inl (rw run)
    | inr (sources, target, stats, t, (is_merge, got, done, can), run) ↦
        let law = find-update (λ k. k == proposal_id) (as_applied now) id s.proposals in
        let (q, found, is) = found_row is_approved (find proposal_id s.proposals) can in
        elim (ℕ_discrete id proposal_id) [
          | yes e ↦ inr (
            q,
            now,
            ground (arith, found),
            ground arith,
            kind q found ∙ is_merge,
            rw run (ground (arith, law, found)),
          )
          | no ne ↦ inl (rw run (ground (arith, law)))
        ]
  ]

  OfKind-Executes :
      (now : ℕ) (row other : Row) (s : Store)
      → OfKind s row
      → OfKind s other
      → OfKind (apply_one u now row s).1 other
  OfKind-Executes now row (id, p) s h k q found = elim (apply_one-Executes now row s id h) [
    | inl e ↦ k q (sym e ∙ found)
    | inr (r, t, was, is, m, after) ↦ ground (arith, k r was)
  ]

  All-OfKind-Executes :
      (now : ℕ) (row : Row) (rows : List Row) (s : Store)
      → OfKind s row
      → All (OfKind s) rows
      → All (OfKind (apply_one u now row s).1) rows
  All-OfKind-Executes now row [] s h k = tt
  All-OfKind-Executes now row (other ∷ rows) s h k =
      (OfKind-Executes now row other s h k.0, All-OfKind-Executes now row rows s h k.1)

  -- Applying one never raises.
  pub apply_one-ok :
      (now : ℕ) (row : Row) (s : Store)
      → (o : Option AppliedProposal) × (apply_one u now row s ≡ (ok o, (apply_one u now row s).1))
  apply_one-ok now (proposal_id, p) s = elim (apply_one-cases u now proposal_id p s) [
    | inl run ↦ (none, rw run)
    | inr (sources, target, stats, t, why, run) ↦
        (some (record { proposal_id = proposal_id; kind = p.kind; stats = stats }), rw run)
  ]

  pub state-apply_rows :
      (now : ℕ) (row : Row) (rows : List Row) (s : Store)
      → (apply_rows u now (row ∷ rows) s).1 ≡ (apply_rows u now rows (apply_one u now row s).1).1
  unfolding apply_rows
  state-apply_rows now row rows s =
      let (o, run) = apply_one-ok now row s in
      let t = (apply_one u now row s).1 in
      let e : apply_one u now row s ≡ (ok o, t) = run in
      ap
        (λ r.
          (continue r
            (λ outcome. apply_rows u now rows >>= λ rest. pure (append_outcome u outcome rest))).1)
        e
      ∙ bind-pure_state (apply_rows u now rows) (append_outcome u o) t

  apply_rows-Executes :
      (now : ℕ) (rows : List Row) (s : Store) (id : ℕ)
      → All (OfKind s) rows
      → Executes (find id s.proposals) (find id (apply_rows u now rows s).1.proposals)
  unfolding apply_rows
  apply_rows-Executes now [] s id h = inl refl
  apply_rows-Executes now (row ∷ rows) s id h =
      let t = (apply_one u now row s).1 in
      Executes-trans (find id s.proposals) (find id t.proposals) _
        (apply_one-Executes now row s id h.0)
        (subst (λ r. Executes (find id t.proposals) (find id r.proposals))
          (sym (state-apply_rows now row rows s))
          (apply_rows-Executes now rows t id (All-OfKind-Executes now row rows s h.0 h.1)))

  All-OfKind :
      (rows : List Row) (s : Store)
      → IsKeyed s.proposals
      → ((row : Row) → Has row rows → Has row s.proposals)
      → All (OfKind s) rows
  All-OfKind [] s k h = tt
  All-OfKind ((id, p) ∷ rows) s k h = (
    (λ q found. ground (arith, found, find-Has id p s.proposals k (h (id, p) (inl refl)))),
    All-OfKind rows s k (λ row m. h row (inr m)),
  )

  pub apply_all-Executes :
      (limit now : ℕ) (s : Store) (id : ℕ)
      → IsKeyed s.proposals
      → Executes (find id s.proposals) (find id (apply_all u limit now s).1.proposals)
  unfolding apply_all
  apply_all-Executes limit now s id k =
      apply_rows-Executes now (list_approved limit s) s id
        (All-OfKind (list_approved limit s) s k (λ row m. (Has-list_approved limit s row m).0))

  pub apply_found-Executes :
      (proposal_id now : ℕ) (s : Store) (id : ℕ) (o : Option TaxonomyProposal)
      → find proposal_id s.proposals ≡ o
      → Executes (find id s.proposals) (find id (apply_found u proposal_id now o s).1.proposals)
  unfolding apply_found
  apply_found-Executes proposal_id now s id none e = inl refl
  apply_found-Executes proposal_id now s id (some p) e = elim (Bool-cases (is_approved p.status)) [
    | inl y ↦
        rw y (apply_one-Executes now (proposal_id, p) s id (λ q found. ground (arith, e, found)))
    | inr n ↦ rw n (inl refl)
  ]
