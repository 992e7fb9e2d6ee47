-- ===== src/Taxonomy/Effects.antt =====
-- What the queue does to the tag graph, and what it does not.
use catchment.Prelude.{
  All, All-mono, Bool, Bool-cases, Has, List, Option, Option-cases, Table, Text, [], ap, arith,
  false, find, find-update, inl, inr, length, nat_eq, none, pair_eq, refl, select, some, sym,
  text_eq, true, ℕ, ◌==◌, ◌∙◌, ◌∷◌, ◌≡◌, ◌≢◌, ◌≤◌, ◌⊎◌,
}
use catchment.Prelude.Front.{All-take-order_by}
use catchment.Prelude.Json.{Fields, arr, get, str, to_list}
use catchment.Storage.Enums.{
  ProposalKind, ProposalStatus, approved, is_approved, merge, rejected, split,
}
use catchment.Storage.Models.{Edges, ItemTags, Store, Tag, TaxonomyProposal}
use catchment.Storage.Session.{nested, ok, payload_error, raise, roll_back}
use catchment.Storage.Proposals.{
  Row, UuidText, approve, as_applied, create, decide, is_in, list_approved, merge_fields, not_after,
  propose_merge, propose_split, reject, show_ids, source_tag_ids, target_tag_id,
}
use catchment.Storage.Proposals.Review.{decide-exact}
use catchment.Storage.Proposals.Listing.{Has-list_approved}
use catchment.Taxonomy.{
  AppliedProposal, apply_all, apply_found, apply_one, apply_proposal, apply_rows, merge_payload,
  read_id, read_ids, read_payload,
}
use catchment.Taxonomy.Apply.{apply_one-cases}
use catchment.Taxonomy.Calls.{
  Call, apply_every, apply_it, approve_it, propose_a_merge, propose_a_split, reject_it, run_call,
}
use mathlib.Core.Bool.{false≢true}

-- The tags, their edges and their assignments.
abbrev pub Graph : Type 0
Graph = Table ℕ Tag × Edges × ItemTags

abbrev pub graph : Store → Graph
graph s = (s.tags, s.edges, s.item_tags)

abbrev is_split_kind : ProposalKind → Bool
is_split_kind split = true
is_split_kind merge = false

abbrev pub is_split : Row → Bool
is_split row = is_split_kind row.1.kind

abbrev pub is_approved_row : Row → Bool
is_approved_row row = is_approved row.1.status

is_split-kind : (kind : ProposalKind) → is_split_kind kind ≡ true → kind ≡ split
is_split-kind split e = refl
is_split-kind merge e = absurd (false≢true e)

not_split-kind : (kind : ProposalKind) → is_split_kind kind ≡ false → kind ≡ merge
not_split-kind merge e = refl
not_split-kind split e = absurd (false≢true (sym e))

not_after-total : (a b : Option ℕ) → not_after a b ≡ false → not_after b a ≡ true
not_after-total none none e = refl
not_after-total none (some b) e = refl
not_after-total (some a) none e = absurd (false≢true (sym e))
not_after-total (some a) (some b) e = ground (arith, e)

graph-create :
    (kind : ProposalKind) (payload : Fields) (rationale : Option Text) (by : Text) (now : ℕ)
    (s : Store)
    → graph (nested (create kind payload rationale by now) s).1 ≡ graph s
unfolding create
graph-create kind payload rationale by now s = ground arith

graph-decide :
    (id now : ℕ) (status : ProposalStatus) (reviewer : Text) (s : Store)
    → graph (nested (decide id status reviewer now) s).1 ≡ graph s
graph-decide id now status reviewer s = elim (decide-exact id now status reviewer s) [
  | inl (can, run) ↦ rw run
  | inr (no_way, run) ↦ rw run
]

-- No proposal is approved.
abbrev pub NoneApproved : Store → Type 0
NoneApproved s = (row : Row) → Has row s.proposals → is_approved row.1.status ≡ false

Has-find :
    (id : ℕ) (p : TaxonomyProposal) (t : Table ℕ TaxonomyProposal)
    → find id t ≡ some p
    → Has (id, p) t
unfolding find
Has-find id p [] h = cc
Has-find id p ((j, q) ∷ t) h = elim (Bool-cases (j == id)) [
  | inl e ↦ inl (ground arith)
  | inr e ↦ inr (Has-find id p t (ground arith))
]

no_rows : (rows : List Row) → ((row : Row) → ¬ Has row rows) → rows ≡ []
no_rows [] h = refl
no_rows (row ∷ rows) h = absurd (h row (inl refl))

module _ (u : UuidText) where
  apply_proposal-idle :
      (id now : ℕ) (s : Store)
      → is_in is_approved (find id s.proposals) ≡ false
      → apply_proposal u id now s ≡ (ok none, s)
  unfolding apply_proposal apply_found
  apply_proposal-idle id now s h = elim (Option-cases (find id s.proposals)) [
    | inl gone ↦ rw (gone, apply_found)
    | inr (p, found) ↦
        let waits : is_approved p.status ≡ false = ground (arith, found, h) in
        rw (found, apply_found, waits)
  ]

  apply_all-idle :
      (limit now : ℕ) (s : Store)
      → list_approved limit s ≡ []
      → apply_all u limit now s ≡ (ok [], s)
  unfolding apply_all apply_rows
  apply_all-idle limit now s h = rw (h, apply_rows)

  not_in : (id : ℕ) (s : Store) → NoneApproved s → is_in is_approved (find id s.proposals) ≡ false
  not_in id s h = elim (Option-cases (find id s.proposals)) [
    | inl gone ↦ rw gone
    | inr (p, found) ↦ rw found (h (id, p) (Has-find id p s.proposals found))
  ]

  none_listed : (limit : ℕ) (s : Store) → NoneApproved s → list_approved limit s ≡ []
  none_listed limit s h = no_rows (list_approved limit s) (λ row m.
      let (there, is) = Has-list_approved limit s row m in false≢true (sym (h row there) ∙ is))

  -- While no proposal is approved, no call changes the tags, their edges or their assignments:
  -- proposing, approving and rejecting never do, and applying finds nothing to apply.
  pub run_call-graph : (c : Call) (s : Store) → NoneApproved s → graph (run_call u c s) ≡ graph s
  unfolding run_call propose_merge propose_split approve reject
  run_call-graph (propose_a_merge sources target rationale by now) s h =
      graph-create merge (merge_fields u sources target) rationale by now s
  run_call-graph (propose_a_split tag into rationale by now) s h =
      graph-create split _ rationale by now s
  run_call-graph (approve_it id reviewer now) s h = graph-decide id now approved reviewer s
  run_call-graph (reject_it id reviewer now) s h = graph-decide id now rejected reviewer s
  run_call-graph (apply_it id now) s h =
      ap (λ r. graph (roll_back s r).1) (apply_proposal-idle id now s (not_in id s h))
  run_call-graph (apply_every limit now) s h =
      ap (λ r. graph (roll_back s r).1) (apply_all-idle limit now s (none_listed limit s h))

  applied_settled :
      (id now : ℕ) (s t : Store) (a : AppliedProposal) (o : Option TaxonomyProposal)
      → find id s.proposals ≡ o
      → apply_found u id now o s ≡ (ok (some a), t)
      → is_in is_approved (find id t.proposals) ≡ false
  unfolding apply_found
  applied_settled id now s t a none e run = cc
  applied_settled id now s t a (some p) e run = elim (Bool-cases (is_approved p.status)) [
    | inr n ↦ absurd (ground (arith, n, run))
    | inl y ↦ elim (apply_one-cases u now id p s) [
      | inl nothing ↦ absurd (ground (arith, y, run, nothing))
      | inr (sources, target, stats, t', why, done) ↦
          ground
            (arith, y, run, done, e, find-update (λ k. k == id) (as_applied now) id s.proposals)
    ]
  ]

  -- Applying a proposal a second time does nothing: once it has succeeded, the next call returns
  -- nothing and leaves the database as it is.
  pub apply_proposal-again :
      (id now later : ℕ) (s t : Store) (a : AppliedProposal)
      → apply_proposal u id now s ≡ (ok (some a), t)
      → apply_proposal u id later t ≡ (ok none, t)
  unfolding apply_proposal
  apply_proposal-again id now later s t a run =
      apply_proposal-idle id later t (applied_settled id now s t a (find id s.proposals) refl run)

  read_id-show : (id : ℕ) → read_id u (str (u.show id)) ≡ ok id
  unfolding read_id
  read_id-show id = ground (arith, u.read-show id)

  read_ids-show : (ids : List ℕ) → read_ids u (to_list (show_ids u ids)) ≡ ok ids
  unfolding read_ids
  read_ids-show [] = refl
  read_ids-show (id ∷ ids) = ground (arith, u.read-show id, read_ids-show ids)

  read_payload-show :
      (sources : List ℕ) (target : ℕ)
      → ((sources ≢ [])
          × (read_payload u (some (arr (show_ids u sources))) (some (str (u.show target)))
              ≡ ok (sources, target)))
        ⊎ ((sources ≡ [])
            × (read_payload u (some (arr (show_ids u sources))) (some (str (u.show target)))
                ≡ raise payload_error))
  unfolding read_payload
  read_payload-show [] target = inr (refl, refl)
  read_payload-show (id ∷ ids) target =
      inl ((λ q. cc), ground (arith, read_ids-show (id ∷ ids), read_id-show target))

  -- The payload that `propose_merge` stores is read back as the ids that were proposed; one with no
  -- source is refused.
  pub merge_payload-propose_merge :
      (sources : List ℕ) (target : ℕ) (p : TaxonomyProposal)
      → p.payload ≡ merge_fields u sources target
      → ((sources ≢ []) × (merge_payload u p ≡ ok (sources, target)))
        ⊎ ((sources ≡ []) × (merge_payload u p ≡ raise payload_error))
  unfolding merge_payload
  merge_payload-propose_merge sources target p e =
      let same = ap (λ f. read_payload u (get source_tag_ids f) (get target_tag_id f)) e in
      elim (read_payload-show sources target) [
        | inl (ne, r) ↦ inl (ne, same ∙ r)
        | inr (q, r) ↦ inr (q, same ∙ r)
      ]

  apply_one-split :
      (now id : ℕ) (p : TaxonomyProposal) (s : Store)
      → p.kind ≡ split
      → apply_one u now (id, p) s ≡ (ok none, s)
  apply_one-split now id p s h = elim (apply_one-cases u now id p s) [
    | inl run ↦ run
    | inr (sources, target, stats, t, why, run) ↦ absurd (ground (arith, h, why.0))
  ]

  apply_rows-splits :
      (now : ℕ) (rows : List Row) (s : Store)
      → All (λ row. row.1.kind ≡ split) rows
      → apply_rows u now rows s ≡ (ok [], s)
  unfolding apply_rows
  apply_rows-splits now [] s h = refl
  apply_rows-splits now ((id, p) ∷ rows) s h =
      rw (apply_one-split now id p s h.0, apply_rows-splits now rows s h.1)

  -- A run is stuck where at least as many splits as it takes at a time are approved, and each merge
  -- that is approved was reviewed later than every one of them: it applies nothing and changes
  -- nothing, so no later run gets to those merges either.
  pub apply_all-stuck :
      (limit now : ℕ) (s : Store)
      → limit ≤ length (select is_split (select is_approved_row s.proposals))
      → ((a b : Row)
          → Has a (select is_approved_row s.proposals)
          → Has b (select is_approved_row s.proposals)
          → a.1.kind ≡ split
          → b.1.kind ≡ merge
          → not_after b.1.reviewed_at a.1.reviewed_at ≡ false)
      → apply_all u limit now s ≡ (ok [], s)
  unfolding apply_all list_approved
  apply_all-stuck limit now s le before = apply_rows-splits now (list_approved limit s) s (
      All-mono (λ row. is_split row ≡ true) (λ row. row.1.kind ≡ split) _
        (λ row e. is_split-kind row.1.kind e)
        (All-take-order_by (λ a b. not_after a.1.reviewed_at b.1.reviewed_at) is_split limit _ le
          (λ a b m k e f.
            let later = before a b m k (is_split-kind a.1.kind e) (not_split-kind b.1.kind f) in
            (not_after-total b.1.reviewed_at a.1.reviewed_at later, later))))
