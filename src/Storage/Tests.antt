-- ===== src/Storage/Tests.antt =====
-- Concrete inputs of the storage theorems.
use catchment.Prelude.{
  Has, List, Table, Text, [], arith, contains, false, find, if◌then◌else◌, length, map_some, nat_eq,
  none, not, pair_eq, refl, some, suc, text_eq, true, zero, ℕ, ◌&&◌, ◌==◌, ◌↔◌, ◌∷◌, ◌≡◌, ◌≢◌, ◌≤◌,
  ◌⊎◌,
}
use catchment.Prelude.Json.{Fields, end}
use catchment.Prelude.Strip.{codes}
use catchment.Storage.Enums.{
  ProposalKind, ProposalStatus, active, email, is_pending, llm, source_eq, text,
}
use catchment.Storage.Models.{Edges, Item, ItemTag, Store, Tag, TaxonomyProposal}
use catchment.Storage.Session.{ok, raise, value_error}
use catchment.Storage.Tags.{TagRef, broader, descendants, link_broader, or_default}
use catchment.Storage.Tags.Paths.{Down, Edge}
use catchment.Storage.Tags.Cycles.{
  Below, NoCycle, link_broader-NoCycle, link_broader-exact, link_broader-long_cycle, linked,
}
use catchment.Storage.Tags.Traversal.{descendants-exact}
use catchment.Storage.Merge.{merge_into, other_than, retire, rows_of}
use catchment.Storage.Merge.Assignments.{confidence_of, strongest}
use catchment.Storage.Merge.Repointing.{Image, NoLoop}
use catchment.Storage.Merge.Whole.{
  IsReferential, merge_into-confidence, merge_into-cycle, merge_into-edges, merge_into-tags,
  merge_into-total, merged_store,
}

abbrev pub plain_tag : Text → Tag
plain_tag slug = record {
  slug = slug;
  label = slug;
  description = none;
  origin = llm;
  status = active;
  merged_into = none;
}

abbrev pub plain_item : Item
plain_item = record {
  source = email;
  source_id = codes "m1";
  kind = text;
  url = none;
  title = none;
  author = none;
  published_at = none;
  raw_ref = none;
  meta = end;
}

abbrev pub assignment : ℕ → ItemTag
assignment c = record { confidence = c; assigned_by = llm; trace_id = none }

-- Four tags, an item under two of them, and the edges given.
abbrev pub sample : Edges → Table ℕ TaxonomyProposal → Store
sample edges proposals = record {
  uuids = λ n. n;
  draws = 100;
  items = (7, plain_item) ∷ [];
  extractions = [];
  embeddings = [];
  tags =
      (1, plain_tag (codes "a"))
      ∷ (2, plain_tag (codes "b"))
      ∷ (3, plain_tag (codes "c"))
      ∷ (4, plain_tag (codes "d"))
      ∷ [];
  edges = edges;
  item_tags = ((7, 2), assignment 5) ∷ ((7, 3), assignment 8) ∷ [];
  failures = [];
  health = [];
  proposals = proposals;
}

abbrev pub root : ℕ
root = 1

abbrev pub middle : ℕ
middle = 2

abbrev pub leaf : ℕ
leaf = 3

abbrev pub lone : ℕ
lone = 4

abbrev pub chain : Edges
chain = ((1, 2), broader) ∷ ((2, 3), broader) ∷ []

abbrev pub proposal : ProposalKind → ProposalStatus → Fields → TaxonomyProposal
proposal kind status payload = record {
  kind = kind;
  status = status;
  payload = payload;
  rationale = none;
  proposed_by = codes "curator";
  created_at = 1;
  reviewed_by = if is_pending status then none else some (codes "ann");
  reviewed_at = none;
  applied_at = none;
}

pub no_edges-NoCycle : (k : ℕ) → NoCycle [] k
unfolding find
no_edges-NoCycle k zero a lo hi d = omega arith
no_edges-NoCycle k (suc n) a lo hi (b, d, e) = ground (arith, e)

chain-IsReferential : IsReferential (sample chain [])
unfolding find
chain-IsReferential = record { assignments = (refl, (refl, tt)); edges = (refl, (refl, tt)) }

chain-NoLoop : NoLoop chain
unfolding find
chain-NoLoop p e = ground (arith, e)

chain-Below : ¬ Below chain 1 root leaf
unfolding find
chain-Below (zero, lo, hi, d) = omega arith
chain-Below (suc zero, lo, hi, (b, d, e)) = ground (arith, d, e)
chain-Below (suc (suc n), lo, hi, d) = omega arith

link_broader-exact_example :
    ((link_broader 3 leaf lone (sample chain []) ≡ (
      ok true,
      record (sample chain []) { edges = linked leaf lone broader (sample chain []).edges },
    ))
      × (leaf ≢ lone)
      × (¬ Below (sample chain []).edges 3 lone leaf))
    ⊎ ((link_broader 3 leaf lone (sample chain []) ≡ (ok false, (sample chain [])))
        × ((leaf ≡ lone) ⊎ Below (sample chain []).edges 3 lone leaf))
unfolding find
link_broader-exact_example =
    link_broader-exact 3 leaf lone (sample chain []) (omega arith) (omega arith) refl refl

link_broader-NoCycle_example : NoCycle (link_broader 3 1 2 (sample [] [])).1.edges (suc 3)
link_broader-NoCycle_example =
    link_broader-NoCycle 3 1 2 (sample [] []) (omega arith) (omega arith) (no_edges-NoCycle 4)

link_broader-long_cycle_example :
    Down (link_broader 1 leaf root (sample chain [])).1.edges (suc 2) leaf leaf
unfolding find
link_broader-long_cycle_example =
    link_broader-long_cycle 1 leaf root 2 (sample chain []) (omega arith) (omega arith) refl refl
      (λ q. ground (arith, q)) chain-Below (2, (1, refl, refl), refl)

descendants-exact_example :
    (refs : List TagRef) × (descendants 3 1 none (sample chain []) ≡ (ok refs, (sample chain [])))
    × ((r : TagRef)
        → Has r refs ↔ (
            Down (sample chain []).edges r.depth 1 r.tag_id
            × (1 ≤ r.depth)
            × (r.depth ≤ or_default none 3)))
descendants-exact_example = descendants-exact 3 1 none (sample chain []) (omega arith) (omega arith)

merge_into-total_example :
    ((other_than root (leaf ∷ root ∷ []) ≢ [])
      × (merge_into (leaf ∷ root ∷ []) root (sample chain []) ≡ (
        ok (record {
          tags_merged = length (other_than root (leaf ∷ root ∷ []));
          assignments_moved =
              length (rows_of (other_than root (leaf ∷ root ∷ [])) (sample chain []).item_tags);
        }),
        merged_store (other_than root (leaf ∷ root ∷ [])) root (sample chain []),
      )))
    ⊎ ((other_than root (leaf ∷ root ∷ []) ≡ [])
        × (merge_into (leaf ∷ root ∷ []) root (sample chain [])
            ≡ (raise value_error, (sample chain []))))
unfolding find
merge_into-total_example =
    merge_into-total (leaf ∷ root ∷ []) root (sample chain []) refl chain-IsReferential

merge_into-confidence_example :
    confidence_of
      (find (7, root) (merge_into (leaf ∷ root ∷ []) root (sample chain [])).1.item_tags)
    ≡ (if root == root
        then strongest 7 (root ∷ other_than root (leaf ∷ root ∷ [])) (sample chain []).item_tags
        else if contains root (leaf ∷ root ∷ [])
        then none
        else confidence_of (find (7, root) (sample chain []).item_tags))
unfolding find
merge_into-confidence_example =
    merge_into-confidence (leaf ∷ root ∷ []) root (sample chain []) refl chain-IsReferential
      (λ q. ground (arith, q)) 7 root (refl, (refl, tt))

merge_into-edges_example :
    Edge (merge_into (leaf ∷ root ∷ []) root (sample chain [])).1.edges root middle ↔ (
      (contains root (other_than root (leaf ∷ root ∷ [])) ≡ false)
      × (contains middle (other_than root (leaf ∷ root ∷ [])) ≡ false)
      × (root ≢ middle)
      × Image (other_than root (leaf ∷ root ∷ [])) root (sample chain []).edges root middle)
unfolding find
merge_into-edges_example =
    merge_into-edges (leaf ∷ root ∷ []) root (sample chain []) refl chain-IsReferential
      (λ q. ground (arith, q)) chain-NoLoop root middle

merge_into-tags_example :
    find leaf (merge_into (leaf ∷ root ∷ []) root (sample chain [])).1.tags ≡ (
      if contains leaf (leaf ∷ root ∷ []) && not (leaf == root)
      then map_some (retire root) (find leaf (sample chain []).tags)
      else find leaf (sample chain []).tags)
unfolding find
merge_into-tags_example =
    merge_into-tags (leaf ∷ root ∷ []) root (sample chain []) refl chain-IsReferential
      (λ q. ground (arith, q)) leaf

merge_into-cycle_example :
    Down (merge_into (leaf ∷ root ∷ []) root (sample chain [])).1.edges 2 root root
unfolding find
merge_into-cycle_example =
    merge_into-cycle (leaf ∷ root ∷ []) root (sample chain []) refl chain-IsReferential
      (λ q. ground (arith, q)) middle leaf chain-NoLoop refl (λ q. ground (arith, q)) refl
      (λ q. ground (arith, q)) refl refl
