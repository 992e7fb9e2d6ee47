-- ===== src/Storage/Merge/Whole.antt =====
-- `merge_into` as a whole: when it succeeds, what it leaves, and what it refuses.
use catchment.Prelude.{
  IsKeyed, List, [], ap, arith, contains, false, find, find-update, if◌then◌else◌, inl, inr, length,
  map_some, nat_eq, none, not, pair_eq, refl, subst, sym, text_eq, true, update_where, ℕ, ◌&&◌,
  ◌==◌, ◌↔◌, ◌∙◌, ◌∷◌, ◌≡◌, ◌≢◌, ◌⊎◌,
}
use catchment.Storage.Models.{Store, is_tag}
use catchment.Storage.Session.{ok, raise, value_error}
use catchment.Storage.Merge.{mark_merged, merge_into, merge_sources, other_than, retire, rows_of}
use catchment.Storage.Tags.Paths.{Down, Edge}
use catchment.Storage.Merge.Assignments.{
  NamesItems, confidence_of, move_assignments-ok, reassigned, reassigned_lem, strongest,
}
use catchment.Storage.Merge.Repointing.{
  Image, NamesTags, NoLoop, merged_edges, merged_edges-exact, repoint_edges-ok,
}

-- The references that the foreign keys of `item_tags` and `tag_edges` promise.
pub record IsReferential (s : Store) : Type 0 where
  pub assignments : NamesItems s s.item_tags
  pub edges : NamesTags s s.edges

-- The database after the tags are folded into the target.
abbrev pub merged_store : List ℕ → ℕ → Store → Store
merged_store sources target_id s = record s {
  item_tags = reassigned sources target_id s.item_tags;
  edges = merged_edges sources target_id s.edges;
  tags = update_where (λ k. contains k sources) (retire target_id) s.tags;
}

mark_merged-ok :
    (sources : List ℕ) (target_id : ℕ) (s : Store)
    → is_tag target_id s ≡ true
    → mark_merged sources target_id s ≡ (
      ok tt,
      record s { tags = update_where (λ k. contains k sources) (retire target_id) s.tags },
    )
unfolding mark_merged
mark_merged-ok sources target_id s h = ground (arith, h)

merge_sources-ok :
    (source : ℕ) (more : List ℕ) (target_id : ℕ) (s : Store)
    → is_tag target_id s ≡ true
    → IsReferential s
    → merge_sources (source ∷ more) target_id s ≡ (
      ok (record {
        tags_merged = length (source ∷ more);
        assignments_moved = length (rows_of (source ∷ more) s.item_tags);
      }),
      merged_store (source ∷ more) target_id s,
    )
unfolding merge_sources
merge_sources-ok source more target_id s h r =
    let sources = source ∷ more in
    let s1 : Store = record s { item_tags = reassigned sources target_id s.item_tags } in
    let s2 : Store = record s1 { edges = merged_edges sources target_id s.edges } in
    rw (
      move_assignments-ok sources target_id s h r.assignments,
      repoint_edges-ok sources target_id s1 h r.edges,
      mark_merged-ok sources target_id s2 h,
    )

contains-other_than :
    (target_id tag_id : ℕ) (ids : List ℕ)
    → contains tag_id (other_than target_id ids)
      ≡ (not (tag_id == target_id) && contains tag_id ids)
contains-other_than target_id tag_id [] = ground arith
contains-other_than target_id tag_id (i ∷ ids) =
    ground (arith, contains-other_than target_id tag_id ids)

target_not_source :
    (target_id : ℕ) (ids : List ℕ) → contains target_id (other_than target_id ids) ≡ false
target_not_source target_id ids = ground (arith, contains-other_than target_id target_id ids)

-- In a database whose assignments and edges name rows that are there, where the target is there:
-- if some tag other than it is named, `merge_into` succeeds, counts the sources and the rows that
-- it moved, and leaves `merged_store`; if every tag named is the target, it refuses and writes
-- nothing.
pub merge_into-total :
    (source_ids : List ℕ) (target_id : ℕ) (s : Store)
    → is_tag target_id s ≡ true
    → IsReferential s
    → ((other_than target_id source_ids ≢ [])
        × (merge_into source_ids target_id s ≡ (
          ok (record {
            tags_merged = length (other_than target_id source_ids);
            assignments_moved = length (rows_of (other_than target_id source_ids) s.item_tags);
          }),
          merged_store (other_than target_id source_ids) target_id s,
        )))
      ⊎ ((other_than target_id source_ids ≡ [])
          × (merge_into source_ids target_id s ≡ (raise value_error, s)))
unfolding merge_into
merge_into-total source_ids target_id s h r = sources_case (other_than target_id source_ids) refl
  where
    sources_case :
        (sources : List ℕ)
        → other_than target_id source_ids ≡ sources
        → ((sources ≢ [])
            × (merge_sources sources target_id s ≡ (
              ok (record {
                tags_merged = length sources;
                assignments_moved = length (rows_of sources s.item_tags);
              }),
              merged_store sources target_id s,
            )))
          ⊎ ((sources ≡ []) × (merge_sources sources target_id s ≡ (raise value_error, s)))
    sources_case [] e = inr (refl, refl)
    sources_case (source ∷ more) e = inl ((λ q. cc), merge_sources-ok source more target_id s h r)

module _ (source_ids : List ℕ) (target_id : ℕ) (s : Store) (ht : is_tag target_id s ≡ true)
    (r : IsReferential s) (some_other : other_than target_id source_ids ≢ []) where
  after_merge :
      (merge_into source_ids target_id s).1
      ≡ merged_store (other_than target_id source_ids) target_id s
  after_merge = elim (merge_into-total source_ids target_id s ht r) [
    | inl (ne, run) ↦ ap (λ after. after.1) run
    | inr (e, run) ↦ absurd (some_other e)
  ]

  -- In a database whose assignments and edges name rows that are there, where the target is there
  -- and some other tag is named, and no two assignments have one key: after a merge no item
  -- carries a source; an item that carried the target or a source carries the target with the
  -- greatest of their confidences; every other assignment has its confidence still.
  pub merge_into-confidence :
      (item_id tag_id : ℕ)
      → IsKeyed s.item_tags
      → confidence_of (find (item_id, tag_id) (merge_into source_ids target_id s).1.item_tags) ≡ (
          if tag_id == target_id
          then strongest item_id (target_id ∷ other_than target_id source_ids) s.item_tags
          else if contains tag_id source_ids
          then none
          else confidence_of (find (item_id, tag_id) s.item_tags))
  merge_into-confidence item_id tag_id k =
      let sources = other_than target_id source_ids in
      ap (λ after. confidence_of (find (item_id, tag_id) after.item_tags)) after_merge
      ∙ reassigned_lem sources target_id item_id tag_id s.item_tags k
          (target_not_source target_id source_ids)
      ∙ ground (arith, contains-other_than target_id tag_id source_ids)

  -- In a database whose assignments and edges name rows that are there, where the target is there
  -- and some other tag is named, and no edge joins a tag to itself: after a merge an edge joins p
  -- to c exactly when neither is a source, they are two tags, and they are the images of the ends
  -- of an edge before, each source standing for the target.
  pub merge_into-edges :
      NoLoop s.edges
      → (p c : ℕ)
      → Edge (merge_into source_ids target_id s).1.edges p c ↔ (
          (contains p (other_than target_id source_ids) ≡ false)
          × (contains c (other_than target_id source_ids) ≡ false)
          × (p ≢ c)
          × Image (other_than target_id source_ids) target_id s.edges p c)
  merge_into-edges nl p c =
      subst
        (λ g. Edge g p c ↔ (
          (contains p (other_than target_id source_ids) ≡ false)
          × (contains c (other_than target_id source_ids) ≡ false)
          × (p ≢ c)
          × Image (other_than target_id source_ids) target_id s.edges p c))
        (sym (ap (λ after. after.edges) after_merge))
        (merged_edges-exact (other_than target_id source_ids) target_id s.edges
          (target_not_source target_id source_ids) nl p c)

  -- In a database whose assignments and edges name rows that are there, where the target is there
  -- and some other tag is named: after a merge the sources that are there are marked as merged
  -- into the target, and every other tag is as it was, the target included.
  pub merge_into-tags :
      (tag_id : ℕ)
      → find tag_id (merge_into source_ids target_id s).1.tags ≡ (
          if contains tag_id source_ids && not (tag_id == target_id)
          then map_some (retire target_id) (find tag_id s.tags)
          else find tag_id s.tags)
  merge_into-tags tag_id =
      let sources = other_than target_id source_ids in
      ap (λ after. find tag_id after.tags) after_merge
      ∙ find-update (λ k. contains k sources) (retire target_id) tag_id s.tags
      ∙ ground (arith, contains-other_than target_id tag_id source_ids)

  -- A merge can close a cycle. In a database whose assignments and edges name rows that are there,
  -- where the target is there and some other tag is named, and no edge joins a tag to itself:
  -- where a tag that is no source and not the target lies under the target, and a source under
  -- that tag, the target lies below itself after the merge.
  pub merge_into-cycle :
      (between source_id : ℕ)
      → NoLoop s.edges
      → contains source_id source_ids ≡ true
      → source_id ≢ target_id
      → contains between source_ids ≡ false
      → between ≢ target_id
      → Edge s.edges target_id between
      → Edge s.edges between source_id
      → Down (merge_into source_ids target_id s).1.edges 2 target_id target_id
  merge_into-cycle x c nl hc nc hx nx e f =
      let sources = other_than target_id source_ids in
      let ht' = target_not_source target_id source_ids in
      let hx' : contains x sources ≡ false =
        ground (arith, contains-other_than target_id x source_ids) in
      let hc' : contains c sources ≡ true =
        ground (arith, contains-other_than target_id c source_ids) in
      (
        x,
        (
          target_id,
          refl,
          (merge_into-edges nl target_id x).1
              (ht', hx', (λ q. nx (sym q)), (target_id, x, e, ground arith, ground arith)),
        ),
        (merge_into-edges nl x target_id).1 (hx', ht', nx, (x, c, f, ground arith, ground arith)),
      )
