-- ===== src/Storage/Blobs/Files.antt =====
-- What the store does to the files: a blob is whole or not there, and stays under the root.
use mathlib.Core.List.{append_cancel_left}
use catchment.Prelude.{
  Bool-cases, Eq, Option-cases, Table, Text, ap, arith, find, find-upsert, inl, inr, nat_eq, none,
  pair_eq, refl, some, subst, sym, text_eq, true, upsert, ◌++◌, ◌∙◌, ◌≡◌, ◌≢◌, ◌⊎◌,
}
use catchment.Prelude.Split.{join, join-split, split}
use catchment.Storage.Session.{Error, Result-cases, ok, raise}
use catchment.Storage.Blobs.{
  Bytes, Disk, FilePath, System, inside_root, is_under, open_at, open_ref, or_missing, parse_ref,
  path_eq, path_of, path_of_ref, placed, put, read_at, scheme, slash, validate_key,
}
use catchment.Storage.Blobs.Refs.{make_ref-ok, make_ref-parse_ref, validate_key-ok}

pub upsert-same :
    {K V : Type 0} ⦃e : Eq K⦄ (k : K) (v : V) (t : Table K V)
    → find k (upsert k v (λ old. v) t) ≡ some v
upsert-same ⦃e⦄ k v t =
    ground (arith, e.beq_iff k k, find-upsert k k v (λ old. v) t, Option-cases (find k t))

pub upsert-other :
    {K V : Type 0} ⦃e : Eq K⦄ (k j : K) (v : V) (t : Table K V)
    → j ≢ k
    → find j (upsert k v (λ old. v) t) ≡ find j t
upsert-other ⦃e⦄ k j v t n = ground (arith, e.beq_iff k j, find-upsert k j v (λ old. v) t, n)

module _ (sys : System) where
  inside_root-ok :
      (candidate path : FilePath)
      → inside_root sys candidate ≡ ok path
      → (candidate ≡ path) × (is_under (sys.resolve sys.root) path ≡ true)
  unfolding inside_root
  inside_root-ok candidate path h = elim (Bool-cases (is_under (sys.resolve sys.root) candidate)) [
    | inl e ↦
        let same : candidate ≡ path = ground (arith, e, h) in
        (same, subst (λ p. is_under (sys.resolve sys.root) p ≡ true) same e)
    | inr e ↦ ground (arith, e, h)
  ]

  -- What a key's path is: the key is valid, and the path stands under the resolved root.
  pub path_of-ok :
      (key : Text) (path : FilePath)
      → path_of sys key ≡ ok path
      → (validate_key key ≡ ok key)
        × (sys.resolve (sys.root ++ split slash key) ≡ path)
        × (is_under (sys.resolve sys.root) path ≡ true)
  unfolding path_of
  path_of-ok key path h = elim (Result-cases (validate_key key)) [
    | inl (k, e) ↦
        let same = validate_key-ok key k e in
        let (where_it_is, inside) =
          inside_root-ok (sys.resolve (sys.root ++ split slash key)) path
            (sym (ap (placed sys) (e ∙ ap ok same)) ∙ h) in
        (e ∙ ap ok same, where_it_is, inside)
    | inr (x, e) ↦ ground (arith, e, h)
  ]

  path_of_ref-key :
      (key ref : Text) → parse_ref ref ≡ ok key → path_of_ref sys ref ≡ path_of sys key
  unfolding path_of_ref
  path_of_ref-key key ref h = rw h refl

  -- A file that stands in the store under a ref's path is what the ref opens.
  open_ref-file :
      (ref : Text) (path : FilePath) (content : Bytes) (d : Disk)
      → path_of_ref sys ref ≡ ok path
      → sys.access_fails path d ≡ none
      → find path d ≡ some content
      → open_ref sys ref d ≡ ok content
  unfolding open_ref
  open_ref-file ref path content d p a f =
      ap (λ r. open_at sys r d) p ∙ ap (λ o. read_at sys o path d) a ∙ ap (or_missing sys) f

  module _
      (readable : (path : FilePath) (content : Bytes) (d : Disk)
        → find path d ≡ some content
        → sys.access_fails path d ≡ none) where
    -- Where what stands in the store can be read: a `put` raises and leaves every file as it was, or
    -- it gives a ref that opens to the very content, under a path inside the root, and leaves every
    -- other path as it was.
    pub put_lem :
        (key : Text) (content : Bytes) (d : Disk)
        → ((e : Error) × (put sys key content d ≡ (raise e, d)))
          ⊎ ((ref : Text) × (path : FilePath) × (d' : Disk) × (put sys key content d ≡ (ok ref, d'))
              × (open_ref sys ref d' ≡ ok content)
              × (path_of_ref sys ref ≡ ok path)
              × (is_under (sys.resolve sys.root) path ≡ true)
              × ((other : FilePath) → other ≢ path → find other d' ≡ find other d))
    unfolding put
    put_lem key content d = elim (Result-cases (path_of sys key)) [
      | inr (e, p) ↦ inl (e, rw p refl)
      | inl (path, p) ↦ elim (Option-cases (sys.write_fails path content d)) [
        | inr (e, w) ↦ inl (e, rw p (rw w refl))
        | inl w ↦
            let (valid, _, inside) = path_of-ok key path p in
            let made = make_ref-ok key key valid in
            let at_path =
              path_of_ref-key key (scheme ++ key) ((make_ref-parse_ref key (scheme ++ key)).0 made)
              ∙ p in
            let d' = upsert path content (λ old. content) d in
            let there = upsert-same path content d in
            inr (
              scheme ++ key,
              path,
              d',
              rw p (rw w (ap (λ r. (r, d')) made)),
              open_ref-file (scheme ++ key) path content d' at_path (readable path content d' there)
                  there,
              at_path,
              inside,
              λ other n. upsert-other path other content d n,
            )
      ]
    ]

  -- Where the file system has no links, no two keys share a file.
  pub path_of_unique :
      (linkless : (p q : FilePath) → sys.resolve p ≡ sys.resolve q → p ≡ q) (key other : Text)
      (path : FilePath)
      → path_of sys key ≡ ok path
      → path_of sys other ≡ ok path
      → key ≡ other
  path_of_unique linkless key other path h k =
      let (_, at_key, _) = path_of-ok key path h in
      let (_, at_other, _) = path_of-ok other path k in
      let same =
        append_cancel_left sys.root (split slash key) (split slash other)
          (linkless _ _ (at_key ∙ sym at_other)) in
      sym (join-split slash key) ∙ ap (join slash) same ∙ join-split slash other
