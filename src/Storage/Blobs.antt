-- ===== src/Storage/Blobs.antt =====
-- catchment/storage/blobs.py: keys, refs, and the store of files under one root.
use catchment.Prelude.{
  Bool, Eq, List, Option, Table, Text, [], any, arith, contains, delete_where, false, find,
  if◌then◌else◌, is_some, nat_beq, nat_eq, none, pair_eq, some, text_beq, text_beq_iff, text_eq,
  true, upsert, ℕ, ◌&&◌, ◌++◌, ◌==◌, ◌||◌, ◌↔◌, ◌∷◌, ◌≡◌,
}
use catchment.Prelude.Split.{after_prefix, split}
use catchment.Prelude.Strip.{codes, is_empty, strip}
use catchment.Storage.Session.{Error, Result, blob_not_found, invalid_blob_key, ok, raise}
pub mod Refs
pub mod Files
pub mod Tests

abbrev pub slash : ℕ
slash = 47

unfoldable pub scheme : Text
scheme = codes "blob://"

-- A part of a key that a path would drop or climb by.
abbrev pub is_relative_part : Text → Bool
is_relative_part part = is_empty part || text_beq part (codes ".") || text_beq part (codes "..")

-- `os.sep` is "/" here.
abbrev pub starts_rooted : Text → Bool
starts_rooted [] = false
starts_rooted (c ∷ cs) = nat_beq c slash || nat_beq c 92

unfoldable pub validate_key : Text → Result Text
unfolding split
validate_key key =
    if is_empty (strip key)
      || contains 0 key
      || starts_rooted key
      || any is_relative_part (split slash key)
    then raise invalid_blob_key
    else ok key

abbrev under_scheme : Result Text → Result Text
under_scheme (ok key) = ok (scheme ++ key)
under_scheme (raise e) = raise e

unfoldable pub make_ref : Text → Result Text
make_ref key = under_scheme (validate_key key)

abbrev pub checked : Option Text → Result Text
checked none = raise invalid_blob_key
checked (some key) = validate_key key

unfoldable pub parse_ref : Text → Result Text
parse_ref ref = checked (after_prefix scheme ref)

-- A path, as its parts, and what a file system holds: regular files by resolved path.
abbrev pub FilePath : Type 0
FilePath = List Text

unfoldable pub path_beq : FilePath → FilePath → Bool
path_beq [] [] = true
path_beq (a ∷ p) (b ∷ q) = text_beq a b && path_beq p q
path_beq _ _ = false

pub path_beq_iff : (p q : FilePath) → (path_beq p q ≡ true) ↔ (p ≡ q)
unfolding path_beq
path_beq_iff [] [] = ground arith
path_beq_iff [] (b ∷ q) = ground arith
path_beq_iff (a ∷ p) [] = ground arith
path_beq_iff (a ∷ p) (b ∷ q) = ground (arith, text_beq_iff a b, path_beq_iff p q)

instance abbrev pub path_eq : Eq FilePath
path_eq = record { same = path_beq; beq_iff = path_beq_iff }

-- `is_relative_to`.
unfoldable pub is_under : FilePath → FilePath → Bool
is_under [] p = true
is_under (a ∷ root) [] = false
is_under (a ∷ root) (b ∷ p) = text_beq a b && is_under root p

abbrev pub Bytes : Type 0
Bytes = List ℕ

abbrev pub Disk : Type 0
Disk = Table FilePath Bytes

-- What the operating system does: `Path.resolve`, which follows symbolic links; whether the
-- directory and the temporary file can be made, written, flushed and renamed; and what a read or an
-- unlink raises for another reason than that the file is missing.
pub record System : Type 0 where
  pub root : FilePath
  pub resolve : FilePath → FilePath
  pub write_fails : FilePath → Bytes → Disk → Option Error
  pub access_fails : FilePath → Disk → Option Error

module _ (sys : System) where
  unfoldable pub inside_root : FilePath → Result FilePath
  unfolding is_under
  inside_root candidate =
      if is_under (sys.resolve sys.root) candidate then ok candidate else raise invalid_blob_key

  abbrev pub placed : Result Text → Result FilePath
  placed (ok key) = inside_root (sys.resolve (sys.root ++ split slash key))
  placed (raise e) = raise e

  -- `_path`.
  unfoldable pub path_of : Text → Result FilePath
  path_of key = placed (validate_key key)

  abbrev pub written : Option Error → FilePath → Text → Bytes → Disk → Result Text × Disk
  written (some e) path key content d = (raise e, d)
  written none path key content d = (make_ref key, upsert path content (λ old. content) d)

  abbrev pub put_at : Result FilePath → Text → Bytes → Disk → Result Text × Disk
  put_at (raise e) key content d = (raise e, d)
  put_at (ok path) key content d = written (sys.write_fails path content d) path key content d

  -- The rename is the one step that changes the path, and it comes last.
  unfoldable pub put : Text → Bytes → Disk → Result Text × Disk
  put key = put_at (path_of key) key

  abbrev pub parsed_path : Result Text → Result FilePath
  parsed_path (ok key) = path_of key
  parsed_path (raise e) = raise e

  unfoldable pub path_of_ref : Text → Result FilePath
  path_of_ref ref = parsed_path (parse_ref ref)

  abbrev pub or_missing : Option Bytes → Result Bytes
  or_missing none = raise blob_not_found
  or_missing (some content) = ok content

  abbrev pub read_at : Option Error → FilePath → Disk → Result Bytes
  read_at (some e) path d = raise e
  read_at none path d = or_missing (find path d)

  abbrev pub open_at : Result FilePath → Disk → Result Bytes
  open_at (raise e) d = raise e
  open_at (ok path) d = read_at (sys.access_fails path d) path d

  unfoldable pub open_ref : Text → Disk → Result Bytes
  open_ref ref = open_at (path_of_ref ref)

  abbrev pub is_file_at : Result FilePath → Disk → Result Bool
  is_file_at (ok path) d = ok (is_some (find path d))
  is_file_at (raise e) d = raise e

  unfoldable pub exists : Text → Disk → Result Bool
  exists ref = is_file_at (path_of_ref ref)

  abbrev pub unlink : Option Error → FilePath → Disk → Result (Unit {0}) × Disk
  unlink (some e) path d = (raise e, d)
  unlink none path d = (ok tt, delete_where (λ p. p == path) d)

  abbrev pub delete_at : Result FilePath → Disk → Result (Unit {0}) × Disk
  delete_at (raise e) d = (raise e, d)
  delete_at (ok path) d = unlink (sys.access_fails path d) path d

  unfoldable pub delete : Text → Disk → Result (Unit {0}) × Disk
  delete ref = delete_at (path_of_ref ref)
