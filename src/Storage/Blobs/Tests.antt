-- ===== src/Storage/Blobs/Tests.antt =====
-- A store of files with no links, under one root.
use catchment.Prelude.{
  Text, [], find, nat_eq, none, pair_eq, refl, text_eq, true, ◌↔◌, ◌∷◌, ◌≡◌, ◌≢◌, ◌⊎◌,
}
use catchment.Prelude.Strip.{codes}
use catchment.Storage.Session.{Error, ok, raise}
use catchment.Storage.Blobs.{
  Disk, FilePath, System, is_under, make_ref, open_ref, parse_ref, path_eq, path_of_ref, put,
}
use catchment.Storage.Blobs.Refs.{make_ref-parse_ref}
use catchment.Storage.Blobs.Files.{put_lem}

abbrev pub plain_files : System
plain_files = record {
  root = codes "srv" ∷ [];
  resolve = λ p. p;
  write_fails = λ p content d. none;
  access_fails = λ p d. none;
}

abbrev voice : Text
voice = codes "whatsapp/7.ogg"

put_lem_example :
    ((e : Error) × (put plain_files voice (1 ∷ 2 ∷ []) [] ≡ (raise e, [])))
    ⊎ ((ref : Text) × (path : FilePath) × (d' : Disk) × (put plain_files voice (1 ∷ 2 ∷ []) []
          ≡ (ok ref, d'))
        × (open_ref plain_files ref d' ≡ ok (1 ∷ 2 ∷ []))
        × (path_of_ref plain_files ref ≡ ok path)
        × (is_under (plain_files.resolve plain_files.root) path ≡ true)
        × ((other : FilePath) → other ≢ path → find other d' ≡ find other []))
put_lem_example = put_lem plain_files (λ path content d h. refl) voice (1 ∷ 2 ∷ []) []

make_ref-parse_ref_example :
    (make_ref voice ≡ ok (codes "blob://whatsapp/7.ogg"))
    ↔ (parse_ref (codes "blob://whatsapp/7.ogg") ≡ ok voice)
make_ref-parse_ref_example = make_ref-parse_ref voice (codes "blob://whatsapp/7.ogg")
