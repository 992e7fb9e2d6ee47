-- ===== src/Ingestion/Media/Tests.antt =====
-- A voice note that is fetched.
use catchment.Prelude.{Option, Text, [], false, nat_eq, none, pair_eq, refl, some, text_eq, ℕ, ◌∷◌}
use catchment.Prelude.Json.{Fields, end, field, int, obj, str}
use catchment.Prelude.Strip.{codes}
use catchment.Storage.Session.{ok}
use catchment.Storage.Proposals.{UuidText}
use catchment.Storage.Blobs.{path_eq}
use catchment.Ingestion.Media.{Network}

abbrev read_letter : Text → Option ℕ
read_letter (id ∷ []) = some id
read_letter _ = none

-- A UUID written as the one character with its number.
abbrev one_letter : UuidText
one_letter = record { show = λ id. id ∷ []; read = read_letter; read-show = λ id. refl }

abbrev metadata : Fields
metadata = field (codes "url") (str (codes "https://a")) (
    field (codes "mime_type") (str (codes "audio/ogg; codecs=opus"))
      (field (codes "file_size") (int false 2) end))

-- The first request gives the metadata, the second the bytes.
abbrev answering : Network
answering = record {
  access_token = ok (codes "token");
  graph_version = codes "v21.0";
  lower = λ t. t;
  request = λ n url header. ok (record {
    status_code = some 200;
    json = ok (obj metadata);
    raise_for_status = ok tt;
    content = some (8 ∷ 9 ∷ []);
  });
}
