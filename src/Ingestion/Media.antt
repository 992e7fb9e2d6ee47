-- ===== src/Ingestion/Media.antt =====
-- catchment/ingestion/media.py: a WhatsApp media id becomes a blob.
use catchment.Prelude.{
  Bool, List, Option, Table, Text, [], find, if◌then◌else◌, leb, length, nat_beq, nat_eq, none, not,
  pair_eq, some, text_eq, true, ℕ, ◌&&◌, ◌++◌, ◌||◌, ◌∷◌,
}
use catchment.Prelude.Json.{Fields, Json, get, int, obj}
use catchment.Prelude.Split.{split}
use catchment.Prelude.Strip.{codes, is_empty, strip}
use catchment.Storage.Session.{Result, media_fetch_error, media_not_available, ok, raise}
use catchment.Storage.Proposals.{UuidText}
use catchment.Storage.Blobs.{Bytes, Disk, System, path_eq, put, slash}
use catchment.Ingestion.Values.{text_of}
pub mod Whole
pub mod Tests

-- What the HTTP client gives back. A response without a status counts as 200; `content` is none where
-- it is no bytes.
pub record Response : Type 0 where
  pub status_code : Option ℕ
  pub json : Result Json
  pub raise_for_status : Result (Unit {0})
  pub content : Option Bytes

pub record FetchedMedia : Type 0 where
  pub ref : Text
  pub mime_type : Option Text
  pub size_bytes : ℕ

-- The settings that are read, `str.lower`, and the network: the n-th request, by its address and
-- its `Authorization` header.
pub record Network : Type 0 where
  pub access_token : Result Text
  pub graph_version : Text
  pub lower : Text → Text
  pub request : ℕ → Text → Text → Result Response

abbrev pub extensions : Table Text Text
extensions =
    (codes "audio/ogg", codes ".ogg")
    ∷ (codes "audio/mpeg", codes ".mp3")
    ∷ (codes "audio/mp4", codes ".m4a")
    ∷ (codes "audio/amr", codes ".amr")
    ∷ (codes "image/jpeg", codes ".jpg")
    ∷ (codes "image/png", codes ".png")
    ∷ (codes "image/webp", codes ".webp")
    ∷ (codes "video/mp4", codes ".mp4")
    ∷ (codes "video/3gpp", codes ".3gp")
    ∷ (codes "application/pdf", codes ".pdf")
    ∷ []

abbrev first_part : List Text → Text
first_part [] = []
first_part (part ∷ parts) = part

abbrev or_bin : Option Text → Text
or_bin none = codes ".bin"
or_bin (some found) = found

-- `_extension`.
unfoldable pub extension : (Text → Text) → Option Text → Text
extension lower none = codes ".bin"
extension lower (some mime) =
    if is_empty mime
    then codes ".bin"
    else or_bin (find (lower (strip (first_part (split 59 mime)))) extensions)

-- `_key`.
unfoldable pub media_key : UuidText → (Text → Text) → ℕ → Option Text → Text
media_key u lower item_id mime = codes "whatsapp/" ++ u.show item_id ++ extension lower mime

-- The announced size: an integer, and not a Boolean; its sign and its magnitude.
abbrev pub size_of : Option Json → Option (Bool × ℕ)
size_of (some (int negative n)) = some (negative, n)
size_of _ = none

-- Where the bytes are: the address, the type and the size that the metadata announces.
abbrev pub Located : Type 0
Located = Text × Option Text × Option (Bool × ℕ)

abbrev pub located : Option Text → Fields → Result Located
located none payload = raise media_fetch_error
located (some url) payload =
    if is_empty url
    then raise media_fetch_error
    else ok
        (url, text_of (get (codes "mime_type") payload), size_of (get (codes "file_size") payload))

abbrev pub read_metadata : Result Json → Result Located
read_metadata (ok (obj payload)) = located (text_of (get (codes "url") payload)) payload
read_metadata (ok _) = raise media_fetch_error
read_metadata (raise e) = raise e

abbrev pub or_200 : Option ℕ → ℕ
or_200 none = 200
or_200 (some status) = status

abbrev pub read_response : Response → Result Located
read_response r =
    if nat_beq (or_200 r.status_code) 404 || nat_beq (or_200 r.status_code) 410
    then raise media_not_available
    else if leb 400 (or_200 r.status_code)
    then raise media_fetch_error
    else read_metadata r.json

abbrev pub resolved_by : Result Response → Result Located
resolved_by (ok r) = read_response r
resolved_by (raise e) = raise media_fetch_error

abbrev pub endpoint : Network → Text → Text
endpoint net media_id = codes "https://graph.facebook.com/" ++ net.graph_version ++ slash ∷ media_id

-- `_resolve`.
unfoldable pub resolve_media : Network → Text → Text → Result Located
resolve_media net header media_id = resolved_by (net.request 0 (endpoint net media_id) header)

abbrev pub whole_content : Option Bytes → Result Bytes
whole_content (some (b ∷ bs)) = ok (b ∷ bs)
whole_content _ = raise media_fetch_error

abbrev pub after_status : Result (Unit {0}) → Option Bytes → Result Bytes
after_status (ok done) content = whole_content content
after_status (raise e) content = raise media_fetch_error

abbrev pub downloaded : Result Response → Result Bytes
downloaded (ok r) = after_status r.raise_for_status r.content
downloaded (raise e) = raise media_fetch_error

-- `_download`.
unfoldable pub download : Network → Text → Text → Result Bytes
download net header url = downloaded (net.request 1 url header)

abbrev pub has_size : Option (Bool × ℕ) → ℕ → Bool
has_size none n = true
has_size (some (negative, magnitude)) n = nat_beq magnitude n && (not negative || nat_beq n 0)

abbrev pub bearer : Text → Text
bearer token = codes "Bearer " ++ token

module _ (u : UuidText) (sys : System) (net : Network) (media_id : Text) (item_id : ℕ) where
  abbrev pub fetched : Option Text → ℕ → Result Text × Disk → Result FetchedMedia × Disk
  fetched mime n (ok ref, d) = (ok (record { ref = ref; mime_type = mime; size_bytes = n }), d)
  fetched mime n (raise e, d) = (raise e, d)

  abbrev pub store_media : Located → Result Bytes → Disk → Result FetchedMedia × Disk
  store_media where_it_is (raise e) d = (raise e, d)
  store_media (url, mime, size) (ok content) d =
      if has_size size (length content)
      then fetched mime (length content) (put sys (media_key u net.lower item_id mime) content d)
      else (raise media_fetch_error, d)

  abbrev pub fetch_located : Text → Result Located → Disk → Result FetchedMedia × Disk
  fetch_located header (raise e) d = (raise e, d)
  fetch_located header (ok (url, mime, size)) d =
      store_media (url, mime, size) (download net header url) d

  abbrev pub fetch_with : Result Text → Disk → Result FetchedMedia × Disk
  fetch_with (raise e) d = (raise e, d)
  fetch_with (ok token) d =
      fetch_located (bearer token) (resolve_media net (bearer token) media_id) d

  unfoldable pub fetch_media : Disk → Result FetchedMedia × Disk
  fetch_media d = fetch_with net.access_token d
