-- ===== src/Ingestion/Media/Whole.antt =====
-- `fetch_media` as a whole: the blob behind an item is complete, or there is none.
use catchment.Prelude.{
  Bool, Option, Text, length, nat_eq, none, pair_eq, some, text_eq, ℕ, ◌<◌, ◌≡◌,
}
use catchment.Storage.Session.{ok}
use catchment.Storage.Proposals.{UuidText}
use catchment.Storage.Blobs.{Bytes, Disk, System, open_ref, path_eq}
use catchment.Ingestion.Media.{FetchedMedia, Network, bearer, download, resolve_media}

abbrev Announced : Option (Bool × ℕ) → ℕ → Type 0
Announced none n = Unit
Announced (some (negative, magnitude)) n = magnitude ≡ n

module _ (u : UuidText) (sys : System) (net : Network) (media_id : Text) (item_id : ℕ) where
  -- A fetch that succeeded: what the two requests gave, and what is then in the store.
  abbrev pub IsFetched : FetchedMedia → Disk → Type 0
  IsFetched m d' =
      (token : Text) × (url : Text) × (size : Option (Bool × ℕ)) × (content : Bytes)
      × (net.access_token ≡ ok token)
      × (resolve_media net (bearer token) media_id ≡ ok (url, m.mime_type, size))
      × (download net (bearer token) url ≡ ok content)
      × (0 < length content)
      × Announced size (length content)
      × (m.size_bytes ≡ length content)
      × (open_ref sys m.ref d' ≡ ok content)
