-- ===== src/Ingestion/Mail.antt =====
-- catchment/ingestion/email_imap.py: from the headers of a message to its record.
use catchment.Prelude.{
  Bool, List, Option, Text, [], any, false, if◌then◌else◌, nat_beq, nat_eq, none, pair_eq, some,
  text_beq, text_eq, ℕ, ◌&&◌, ◌++◌, ◌∷◌,
}
use catchment.Prelude.Json.{Fields, bool, end, field, str}
use catchment.Prelude.Split.{join}
use catchment.Prelude.Strip.{codes, is_empty, strip}
use catchment.Storage.Session.{Result, ok, raise, type_error, value_error}
use catchment.Storage.Enums.{email, text}
use catchment.Ingestion.{RawRecord}
use catchment.Ingestion.Values.{append_fields, map_ok}
pub mod Poll
pub mod Read
pub mod Polled
pub mod Tests
use catchment.Storage.Enums

-- A piece of a header: text, or bytes with the charset that the header names.
pub data Chunk : Type 0 where
  plain : Text → Chunk
  encoded : List ℕ → Option Text → Chunk

-- A message: its headers by name, whether it is multipart, and the content dispositions of the parts
-- that `walk` gives.
pub record Message : Type 0 where
  pub header : Text → Option Text
  pub is_multipart : Bool
  pub dispositions : List (Option Text)

-- What decodes: `decode_header`; the decoding of bytes by a charset, none where it raises LookupError
-- or UnicodeDecodeError; the decoding with replacement characters; `parseaddr`, by name and address;
-- the date parser, with a date without a zone taken as UTC; `str.lower`; and the SHA-256.
pub record Decoders : Type 0 where
  pub decode_header : Text → Result (List Chunk)
  pub decode : Text → List ℕ → Result (Option Text)
  pub decode_replace : List ℕ → Text
  pub parseaddr : Text → Text × Text
  pub parse_rfc : Text → Result (Option ℕ)
  pub lower : Text → Text
  pub sha256 : Text → Text

abbrev pub and_then : {A B : Type 0} → Result A → (A → Result B) → Result B
and_then (ok a) f = f a
and_then (raise e) f = raise e

abbrev pub text_or_none : Text → Option Text
text_or_none [] = none
text_or_none (c ∷ cs) = some (c ∷ cs)

abbrev pub or_blank : Option Text → Text
or_blank none = []
or_blank (some t) = t

abbrev pub decoded_or : Result (Option Text) → Result Text → Result Text
decoded_or (ok (some t)) next = ok t
decoded_or (ok none) next = next
decoded_or (raise e) next = raise e

-- The first charset that decodes; an empty one is passed over.
unfoldable pub try_charsets : Decoders → List ℕ → List Text → Result Text
try_charsets d bytes [] = ok (d.decode_replace bytes)
try_charsets d bytes (charset ∷ charsets) =
    let next = try_charsets d bytes charsets in
    if is_empty charset then next else decoded_or (d.decode charset bytes) next

unfoldable pub decode_chunks : Decoders → List Chunk → Result Text
decode_chunks d [] = ok []
decode_chunks d (plain t ∷ chunks) = map_ok (λ rest. t ++ rest) (decode_chunks d chunks)
decode_chunks d (encoded bytes charset ∷ chunks) =
    let rest = decode_chunks d chunks in
    and_then (try_charsets d bytes (or_blank charset ∷ codes "utf-8" ∷ codes "latin-1" ∷ []))
      (λ t. map_ok (λ more. t ++ more) rest)

-- `except (UnicodeDecodeError, ValueError)`, which falls back to the raw text.
abbrev pub chunks_or_raw : Decoders → Text → Result (List Chunk) → Result (Option Text)
chunks_or_raw d raw (ok chunks) = map_ok (λ t. text_or_none (strip t)) (decode_chunks d chunks)
chunks_or_raw d raw (raise value_error) = ok (text_or_none (strip raw))
chunks_or_raw d raw (raise e) = raise e

unfoldable pub decode_header_value : Decoders → Option Text → Result (Option Text)
decode_header_value d none = ok none
decode_header_value d (some raw) = chunks_or_raw d raw (d.decode_header raw)

abbrev pub date_or_none : Result (Option ℕ) → Result (Option ℕ)
date_or_none (ok at) = ok at
date_or_none (raise type_error) = ok none
date_or_none (raise value_error) = ok none
date_or_none (raise e) = raise e

unfoldable pub parse_date : Decoders → Option Text → Result (Option ℕ)
parse_date d none = ok none
parse_date d (some raw) = if is_empty raw then ok none else date_or_none (d.parse_rfc raw)

-- What follows the first `@`, and nothing where there is none.
unfoldable pub after_at : Text → Text
after_at [] = []
after_at (c ∷ cs) = if nat_beq c 64 then cs else after_at cs

unfoldable pub sender_domain : Decoders → Option Text → Option Text
sender_domain d raw = text_or_none (d.lower (after_at (d.parseaddr (or_blank raw)).1))

abbrev pub name_or_address : Text → Option Text → Option Text
name_or_address address none = text_or_none address
name_or_address address (some name) = some name

unfoldable pub sender_name : Decoders → Option Text → Result (Option Text)
sender_name d raw =
    let (display, address) = d.parseaddr (or_blank raw) in
    map_ok (name_or_address address) (decode_header_value d (some display))

abbrev pub is_attachment : Option Text → Bool
is_attachment none = false
is_attachment (some disposition) = text_beq disposition (codes "attachment")

unfoldable pub has_attachments : Message → Bool
has_attachments m = m.is_multipart && any is_attachment m.dispositions

abbrev pub fallback_components : Message → Text → Text → List Text
fallback_components m folder uid =
    let date = or_blank (m.header (codes "Date")) in
    let from = or_blank (m.header (codes "From")) in
    let subject = or_blank (m.header (codes "Subject")) in
    if is_empty date && is_empty from && is_empty subject
    then folder ∷ date ∷ from ∷ subject ∷ uid ∷ []
    else folder ∷ date ∷ from ∷ subject ∷ []

unfoldable pub fallback_source_id : Decoders → Message → Text → Text → Text
fallback_source_id d m folder uid =
    codes "sha256:" ++ d.sha256 (join 31 (fallback_components m folder uid))

abbrev pub id_or : Option Text → Text → Text
id_or none other = other
id_or (some raw) other = if is_empty (strip raw) then other else strip raw

unfoldable pub message_source_id : Decoders → Message → Text → Text → Text
message_source_id d m folder uid =
    id_or (m.header (codes "Message-ID")) (fallback_source_id d m folder uid)

abbrev pub optional_field : Text → Option Text → Fields
optional_field name none = end
optional_field name (some value) = field name (str value) end

abbrev pub mail_record :
    Decoders
    → Message
    → Text
    → Text
    → Option Text
    → Option Text
    → Option Text
    → Option ℕ
    → RawRecord
mail_record d m folder uid list_id title author at = record {
  source = Enums.email;
  source_id = message_source_id d m folder uid;
  kind = Enums.text;
  url = none;
  title = title;
  author = author;
  published_at = at;
  raw_ref = none;
  meta = field (codes "folder") (str folder) (
      field (codes "uid") (str uid) (
        field (codes "has_attachments") (bool (has_attachments m)) (
          append_fields
            (optional_field (codes "from_domain") (sender_domain d (m.header (codes "From"))))
            (optional_field (codes "list_id") list_id))));
}

unfoldable pub to_raw_record : Decoders → Message → Text → Text → Result RawRecord
to_raw_record d m folder uid =
    and_then (decode_header_value d (m.header (codes "List-Id"))) (λ list_id.
      and_then (decode_header_value d (m.header (codes "Subject"))) (λ title.
        and_then (sender_name d (m.header (codes "From"))) (λ author.
          map_ok (mail_record d m folder uid list_id title author)
            (parse_date d (m.header (codes "Date"))))))
