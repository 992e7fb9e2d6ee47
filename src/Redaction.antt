-- ===== src/Redaction.antt =====
-- catchment/redaction.py: what of a log record's fields is let through.
use catchment.Prelude.{
  Bool, List, Text, [], any, if◌then◌else◌, is_some, length, nat_eq, not, pair_eq, take, text_eq, ℕ,
  ◌&&◌, ◌++◌, ◌||◌, ◌∷◌,
}
use catchment.Prelude.Json.{Fields, Json, end, field, null, obj, str}
use catchment.Prelude.Split.{after_prefix}
use catchment.Prelude.Strip.{codes, is_empty}
pub mod Leaves
pub mod Tests

-- `marker in text`.
unfoldable pub occurs : Text → Text → Bool
occurs marker [] = is_empty marker
occurs marker (c ∷ cs) = is_some (after_prefix marker (c ∷ cs)) || occurs marker cs

abbrev pub secret_field_markers : List Text
secret_field_markers =
    codes "password"
    ∷ codes "passwd"
    ∷ codes "secret"
    ∷ codes "token"
    ∷ codes "api_key"
    ∷ codes "apikey"
    ∷ codes "authorization"
    ∷ codes "auth_header"
    ∷ codes "cookie"
    ∷ codes "credential"
    ∷ codes "private_key"
    ∷ codes "session_id"
    ∷ []

abbrev pub content_field_markers : List Text
content_field_markers =
    codes "body"
    ∷ codes "text"
    ∷ codes "content"
    ∷ codes "transcript"
    ∷ codes "caption"
    ∷ codes "snippet"
    ∷ codes "subject"
    ∷ codes "message"
    ∷ codes "html"
    ∷ codes "ocr"
    ∷ codes "raw"
    ∷ []

-- `str.lower`, `repr` of a value, the decimal digits of a length, and the hexadecimal SHA-256 of a
-- text's UTF-8.
pub record Texts : Type 0 where
  pub lower : Text → Text
  pub repr : Json → Text
  pub decimal : ℕ → Text
  pub sha256 : Text → Text

module _ (x : Texts) where
  unfoldable pub is_secret_field : Text → Bool
  is_secret_field name = any (λ marker. occurs marker (x.lower name)) secret_field_markers

  unfoldable pub is_content_field : Text → Bool
  is_content_field name = any (λ marker. occurs marker (x.lower name)) content_field_markers

  unfoldable pub content_digest : Text → Text
  content_digest value = take 12 (x.sha256 value)

  abbrev pub summary_of_text : Text → Text
  summary_of_text t =
      codes "<content: "
      ++ x.decimal (length t)
      ++ codes " chars sha256:"
      ++ content_digest t
      ++ codes ">"

  unfoldable pub content_summary : Json → Text
  content_summary null = codes "<content: none>"
  content_summary (str t) = summary_of_text t
  content_summary value = summary_of_text (x.repr value)

  abbrev pub redacted_text : Text
  redacted_text = codes "<redacted>"

  unfoldable pub redact_value : Text → Json → Bool → Json
  redact_value name value allow_content =
      if is_secret_field name
      then str redacted_text
      else if is_content_field name && not allow_content
      then str (content_summary value)
      else value

  -- A mapping inside is redacted field by field, whatever its own name is.
  unfoldable pub redact_mapping : Bool → Fields → Fields
  redact_mapping allow_content end = end
  redact_mapping allow_content (field name (obj inner) rest) =
      field name (obj (redact_mapping allow_content inner)) (redact_mapping allow_content rest)
  redact_mapping allow_content (field name value rest) =
      field name (redact_value name value allow_content) (redact_mapping allow_content rest)
