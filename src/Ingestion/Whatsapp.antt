-- ===== src/Ingestion/Whatsapp.antt =====
-- catchment/ingestion/whatsapp.py: the messages of a webhook's payload.
use catchment.Prelude.{
  List, Option, Table, Text, [], find, if◌then◌else◌, nat_eq, none, pair_eq, some, text_beq,
  text_eq, upsert, ℕ, ◌++◌, ◌+◌, ◌||◌, ◌∷◌,
}
use catchment.Prelude.Json.{Fields, Json, end, field, get, null, obj, str}
use catchment.Prelude.Strip.{codes}
use catchment.Storage.Session.{Result, ok, other_error, raise, type_error, value_error}
use catchment.Storage.Enums.{ItemKind, audio, image, video, whatsapp}
use catchment.Ingestion.{RawRecord}
use catchment.Ingestion.Values.{append_fields, is_truthy, iterate, map_ok, or_object, text_of}
pub mod Leaves
pub mod Webhook
pub mod Tests
use catchment.Storage.Enums

-- `int(value)` with `datetime.fromtimestamp(...)`, and what they raise.
pub record Clock : Type 0 where
  pub from_epoch : Json → Result ℕ

pub record ParsedMessage : Type 0 where
  pub record_of : RawRecord
  pub text : Option Text

-- `_timestamp`: `except (TypeError, ValueError)`.
abbrev pub tolerated : Result ℕ → Result (Option ℕ)
tolerated (ok at) = ok (some at)
tolerated (raise type_error) = ok none
tolerated (raise value_error) = ok none
tolerated (raise e) = raise e

abbrev pub or_null : Option Json → Json
or_null none = null
or_null (some j) = j

unfoldable pub timestamp : Clock → Option Json → Result (Option ℕ)
timestamp clock value = tolerated (clock.from_epoch (or_null value))

-- One contact: `profile.get("name")` of an object, and nothing of anything else.
abbrev pub profile_name : Option Json → Option Text
profile_name (some (obj profile)) = text_of (get (codes "name") profile)
profile_name _ = none

abbrev pub add_name : Option Text → Option Text → Table Text Text → Table Text Text
add_name (some wa_id) (some name) names = upsert wa_id name (λ old. name) names
add_name _ _ names = names

abbrev pub add_contact : Json → Table Text Text → Table Text Text
add_contact (obj contact) names =
    add_name (text_of (get (codes "wa_id") contact)) (profile_name (get (codes "profile") contact))
      names
add_contact _ names = names

unfoldable pub contact_names_from : Table Text Text → List Json → Table Text Text
contact_names_from names [] = names
contact_names_from names (contact ∷ rest) = contact_names_from (add_contact contact names) rest

-- `_contact_names`.
unfoldable pub contact_names : Fields → Result (Table Text Text)
contact_names value = map_ok (contact_names_from []) (iterate (get (codes "contacts") value))

-- `_MEDIA_KINDS`.
abbrev pub media_kind : Text → Option ItemKind
media_kind t =
    if text_beq t (codes "image") || text_beq t (codes "sticker")
    then some image
    else if text_beq t (codes "audio")
    then some audio
    else if text_beq t (codes "video")
    then some video
    else none

abbrev pub sender_of : Fields → Option Text
sender_of message = text_of (get (codes "from") message)

-- A sender that is the empty text is no sender for `meta`, and a name is looked up all the same.
abbrev pub from_field : Option Text → Fields
from_field (some (c ∷ cs)) = field (codes "wa_from") (str (c ∷ cs)) end
from_field _ = end

abbrev pub author_of : Table Text Text → Option Text → Option Text
author_of names none = find [] names
author_of names (some sender) = elim (find sender names) [
  | some name ↦ some name
  | none ↦ some sender
]

abbrev pub media_id_field : Option Json → Fields
media_id_field (some (str media_id)) = field (codes "wa_media_id") (str media_id) end
media_id_field _ = end

abbrev pub mime_field : Option Json → Fields
mime_field none = end
mime_field (some mime) = if is_truthy mime then field (codes "mime_type") mime end else end

-- What a message carries: its kind, its text, and what it adds to `meta`.
abbrev pub Payload : Type 0
Payload = ItemKind × Option Text × Fields

abbrev pub media_payload : ItemKind → Json → Option Payload
media_payload kind (obj payload) = some (
  kind,
  text_of (get (codes "caption") payload),
  append_fields (media_id_field (get (codes "id") payload))
      (mime_field (get (codes "mime_type") payload)),
)
media_payload kind _ = none

-- `(message.get("text") or {}).get("body")`; another value than an object has no `get`.
abbrev pub text_payload : Json → Result (Option Payload)
text_payload (obj fields) = ok (elim (text_of (get (codes "body") fields)) [
  | some body ↦ some (Enums.text, some body, end)
  | none ↦ none
])
text_payload _ = raise other_error

abbrev pub payload_of : Text → Fields → Result (Option Payload)
payload_of message_type message =
    if text_beq message_type (codes "text")
    then text_payload (or_object (get (codes "text") message))
    else elim (media_kind message_type) [
      | some kind ↦ ok (media_payload kind (or_object (get message_type message)))
      | none ↦ ok none
    ]

abbrev pub parsed_message :
    Text → Text → Table Text Text → Fields → Payload → Option ℕ → ParsedMessage
parsed_message source_id message_type names message (kind, content, added) published_at = record {
  record_of = record {
    source = whatsapp;
    source_id = source_id;
    kind = kind;
    url = none;
    title = none;
    author = author_of names (sender_of message);
    published_at = published_at;
    raw_ref = none;
    meta =
        field (codes "wa_type") (str message_type)
          (append_fields (from_field (sender_of message)) added);
  };
  text = content;
}

abbrev pub with_payload :
    Clock
    → Text
    → Text
    → Table Text Text
    → Fields
    → Result (Option Payload)
    → Result (Option ParsedMessage)
with_payload clock source_id message_type names message (raise e) = raise e
with_payload clock source_id message_type names message (ok none) = ok none
with_payload clock source_id message_type names message (ok (some payload)) =
    map_ok (λ at. some (parsed_message source_id message_type names message payload at))
      (timestamp clock (get (codes "timestamp") message))

-- `_parse_message`, once the id and the type are found to be texts or not.
abbrev pub parse_typed :
    Clock → Table Text Text → Fields → Option Text → Option Text → Result (Option ParsedMessage)
parse_typed clock names message (some source_id) (some message_type) =
    with_payload clock source_id message_type names message (payload_of message_type message)
parse_typed clock names message _ _ = ok none

unfoldable pub parse_message : Clock → Table Text Text → Fields → Result (Option ParsedMessage)
parse_message clock names message =
    parse_typed clock names message (text_of (get (codes "id") message))
      (text_of (get (codes "type") message))

-- The messages handled so far, and the number of those skipped.
abbrev pub Tally : Type 0
Tally = List ParsedMessage × ℕ

abbrev pub none_yet : Tally
none_yet = ([], 0)

abbrev pub one_skipped : Tally
one_skipped = ([], 1)

abbrev pub one_message : Option ParsedMessage → Tally
one_message none = one_skipped
one_message (some parsed) = (parsed ∷ [], 0)

abbrev pub add_tally : Tally → Tally → Tally
add_tally (parsed, skipped) (more, passed) = (parsed ++ more, skipped + passed)

abbrev pub plus_tally : Result Tally → Result Tally → Result Tally
plus_tally (raise e) rest = raise e
plus_tally (ok t) (raise e) = raise e
plus_tally (ok t) (ok more) = ok (add_tally t more)

-- A loop over values, the first raise ending it.
unfoldable pub tally_each : (Json → Result Tally) → List Json → Result Tally
tally_each body [] = ok none_yet
tally_each body (j ∷ js) = plus_tally (body j) (tally_each body js)

abbrev pub tally_all : (Json → Result Tally) → Result (List Json) → Result Tally
tally_all body (ok js) = tally_each body js
tally_all body (raise e) = raise e

abbrev pub tally_message : Clock → Table Text Text → Json → Result Tally
tally_message clock names (obj message) = map_ok one_message (parse_message clock names message)
tally_message clock names _ = ok one_skipped

abbrev pub tally_named : Clock → Result (Table Text Text) → Fields → Result Tally
tally_named clock (ok names) value =
    tally_all (tally_message clock names) (iterate (get (codes "messages") value))
tally_named clock (raise e) value = raise e

abbrev pub tally_value : Clock → Option Json → Result Tally
tally_value clock (some (obj value)) = tally_named clock (contact_names value) value
tally_value clock _ = ok one_skipped

abbrev pub tally_change : Clock → Json → Result Tally
tally_change clock (obj change) = tally_value clock (get (codes "value") change)
tally_change clock _ = ok one_skipped

abbrev pub tally_entry : Clock → Json → Result Tally
tally_entry clock (obj entry) =
    tally_all (tally_change clock) (iterate (get (codes "changes") entry))
tally_entry clock _ = ok one_skipped

-- Both the messages and the number skipped, in the order of the payload.
unfoldable pub parse_webhook : Clock → Fields → Result Tally
parse_webhook clock payload = tally_all (tally_entry clock) (iterate (get (codes "entry") payload))
