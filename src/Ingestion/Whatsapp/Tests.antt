-- ===== src/Ingestion/Whatsapp/Tests.antt =====
-- A delivery with two messages, a reaction, and a receipt of another shape.
use catchment.Prelude.{
  All, List, Option, Text, [], arith, length, nat_eq, none, pair_eq, refl, some, text_eq, ℕ, ◌+◌,
  ◌↔◌, ◌∷◌, ◌≡◌, ◌⊎◌,
}
use catchment.Prelude.Json.{Fields, arr, cons, end, field, nil, null, obj, str}
use catchment.Prelude.Split.{after_prefix}
use catchment.Prelude.Strip.{codes, strip}
use catchment.Storage.Enums.{image, text}
use catchment.Storage.Models.{Store}
use catchment.Storage.Session.{Error, ok, raise, type_error}
use catchment.Storage.Tests.{sample}
use catchment.Ingestion.Repeated.{Fits}
use catchment.Ingestion.Tests.{sample-IsFresh}
use catchment.Ingestion.Whatsapp.{
  Clock, ParsedMessage, Tally, contact_names, contact_names_from, parse_message, parse_webhook,
  parsed_message, tally_each, timestamp,
}
use catchment.Ingestion.Whatsapp.Leaves.{Listed, Reads, listed}
use catchment.Ingestion.Whatsapp.Webhook.{
  Hooks, Request, ack_of, compare_digest, receive_webhook, verify_signature,
}
use catchment.Ingestion.Whatsapp.Webhook.Authentic.{IsAccepted, IsSigned, receive_webhook-authentic}
use catchment.Ingestion.Whatsapp.Webhook.Retried.{
  IsJobOf, ids_of, receive_webhook-twice, records_of,
}
use catchment.Ingestion.Values.{append_fields, is_truthy, iterate}
use catchment.Ingestion.Whatsapp.Leaves.Converse.{parse_webhook-exact}
use catchment.Ingestion.Grown.{Grown, Known}

abbrev greeting : Fields
greeting = field (codes "id") (str (codes "w1")) (
    field (codes "type") (str (codes "text"))
      (field (codes "text") (obj (field (codes "body") (str (codes "hi")) end)) end))

abbrev picture : Fields
picture = field (codes "id") (str (codes "w2")) (
    field (codes "type") (str (codes "image"))
      (field (codes "image") (obj (field (codes "id") (str (codes "9")) end)) end))

abbrev reaction : Fields
reaction = field (codes "id") (str (codes "w3")) (field (codes "type") (str (codes "reaction")) end)

abbrev change : Fields
change =
    field (codes "value")
      (obj (
        field (codes "messages")
          (arr (cons (obj greeting) (cons (obj reaction) (cons (obj picture) nil)))) end))
      end

abbrev delivery : Fields
delivery =
    field (codes "entry")
      (arr (cons (obj (field (codes "changes") (arr (cons (obj change) (cons null nil))) end)) nil))
      end

abbrev no_clock : Clock
no_clock = record { from_epoch = λ j. raise type_error }

abbrev greeted : ParsedMessage
greeted =
    parsed_message (codes "w1") (codes "text") [] greeting
      (catchment.Storage.Enums.text, some (codes "hi"), end) none

abbrev pictured : ParsedMessage
pictured =
    parsed_message (codes "w2") (codes "image") [] picture
      (image, none, field (codes "wa_media_id") (str (codes "9")) end) none

abbrev read_delivery : Tally
read_delivery = (greeted ∷ pictured ∷ [], 2)

delivery-read : parse_webhook no_clock delivery ≡ ok read_delivery
unfolding parse_webhook iterate is_truthy tally_each contact_names parse_message timestamp
    contact_names_from append_fields
delivery-read = refl

-- The digest of a body is the body, and every job is taken.
abbrev hooks : Hooks
hooks = record {
  secret = ok (codes "s");
  verify_token = none;
  hexdigest = λ secret body. body;
  loads = λ body. ok (obj delivery);
  clock = no_clock;
  enqueue = λ id content. ok tt;
}

abbrev request : Request
request = record { body = codes "ab"; signature = some (codes "sha256=ab") }

request-IsAccepted : IsAccepted hooks request read_delivery
unfolding verify_signature after_prefix compare_digest strip
request-IsAccepted = (codes "s", delivery, refl, refl, refl, delivery-read)

parse_webhook-exact_example :
    (parse_webhook no_clock delivery ≡ ok ((greeted ∷ pictured ∷ []), 2)) ↔ (
      (xs : List Listed) × (listed delivery ≡ ok xs)
      × Reads no_clock xs (greeted ∷ pictured ∷ []) 2
      × (length xs ≡ length (greeted ∷ pictured ∷ []) + 2))
parse_webhook-exact_example = parse_webhook-exact no_clock delivery (greeted ∷ pictured ∷ []) 2

receive_webhook-authentic_example :
    ((e : Error) × (receive_webhook hooks 4 request (sample [] []) ≡ (raise e, [], (sample [] []))))
    ⊎ ((secret : Text) × (payload : Fields) × (t : Tally) × (hooks.secret ≡ ok secret)
        × IsSigned hooks secret request.body request.signature
        × (hooks.loads request.body ≡ ok (obj payload))
        × (parse_webhook hooks.clock payload ≡ ok t))
receive_webhook-authentic_example = receive_webhook-authentic hooks 4 request (sample [] [])

delivery-Fits : All Fits (records_of read_delivery.0)
delivery-Fits = ground arith

receive_webhook-twice_example :
    (jobs : List (ℕ × Option Text)) × (s1 : Store) × (s2 : Store) × (receive_webhook hooks 4 request
        (sample [] [])
      ≡ (ok (ack_of read_delivery (length jobs)), jobs, s1))
    × Grown (ids_of jobs) (sample [] []) s1
    × All (IsJobOf read_delivery.0 s1) jobs
    × All (Known s1.items) (records_of read_delivery.0)
    × (receive_webhook hooks 9 request s1 ≡ (ok (ack_of read_delivery 0), [], s2))
    × (s2.items ≡ s1.items)
receive_webhook-twice_example =
    receive_webhook-twice hooks request read_delivery request-IsAccepted (λ id content. refl) 4 9
      (sample [] []) delivery-Fits sample-IsFresh
