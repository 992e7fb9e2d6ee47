-- ===== src/Ingestion/Whatsapp/Webhook.antt =====
-- catchment/ingestion/whatsapp.py: the two routes of the webhook.
use catchment.Prelude.{
  Bool, List, Option, Text, [], any, false, if◌then◌else◌, leb, length, nat_eq, none, pair_eq, some,
  text_beq, text_eq, true, ℕ, ◌+◌, ◌||◌, ◌∷◌,
}
use catchment.Prelude.Json.{Json, obj}
use catchment.Prelude.Split.{after_prefix}
use catchment.Prelude.Strip.{codes, strip}
use catchment.Storage.Session.{
  Db, Error, Result, bad_request, forbidden, nested, ok, parse_error, pure, raise,
  service_unavailable, type_error, ◌>>=◌, ◌>>◌,
}
use catchment.Storage.Models.{Store}
use catchment.Storage.Enums.{success, text, whatsapp}
use catchment.Storage.Items.{upsert_item}
use catchment.Storage.Health.{record_health}
use catchment.Ingestion.{row_of}
use catchment.Ingestion.Whatsapp.{Clock, ParsedMessage, Tally, parse_webhook}
pub mod Authentic
pub mod Retried

-- What the routes read and call: the settings, the hexadecimal HMAC-SHA256 under a secret,
-- `json.loads` (parse_error is its `JSONDecodeError`), and the queue.
pub record Hooks : Type 0 where
  pub secret : Result Text
  pub verify_token : Option Text
  pub hexdigest : Text → List ℕ → Text
  pub loads : List ℕ → Result Json
  pub clock : Clock
  pub enqueue : ℕ → Option Text → Result (Unit {0})

pub record Request : Type 0 where
  pub body : List ℕ
  pub signature : Option Text

pub record WebhookAck : Type 0 where
  pub received : ℕ
  pub accepted : ℕ
  pub queued : ℕ
  pub skipped : ℕ

-- `hmac.compare_digest` of two texts: it takes ASCII only.
unfoldable pub compare_digest : Text → Text → Result Bool
compare_digest a b =
    if any (leb 128) a || any (leb 128) b then raise type_error else ok (text_beq a b)

abbrev pub compare_rest : Option Text → Text → Result Bool
compare_rest none expected = ok false
compare_rest (some rest) expected = compare_digest (strip rest) expected

unfoldable pub verify_signature : Hooks → Text → List ℕ → Option Text → Result Bool
verify_signature h secret body none = ok false
verify_signature h secret body (some header) =
    compare_rest (after_prefix (codes "sha256=") header) (h.hexdigest secret body)

abbrev pub allow : Text → Result Bool → Result Text
allow challenge (ok true) = ok challenge
allow challenge (ok false) = raise forbidden
allow challenge (raise e) = raise e

abbrev pub or_empty : Option Text → Text
or_empty none = []
or_empty (some t) = t

abbrev pub token_matches : Option Text → Option Text → Text → Result Bool
token_matches (some mode) (some token) configured =
    if text_beq mode (codes "subscribe") then compare_digest token configured else ok false
token_matches _ _ configured = ok false

unfoldable pub verify_subscription :
    Option Text → Option Text → Option Text → Option Text → Result Text
verify_subscription none mode token challenge = raise service_unavailable
verify_subscription (some configured) mode token challenge =
    allow (or_empty challenge) (token_matches mode token configured)

-- The items that are new, with the texts that came with them.
unfoldable pub upsert_messages : List ParsedMessage → Db (List (ℕ × Option Text))
upsert_messages [] = pure []
upsert_messages (m ∷ rest) = do
  (id, item, created) ← upsert_item (row_of m.record_of)
  waiting ← upsert_messages rest
  pure (if created then (id, m.text) ∷ waiting else waiting)

-- The transaction: the items, and the report of a delivery.
unfoldable pub take_in : ℕ → Tally → Db (List (ℕ × Option Text))
take_in now (messages, skipped) = do
  waiting ← upsert_messages messages
  record_health whatsapp success (length messages + skipped) (length waiting) none now
  pure waiting

-- The jobs that the queue took, and how the loop ended.
abbrev pub then_queued :
    ℕ × Option Text
    → Result (Unit {0})
    → List (ℕ × Option Text) × Result (Unit {0})
    → List (ℕ × Option Text) × Result (Unit {0})
then_queued job (ok u) (jobs, ended) = (job ∷ jobs, ended)
then_queued job (raise e) rest = ([], raise e)

unfoldable pub enqueue_pending :
    Hooks → List (ℕ × Option Text) → List (ℕ × Option Text) × Result (Unit {0})
enqueue_pending h [] = ([], ok tt)
enqueue_pending h ((id, content) ∷ rest) =
    then_queued (id, content) (h.enqueue id content) (enqueue_pending h rest)

abbrev pub ack_of : Tally → ℕ → WebhookAck
ack_of (messages, skipped) queued = record {
  received = length messages + skipped;
  accepted = length messages;
  queued = queued;
  skipped = skipped;
}

-- What a request leaves: the answer, the jobs queued, and the database.
abbrev pub Delivery : Type 0
Delivery = Result WebhookAck × List (ℕ × Option Text) × Store

abbrev pub answered : Tally → ℕ → Store → List (ℕ × Option Text) × Result (Unit {0}) → Delivery
answered t queued s (jobs, ok u) = (ok (ack_of t queued), jobs, s)
answered t queued s (jobs, raise e) = (raise e, jobs, s)

-- After the commit.
abbrev pub committed : Hooks → Tally → Result (List (ℕ × Option Text)) × Store → Delivery
committed h t (raise e, s) = (raise e, [], s)
committed h t (ok waiting, s) = answered t (length waiting) s (enqueue_pending h waiting)

abbrev pub taken_in : Hooks → ℕ → Store → Result Tally → Delivery
taken_in h now s (raise e) = (raise e, [], s)
taken_in h now s (ok t) = committed h t (nested (take_in now t) s)

-- `except json.JSONDecodeError`.
abbrev pub load_error : Error → Error
load_error parse_error = bad_request
load_error e = e

abbrev pub loaded : Hooks → ℕ → Store → Result Json → Delivery
loaded h now s (ok (obj payload)) = taken_in h now s (parse_webhook h.clock payload)
loaded h now s (ok _) = (raise bad_request, [], s)
loaded h now s (raise e) = (raise (load_error e), [], s)

abbrev pub verified : Hooks → ℕ → List ℕ → Store → Result Bool → Delivery
verified h now body s (ok true) = loaded h now s (h.loads body)
verified h now body s (ok false) = (raise forbidden, [], s)
verified h now body s (raise e) = (raise e, [], s)

abbrev pub with_secret : Hooks → ℕ → Request → Store → Result Text → Delivery
with_secret h now r s (raise e) = (raise e, [], s)
with_secret h now r s (ok secret) =
    verified h now r.body s (verify_signature h secret r.body r.signature)

unfoldable pub receive_webhook : Hooks → ℕ → Request → Store → Delivery
receive_webhook h now r s = with_secret h now r s h.secret
