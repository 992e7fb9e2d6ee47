-- ===== src/Ingestion/Whatsapp/Webhook/Authentic.antt =====
-- What a request must be for `receive_webhook` to act on it.
use catchment.Prelude.{
  List, Option, Option-cases, Text, [], ap, arith, false, inl, inr, nat_eq, none, pair_eq, refl,
  some, sym, text_beq_iff, text_eq, true, ℕ, ◌++◌, ◌∙◌, ◌≡◌, ◌⊎◌,
}
use catchment.Prelude.Json.{Fields, Json, obj}
use catchment.Prelude.Split.{after_prefix, append-after_prefix}
use catchment.Prelude.Strip.{codes, strip}
use catchment.Storage.Session.{
  Error, Result, Result-cases, bad_request, forbidden, nested, ok, raise,
}
use catchment.Storage.Models.{Store}
use catchment.Ingestion.Whatsapp.{Tally, parse_webhook}
use catchment.Ingestion.Whatsapp.Webhook.{
  Hooks, Request, committed, compare_digest, compare_rest, load_error, loaded, receive_webhook,
  take_in, taken_in, verified, verify_signature, with_secret,
}

compare_digest-same : (a b : Text) → compare_digest a b ≡ ok true → a ≡ b
unfolding compare_digest
compare_digest-same a b h = ground (arith, h, text_beq_iff a b)

-- A header that carries, after the prefix, the digest of the very body under the secret.
abbrev pub IsSigned : Hooks → Text → List ℕ → Option Text → Type 0
IsSigned h secret body header =
    (rest : Text) × (header ≡ some (codes "sha256=" ++ rest))
    × (strip rest ≡ h.hexdigest secret body)

verify_signature-IsSigned :
    (h : Hooks) (secret : Text) (body : List ℕ) (header : Option Text)
    → verify_signature h secret body header ≡ ok true
    → IsSigned h secret body header
unfolding verify_signature
verify_signature-IsSigned h secret body none v = ground (arith, v)
verify_signature-IsSigned h secret body (some header) v =
    elim (Option-cases (after_prefix (codes "sha256=") header)) [
      | inl e ↦ ground (arith, e, v)
      | inr (rest, e) ↦ (
        rest,
        ap some (sym (append-after_prefix (codes "sha256=") header rest e)),
        compare_digest-same (strip rest) (h.hexdigest secret body)
            (sym (ap (λ o. compare_rest o (h.hexdigest secret body)) e) ∙ v),
      )
    ]

-- A request that is signed, that is a JSON object, and whose messages are `t`.
abbrev pub IsAccepted : Hooks → Request → Tally → Type 0
IsAccepted h r t =
    (secret : Text) × (payload : Fields) × (h.secret ≡ ok secret)
    × (verify_signature h secret r.body r.signature ≡ ok true)
    × (h.loads r.body ≡ ok (obj payload))
    × (parse_webhook h.clock payload ≡ ok t)

pub receive_webhook-IsAccepted :
    (h : Hooks) (now : ℕ) (r : Request) (t : Tally) (s : Store)
    → IsAccepted h r t
    → receive_webhook h now r s ≡ committed h t (nested (take_in now t) s)
unfolding receive_webhook
receive_webhook-IsAccepted h now r t s (secret, payload, known, signed, object, parsed) =
    ap (with_secret h now r s) known
    ∙ ap (verified h now r.body s) signed
    ∙ ap (loaded h now s) object
    ∙ ap (taken_in h now s) parsed

loaded-cases :
    (h : Hooks) (now : ℕ) (s : Store) (read : Result Json)
    → ((e : Error) × (loaded h now s read ≡ (raise e, [], s)))
      ⊎ ((payload : Fields) × (t : Tally) × (read ≡ ok (obj payload))
          × (parse_webhook h.clock payload ≡ ok t))
loaded-cases h now s (ok (obj payload)) = elim (Result-cases (parse_webhook h.clock payload)) [
  | inl (t, e) ↦ inr (payload, t, refl, e)
  | inr (e, p) ↦ inl (e, ap (taken_in h now s) p)
]
loaded-cases h now s (ok _) = inl (bad_request, refl)
loaded-cases h now s (raise e) = inl (load_error e, refl)

-- `receive_webhook` raises and leaves the database and the queue as they were, or the request
-- carries the digest of its very body, and is a JSON object of which every message was read.
pub receive_webhook-authentic :
    (h : Hooks) (now : ℕ) (r : Request) (s : Store)
    → ((e : Error) × (receive_webhook h now r s ≡ (raise e, [], s)))
      ⊎ ((secret : Text) × (payload : Fields) × (t : Tally) × (h.secret ≡ ok secret)
          × IsSigned h secret r.body r.signature
          × (h.loads r.body ≡ ok (obj payload))
          × (parse_webhook h.clock payload ≡ ok t))
unfolding receive_webhook
receive_webhook-authentic h now r s = elim (Result-cases h.secret) [
  | inr (e, k) ↦ inl (e, ap (with_secret h now r s) k)
  | inl (secret, k) ↦
      let run = ap (with_secret h now r s) k in
      elim (Result-cases (verify_signature h secret r.body r.signature)) [
        | inr (e, v) ↦ inl (e, run ∙ ap (verified h now r.body s) v)
        | inl (false, v) ↦ inl (forbidden, run ∙ ap (verified h now r.body s) v)
        | inl (true, v) ↦ elim (loaded-cases h now s (h.loads r.body)) [
          | inl (e, p) ↦ inl (e, run ∙ ap (verified h now r.body s) v ∙ p)
          | inr (payload, t, object, parsed) ↦ inr (
            secret,
            payload,
            t,
            k,
            verify_signature-IsSigned h secret r.body r.signature v,
            object,
            parsed,
          )
        ]
      ]
]
