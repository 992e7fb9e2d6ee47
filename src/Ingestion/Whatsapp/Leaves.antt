-- ===== src/Ingestion/Whatsapp/Leaves.antt =====
-- `parse_webhook` beside a reading in two passes: first what the payload lists, then each of it.
use catchment.Prelude.{
  List, Option, Table, Text, [], arith, length, nat_eq, none, pair_eq, some, subst, suc, text_eq, ℕ,
  ◌++◌, ◌+◌, ◌∷◌, ◌≡◌,
}
use catchment.Prelude.Json.{Fields, Json, get, obj}
use catchment.Prelude.Strip.{codes}
use catchment.Storage.Session.{Result, ok, raise}
use catchment.Ingestion.Values.{iterate}
use catchment.Ingestion.Whatsapp.{Clock, ParsedMessage, contact_names, parse_message}
pub mod Agreement
pub mod Converse

-- What stands at the end of a walk through the payload: a message, with the names of its change, or
-- a value of another shape than the payload's.
pub data Listed : Type 0 where
  message : Table Text Text → Fields → Listed
  misshapen : Listed

abbrev pub join_ok : Result (List Listed) → Result (List Listed) → Result (List Listed)
join_ok (ok xs) (ok ys) = ok (xs ++ ys)
join_ok (raise e) ys = raise e
join_ok (ok xs) (raise e) = raise e

unfoldable pub list_each : (Json → Result (List Listed)) → List Json → Result (List Listed)
list_each body [] = ok []
list_each body (j ∷ js) = join_ok (body j) (list_each body js)

abbrev pub list_all : (Json → Result (List Listed)) → Result (List Json) → Result (List Listed)
list_all body (ok js) = list_each body js
list_all body (raise e) = raise e

abbrev pub alone : Result (List Listed)
alone = ok (misshapen ∷ [])

abbrev pub list_message : Table Text Text → Json → Result (List Listed)
list_message names (obj m) = ok (message names m ∷ [])
list_message names _ = alone

abbrev pub list_named : Result (Table Text Text) → Fields → Result (List Listed)
list_named (ok names) value = list_all (list_message names) (iterate (get (codes "messages") value))
list_named (raise e) value = raise e

abbrev pub list_value : Option Json → Result (List Listed)
list_value (some (obj value)) = list_named (contact_names value) value
list_value _ = alone

abbrev pub list_change : Json → Result (List Listed)
list_change (obj change) = list_value (get (codes "value") change)
list_change _ = alone

abbrev pub list_entry : Json → Result (List Listed)
list_entry (obj entry) = list_all list_change (iterate (get (codes "changes") entry))
list_entry _ = alone

unfoldable pub listed : Fields → Result (List Listed)
listed payload = list_all list_entry (iterate (get (codes "entry") payload))

-- The second pass. `Reads clock xs parsed skipped`: of `xs`, in order, `parsed` are the messages that
-- are handled, and `skipped` counts the others.
pub data Reads (clock : Clock) : List Listed → List ParsedMessage → ℕ → Type 0 where
  nothing : Reads clock [] [] 0
  passed :
      (xs : List Listed) (ps : List ParsedMessage) (n : ℕ)
      → Reads clock xs ps n
      → Reads clock (misshapen ∷ xs) ps (suc n)
  unhandled :
      (names : Table Text Text) (m : Fields) (xs : List Listed) (ps : List ParsedMessage) (n : ℕ)
      → parse_message clock names m ≡ ok none
      → Reads clock xs ps n
      → Reads clock (message names m ∷ xs) ps (suc n)
  handled :
      (names : Table Text Text) (m : Fields) (p : ParsedMessage) (xs : List Listed)
      (ps : List ParsedMessage) (n : ℕ)
      → parse_message clock names m ≡ ok (some p)
      → Reads clock xs ps n
      → Reads clock (message names m ∷ xs) (p ∷ ps) n

pub Reads-length :
    (clock : Clock) (xs : List Listed) (ps : List ParsedMessage) (n : ℕ)
    → Reads clock xs ps n
    → length xs ≡ length ps + n
Reads-length clock xs ps n nothing = ground arith
Reads-length clock xs ps n (passed ys ps' k r) = omega (arith, Reads-length clock ys ps' k r)
Reads-length clock xs ps n (unhandled names m ys ps' k e r) =
    omega (arith, Reads-length clock ys ps' k r)
Reads-length clock xs ps n (handled names m p ys ps' k e r) =
    omega (arith, Reads-length clock ys ps' k r)

pub Reads-append :
    (clock : Clock) (xs ys : List Listed) (ps qs : List ParsedMessage) (n k : ℕ)
    → Reads clock xs ps n
    → Reads clock ys qs k
    → Reads clock (xs ++ ys) (ps ++ qs) (n + k)
Reads-append clock xs ys ps qs n k nothing s = subst (Reads clock ys qs) (omega arith) s
Reads-append clock xs ys ps qs n k (passed xs' ps' n' r) s =
    subst (Reads clock (misshapen ∷ xs' ++ ys) (ps' ++ qs)) (omega arith)
      (passed (xs' ++ ys) (ps' ++ qs) (n' + k) (Reads-append clock xs' ys ps' qs n' k r s))
Reads-append clock xs ys ps qs n k (unhandled names m xs' ps' n' e r) s =
    subst (Reads clock (message names m ∷ xs' ++ ys) (ps' ++ qs)) (omega arith) (
      unhandled names m (xs' ++ ys) (ps' ++ qs) (n' + k) e
        (Reads-append clock xs' ys ps' qs n' k r s))
Reads-append clock xs ys ps qs n k (handled names m p xs' ps' n' e r) s =
    handled names m p (xs' ++ ys) (ps' ++ qs) (n' + k) e (Reads-append clock xs' ys ps' qs n' k r s)
