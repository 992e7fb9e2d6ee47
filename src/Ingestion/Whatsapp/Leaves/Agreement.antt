-- ===== src/Ingestion/Whatsapp/Leaves/Agreement.antt =====
-- The one pass of `parse_webhook` and the two passes agree.
use catchment.Prelude.{
  List, Option, Table, Text, [], ap, arith, inl, inr, length, nat_eq, none, pair_eq, refl, some,
  subst, sym, text_eq, ℕ, ◌++◌, ◌+◌, ◌∙◌, ◌∷◌, ◌≡◌,
}
use catchment.Prelude.Json.{Fields, Json, get, obj}
use catchment.Prelude.Strip.{codes}
use catchment.Storage.Session.{Result, Result-cases, ok, raise}
use catchment.Ingestion.Values.{iterate, map_ok}
use catchment.Ingestion.Whatsapp.{
  Clock, ParsedMessage, Tally, contact_names, none_yet, one_message, one_skipped, parse_message,
  parse_webhook, tally_all, tally_change, tally_each, tally_entry, tally_message, tally_named,
  tally_value,
}
use catchment.Ingestion.Whatsapp.Leaves.{
  Listed, Reads, Reads-append, Reads-length, alone, handled, list_all, list_change, list_each,
  list_entry, list_message, list_named, list_value, listed, message, misshapen, nothing, passed,
  unhandled,
}

ok-same : (t u : Tally) → ok t ≡ ok u → t ≡ u
ok-same t u h = ground (arith, h)

module _ (clock : Clock) where
  abbrev Agrees : Result (List Listed) → Result Tally → Type 0
  Agrees a b = (t : Tally) → b ≡ ok t → (xs : List Listed) × (a ≡ ok xs) × Reads clock xs t.0 t.1

  tally_each-Agrees :
      (list : Json → Result (List Listed)) (tally : Json → Result Tally)
      → ((j : Json) → Agrees (list j) (tally j))
      → (js : List Json) → Agrees (list_each list js) (tally_each tally js)
  unfolding list_each tally_each
  tally_each-Agrees list tally each [] (ps, n) h =
      ([], refl, subst (λ t. Reads clock [] t.0 t.1) (ok-same none_yet (ps, n) h) nothing)
  tally_each-Agrees list tally each (j ∷ js) (ps, n) h = elim (Result-cases (tally j)) [
    | inr (e, this) ↦ ground (arith, this, h)
    | inl ((qs, k), this) ↦ elim (Result-cases (tally_each tally js)) [
      | inr (e, more) ↦ ground (arith, this, more, h)
      | inl ((rs, l), more) ↦
          let (xs, here, first) = each j (qs, k) this in
          let (ys, there, rest) = tally_each-Agrees list tally each js (rs, l) more in
          let same = ok-same (qs ++ rs, k + l) (ps, n) (ground (arith, this, more, h)) in
          (
            xs ++ ys,
            rw here (rw there refl),
            subst (λ t. Reads clock (xs ++ ys) t.0 t.1) same
                (Reads-append clock xs ys qs rs k l first rest),
          )
    ]
  ]

  tally_all-Agrees :
      (list : Json → Result (List Listed)) (tally : Json → Result Tally)
      → ((j : Json) → Agrees (list j) (tally j))
      → (js : Result (List Json)) → Agrees (list_all list js) (tally_all tally js)
  tally_all-Agrees list tally each (ok js) t h = tally_each-Agrees list tally each js t h
  tally_all-Agrees list tally each (raise e) t h = ground (arith, h)

  one_skipped-Agrees : Agrees alone (ok one_skipped)
  one_skipped-Agrees t h = (
    misshapen ∷ [],
    refl,
    subst (λ t. Reads clock (misshapen ∷ []) t.0 t.1) (ok-same one_skipped t h)
        (passed [] [] 0 nothing),
  )

  tally_message-Agrees :
      (names : Table Text Text) (j : Json)
      → Agrees (list_message names j) (tally_message clock names j)
  tally_message-Agrees names (obj m) t h = elim (Result-cases (parse_message clock names m)) [
    | inr (e, read) ↦ ground (arith, read, h)
    | inl (none, read) ↦ (
      message names m ∷ [],
      refl,
      subst (λ t. Reads clock (message names m ∷ []) t.0 t.1)
          (ok-same one_skipped t (sym (ap (map_ok one_message) read) ∙ h))
          (unhandled names m [] [] 0 read nothing),
    )
    | inl (some p, read) ↦ (
      message names m ∷ [],
      refl,
      subst (λ t. Reads clock (message names m ∷ []) t.0 t.1)
          (ok-same (p ∷ [], 0) t (sym (ap (map_ok one_message) read) ∙ h))
          (handled names m p [] [] 0 read nothing),
    )
  ]
  tally_message-Agrees names _ t h = one_skipped-Agrees t h

  tally_named-Agrees :
      (names : Result (Table Text Text)) (value : Fields)
      → Agrees (list_named names value) (tally_named clock names value)
  tally_named-Agrees (ok names) value t h =
      tally_all-Agrees (list_message names) (tally_message clock names) (tally_message-Agrees names)
        (iterate (get (codes "messages") value)) t h
  tally_named-Agrees (raise e) value t h = ground (arith, h)

  tally_value-Agrees : (v : Option Json) → Agrees (list_value v) (tally_value clock v)
  tally_value-Agrees (some (obj value)) = tally_named-Agrees (contact_names value) value
  tally_value-Agrees _ = one_skipped-Agrees

  tally_change-Agrees : (j : Json) → Agrees (list_change j) (tally_change clock j)
  tally_change-Agrees (obj change) = tally_value-Agrees (get (codes "value") change)
  tally_change-Agrees _ = one_skipped-Agrees

  tally_entry-Agrees : (j : Json) → Agrees (list_entry j) (tally_entry clock j)
  tally_entry-Agrees (obj entry) =
      tally_all-Agrees list_change (tally_change clock) tally_change-Agrees
        (iterate (get (codes "changes") entry))
  tally_entry-Agrees _ = one_skipped-Agrees

  pub parse_webhook-Reads :
      (payload : Fields) (parsed : List ParsedMessage) (skipped : ℕ)
      → parse_webhook clock payload ≡ ok (parsed, skipped)
      → (xs : List Listed) × (listed payload ≡ ok xs)
        × Reads clock xs parsed skipped
        × (length xs ≡ length parsed + skipped)
  unfolding parse_webhook listed
  parse_webhook-Reads payload parsed skipped h =
      let (xs, there, read) =
        tally_all-Agrees list_entry (tally_entry clock) tally_entry-Agrees
          (iterate (get (codes "entry") payload)) (parsed, skipped) h in
      (xs, there, read, Reads-length clock xs parsed skipped read)
