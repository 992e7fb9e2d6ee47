-- ===== src/Ingestion/Whatsapp/Leaves/Converse.antt =====
-- What the two passes give, the one pass of `parse_webhook` gives too.
use catchment.Prelude.{
  List, Option, Table, Text, [], ap, arith, inl, inr, length, nat_eq, pair_eq, refl, some, subst,
  suc, sym, text_eq, ℕ, ◌++◌, ◌+◌, ◌↔◌, ◌∙◌, ◌∷◌, ◌≡◌,
}
use catchment.Prelude.Json.{Fields, Json, get, obj}
use catchment.Prelude.Strip.{codes}
use catchment.Storage.Session.{Result, Result-cases, ok, raise}
use catchment.Ingestion.Values.{iterate, map_ok}
use catchment.Ingestion.Whatsapp.{
  Clock, ParsedMessage, Tally, contact_names, none_yet, one_message, one_skipped, parse_message,
  parse_webhook, tally_all, tally_change, tally_each, tally_entry, tally_message, tally_named,
  tally_value,
}
use catchment.Ingestion.Whatsapp.Leaves.{
  Listed, Reads, alone, handled, list_all, list_change, list_each, list_entry, list_message,
  list_named, list_value, listed, message, misshapen, nothing, passed, unhandled,
}
use catchment.Ingestion.Whatsapp.Leaves.Agreement.{parse_webhook-Reads}

ok-inj : {A : Type 0} (a b : A) → ok a ≡ ok b → a ≡ b
ok-inj a b h = ap (value_or a) h
  where
    value_or : {A : Type 0} → A → Result A → A
    value_or a (ok b) = b
    value_or a (raise e) = a

module _ (clock : Clock) where
  Reads-split :
      (xs ys : List Listed) (ps : List ParsedMessage) (n : ℕ)
      → Reads clock (xs ++ ys) ps n
      → (qs : List ParsedMessage) × (rs : List ParsedMessage) × (k : ℕ) × (l : ℕ) × Reads clock xs
          qs k
        × Reads clock ys rs l
        × (qs ++ rs ≡ ps)
        × (k + l ≡ n)
  Reads-split [] ys ps n r = ([], ps, 0, n, nothing, r, refl, omega arith)
  Reads-split (misshapen ∷ xs) ys ps n (passed _ ps' n' r) =
      let (qs, rs, k, l, first, rest, same, sum) = Reads-split xs ys ps' n' r in
      (qs, rs, suc k, l, passed xs qs k first, rest, same, omega (arith, sum))
  Reads-split (message names m ∷ xs) ys ps n (unhandled _ _ _ ps' n' e r) =
      let (qs, rs, k, l, first, rest, same, sum) = Reads-split xs ys ps' n' r in
      (qs, rs, suc k, l, unhandled names m xs qs k e first, rest, same, omega (arith, sum))
  Reads-split (message names m ∷ xs) ys ps n (handled _ _ p _ ps' n' e r) =
      let (qs, rs, k, l, first, rest, same, sum) = Reads-split xs ys ps' n' r in
      (p ∷ qs, rs, k, l, handled names m p xs qs k e first, rest, ap (λ t. p ∷ t) same, sum)

  -- The first pass and then the second lead to what the one pass gives.
  abbrev Reaches : Result (List Listed) → Result Tally → Type 0
  Reaches a b =
      (xs : List Listed) (ps : List ParsedMessage) (n : ℕ)
      → a ≡ ok xs
      → Reads clock xs ps n
      → b ≡ ok (ps, n)

  Reads-nil : (ps : List ParsedMessage) (n : ℕ) → Reads clock [] ps n → ok none_yet ≡ ok (ps, n)
  Reads-nil ps n nothing = refl

  tally_each-Reaches :
      (list : Json → Result (List Listed)) (tally : Json → Result Tally)
      → ((j : Json) → Reaches (list j) (tally j))
      → (js : List Json) → Reaches (list_each list js) (tally_each tally js)
  unfolding list_each tally_each
  tally_each-Reaches list tally each [] xs ps n h r =
      Reads-nil ps n (subst (λ ys. Reads clock ys ps n) (sym (ok-inj [] xs h)) r)
  tally_each-Reaches list tally each (j ∷ js) xs ps n h r = elim (Result-cases (list j)) [
    | inr (e, a) ↦ ground (arith, a, h)
    | inl (us, a) ↦ elim (Result-cases (list_each list js)) [
      | inr (e, b) ↦ ground (arith, a, b, h)
      | inl (vs, b) ↦
          let whole = ok-inj (us ++ vs) xs (ground (arith, a, b, h)) in
          let (qs, rs, k, l, first, rest, same, sum) =
            Reads-split us vs ps n (subst (λ ys. Reads clock ys ps n) (sym whole) r) in
          rw (each j us qs k a first) (
            rw (tally_each-Reaches list tally each js vs rs l b rest)
              (ap (λ t. ok (t, k + l)) same ∙ ap (λ m. ok (ps, m)) sum))
    ]
  ]

  tally_all-Reaches :
      (list : Json → Result (List Listed)) (tally : Json → Result Tally)
      → ((j : Json) → Reaches (list j) (tally j))
      → (js : Result (List Json)) → Reaches (list_all list js) (tally_all tally js)
  tally_all-Reaches list tally each (ok js) xs ps n h r =
      tally_each-Reaches list tally each js xs ps n h r
  tally_all-Reaches list tally each (raise e) xs ps n h r = ground (arith, h)

  Reads-misshapen :
      (ps : List ParsedMessage) (n : ℕ)
      → Reads clock (misshapen ∷ []) ps n
      → ok one_skipped ≡ ok (ps, n)
  Reads-misshapen ps n (passed _ ps' n' r) =
      ap (λ t. ok (t.0, suc t.1)) (ok-inj none_yet (ps', n') (Reads-nil ps' n' r))

  one_skipped-Reaches : Reaches alone (ok one_skipped)
  one_skipped-Reaches xs ps n h r =
      Reads-misshapen ps n
        (subst (λ ys. Reads clock ys ps n) (sym (ok-inj (misshapen ∷ []) xs h)) r)

  Reads-message :
      (names : Table Text Text) (m : Fields) (ps : List ParsedMessage) (n : ℕ)
      → Reads clock (message names m ∷ []) ps n
      → map_ok one_message (parse_message clock names m) ≡ ok (ps, n)
  Reads-message names m ps n (unhandled _ _ _ ps' n' e r) =
      ap (map_ok one_message) e
      ∙ ap (λ t. ok (t.0, suc t.1)) (ok-inj none_yet (ps', n') (Reads-nil ps' n' r))
  Reads-message names m ps n (handled _ _ p _ ps' n' e r) =
      ap (map_ok one_message) e
      ∙ ap (λ t. ok (p ∷ t.0, t.1)) (ok-inj none_yet (ps', n') (Reads-nil ps' n' r))

  tally_message-Reaches :
      (names : Table Text Text) (j : Json)
      → Reaches (list_message names j) (tally_message clock names j)
  tally_message-Reaches names (obj m) xs ps n h r =
      Reads-message names m ps n
        (subst (λ ys. Reads clock ys ps n) (sym (ok-inj (message names m ∷ []) xs h)) r)
  tally_message-Reaches names _ xs ps n h r = one_skipped-Reaches xs ps n h r

  tally_named-Reaches :
      (names : Result (Table Text Text)) (value : Fields)
      → Reaches (list_named names value) (tally_named clock names value)
  tally_named-Reaches (ok names) value xs ps n h r =
      tally_all-Reaches (list_message names) (tally_message clock names)
        (tally_message-Reaches names) (iterate (get (codes "messages") value)) xs ps n h r
  tally_named-Reaches (raise e) value xs ps n h r = ground (arith, h)

  tally_value-Reaches : (v : Option Json) → Reaches (list_value v) (tally_value clock v)
  tally_value-Reaches (some (obj value)) = tally_named-Reaches (contact_names value) value
  tally_value-Reaches _ = one_skipped-Reaches

  tally_change-Reaches : (j : Json) → Reaches (list_change j) (tally_change clock j)
  tally_change-Reaches (obj change) = tally_value-Reaches (get (codes "value") change)
  tally_change-Reaches _ = one_skipped-Reaches

  tally_entry-Reaches : (j : Json) → Reaches (list_entry j) (tally_entry clock j)
  tally_entry-Reaches (obj entry) =
      tally_all-Reaches list_change (tally_change clock) tally_change-Reaches
        (iterate (get (codes "changes") entry))
  tally_entry-Reaches _ = one_skipped-Reaches

  parse_webhook-Reaches :
      (payload : Fields) → Reaches (listed payload) (parse_webhook clock payload)
  unfolding parse_webhook listed
  parse_webhook-Reaches payload =
      tally_all-Reaches list_entry (tally_entry clock) tally_entry-Reaches
        (iterate (get (codes "entry") payload))

  -- `parse_webhook` gives some messages and a number exactly where the payload lists values that read
  -- so, in order: each message that is handled once, and each other message or misshapen value
  -- counted as skipped; and then the two numbers add up to the number of values listed.
  pub parse_webhook-exact :
      (payload : Fields) (parsed : List ParsedMessage) (skipped : ℕ)
      → (parse_webhook clock payload ≡ ok (parsed, skipped)) ↔ (
          (xs : List Listed) × (listed payload ≡ ok xs)
          × Reads clock xs parsed skipped
          × (length xs ≡ length parsed + skipped))
  parse_webhook-exact payload parsed skipped = (
    parse_webhook-Reads clock payload parsed skipped,
    λ all. parse_webhook-Reaches payload all.0 parsed skipped all.1 all.2,
  )
