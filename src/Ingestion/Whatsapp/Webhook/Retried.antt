-- ===== src/Ingestion/Whatsapp/Webhook/Retried.antt =====
-- A delivery that comes again.
use catchment.Prelude.{
  All, All-mono, Bool, Has, List, Option, Text, [], ap, arith, false, find, if◌then◌else◌, inl, inr,
  is_some, length, map, nat_eq, none, pair_eq, refl, some, subst, suc, sym, text_eq, true, ℕ, ◌+◌,
  ◌∙◌, ◌∷◌, ◌≡◌,
}
use catchment.Storage.Session.{Db-cases, nested, ok}
use catchment.Storage.Models.{Item, Store}
use catchment.Storage.Enums.{Source, success, whatsapp}
use catchment.Storage.Items.{upsert_item}
use catchment.Storage.Health.{record_health}
use catchment.Ingestion.{RawRecord, add_created, ingest_loop, or_source, row_of}
use catchment.Ingestion.Repeated.{Fits, ingest_loop-again}
use catchment.Ingestion.Whatsapp.{ParsedMessage, Tally}
use catchment.Ingestion.Whatsapp.Webhook.{
  Hooks, Request, ack_of, answered, committed, enqueue_pending, receive_webhook, take_in,
  upsert_messages,
}
use catchment.Ingestion.Whatsapp.Webhook.Authentic.{IsAccepted, receive_webhook-IsAccepted}
use catchment.Ingestion.Grown.{
  Grown, Grown-none, Grown-Step, IsFresh, Known, Step, Step-find_new, upsert_item-total,
}

abbrev pub records_of : List ParsedMessage → List RawRecord
records_of = map (λ m. m.record_of)

abbrev pub ids_of : List (ℕ × Option Text) → List ℕ
ids_of = map (λ job. job.0)

-- What a message adds to the jobs.
abbrev add_job : Bool → ℕ → Option Text → List (ℕ × Option Text) → List (ℕ × Option Text)
add_job made id content jobs = if made then (id, content) ∷ jobs else jobs

-- The items of a delivery are those of the batch of its records: the same loop, but for the texts.
upsert_messages-ingest_loop :
    (seen : ℕ) (source : Option Source) (messages : List ParsedMessage) (s : Store) (n : ℕ)
    (source' : Option Source) (ids : List ℕ) (t : Store)
    → ingest_loop seen source (records_of messages) s ≡ (ok (n, source', ids), t)
    → (jobs : List (ℕ × Option Text)) × (upsert_messages messages s ≡ (ok jobs, t))
      × (ids_of jobs ≡ ids)
unfolding ingest_loop upsert_messages
upsert_messages-ingest_loop seen source [] s n source' ids t h =
    ([], ground (arith, h), ground (arith, h))
upsert_messages-ingest_loop seen source (m ∷ rest) s n source' ids t h =
    elim (Db-cases (upsert_item (row_of m.record_of)) s) [
      | inr (e, s', u) ↦ ground (arith, h, u)
      | inl ((id, item, made), s', u) ↦
          elim (Db-cases
            (ingest_loop (suc seen) (or_source source m.record_of.source) (records_of rest)) s') [
              | inr (e, t', l) ↦ ground (arith, h, u, l)
              | inl ((n', src, more), t', l) ↦
                  let (jobs, run, same) =
                    upsert_messages-ingest_loop (suc seen) (or_source source m.record_of.source)
                      rest s' n' src more t' l in
                  (
                    add_job made id m.text jobs,
                    ground (arith, u, run, h, l),
                    ground (arith, u, same, h, l),
                  )
            ]
    ]

-- A job is of a message: it has the message's text, and its id is that of a row of its record.
pub record IsJobOf (messages : List ParsedMessage) (t : Store) (job : ℕ × Option Text)
    : Type 0 where
  pub message : ParsedMessage
  pub of_delivery : Has message messages
  pub stored : find job.0 t.items ≡ some (row_of message.record_of)
  pub content : job.1 ≡ message.text

later_messages :
    (m : ParsedMessage) (messages : List ParsedMessage) (t : Store) (jobs : List (ℕ × Option Text))
    → All (IsJobOf messages t) jobs
    → All (IsJobOf (m ∷ messages) t) jobs
later_messages m messages t jobs =
    All-mono (IsJobOf messages t) (IsJobOf (m ∷ messages) t) jobs (λ job j. record {
      message = j.message;
      of_delivery = inr j.of_delivery;
      stored = j.stored;
      content = j.content;
    })

add_job-IsJobOf :
    (made : Bool) (id : ℕ) (row : Item) (m : ParsedMessage) (rest : List ParsedMessage)
    (jobs : List (ℕ × Option Text)) (s t t' : Store)
    → Step made id (row_of m.record_of) row s t
    → Grown (ids_of jobs) t t'
    → All (IsJobOf rest t') jobs
    → All (IsJobOf (m ∷ rest) t') (add_job made id m.text jobs)
add_job-IsJobOf false id row m rest jobs s t t' step g all = later_messages m rest t' jobs all
add_job-IsJobOf true id row m rest jobs s t t' step g all =
    let here = Step-find_new id (row_of m.record_of) row s t step in
    (
      record {
        message = m;
        of_delivery = inl refl;
        stored = g.rows id (ap is_some here) ∙ here;
        content = refl;
      },
      later_messages m rest t' jobs all,
    )

ids_of-add_job :
    (made : Bool) (id : ℕ) (content : Option Text) (jobs : List (ℕ × Option Text))
    → ids_of (add_job made id content jobs) ≡ add_created made id (ids_of jobs)
ids_of-add_job true id content jobs = refl
ids_of-add_job false id content jobs = refl

-- The items of a delivery whose ids fit: a job for each row that is added, and no other.
upsert_messages-total :
    (messages : List ParsedMessage) (s : Store)
    → All Fits (records_of messages)
    → IsFresh s
    → (jobs : List (ℕ × Option Text)) × (t : Store) × (upsert_messages messages s ≡ (ok jobs, t))
      × Grown (ids_of jobs) s t
      × All (Known t.items) (records_of messages)
      × All (IsJobOf messages t) jobs
unfolding upsert_messages
upsert_messages-total [] s shorts fresh = ([], s, refl, Grown-none s, tt, tt)
upsert_messages-total (m ∷ rest) s (short, shorts) fresh =
    let (id, row, made, t, run, fresh', known, step) =
      upsert_item-total (row_of m.record_of) s short fresh in
    let (jobs, t', run', grown, all, jobs_of) = upsert_messages-total rest t shorts fresh' in
    (
      add_job made id m.text jobs,
      t',
      ground (arith, run, run'),
      subst (λ ids. Grown ids s t') (sym (ids_of-add_job made id m.text jobs))
          (Grown-Step made id (row_of m.record_of) row (ids_of jobs) s t t' step grown),
      (grown.known m.record_of.source m.record_of.source_id known, all),
      add_job-IsJobOf made id row m rest jobs s t t' step grown jobs_of,
    )

enqueue_pending-ok :
    (h : Hooks) (jobs : List (ℕ × Option Text))
    → ((id : ℕ) (content : Option Text) → h.enqueue id content ≡ ok tt)
    → enqueue_pending h jobs ≡ (jobs, ok tt)
unfolding enqueue_pending
enqueue_pending-ok h [] takes = refl
enqueue_pending-ok h ((id, content) ∷ jobs) takes =
    ground (arith, takes id content, enqueue_pending-ok h jobs takes)

no_ids : (jobs : List (ℕ × Option Text)) → ids_of jobs ≡ [] → jobs ≡ []
no_ids [] e = refl
no_ids (job ∷ jobs) e = ground (arith, e)

abbrev reported : ℕ → Tally → List (ℕ × Option Text) → Store → Store
reported now (messages, skipped) jobs s =
    (record_health whatsapp success (length messages + skipped) (length jobs) none now s).1

take_in-ok :
    (now : ℕ) (t : Tally) (jobs : List (ℕ × Option Text)) (s s' : Store)
    → upsert_messages t.0 s ≡ (ok jobs, s')
    → nested (take_in now t) s ≡ (ok jobs, reported now t jobs s')
unfolding take_in record_health
take_in-ok now (messages, skipped) jobs s s' run = ground (arith, run)

committed-ok :
    (h : Hooks) (t : Tally) (jobs : List (ℕ × Option Text)) (s : Store)
    → ((id : ℕ) (content : Option Text) → h.enqueue id content ≡ ok tt)
    → committed h t (ok jobs, s) ≡ (ok (ack_of t (length jobs)), jobs, s)
committed-ok h t jobs s takes = ap (answered t (length jobs) s) (enqueue_pending-ok h jobs takes)

module _ (h : Hooks) (r : Request) (t : Tally) (accepted : IsAccepted h r t)
    (takes : (id : ℕ) (content : Option Text) → h.enqueue id content ≡ ok tt) where
  receive_webhook-ok :
      (now : ℕ) (jobs : List (ℕ × Option Text)) (s s' : Store)
      → upsert_messages t.0 s ≡ (ok jobs, s')
      → receive_webhook h now r s ≡ (ok (ack_of t (length jobs)), jobs, reported now t jobs s')
  receive_webhook-ok now jobs s s' run =
      receive_webhook-IsAccepted h now r t s accepted
      ∙ ap (committed h t) (take_in-ok now t jobs s s' run)
      ∙ committed-ok h t jobs (reported now t jobs s') takes

  -- A request that is accepted, none of whose messages has an id of more than 512 characters, where
  -- `uuid.uuid4` gives fresh values and the queue takes every job, is acknowledged. Its jobs are one
  -- for each row that it adds, with the text of a message whose record is that row, the rows that
  -- were there are as they were, and every message is then known. The same request right after it is
  -- acknowledged too, with no job, and leaves the items as they are.
  pub receive_webhook-twice :
      (now later : ℕ) (s : Store)
      → All Fits (records_of t.0)
      → IsFresh s
      → (jobs : List (ℕ × Option Text)) × (s1 : Store) × (s2 : Store) × (receive_webhook h now r s
          ≡ (ok (ack_of t (length jobs)), jobs, s1))
        × Grown (ids_of jobs) s s1
        × All (IsJobOf t.0 s1) jobs
        × All (Known s1.items) (records_of t.0)
        × (receive_webhook h later r s1 ≡ (ok (ack_of t 0), [], s2))
        × (s2.items ≡ s1.items)
  unfolding record_health
  receive_webhook-twice now later s shorts fresh =
      let (jobs, u, run, grown, all, jobs_of) = upsert_messages-total t.0 s shorts fresh in
      let s1 = reported now t jobs u in
      let (src', u', run', still) = ingest_loop-again 0 none (records_of t.0) s1 shorts all in
      let (jobs', second, none_new) =
        upsert_messages-ingest_loop 0 none t.0 s1 (0 + length (records_of t.0)) src' [] u' run' in
      let empty = no_ids jobs' none_new in
      (
        jobs,
        s1,
        reported later t [] u',
        receive_webhook-ok now jobs s u run,
        record {
          created = grown.created;
          counted = grown.counted;
          rows = grown.rows;
          known = grown.known;
        },
        All-mono (IsJobOf t.0 u) (IsJobOf t.0 s1) jobs
            (λ job j. record {
              message = j.message;
              of_delivery = j.of_delivery;
              stored = j.stored;
              content = j.content;
            })
            jobs_of,
        all,
        receive_webhook-ok later [] s1 u' (second ∙ ap (λ js. (ok js, u')) empty),
        still,
      )
