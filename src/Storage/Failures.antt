-- ===== src/Storage/Failures.antt =====
-- `PipelineFailureRepository` of catchment/storage/repositories.py: the dead-letter view.
use catchment.Prelude.{
  List, Option, Text, find, if◌then◌else◌, is_some, leb, nat_eq, none, not, order_by, pair_eq,
  select, some, take, text_eq, update_where, upsert, ℕ, ◌&&◌, ◌==◌,
}
use catchment.Storage.Enums.{Stage, is_pipeline_stage}
use catchment.Storage.Models.{PipelineFailure, Store, is_item}
use catchment.Storage.Session.{
  Db, constraint, gets, modify, pure, repository_error, throw, uuid4, ◌>>=◌, ◌>>◌,
}

-- The stage must be one that `ck_failures_stage` admits, and the item must be there.
unfoldable pub record_failure : ℕ → Stage → Text → Option Text → ℕ → Db ℕ
record_failure item_id stage error_type detail now = do
  id ← uuid4
  present ← gets (λ s. is_item item_id s && not (is_some (find id s.failures)))
  constraint (is_pipeline_stage stage && present)
  modify (λ s. record s {
    failures =
        upsert id
          (record {
            item_id = item_id;
            stage = stage;
            error_type = error_type;
            detail = detail;
            occurred_at = now;
            resolved_at = none;
          })
          (λ old. old) s.failures;
  })
  pure id

unfoldable pub list_open : ℕ → Store → List (ℕ × PipelineFailure)
unfolding order_by
list_open limit s = take limit (
    order_by (λ a b. leb a.1.occurred_at b.1.occurred_at)
      (select (λ row. not (is_some row.1.resolved_at)) s.failures))

unfoldable pub resolve : ℕ → ℕ → Db (Unit {0})
resolve failure_id now = do
  there ← gets (λ s. is_some (find failure_id s.failures))
  if not there
      then throw repository_error
      else modify (λ s. record s {
        failures =
            update_where (λ k. k == failure_id) (λ f. record f { resolved_at = some now })
              s.failures;
      })
