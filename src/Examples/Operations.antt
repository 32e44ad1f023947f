-- ===== src/Examples/Operations.antt =====
-- The theorems on operations: sort keys, updates, timeouts, queries.
use native_link.Base.{
  ℕ, ◌+◌, ◌<◌, false, none, some, [], ◌∷◌, ◌≡◌, ◌⊎◌, inl, inr, ◌↔◌, refl, arith, ok, Code, make_err,
  pos, negsuc, ◌<ℤ◌, ltb,
}
use native_link.ActionMessages.{
  uuid, executing, completed, default_result, is_finished, update_with_action_stage,
}
use native_link.AwaitedAction.{AwaitedAction, sort_key}
use native_link.AwaitedAction.SortKey.{sort_key-lt_iff}
use native_link.StateManager.{
  AwaitedActionDb, Config, refusal, inner_update_operation, timeout_operation_id,
}
use native_link.StateManager.Retries.{
  MayUpdate, refusal-none_iff, fail_all, counted, fail_all-finished,
}
use native_link.StateManager.Rounds.{Runs, inner_update_operation-Runs}
use native_link.StateManager.TimeoutCheck.{taken, timed_out, timeout_operation_id-takes}
use native_link.StateManager.Filter.{OperationFilter, any_flag}
use native_link.Examples.Data.{info, digest}

abbrev config : Config
config = record { max_job_retries = 3; no_event_action_timeout = 60; client_action_timeout = 60 }

abbrev running : AwaitedAction
running = record {
  version = 1;
  action_info = info;
  operation_id = uuid 7;
  sort_key_value = 0;
  last_worker_updated_timestamp = 100;
  last_client_keepalive_timestamp = 100;
  worker_id = some 1;
  state = record { stage = executing; client_operation_id = uuid 7; action_digest = digest };
  attempts = 0;
}

-- A store that holds the one operation, and a clock that stands at 90; `elapsed` says how long ago a
-- deadline lies.
abbrev one_action : ℕ → AwaitedActionDb
one_action passed = record {
  World = AwaitedAction;
  Subscriber = Unit {0};
  get_by_operation_id = λ w o. (w, ok (some tt));
  borrow = λ w s. (w, ok w);
  update_awaited_action = λ w a. (a, ok tt);
  now = λ w. (w, 90);
  elapsed = λ w. (w, passed);
  show_worker = λ k. "worker";
}

sort_key-lt_iff_example :
    (sort_key (negsuc 0) 5 < sort_key (pos 3) 9)
    ↔ ((negsuc 0 <ℤ pos 3) ⊎ ((negsuc 0 ≡ pos 3) × (9 < 5)))
sort_key-lt_iff_example =
    sort_key-lt_iff (negsuc 0) (pos 3) 5 9 (record { upper = omega arith; lower = omega arith })
      (record { upper = omega arith; lower = omega arith }) (omega arith) (omega arith)

refusal-none_iff_example :
    (refusal running (some 1) ≡ none)
    ↔ ((is_finished running.state.stage ≡ false) × MayUpdate running.worker_id (some 1))
refusal-none_iff_example = refusal-none_iff running (some 1)

fail_all-finished_example :
    is_finished
      (fail_all config
        (λ k. "worker")
        (uuid 7)
        none
        5
        running
        (make_err Code.internal "a" ∷ make_err Code.resource_exhausted "b" ∷ [])).state.stage
    ≡ ltb 3 (0 + counted (make_err Code.internal "a" ∷ make_err Code.resource_exhausted "b" ∷ []))
fail_all-finished_example =
    fail_all-finished config (λ k. "worker") (uuid 7) none 5
      (make_err Code.internal "a" ∷ make_err Code.resource_exhausted "b" ∷ []) running refl
      (inr (inl refl)) (omega arith)

inner_update_operation-Runs_example :
    Runs
      (one_action 0)
      config
      (uuid 7)
      (some 1)
      (update_with_action_stage (completed default_result))
      5
      running
      (inner_update_operation
        (one_action 0)
        config
        running
        (uuid 7)
        (some 1)
        (update_with_action_stage (completed default_result)))
inner_update_operation-Runs_example =
    inner_update_operation-Runs (one_action 0) config (uuid 7) (some 1)
      (update_with_action_stage (completed default_result)) running

abbrev timed_out_once : AwaitedAction
timed_out_once = taken (one_action 0) config running (uuid 7) tt running refl refl timed_out

timeout_operation_id-takes_example :
    (timeout_operation_id (one_action 0) config running (uuid 7) ≡ (timed_out_once, ok tt))
    × (timed_out_once.worker_id ≡ none)
    × (timed_out_once.attempts ≡ 1)
    × (is_finished timed_out_once.state.stage ≡ false)
timeout_operation_id-takes_example =
    timeout_operation_id-takes (one_action 0) config running (uuid 7) tt tt running running refl
      refl refl (omega arith) (omega arith) refl refl refl refl

abbrev anything : OperationFilter
anything = record {
  stages = any_flag;
  client_operation_id = none;
  operation_id = none;
  worker_id = some 1;
  action_digest_filter = none;
  worker_update_before = some 200;
  completed_before = none;
  unique_key = none;
  order_by_priority_direction = none;
}
