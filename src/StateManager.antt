-- ===== src/StateManager.antt =====
-- nativelink-scheduler/src/simple_scheduler_state_manager.rs: how an operation's state follows what
-- its worker reports, times out, and is filtered. The database of actions and the clock are
-- parameters that act on a `world`: other tasks may change it between two calls.
pub mod Rounds
pub mod Retries
pub mod TimeoutCheck
pub mod Filter
use Prim.Native.Nat.{bit_and}
use native_link.Base.{
  ℕ, zero, suc, ◌+◌, ◌*◌, String, Bool, true, false, not, ◌&&◌, ◌||◌, Option, none, some, List, [],
  ◌∷◌, ltb, leb, ◌==◌, if◌then◌else◌, ite, ℕ_discrete, Result, ok, err, Error, Code, Code-discrete,
  make_err, merge_error, append, err_tip,
}
use native_link.ActionMessages.{
  WorkerId, OperationId, OperationId-discrete, DigestInfo, DigestInfo-discrete, ActionUniqueKey,
  ActionUniqueKey-discrete, cachable, uncachable, ActionUniqueQualifier, action_digest,
  ExecutionMetadata, default_metadata, default_result, ActionStage, unknown, cache_check, queued,
  executing, completed, completed_from_cache, is_finished, is_queued, is_executing,
  UpdateOperationType, update_with_action_stage, update_with_error,
}
use native_link.AwaitedAction.{
  AwaitedAction, nanos_per_sec, u64_mod, worker_keep_alive, set_worker_id, worker_set_state,
}

abbrev pub max_update_retries : ℕ
max_update_retries = 5

-- The trait `AwaitedActionDb` with its subscribers, the clock `now_fn`, and how a worker's id is
-- printed (the crate `uuid`). `elapsed` is the time since the instant that `now_fn` returns.
pub record AwaitedActionDb : Type 1 where
  pub World : Type 0
  pub Subscriber : Type 0
  pub get_by_operation_id : World → OperationId → World × Result (Option Subscriber)
  pub borrow : World → Subscriber → World × Result AwaitedAction
  pub update_awaited_action : World → AwaitedAction → World × Result (Unit {0})
  pub now : World → World × ℕ
  pub elapsed : World → World × ℕ
  pub show_worker : WorkerId → String

-- The part of `SimpleSchedulerStateManager` that is configuration.
pub record Config : Type 0 where
  pub max_job_retries : ℕ
  pub no_event_action_timeout : ℕ
  pub client_action_timeout : ℕ

abbrev pub is_set : Option WorkerId → Bool
is_set none = false
is_set (some w) = true

abbrev pub same_worker : Option WorkerId → Option WorkerId → Bool
same_worker none none = true
same_worker none (some w) = false
same_worker (some v) none = false
same_worker (some v) (some w) = v == w

-- `worker_id.is_some() && maybe_worker_id.is_some() && maybe_worker_id != worker_id`.
unfoldable pub is_other_worker : Option WorkerId → Option WorkerId → Bool
is_other_worker worker_id maybe_worker_id =
    is_set worker_id && is_set maybe_worker_id && not (same_worker maybe_worker_id worker_id)

abbrev pub is_backpressure : Error → Bool
is_backpressure e = ite (Code-discrete e.code Code.resource_exhausted) true false

-- The two checks of `inner_update_operation`: the worker is the one that was assigned, and the
-- operation is not finished.
unfoldable pub refusal : AwaitedAction → Option WorkerId → Option Error
refusal a maybe_worker_id =
    if is_other_worker a.worker_id maybe_worker_id
    then some (make_err Code.aborted "Worker ids do not match")
    else if is_finished a.state.stage
    then some (make_err Code.internal "Action is already completed with state")
    else none

abbrev pub worker_name : (WorkerId → String) → Option WorkerId → String
worker_name show none = ""
worker_name show (some w) = show w

-- An error from the worker: the action with the attempt counted, and the stage that it goes to.
unfoldable pub fail_stage :
    Config
    → (WorkerId → String)
    → AwaitedAction
    → Option WorkerId
    → Error
    → AwaitedAction × ActionStage
fail_stage config show a maybe_worker_id e =
    let a' = if is_backpressure e then a else record a { attempts = a.attempts + 1 } in
    (
      a',
      if ltb config.max_job_retries a'.attempts
          then completed (record default_result {
            execution_metadata = record default_metadata {
              worker = worker_name show maybe_worker_id;
            };
            error = some (
                merge_error e (
                  make_err Code.internal
                    "Job cancelled because it attempted to execute too many times"));
          })
          else queued,
    )

-- The new stage of the operation, for an update that is no keep-alive.
unfoldable pub set_stage :
    AwaitedAction → OperationId → Option WorkerId → ActionStage → ℕ → AwaitedAction
unfolding set_worker_id worker_set_state
set_stage a operation_id maybe_worker_id stage now =
    let a' = set_worker_id a (if is_queued stage then none else maybe_worker_id) now in
    worker_set_state a'
      (record {
        stage = stage;
        client_operation_id = operation_id;
        action_digest = action_digest a'.action_info;
      })
      now

-- What one round of the retry loop comes to.
pub data Outcome : Type 0 where
  finish : Result (Unit {0}) → Outcome
  retry : Error → Outcome

module _ (db : AwaitedActionDb) (config : Config) where
  open db use {
    World, Subscriber, get_by_operation_id, borrow, update_awaited_action, now, elapsed,
    show_worker,
  }

  -- The stage is stored; a write that lost a race is tried again.
  unfoldable pub store_stage :
      World → AwaitedAction → OperationId → Option WorkerId → ActionStage → World × Outcome
  unfolding set_stage
  store_stage w a operation_id maybe_worker_id stage =
      let (w', t) = now w in
      let (w'', res) =
        update_awaited_action w' (set_stage a operation_id maybe_worker_id stage t) in
      elim res [
        | ok _ ↦ (w'', finish (ok tt))
        | err e ↦
            let e' = append e "In SimpleSchedulerStateManager::update_operation" in
            (w'', ite (Code-discrete e'.code Code.aborted) (retry e') (finish (err e')))
      ]

  unfoldable pub apply_update :
      World → AwaitedAction → OperationId → Option WorkerId → UpdateOperationType → World × Outcome
  unfolding store_stage fail_stage
  apply_update w a operation_id maybe_worker_id UpdateOperationType.keep_alive =
      let (w', t) = now w in
      let (w'', res) = update_awaited_action w' (worker_keep_alive a t) in
      (
        w'',
        finish (
            err_tip res
              "Failed to send KeepAlive in SimpleSchedulerStateManager::update_operation"),
      )
  apply_update w a operation_id maybe_worker_id (update_with_action_stage stage) =
      store_stage w a operation_id maybe_worker_id stage
  apply_update w a operation_id maybe_worker_id (update_with_error e) =
      let (a', stage) = fail_stage config show_worker a maybe_worker_id e in
      store_stage w a' operation_id maybe_worker_id stage

  abbrev tip : Error → Error
  tip e = append e "In SimpleSchedulerStateManager::update_operation"

  -- The body of the loop of `inner_update_operation`.
  unfoldable pub update_round :
      World → OperationId → Option WorkerId → UpdateOperationType → World × Outcome
  unfolding apply_update refusal
  update_round w operation_id maybe_worker_id update =
      let (w', found) = get_by_operation_id w operation_id in
      elim found [
        | err e ↦ (w', finish (err (tip e)))
        | ok none ↦ (w', finish (ok tt))
        | ok (some subscriber) ↦
            let (w'', borrowed) = borrow w' subscriber in
            elim borrowed [
              | err e ↦ (w'', finish (err (tip e)))
              | ok a ↦ elim (refusal a maybe_worker_id) [
                | some e ↦ (w'', finish (err e))
                | none ↦ apply_update w'' a operation_id maybe_worker_id update
              ]
            ]
      ]

  -- The loop, with the rounds left and the last error.
  unfoldable pub update_loop :
      ℕ
      → World
      → OperationId
      → Option WorkerId
      → UpdateOperationType
      → Option Error
      → World × Result (Unit {0})
  unfolding update_round
  update_loop zero w operation_id maybe_worker_id update none =
      (w, err (make_err Code.internal "Failed to update action after retries with no error set"))
  update_loop zero w operation_id maybe_worker_id update (some e) = (w, err e)
  update_loop (suc n) w operation_id maybe_worker_id update last_err =
      let (w', outcome) = update_round w operation_id maybe_worker_id update in
      elim outcome [
        | finish res ↦ (w', res)
        | retry e ↦ update_loop n w' operation_id maybe_worker_id update (some e)
      ]

  unfoldable pub inner_update_operation :
      World → OperationId → Option WorkerId → UpdateOperationType → World × Result (Unit {0})
  unfolding update_loop
  inner_update_operation w operation_id maybe_worker_id update =
      update_loop max_update_retries w operation_id maybe_worker_id update none

  -- `WorkerStateManager::update_operation`.
  unfoldable pub update_operation :
      World → OperationId → WorkerId → UpdateOperationType → World × Result (Unit {0})
  unfolding inner_update_operation
  update_operation w operation_id worker_id update =
      inner_update_operation w operation_id (some worker_id) update

  -- `assign_operation`: to a worker, or the reason why it is taken from its worker.
  unfoldable pub assign_operation :
      World → OperationId → Result WorkerId → World × Result (Unit {0})
  unfolding inner_update_operation
  assign_operation w operation_id (ok worker_id) =
      inner_update_operation w operation_id (some worker_id) (update_with_action_stage executing)
  assign_operation w operation_id (err e) =
      inner_update_operation w operation_id none (update_with_error e)

  -- The largest `Duration`, in nanoseconds, bounds `checked_add`.
  abbrev pub duration_bound : ℕ
  duration_bound = u64_mod * nanos_per_sec

  -- The end of `timeout_operation_id`, for an action that executes.
  unfoldable pub timeout_executing : World → OperationId → AwaitedAction → World × Result (Unit {0})
  unfolding assign_operation
  timeout_executing w operation_id a =
      let worker_should_update_before =
        a.last_worker_updated_timestamp + config.no_event_action_timeout in
      if leb duration_bound worker_should_update_before
      then (
        w,
        err (record {
          code = Code.internal;
          messages = "Timestamp too big in SimpleSchedulerStateManager::timeout_operation_id" ∷ [];
        }),
      )
      else (let (w', e) = elapsed w in
          if ltb worker_should_update_before e
          then (w', ok tt)
          else assign_operation w' operation_id
              (err (make_err Code.deadline_exceeded "Operation timed out")))

  unfoldable pub timeout_operation_id : World → OperationId → World × Result (Unit {0})
  unfolding timeout_executing
  timeout_operation_id w operation_id =
      let (w', found) = get_by_operation_id w operation_id in
      elim found [
        | err e ↦ (w', err (append e "In SimpleSchedulerStateManager::timeout_operation_id"))
        | ok none ↦ (
          w',
          err (record {
            code = Code.internal;
            messages =
                "Operation id does not exist in SimpleSchedulerStateManager::timeout_operation_id"
                ∷ [];
          }),
        )
        | ok (some subscriber) ↦
            let (w'', borrowed) = borrow w' subscriber in
            elim borrowed [
              | err e ↦ (w'', err (append e "In SimpleSchedulerStateManager::timeout_operation_id"))
              | ok a ↦
                  if not (is_executing a.state.stage)
                  then (w'', ok tt)
                  else timeout_executing w'' operation_id a
            ]
      ]
