-- ===== src/ApiWorkerScheduler.antt =====
-- nativelink-scheduler/src/api_worker_scheduler.rs: the pool of workers, the choice of a worker for
-- an action, and the eviction of workers. Each method holds the pool's lock, so it is one step from
-- a state to the next with its result, or `none` for a panic. The pool is the crate's `LruCache`,
-- the state manager is whatever implements `WorkerStateManager`, and the channels are tokio's.
-- `worker_change_notify` counts the calls of `notify_one`, and `operation_keep_alive_tx` holds what
-- was sent (that its receiver may be gone is only logged). Metrics and log lines are left out.
pub mod Evict
pub mod Kept
pub mod Handed
pub mod Invariant
pub mod Choice
pub mod MapWhile
pub mod Timeouts
pub mod Reach
use native_link.Base.{
  ℕ, suc, ◌+◌, ◌-◌, ◌%◌, Bool, true, false, not, ◌&&◌, ◌||◌, Option, none, some, List, [], ◌∷◌,
  ◌++◌, lookup, contains_key, ltb, leb, if◌then◌else◌, ite, ℕ_discrete, Result, ok, err, Error,
  Code, Code-discrete, make_err, make_input_err, err_tip, ok_or_tip, append, merge,
}
use native_link.Base.Lru.{LruCache}
use native_link.ActionMessages.{
  WorkerId, OperationId, OperationId-discrete, is_finished, UpdateOperationType,
  update_with_action_stage, update_with_error,
}
use native_link.PlatformProperties.{Properties, is_satisfied_by}
use native_link.Worker.{
  ActionInfoWithProps, Worker, Channel, u64_mod, ◌>>=?◌, WorkerUpdate, run_action,
  send_initial_connection_result, send_keep_alive, notify_update, complete_action, has_actions,
  can_accept_work,
}

-- The trait `WorkerStateManager`.
pub record WorkerStateManager : Type 1 where
  pub S : Type 0
  pub update_operation : S → OperationId → WorkerId → UpdateOperationType → S × Result (Unit {0})

pub data WorkerAllocationStrategy : Type 0 where
  least_recently_used most_recently_used : WorkerAllocationStrategy

pub record ApiWorkerSchedulerImpl (Cache S : Type 0) : Type 0 where
  pub workers : Cache
  pub worker_state_manager : S
  pub allocation_strategy : WorkerAllocationStrategy
  pub worker_change_notify : ℕ
  pub operation_keep_alive_tx : List (OperationId × WorkerId)

-- `Iterator::find`, and `Iterator::rfind` on the reversed list of a double-ended iterator.
unfoldable pub find {ℓ} : {A : Type ℓ} → (A → Bool) → List A → Option A
find test [] = none
find test (x ∷ xs) = if test x then some x else find test xs

unfoldable pub rfind {ℓ} : {A : Type ℓ} → (A → Bool) → List A → Option A
rfind test [] = none
rfind test (x ∷ xs) = elim (rfind test xs) [
  | some y ↦ some y
  | none ↦ if test x then some x else none
]

-- `iter().rev().map_while`: the keys of the longest tail whose entries pass the test, from the end,
-- and whether that is all entries. One entry more, seen from the end, is added while all pass.
unfoldable pub rev_step {ℓ} : {K : Type ℓ} → Bool → Bool → K → List K → Bool × List K
rev_step true true k ks = (true, ks ++ k ∷ [])
rev_step true false k ks = (false, ks)
rev_step false pass k ks = (false, ks)

unfoldable pub rev_map_while {ℓ} : {K V : Type ℓ} → (V → Bool) → List (K × V) → Bool × List K
unfolding rev_step
rev_map_while test [] = (true, [])
rev_map_while test ((k, v) ∷ xs) =
    let (all, ks) = rev_map_while test xs in rev_step all (test v) k ks

-- Whether an update ends the action, and whether it does so for lack of resources.
unfoldable pub ends : UpdateOperationType → Bool × Bool
ends (update_with_action_stage stage) = (is_finished stage, false)
ends UpdateOperationType.keep_alive = (false, false)
ends (update_with_error e) = (true, ite (Code-discrete e.code Code.resource_exhausted) true false)

module _ (channel : Channel) (manager : WorkerStateManager)
    (lru : LruCache WorkerId (Worker channel.Tx) ℕ_discrete) where
  open channel use {Tx}
  open manager use {S, update_operation}
  open lru use {Cache, iter, peek, get, write, put, pop}

  abbrev pub Pool : Type 0
  Pool = ApiWorkerSchedulerImpl Cache S

  abbrev notify_one : Pool → Pool
  notify_one p = record p { worker_change_notify = p.worker_change_notify + 1 }

  abbrev keep_alives :
      WorkerId → List (OperationId × ActionInfoWithProps) → List (OperationId × WorkerId)
  keep_alives worker_id [] = []
  keep_alives worker_id ((operation_id, info) ∷ rest) =
      (operation_id, worker_id) ∷ keep_alives worker_id rest

  unfoldable pub refresh_lifetime : Pool → WorkerId → ℕ → Pool × Result (Unit {0})
  refresh_lifetime p worker_id timestamp = elim (peek worker_id p.workers) [
    | none ↦ (p, err (make_input_err "Worker not found in worker map in refresh_lifetime()"))
    | some worker ↦
        if ltb timestamp worker.last_update_timestamp
        then (p, err (make_input_err "Worker already had a timestamp"))
        else (
          record p {
            workers =
                write worker_id (record worker { last_update_timestamp = timestamp }) p.workers;
            operation_keep_alive_tx =
                p.operation_keep_alive_tx ++ keep_alives worker_id worker.running_action_infos;
          },
          ok tt,
        )
  ]

  -- `ApiWorkerSchedulerImpl::add_worker`.
  unfoldable pub put_worker : Pool → Worker Tx → Pool × Result (Unit {0})
  unfolding send_initial_connection_result
  put_worker p worker =
      let (worker', res) = send_initial_connection_result channel worker in
      (
        notify_one
            (record p { workers = write worker.id worker' (put worker.id worker p.workers) }),
        err_tip res "Failed to send initial connection result to worker",
      )

  -- `ApiWorkerSchedulerImpl::remove_worker`.
  unfoldable pub pop_worker : Pool → WorkerId → Pool × Option (Worker Tx)
  pop_worker p worker_id =
      (notify_one (record p { workers = pop worker_id p.workers }), peek worker_id p.workers)

  unfoldable pub set_drain_worker : Pool → WorkerId → Bool → Pool × Result (Unit {0})
  set_drain_worker p worker_id is_draining = elim (peek worker_id p.workers) [
    | none ↦ (
      record p { workers = get worker_id p.workers },
      ok_or_tip none "Worker doesn't exist in the pool",
    )
    | some worker ↦ (
      notify_one (record p {
        workers =
            write worker_id (record worker { is_draining = is_draining }) (get worker_id p.workers);
      }),
      ok tt,
    )
  ]

  unfoldable pub is_candidate : Properties → WorkerId × Worker Tx → Bool
  is_candidate platform_properties (worker_id, w) =
      can_accept_work w && is_satisfied_by platform_properties w.platform_properties

  unfoldable pub find_for_strategy :
      WorkerAllocationStrategy
      → Properties
      → List (WorkerId × Worker Tx)
      → Option (WorkerId × Worker Tx)
  unfolding is_candidate
  find_for_strategy least_recently_used props = rfind (is_candidate props)
  find_for_strategy most_recently_used props = find (is_candidate props)

  unfoldable pub inner_find_worker_for_action : Pool → Properties → Option WorkerId
  unfolding find_for_strategy
  inner_find_worker_for_action p platform_properties =
      find_for_strategy p.allocation_strategy platform_properties (iter p.workers) >>=? λ e.
      some e.1.id

  -- The loop of `immediate_evict_worker` over the worker's actions.
  unfoldable pub requeue_actions :
      S
      → WorkerId
      → Error
      → List (OperationId × ActionInfoWithProps)
      → Result (Unit {0})
      → S × Result (Unit {0})
  requeue_actions s worker_id e [] result = (s, result)
  requeue_actions s worker_id e ((operation_id, info) ∷ rest) result =
      let (s', r) = update_operation s operation_id worker_id (update_with_error e) in
      requeue_actions s' worker_id e rest (merge result r)

  -- The disconnect message is sent to a worker that is dropped, and its result is not looked at.
  unfoldable pub immediate_evict_worker : Pool → WorkerId → Error → Pool × Result (Unit {0})
  unfolding pop_worker requeue_actions
  immediate_evict_worker p worker_id e =
      let (p', removed) = pop_worker p worker_id in
      elim removed [
        | none ↦ (notify_one p', ok tt)
        | some worker ↦
            let (s, result) =
              requeue_actions p'.worker_state_manager worker_id e worker.running_action_infos
                (ok tt) in
            (notify_one (record p' { worker_state_manager = s }), result)
      ]

  -- The end of `update_action`: the action leaves the worker, which pauses if it was closed to new
  -- work or short of resources and still has an action that will unpause it.
  unfoldable pub finish_action :
      Pool → WorkerId → Worker Tx → OperationId → Bool → Option (Pool × Result (Unit {0}))
  finish_action p worker_id worker operation_id due_to_backpressure =
      let was_paused = not (can_accept_work worker) in
      complete_action worker operation_id >>=? λ (worker', complete_action_res).
      let worker'' =
        if (was_paused || due_to_backpressure) && has_actions worker'
        then record worker' { is_paused = true }
        else worker' in
      some (
        notify_one (record p { workers = write worker_id worker'' p.workers }),
        complete_action_res,
      )

  -- The part of `update_action` for an action that runs on the worker.
  unfoldable pub update_running :
      Pool
      → WorkerId
      → Worker Tx
      → OperationId
      → UpdateOperationType
      → Option (Pool × Result (Unit {0}))
  unfolding finish_action ends
  update_running p worker_id worker operation_id update =
      let (finished, due_to_backpressure) = ends update in
      let (s, res) = update_operation p.worker_state_manager operation_id worker_id update in
      let p' = record p { worker_state_manager = s } in
      elim res [
        | err e ↦ some (p', err (append e "in update_operation on SimpleScheduler::update_action"))
        | ok _ ↦
            if not finished
            then some (p', ok tt)
            else finish_action p' worker_id worker operation_id due_to_backpressure
      ]

  unfoldable pub update_action :
      Pool → WorkerId → OperationId → UpdateOperationType → Option (Pool × Result (Unit {0}))
  unfolding immediate_evict_worker update_running
  update_action p worker_id operation_id update =
      let p' = record p { workers = get worker_id p.workers } in
      elim (peek worker_id p.workers) [
        | none ↦ some (p', ok_or_tip none "Worker does not exist in SimpleScheduler::update_action")
        | some worker ↦
            if not (contains_key OperationId-discrete operation_id worker.running_action_infos)
            then (let e =
                  make_err Code.internal
                    "Operation should not be running on worker in SimpleScheduler::update_action" in
                let (p'', r) = immediate_evict_worker p' worker_id e in
                some (p'', merge {A = Unit {0}} (err e) r))
            else update_running p' worker_id worker operation_id update
      ]

  unfoldable pub worker_notify_run_action :
      Pool → WorkerId → OperationId → ActionInfoWithProps → Option (Pool × Result (Unit {0}))
  unfolding immediate_evict_worker
  worker_notify_run_action p worker_id operation_id action_info =
      let p' = record p { workers = get worker_id p.workers } in
      elim (peek worker_id p.workers) [
        | none ↦ some (p', ok tt)
        | some worker ↦
            notify_update channel worker (run_action operation_id action_info)
            >>=? λ (worker', res).
                let p'' = record p' { workers = write worker_id worker' p'.workers } in
                elim res [
                  | ok _ ↦ some (p'', ok tt)
                  | err _ ↦
                      let e = make_err Code.internal "Worker command failed, removing worker" in
                      let (q, r) = immediate_evict_worker p'' worker_id e in
                      some (q, merge {A = Unit {0}} (err e) r)
                ]
      ]

  -- The trait `WorkerScheduler`, where it does more than the methods above.
  unfoldable pub add_worker : Pool → Worker Tx → Pool × Result (Unit {0})
  unfolding put_worker immediate_evict_worker
  add_worker p worker =
      let (p', result) = put_worker p worker in
      elim (err_tip result "Error while adding worker, removing from pool") [
        | ok _ ↦ (p', ok tt)
        | err e ↦
            let (p'', r) = immediate_evict_worker p' worker.id e in
            (p'', merge {A = Unit {0}} (err e) r)
      ]

  unfoldable pub worker_keep_alive_received : Pool → WorkerId → ℕ → Pool × Result (Unit {0})
  unfolding refresh_lifetime
  worker_keep_alive_received p worker_id timestamp =
      let (p', r) = refresh_lifetime p worker_id timestamp in
      (p', err_tip r "Error refreshing lifetime in worker_keep_alive_received()")

  unfoldable pub remove_worker : Pool → WorkerId → Pool × Result (Unit {0})
  unfolding immediate_evict_worker
  remove_worker p worker_id =
      immediate_evict_worker p worker_id
        (make_err Code.internal "Received request to remove worker")

  -- `now_timestamp - worker_timeout_s` wraps.
  unfoldable pub is_timed_out : ℕ → ℕ → Worker Tx → Bool
  is_timed_out now_timestamp worker_timeout_s worker =
      leb worker.last_update_timestamp ((now_timestamp + u64_mod - worker_timeout_s) % u64_mod)

  unfoldable pub evict_timed_out :
      Pool → List WorkerId → Result (Unit {0}) → Pool × Result (Unit {0})
  unfolding immediate_evict_worker
  evict_timed_out p [] result = (p, result)
  evict_timed_out p (worker_id ∷ rest) result =
      let e = make_err Code.internal "Worker timed out, removing from pool" in
      let (p', r) = immediate_evict_worker p worker_id e in evict_timed_out p' rest (merge result r)

  -- The workers at the least recently used end of the pool, as long as they have timed out.
  unfoldable pub worker_ids_to_remove : ℕ → Pool → ℕ → List WorkerId
  unfolding is_timed_out rev_map_while
  worker_ids_to_remove worker_timeout_s p now_timestamp =
      let (all, ids) =
        rev_map_while (is_timed_out now_timestamp worker_timeout_s) (iter p.workers) in
      ids

  unfoldable pub remove_timedout_workers : ℕ → Pool → ℕ → Pool × Result (Unit {0})
  unfolding worker_ids_to_remove evict_timed_out
  remove_timedout_workers worker_timeout_s p now_timestamp =
      evict_timed_out p (worker_ids_to_remove worker_timeout_s p now_timestamp) (ok tt)

  unfoldable pub send_keep_alive_to_worker_for_test : Pool → WorkerId → Pool × Result (Unit {0})
  unfolding send_keep_alive
  send_keep_alive_to_worker_for_test p worker_id =
      let p' = record p { workers = get worker_id p.workers } in
      elim (peek worker_id p.workers) [
        | none ↦ (p', err (make_input_err "WorkerId does not exist in workers map"))
        | some worker ↦
            let (worker', res) = send_keep_alive channel worker in
            (record p' { workers = write worker_id worker' p'.workers }, res)
      ]
