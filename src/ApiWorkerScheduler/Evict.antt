-- ===== src/ApiWorkerScheduler/Evict.antt =====
-- What `immediate_evict_worker` does to the pool and to the evicted worker's operations.
use native_link.Base.{
  ◌<◌, none, some, List, [], ◌∷◌, ◌≡◌, refl, map, arith, ite, ℕ_discrete, Option-cases, Result, ok,
  Error, merge,
}
use native_link.Base.Lru.{LruCache}
use native_link.Base.Lru.Peek.{peek-pop}
use native_link.ActionMessages.{WorkerId, OperationId, update_with_error}
use native_link.Worker.{Worker, Channel, ActionInfoWithProps}
use native_link.ApiWorkerScheduler.{
  WorkerStateManager, Pool, requeue_actions, immediate_evict_worker,
}

module _ (channel : Channel) (manager : WorkerStateManager)
    (lru : LruCache WorkerId (Worker channel.Tx) ℕ_discrete) where
  open lru use {peek, pop}
  open manager use {S, update_operation}

  pub workers-immediate_evict_worker :
      (p : Pool channel manager lru) (k : WorkerId) (e : Error)
      → (immediate_evict_worker channel manager lru p k e).0.workers ≡ pop k p.workers
  unfolding immediate_evict_worker
  workers-immediate_evict_worker p k e = ground (arith, Option-cases (peek k p.workers))

  pub peek-immediate_evict_worker :
      (p : Pool channel manager lru) (k j : WorkerId) (e : Error)
      → peek j (immediate_evict_worker channel manager lru p k e).0.workers
        ≡ ite (ℕ_discrete j k) none (peek j p.workers)
  peek-immediate_evict_worker p k j e =
      rw (workers-immediate_evict_worker p k e) (peek-pop ℕ_discrete lru k j p.workers)

  -- The calls of `update_operation` for a list of operations, one after the other.
  abbrev pub report_all : S → WorkerId → Error → List OperationId → S
  report_all s k e [] = s
  report_all s k e (o ∷ os) = report_all (update_operation s o k (update_with_error e)).0 k e os

  abbrev pub operations : Worker channel.Tx → List OperationId
  operations w = map (λ a. a.0) w.running_action_infos

  requeue_actions-report_all :
      (s : S) (k : WorkerId) (e : Error) (os : List (OperationId × ActionInfoWithProps))
      (r : Result (Unit {0}))
      → (requeue_actions channel manager lru s k e os r).0 ≡ report_all s k e (map (λ a. a.0) os)
  unfolding requeue_actions
  requeue_actions-report_all s k e [] r = refl
  requeue_actions-report_all s k e ((o, info) ∷ os) r =
      requeue_actions-report_all (update_operation s o k (update_with_error e)).0 k e os
        (merge r (update_operation s o k (update_with_error e)).1)

  -- When a worker in the pool is evicted, it leaves the pool and no other does, each operation
  -- that ran on it is reported with the error once, in order, and the matching engine is notified.
  pub immediate_evict_worker_lem :
      (p : Pool channel manager lru) (k : WorkerId) (w : Worker channel.Tx) (e : Error)
      → peek k p.workers ≡ some w
      → ((j : WorkerId)
          → peek j (immediate_evict_worker channel manager lru p k e).0.workers
            ≡ ite (ℕ_discrete j k) none (peek j p.workers))
        × ((immediate_evict_worker channel manager lru p k e).0.worker_state_manager
            ≡ report_all p.worker_state_manager k e (operations w))
        × (p.worker_change_notify
            < (immediate_evict_worker channel manager lru p k e).0.worker_change_notify)
  unfolding immediate_evict_worker
  immediate_evict_worker_lem p k w e f = (
    (λ j. peek-immediate_evict_worker p k j e),
    rw (f, immediate_evict_worker)
        (requeue_actions-report_all p.worker_state_manager k e w.running_action_infos (ok tt)),
    rw (f, immediate_evict_worker) (omega arith),
  )
