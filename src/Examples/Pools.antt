-- ===== src/Examples/Pools.antt =====
-- The theorems on the worker pool, for a pool with one worker, idle or at work.
use native_link.Base.{
  ℕ, ◌<◌, true, false, none, some, List, [], ◌∷◌, ◌++◌, ◌≡◌, ◌⊎◌, refl, arith, Result, ok, lookup,
  string_discrete, ite, remove, make_err, Code, ℕ_discrete, All,
}
use native_link.Base.Lru.{LruCache, last?}
use native_link.Base.Lru.ListCache.{list_cache}
use native_link.ActionMessages.{
  OperationId-discrete, WorkerId, uuid, completed, default_result, update_with_action_stage,
}
use native_link.PlatformProperties.{PlatformPropertyValue-discrete, is_satisfied_by}
use native_link.Worker.{Worker, can_accept_work}
use native_link.ApiWorkerScheduler.{
  Pool, least_recently_used, update_action, worker_notify_run_action, add_worker, refresh_lifetime,
  remove_timedout_workers, is_timed_out, inner_find_worker_for_action, rfind,
  immediate_evict_worker,
}
use native_link.ApiWorkerScheduler.Evict.{immediate_evict_worker_lem}
use native_link.ApiWorkerScheduler.Handed.{Handed}
use native_link.ApiWorkerScheduler.Kept.{IsValid}
use native_link.ApiWorkerScheduler.Invariant.{
  update_action-IsValid, worker_notify_run_action-IsValid,
}
use native_link.ApiWorkerScheduler.Choice.{CanRun, find_worker-chooses}
use native_link.ApiWorkerScheduler.Timeouts.{
  InOrder, remove_timedout_workers-keeps, remove_timedout_workers-removes,
  refresh-remove_timedout_workers,
}
use native_link.ApiWorkerScheduler.Reach.{
  new_pool, here, next, joins, refreshes, Reach-IsValid, find_worker-CanRun,
}
use native_link.Examples.Data.{
  build, registered, idle_worker, busy_worker, open_channel, log_manager, worker_cache,
}
use native_link.Examples.Workers.{idle_worker-Conserves, busy_worker-Conserves, build-fits}

abbrev Workers : Type 0
Workers = LruCache.Cache worker_cache

abbrev pub with_worker : Worker ℕ → Pool open_channel log_manager worker_cache
with_worker w = record {
  workers = LruCache.put worker_cache w.id w (LruCache.unbounded worker_cache);
  worker_state_manager = [];
  allocation_strategy = least_recently_used;
  worker_change_notify = 0;
  operation_keep_alive_tx = [];
}

idle_pool-peek : LruCache.peek worker_cache 1 (with_worker idle_worker).workers ≡ some idle_worker
unfolding list_cache lookup ℕ_discrete
idle_pool-peek = refl

busy_pool-peek : LruCache.peek worker_cache 1 (with_worker busy_worker).workers ≡ some busy_worker
unfolding list_cache lookup ℕ_discrete
busy_pool-peek = refl

pub only-one :
    (w v : Worker ℕ) (k : WorkerId)
    → LruCache.peek worker_cache k (with_worker w).workers ≡ some v
    → (k ≡ w.id) × (v ≡ w)
unfolding list_cache lookup remove
only-one w v k h = elim (ℕ_discrete k w.id) [
  | yes q ↦ (q, ground arith)
  | no q ↦ absurd (ground arith)
]

pub idle_pool-IsValid :
    IsValid open_channel log_manager worker_cache registered (with_worker idle_worker)
idle_pool-IsValid k w h =
    let (q, e) = only-one idle_worker w k h in
    record { own_id = rw (e, q); conserves = rw e idle_worker-Conserves }

busy_pool-IsValid :
    IsValid open_channel log_manager worker_cache registered (with_worker busy_worker)
busy_pool-IsValid k w h =
    let (q, e) = only-one busy_worker w k h in
    record { own_id = rw (e, q); conserves = rw e busy_worker-Conserves }

Reach-IsValid_example :
    IsValid open_channel log_manager worker_cache registered
      (refresh_lifetime open_channel log_manager worker_cache
        (add_worker open_channel log_manager worker_cache
          (new_pool open_channel log_manager worker_cache registered [] least_recently_used)
          idle_worker).0
        1
        20).0
Reach-IsValid_example =
    Reach-IsValid open_channel log_manager worker_cache registered [] least_recently_used _ (
      next
        (next here
          (joins _ idle_worker (record { own_id = refl; conserves = idle_worker-Conserves })))
        (refreshes _ 1 20))

immediate_evict_worker_lem_example :
    ((j : WorkerId)
      → LruCache.peek worker_cache j
          (immediate_evict_worker open_channel log_manager worker_cache
            (with_worker busy_worker)
            1
            (make_err Code.internal "gone")).0.workers
        ≡ ite
            (ℕ_discrete j 1)
            none
            (LruCache.peek worker_cache j (with_worker busy_worker).workers))
    × ((immediate_evict_worker open_channel log_manager worker_cache
          (with_worker busy_worker)
          1
          (make_err Code.internal "gone")).0.worker_state_manager
        ≡ uuid 7 ∷ [])
    × (0
        < (immediate_evict_worker open_channel log_manager worker_cache
            (with_worker busy_worker)
            1
            (make_err Code.internal "gone")).0.worker_change_notify)
immediate_evict_worker_lem_example =
    immediate_evict_worker_lem open_channel log_manager worker_cache (with_worker busy_worker) 1
      busy_worker (make_err Code.internal "gone") busy_pool-peek

update_action-IsValid_example :
    (q : Pool open_channel log_manager worker_cache) × (r : Result (Unit {0})) × (update_action
        open_channel log_manager worker_cache
        (with_worker busy_worker)
        1
        (uuid 7)
        (update_with_action_stage (completed default_result))
      ≡ some (q, r))
    × IsValid open_channel log_manager worker_cache registered q
update_action-IsValid_example =
    update_action-IsValid open_channel log_manager worker_cache registered (with_worker busy_worker)
      1 (uuid 7) (update_with_action_stage (completed default_result)) busy_pool-IsValid

idle_is_free :
    (w : Worker ℕ)
    → LruCache.peek worker_cache 1 (with_worker idle_worker).workers ≡ some w
    → (is_satisfied_by build.platform_properties w.platform_properties ≡ true)
      × (lookup OperationId-discrete (uuid 7) w.running_action_infos ≡ none)
unfolding lookup
idle_is_free w h = let (q, e) = only-one idle_worker w 1 h in rw e (build-fits, refl)

worker_notify_run_action-IsValid_example :
    (q : Pool open_channel log_manager worker_cache) × (r : Result (Unit {0}))
    × (worker_notify_run_action open_channel log_manager worker_cache
          (with_worker idle_worker)
          1
          (uuid 7)
          build
        ≡ some (q, r))
    × IsValid open_channel log_manager worker_cache registered q
    × Handed open_channel log_manager worker_cache (with_worker idle_worker) 1 (uuid 7) build q r
unfolding lookup
worker_notify_run_action-IsValid_example =
    worker_notify_run_action-IsValid open_channel log_manager worker_cache registered
      (with_worker idle_worker) 1 (uuid 7) build idle_pool-IsValid (refl, tt) idle_is_free

found_idle :
    inner_find_worker_for_action open_channel log_manager worker_cache
      (with_worker idle_worker)
      build.platform_properties
    ≡ some 1
unfolding inner_find_worker_for_action list_cache lookup remove rfind can_accept_work
    is_satisfied_by string_discrete PlatformPropertyValue-discrete ℕ_discrete
found_idle = refl

find_worker-chooses_example :
    ((inner_find_worker_for_action open_channel log_manager worker_cache
          (with_worker busy_worker)
          build.platform_properties
        ≡ none)
      × All
          (λ e. ¬ CanRun open_channel log_manager worker_cache build.platform_properties e.1)
          (LruCache.iter worker_cache (with_worker busy_worker).workers))
    ⊎ ((before after : List (ℕ × Worker ℕ)) × (e : ℕ × Worker ℕ) × (inner_find_worker_for_action
            open_channel log_manager worker_cache
            (with_worker busy_worker)
            build.platform_properties
          ≡ some e.1.id)
        × (LruCache.iter worker_cache (with_worker busy_worker).workers ≡ before ++ e ∷ after)
        × CanRun open_channel log_manager worker_cache build.platform_properties e.1
        × All
            (λ f. ¬ CanRun open_channel log_manager worker_cache build.platform_properties f.1)
            after)
find_worker-chooses_example =
    find_worker-chooses open_channel log_manager worker_cache (with_worker busy_worker)
      build.platform_properties

find_worker-CanRun_example :
    (w : Worker ℕ) × (LruCache.peek worker_cache 1 (with_worker idle_worker).workers ≡ some w)
    × CanRun open_channel log_manager worker_cache build.platform_properties w
find_worker-CanRun_example =
    find_worker-CanRun open_channel log_manager worker_cache (with_worker idle_worker)
      build.platform_properties 1 (λ j w e. (idle_pool-IsValid j w e).own_id) found_idle

in_time : is_timed_out open_channel log_manager worker_cache 14 5 idle_worker ≡ false
unfolding is_timed_out
in_time = refl

too_late : is_timed_out open_channel log_manager worker_cache 15 5 idle_worker ≡ true
unfolding is_timed_out
too_late = refl

idle_pool-InOrder :
    InOrder open_channel log_manager worker_cache
      (LruCache.iter worker_cache (with_worker idle_worker).workers)
unfolding list_cache remove
idle_pool-InOrder = (tt, tt)

idle_pool-last :
    last? (LruCache.iter worker_cache (with_worker idle_worker).workers) ≡ some (1, idle_worker)
unfolding list_cache remove
idle_pool-last = refl

remove_timedout_workers-keeps_example :
    LruCache.peek worker_cache 1
      (remove_timedout_workers open_channel log_manager worker_cache 5
        (with_worker idle_worker)
        14).0.workers
    ≡ some idle_worker
remove_timedout_workers-keeps_example =
    remove_timedout_workers-keeps open_channel log_manager worker_cache 5 (with_worker idle_worker)
      14 1 idle_worker idle_pool-peek in_time

remove_timedout_workers-removes_example :
    LruCache.peek worker_cache 1
      (remove_timedout_workers open_channel log_manager worker_cache 5
        (with_worker idle_worker)
        15).0.workers
    ≡ none
remove_timedout_workers-removes_example =
    remove_timedout_workers-removes open_channel log_manager worker_cache 5
      (with_worker idle_worker) 15 1 idle_worker idle_pool-InOrder idle_pool-peek too_late

refresh-remove_timedout_workers_example :
    remove_timedout_workers open_channel log_manager worker_cache 5
      (refresh_lifetime open_channel log_manager worker_cache (with_worker idle_worker) 1 100).0
      101
    ≡ (
      (refresh_lifetime open_channel log_manager worker_cache (with_worker idle_worker) 1 100).0,
      ok tt,
    )
refresh-remove_timedout_workers_example =
    refresh-remove_timedout_workers open_channel log_manager worker_cache 5
      (with_worker idle_worker) 101 100 1 idle_worker idle_pool-last (omega arith) (omega arith)
