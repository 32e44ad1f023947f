-- ===== src/ApiWorkerScheduler/Invariant.antt =====
-- The operations of the pool that place and complete actions keep the resources adding up.
use native_link.Base.{
  ok_or_tip, merge, make_err, Code, append, ◌+◌, Bool, true, false, not, none, some, ◌≡◌, refl, ◌∙◌,
  lookup, ℕ_discrete, Result, ok, err, Error, Option-cases, Bool-cases, if◌then◌else◌, ◌&&◌, ◌||◌,
  ◌⊎◌, inl, inr, Distinct, string_discrete, insert,
}
use native_link.Base.Lru.{LruCache}
use native_link.Base.Lru.Peek.{peek-get}
use native_link.ActionMessages.{WorkerId, OperationId, OperationId-discrete, UpdateOperationType}
use native_link.PlatformProperties.{Properties, is_satisfied_by}
use native_link.Worker.{
  ActionInfoWithProps, Worker, Channel, notify_update, place_action, has_actions, can_accept_work,
}
use native_link.Worker.Demand.{Conserves}
use native_link.Worker.Conservation.{
  Conserves-same, place_action-Conserves, complete_action-Conserves,
}
use native_link.ApiWorkerScheduler.{
  WorkerStateManager, Pool, immediate_evict_worker, finish_action, update_running, update_action,
  worker_notify_run_action, ends,
}
use native_link.ApiWorkerScheduler.Handed.{Handed, gone, told-Handed, evicted-Handed}
use native_link.ApiWorkerScheduler.Kept.{
  IsKept, IsValid, write-KeepsAll, immediate_evict_worker-IsValid, get-KeepsAll,
}

module _ (channel : Channel) (manager : WorkerStateManager)
    (lru : LruCache WorkerId (Worker channel.Tx) ℕ_discrete)
    (registered : WorkerId → Properties) where
  open channel use {Tx}
  open lru use {peek, get, write, put, pop, Cache}

  finish_action-IsValid :
      (p : Pool channel manager lru) (k : WorkerId) (w : Worker Tx) (o : OperationId)
      (info : ActionInfoWithProps) (due : Bool)
      → IsValid channel manager lru registered p
      → IsKept registered k w
      → lookup OperationId-discrete o w.running_action_infos ≡ some info
      → (q : Pool channel manager lru) × (finish_action channel manager lru p k w o due
          ≡ some (q, ok tt))
        × IsValid channel manager lru registered q
  unfolding finish_action
  finish_action-IsValid p k w o info due v kept runs =
      let (w', e, r, u, i, c) =
        complete_action-Conserves channel (registered k) w o info kept.conserves runs in
      let pause = (not (can_accept_work w) || due) && has_actions w' in
      let x : Worker Tx = if pause then record w' { is_paused = true } else w' in
      (
        record p {
          workers = write k x p.workers;
          worker_change_notify = p.worker_change_notify + 1;
        },
        rw e refl,
        write-KeepsAll channel manager lru registered k x p.workers v (paused pause w' i c),
      )
    where
      paused :
          (b : Bool) (w' : Worker Tx)
          → w'.id ≡ w.id
          → Conserves (registered k) w'
          → IsKept registered k (if b then record w' { is_paused = true } else w')
      paused false w' i c = record { own_id = i ∙ kept.own_id; conserves = c }
      paused true w' i c = record {
        own_id = i ∙ kept.own_id;
        conserves = Conserves-same (registered k) w' (record w' { is_paused = true }) refl refl c;
      }

  update_running-IsValid :
      (p : Pool channel manager lru) (k : WorkerId) (w : Worker Tx) (o : OperationId)
      (info : ActionInfoWithProps) (update : UpdateOperationType)
      → IsValid channel manager lru registered p
      → IsKept registered k w
      → lookup OperationId-discrete o w.running_action_infos ≡ some info
      → (q : Pool channel manager lru) × (r : Result (Unit {0})) × (update_running channel manager
            lru p k w o update
          ≡ some (q, r))
        × IsValid channel manager lru registered q
  unfolding update_running
  update_running-IsValid p k w o info update v kept runs =
      by_result (manager.update_operation p.worker_state_manager o k update).1 refl
        (Bool-cases (ends update).0)
    where
      p' : Pool channel manager lru
      p' = record p {
        worker_state_manager = (manager.update_operation p.worker_state_manager o k update).0;
      }

      by_result :
          (res : Result (Unit {0}))
          → (manager.update_operation p.worker_state_manager o k update).1 ≡ res
          → ((ends update).0 ≡ true) ⊎ ((ends update).0 ≡ false)
          → (q : Pool channel manager lru) × (r : Result (Unit {0})) × (update_running channel
                manager lru p k w o update
              ≡ some (q, r))
            × IsValid channel manager lru registered q
      by_result (err x) e f = (
        p',
        err (append x "in update_operation on SimpleScheduler::update_action"),
        rw (e, update_running),
        v,
      )
      by_result (ok u) e (inr f) = (p', ok tt, rw (e, update_running, f), v)
      by_result (ok u) e (inl f) =
          let (q, g, v') = finish_action-IsValid p' k w o info (ends update).1 v kept runs in
          (q, ok tt, rw (e, update_running, f) g, v')

  -- In a pool where the resources of every worker add up, no update of an operation, by any
  -- worker, makes the pool panic, and the resources of every worker still add up afterwards.
  pub update_action-IsValid :
      (p : Pool channel manager lru) (k : WorkerId) (o : OperationId) (update : UpdateOperationType)
      → IsValid channel manager lru registered p
      → (q : Pool channel manager lru) × (r : Result (Unit {0})) × (update_action channel manager
            lru p k o update
          ≡ some (q, r))
        × IsValid channel manager lru registered q
  unfolding update_action
  update_action-IsValid p k o update v = elim (Option-cases (peek k p.workers)) [
    | inl e ↦ (
      p',
      ok_or_tip none "Worker does not exist in SimpleScheduler::update_action",
      rw (e, update_action),
      get-KeepsAll channel manager lru registered k p.workers v,
    )
    | inr (w, e) ↦ elim (Option-cases (lookup OperationId-discrete o w.running_action_infos)) [
      | inl absent ↦
          let out = immediate_evict_worker channel manager lru p' k not_running in
          (
            out.0,
            merge {A = Unit {0}} (err not_running) out.1,
            rw (e, update_action, absent),
            immediate_evict_worker-IsValid channel manager lru registered p' k not_running
                (get-KeepsAll channel manager lru registered k p.workers v),
          )
      | inr (info, runs) ↦
          let (q, r, g, v') =
            update_running-IsValid p' k w o info update
              (get-KeepsAll channel manager lru registered k p.workers v) (v k w e) runs in
          (q, r, rw (e, update_action, runs) g, v')
    ]
  ]
    where
      p' : Pool channel manager lru
      p' = record p { workers = get k p.workers }

      not_running : Error
      not_running =
          make_err Code.internal
            "Operation should not be running on worker in SimpleScheduler::update_action"

  -- In a pool where the resources of every worker add up, an action whose properties have distinct
  -- names, which the worker satisfies if it is in the pool and which it does not run yet, is
  -- placed without a panic, and the resources of every worker still add up. If the worker is in the
  -- pool and its channel takes the message that starts the action, the worker has the action among
  -- its running ones, no other worker changes, and the result is ok. If the channel is closed, that
  -- worker and no other leaves the pool, its operations, the new one included, are reported with
  -- the failure in order, and the result is an error. If the worker is not in the pool, no worker
  -- changes and the result is ok.
  pub worker_notify_run_action-IsValid :
      (p : Pool channel manager lru) (k : WorkerId) (o : OperationId) (info : ActionInfoWithProps)
      → IsValid channel manager lru registered p
      → Distinct string_discrete info.platform_properties
      → ((w : Worker Tx)
          → peek k p.workers ≡ some w
          → (is_satisfied_by info.platform_properties w.platform_properties ≡ true)
            × (lookup OperationId-discrete o w.running_action_infos ≡ none))
      → (q : Pool channel manager lru) × (r : Result (Unit {0})) × (worker_notify_run_action channel
            manager lru p k o info
          ≡ some (q, r))
        × IsValid channel manager lru registered q
        × Handed channel manager lru p k o info q r
  unfolding worker_notify_run_action notify_update
  worker_notify_run_action-IsValid p k o info v names fits =
      elim (Option-cases (peek k p.workers)) [
        | inl e ↦ (
          p',
          ok tt,
          rw (e, worker_notify_run_action),
          get-KeepsAll channel manager lru registered k p.workers v,
          gone e (λ j. peek-get ℕ_discrete lru k j p.workers) refl,
        )
        | inr (w, e) ↦
            let kept = v k w e in
            let f = fits w e in
            let (w', res, g, a, i, c) =
              place_action-Conserves channel (registered k) w o info kept.conserves names f.0 f.1 in
            placed_action w w' res e g a (record { own_id = i ∙ kept.own_id; conserves = c })
      ]
    where
      p' : Pool channel manager lru
      p' = record p { workers = get k p.workers }

      placed_action :
          (w w' : Worker Tx) (res : Result (Unit {0}))
          → peek k p.workers ≡ some w
          → place_action channel w o info ≡ some (w', res)
          → w'.running_action_infos ≡ insert OperationId-discrete o info w.running_action_infos
          → IsKept registered k w'
          → (q : Pool channel manager lru) × (r : Result (Unit {0})) × (worker_notify_run_action
                channel manager lru p k o info
              ≡ some (q, r))
            × IsValid channel manager lru registered q
            × Handed channel manager lru p k o info q r
      placed_action w w' (ok u) e g a kept = (
        record p' { workers = write k w' (get k p.workers) },
        ok tt,
        rw (e, worker_notify_run_action, g),
        write-KeepsAll channel manager lru registered k w' (get k p.workers)
            (get-KeepsAll channel manager lru registered k p.workers v) kept,
        told-Handed channel manager lru p k o info w w' e a u g,
      )
      placed_action w w' (err x) e g a kept =
          let p'' : Pool channel manager lru = record p' {
            workers = write k w' (get k p.workers);
          } in
          let failed = make_err Code.internal "Worker command failed, removing worker" in
          let out = immediate_evict_worker channel manager lru p'' k failed in
          (
            out.0,
            merge {A = Unit {0}} (err failed) out.1,
            rw (e, worker_notify_run_action, g),
            immediate_evict_worker-IsValid channel manager lru registered p'' k failed (
                write-KeepsAll channel manager lru registered k w' (get k p.workers)
                  (get-KeepsAll channel manager lru registered k p.workers v) kept),
            evicted-Handed channel manager lru p k o info w w' e a x g,
          )
