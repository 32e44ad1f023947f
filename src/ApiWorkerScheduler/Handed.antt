-- ===== src/ApiWorkerScheduler/Handed.antt =====
-- What becomes of an action that the pool hands to a worker.
use native_link.Base.{
  none, some, ◌≡◌, refl, ◌∙◌, arith, ite, map, ℕ_discrete, Result, ok, err, Error, Code, make_err,
  merge, insert, Option-cases, inl, inr, ap,
}
use native_link.Base.Lru.{LruCache}
use native_link.Base.Lru.Peek.{peek-get, peek-write}
use native_link.ActionMessages.{WorkerId, OperationId, OperationId-discrete}
use native_link.Worker.{
  ActionInfoWithProps, Worker, Channel, start_action, place_action, send_msg_to_worker,
  reduce_platform_properties,
}
use native_link.ApiWorkerScheduler.{WorkerStateManager, Pool, immediate_evict_worker}
use native_link.ApiWorkerScheduler.Evict.{
  immediate_evict_worker_lem, peek-immediate_evict_worker, report_all,
}

merge-err :
    (e : Error) (r : Result (Unit {0})) → (x : Error) × (merge {A = Unit {0}} (err e) r ≡ err x)
unfolding merge
merge-err e (ok u) = (e, refl)
merge-err e (err f) = (_, refl)

module _ (channel : Channel) (w w' : Worker channel.Tx) (o : OperationId)
    (info : ActionInfoWithProps) where
  open channel use {send}

  place_action-sent :
      (u : Unit {0})
      → place_action channel w o info ≡ some (w', ok u)
      → send w.tx (start_action o info.inner) ≡ some w'.tx
  unfolding place_action send_msg_to_worker
  place_action-sent u g =
      elim (Option-cases
        (reduce_platform_properties w.platform_properties info.platform_properties)) [
          | inl e ↦ absurd (ground (arith))
          | inr (props, e) ↦ elim (Option-cases (send w.tx (start_action o info.inner))) [
            | inl f ↦ absurd (ground (arith))
            | inr (t, f) ↦ ground (arith)
          ]
        ]

  place_action-unsent :
      (x : Error)
      → place_action channel w o info ≡ some (w', err x)
      → send w.tx (start_action o info.inner) ≡ none
  unfolding place_action send_msg_to_worker
  place_action-unsent x g =
      elim (Option-cases
        (reduce_platform_properties w.platform_properties info.platform_properties)) [
          | inl e ↦ absurd (ground (arith))
          | inr (props, e) ↦ elim (Option-cases (send w.tx (start_action o info.inner))) [
            | inl f ↦ f
            | inr (t, f) ↦ absurd (ground (arith))
          ]
        ]

module _ (channel : Channel) (manager : WorkerStateManager)
    (lru : LruCache WorkerId (Worker channel.Tx) ℕ_discrete) where
  open channel use {Tx, send}
  open lru use {peek, get, write}

  abbrev pub failed : Error
  failed = make_err Code.internal "Worker command failed, removing worker"

  -- The three ways, with the pool and the result that each leaves.
  pub data Handed (p : Pool channel manager lru) (k : WorkerId) (o : OperationId)
      (info : ActionInfoWithProps) (q : Pool channel manager lru) (r : Result (Unit {0}))
      : Type 0 where
    gone :
        peek k p.workers ≡ none
        → ((j : WorkerId) → peek j q.workers ≡ peek j p.workers)
        → r ≡ ok tt
        → Handed p k o info q r
    told :
        (w w' : Worker Tx)
        → peek k p.workers ≡ some w
        → send w.tx (start_action o info.inner) ≡ some w'.tx
        → w'.running_action_infos ≡ insert OperationId-discrete o info w.running_action_infos
        → ((j : WorkerId) → peek j q.workers ≡ ite (ℕ_discrete j k) (some w') (peek j p.workers))
        → r ≡ ok tt
        → Handed p k o info q r
    evicted :
        (w : Worker Tx)
        → peek k p.workers ≡ some w
        → send w.tx (start_action o info.inner) ≡ none
        → ((j : WorkerId) → peek j q.workers ≡ ite (ℕ_discrete j k) none (peek j p.workers))
        → q.worker_state_manager
          ≡ report_all channel manager lru p.worker_state_manager k failed
              (map (λ a. a.0) (insert OperationId-discrete o info w.running_action_infos))
        → ((e : Error) × (r ≡ err e))
        → Handed p k o info q r

  module _ (p : Pool channel manager lru) (k : WorkerId) (o : OperationId)
      (info : ActionInfoWithProps) (w w' : Worker Tx) (found : peek k p.workers ≡ some w)
      (added : w'.running_action_infos
        ≡ insert OperationId-discrete o info w.running_action_infos) where
    -- The pool with the worker written back.
    abbrev pub placed : Pool channel manager lru
    placed = record p { workers = write k w' (get k p.workers) }

    peek-placed :
        (j : WorkerId)
        → peek j (write k w' (get k p.workers)) ≡ ite (ℕ_discrete j k) (some w') (peek j p.workers)
    peek-placed j =
        rw
          (
            peek-write ℕ_discrete lru k j w' (get k p.workers),
            peek-get ℕ_discrete lru k k p.workers,
            peek-get ℕ_discrete lru k j p.workers,
            found,
          )
          refl

    pub told-Handed :
        (u : Unit {0})
        → place_action channel w o info ≡ some (w', ok u)
        → Handed p k o info placed (ok tt)
    told-Handed u g =
        told w w' found (place_action-sent channel w w' o info u g) added peek-placed refl

    pub evicted-Handed :
        (x : Error)
        → place_action channel w o info ≡ some (w', err x)
        → let out = immediate_evict_worker channel manager lru placed k failed in
          Handed p k o info out.0 (merge {A = Unit {0}} (err failed) out.1)
    evicted-Handed x g =
        evicted w found (place_action-unsent channel w w' o info x g) left
          ((immediate_evict_worker_lem channel manager lru placed k w' failed here).1
            ∙ ap
                (λ infos.
                  report_all channel manager lru p.worker_state_manager k failed
                    (map (λ a. a.0) infos))
                added)
          (merge-err failed (immediate_evict_worker channel manager lru placed k failed).1)
      where
        here : peek k placed.workers ≡ some w'
        here = ground (arith, peek-placed k)

        left :
            (j : WorkerId)
            → peek j (immediate_evict_worker channel manager lru placed k failed).0.workers
              ≡ ite (ℕ_discrete j k) none (peek j p.workers)
        left j = ground (
          arith,
          peek-immediate_evict_worker channel manager lru placed k j failed,
          peek-placed j,
        )
