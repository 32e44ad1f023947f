-- ===== src/ApiWorkerScheduler/Reach.antt =====
-- The pool over time: any sequence of calls from the empty pool, in the order in which they take
-- the lock, keeps every worker's resources adding up, and no call panics.
use native_link.Base.{
  ℕ, Bool, true, Option, none, some, List, [], ◌∷◌, ◌++◌, ◌≡◌, ◌∙◌, ap, subst, arith, lookup,
  ℕ_discrete, Result, string_discrete, Distinct, inl, inr,
}
use native_link.Base.Lru.{LruCache}
use native_link.ActionMessages.{WorkerId, OperationId, OperationId-discrete, UpdateOperationType}
use native_link.PlatformProperties.{Properties, is_satisfied_by}
use native_link.Worker.{ActionInfoWithProps, Worker, Channel}
use native_link.ApiWorkerScheduler.{
  WorkerStateManager, WorkerAllocationStrategy, Pool, inner_find_worker_for_action, add_worker,
  update_action, worker_notify_run_action, refresh_lifetime, set_drain_worker, remove_worker,
  remove_timedout_workers,
}
use native_link.ApiWorkerScheduler.Choice.{CanRun, find_worker-chooses}
use native_link.ApiWorkerScheduler.Kept.{
  IsKept, IsValid, add_worker-IsValid, refresh_lifetime-IsValid, set_drain_worker-IsValid,
  remove_timedout_workers-IsValid, immediate_evict_worker-IsValid,
}
use native_link.ApiWorkerScheduler.Invariant.{
  update_action-IsValid, worker_notify_run_action-IsValid,
}

module _ (channel : Channel) (manager : WorkerStateManager)
    (lru : LruCache WorkerId (Worker channel.Tx) ℕ_discrete)
    (registered : WorkerId → Properties) where
  open channel use {Tx}
  open lru use {peek, iter, unbounded}

  -- `ApiWorkerScheduler::new`.
  unfoldable pub new_pool : manager.S → WorkerAllocationStrategy → Pool channel manager lru
  new_pool s strategy = record {
    workers = unbounded;
    worker_state_manager = s;
    allocation_strategy = strategy;
    worker_change_notify = 0;
    operation_keep_alive_tx = [];
  }

  -- An action that the caller may place on a worker: the worker was found for it, so it is open to
  -- work and satisfies the action, and it does not run the operation already.
  abbrev pub MayPlace :
      Pool channel manager lru → WorkerId → OperationId → ActionInfoWithProps → Type 0
  MayPlace p k o info =
      Distinct string_discrete info.platform_properties
      × ((w : Worker Tx)
          → peek k p.workers ≡ some w
          → (is_satisfied_by info.platform_properties w.platform_properties ≡ true)
            × (lookup OperationId-discrete o w.running_action_infos ≡ none))

  pub data Step : Pool channel manager lru → Pool channel manager lru → Type 0 where
    joins :
        (p : Pool channel manager lru) (w : Worker Tx)
        → IsKept registered w.id w
        → Step p (add_worker channel manager lru p w).0
    updates :
        (p q : Pool channel manager lru) (k : WorkerId) (o : OperationId) (u : UpdateOperationType)
        (r : Result (Unit {0}))
        → update_action channel manager lru p k o u ≡ some (q, r)
        → Step p q
    runs :
        (p q : Pool channel manager lru) (k : WorkerId) (o : OperationId)
        (info : ActionInfoWithProps) (r : Result (Unit {0}))
        → MayPlace p k o info
        → worker_notify_run_action channel manager lru p k o info ≡ some (q, r)
        → Step p q
    refreshes :
        (p : Pool channel manager lru) (k : WorkerId) (t : ℕ)
        → Step p (refresh_lifetime channel manager lru p k t).0
    drains :
        (p : Pool channel manager lru) (k : WorkerId) (b : Bool)
        → Step p (set_drain_worker channel manager lru p k b).0
    leaves :
        (p : Pool channel manager lru) (k : WorkerId)
        → Step p (remove_worker channel manager lru p k).0
    expires :
        (p : Pool channel manager lru) (timeout now : ℕ)
        → Step p (remove_timedout_workers channel manager lru timeout p now).0

  pub data Reach (s : Pool channel manager lru) : Pool channel manager lru → Type 0 where
    here : Reach s s
    next : {p q : Pool channel manager lru} → Reach s p → Step p q → Reach s q

  of_some :
      {A : Type 0} (P : A → Type 0) (o : Option (A × Result (Unit {0}))) (a : A)
      (r : Result (Unit {0}))
      → o ≡ some (a, r)
      → ((b : A) × (t : Result (Unit {0})) × (o ≡ some (b, t)) × P b)
      → P a
  of_some P o a r e (b, t, f, x) = subst P (ground arith) x

  Step-IsValid :
      {p q : Pool channel manager lru}
      → Step p q
      → IsValid channel manager lru registered p
      → IsValid channel manager lru registered q
  unfolding remove_worker
  Step-IsValid (joins p w kept) v = add_worker-IsValid channel manager lru registered p w kept v
  Step-IsValid (updates p q k o u r e) v =
      of_some (IsValid channel manager lru registered) (update_action channel manager lru p k o u) q
        r e (update_action-IsValid channel manager lru registered p k o u v)
  Step-IsValid (runs p q k o info r may e) v =
      let (q', r', e', v', handed) =
        worker_notify_run_action-IsValid channel manager lru registered p k o info v may.0 may.1 in
      of_some (IsValid channel manager lru registered)
        (worker_notify_run_action channel manager lru p k o info) q r e (q', r', e', v')
  Step-IsValid (refreshes p k t) v = refresh_lifetime-IsValid channel manager lru registered p k t v
  Step-IsValid (drains p k b) v = set_drain_worker-IsValid channel manager lru registered p k b v
  Step-IsValid (leaves p k) v =
      immediate_evict_worker-IsValid channel manager lru registered p k _ v
  Step-IsValid (expires p timeout now) v =
      remove_timedout_workers-IsValid channel manager lru registered timeout p now v

  new_pool-IsValid :
      (s : manager.S) (strategy : WorkerAllocationStrategy)
      → IsValid channel manager lru registered (new_pool s strategy)
  unfolding new_pool lookup
  new_pool-IsValid s strategy k w e =
      absurd (ground (arith, lru.peek-iter k unbounded, lru.iter-unbounded))

  Reach-IsValid-from :
      {s p : Pool channel manager lru}
      → IsValid channel manager lru registered s
      → Reach s p
      → IsValid channel manager lru registered p
  Reach-IsValid-from v here = v
  Reach-IsValid-from v (next r st) = Step-IsValid st (Reach-IsValid-from v r)

  -- Whatever calls a new pool has served (workers join with their resources free or adding up, and
  -- actions are placed only on workers that satisfy them and do not run them), every worker in it
  -- stands under its own id, and its free resources and those of its running actions add up to
  -- what it registered.
  pub Reach-IsValid :
      (s : manager.S) (strategy : WorkerAllocationStrategy) (p : Pool channel manager lru)
      → Reach (new_pool s strategy) p
      → IsValid channel manager lru registered p
  Reach-IsValid s strategy p r = Reach-IsValid-from (new_pool-IsValid s strategy) r

module _ (channel : Channel) (manager : WorkerStateManager)
    (lru : LruCache WorkerId (Worker channel.Tx) ℕ_discrete) where
  open channel use {Tx}
  open lru use {peek}

  lookup-append_hit :
      (k : WorkerId) (w : Worker Tx) (before after : List (WorkerId × Worker Tx))
      → Distinct ℕ_discrete (before ++ (k, w) ∷ after)
      → lookup ℕ_discrete k (before ++ (k, w) ∷ after) ≡ some w
  unfolding lookup
  lookup-append_hit k w [] after d = ground arith
  lookup-append_hit k w ((j, x) ∷ before) after d =
      let ih = lookup-append_hit k w before after d.1 in ground (arith, ih)

  -- In a pool where every worker stands under its own id, a worker that is found for an action is
  -- in the pool, is neither paused nor draining, and satisfies the action.
  pub find_worker-CanRun :
      (p : Pool channel manager lru) (props : Properties) (k : WorkerId)
      → ((j : WorkerId) (w : Worker Tx) → peek j p.workers ≡ some w → w.id ≡ j)
      → inner_find_worker_for_action channel manager lru p props ≡ some k
      → (w : Worker Tx) × (peek k p.workers ≡ some w) × CanRun channel manager lru props w
  find_worker-CanRun p props k own e = elim (find_worker-chooses channel manager lru p props) [
    | inl (n, a) ↦ absurd (ground arith)
    | inr (before, after, (j, w), f, s, c, a) ↦
        let found : peek j p.workers ≡ some w =
          lru.peek-iter j p.workers
          ∙ (ap (lookup ℕ_discrete j) s
              ∙ lookup-append_hit j w before after
                  (subst (Distinct ℕ_discrete) s (lru.iter-Distinct p.workers))) in
        let same : j ≡ k = ground (arith, own j w found) in
        (w, subst (λ z. peek z p.workers ≡ some w) same found, c)
  ]
