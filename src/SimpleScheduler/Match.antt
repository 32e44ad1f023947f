-- ===== src/SimpleScheduler/Match.antt =====
-- A run of the matching engine on a pool whose workers' resources add up.
use native_link.Base.{
  true, String, none, some, List, [], ◌∷◌, ◌≡◌, ◌≢◌, refl, sym, ap, ◌∙◌, subst, arith, inl, inr,
  All, string_discrete, ℕ_discrete, Result, Result-cases, ok, err, err_tip, merge, Option, Distinct,
}
use native_link.Base.Lru.{LruCache}
use native_link.ActionMessages.{WorkerId, OperationId, ActionInfo, ActionState}
use native_link.PlatformProperties.{Properties, is_satisfied_by}
use native_link.Worker.{ActionInfoWithProps, Worker, Channel, ◌>>=?◌}
use native_link.ApiWorkerScheduler.{
  WorkerStateManager, Pool, inner_find_worker_for_action, worker_notify_run_action,
}
use native_link.ApiWorkerScheduler.Kept.{IsValid}
use native_link.ApiWorkerScheduler.Reach.{find_worker-CanRun}
use native_link.SimpleScheduler.{
  PropertyType, make_platform_properties, MatchingEngineStateManager, with_manager, notified,
  assigned, assign_to, place_on, match_typed, match_info, match_action_to_worker, match_all,
  match_queued, do_try_match, queued_filter,
}
use native_link.SimpleScheduler.Placed.{
  make_platform_properties-Distinct, NotRunning, Keeps, Safe, run-Safe,
}

module _ (channel : Channel) (manager : WorkerStateManager)
    (lru : LruCache WorkerId (Worker channel.Tx) ℕ_discrete)
    (registered : WorkerId → Properties) where
  open channel use {Tx}
  open lru use {Cache, peek, get, write, pop}

  module _ (engine : MatchingEngineStateManager manager.S)
      (known : List (String × PropertyType)) where
    open engine use {ActionStateResult, as_action_info, as_state, assign_operation}

    -- An operation keeps its id while it is matched.
    abbrev pub StableIds : (ActionStateResult → OperationId) → Type 0
    StableIds operation_of =
        (s s' : manager.S) (x : ActionStateResult) (state : ActionState)
        → as_state s x ≡ (s', ok state)
        → state.client_operation_id ≡ operation_of x

    -- Each operation is there once, and no worker runs it.
    abbrev pub Waiting : (ActionStateResult → OperationId) → Cache → List ActionStateResult → Type 0
    Waiting operation_of c [] = Unit
    Waiting operation_of c (x ∷ xs) =
        NotRunning channel manager lru registered (operation_of x) c
        × All (λ y. operation_of y ≢ operation_of x) xs
        × Waiting operation_of c xs

    Waiting-Keeps :
        (operation_of : ActionStateResult → OperationId) (o : OperationId) (c c' : Cache)
        (xs : List ActionStateResult)
        → Keeps channel manager lru registered o c c'
        → All (λ y. operation_of y ≢ o) xs
        → Waiting operation_of c xs
        → Waiting operation_of c' xs
    Waiting-Keeps operation_of o c c' [] keeps others waiting = tt
    Waiting-Keeps operation_of o c c' (x ∷ xs) keeps (n, others) (idle, distinct, rest) = (
      keeps (operation_of x) n idle,
      distinct,
      Waiting-Keeps operation_of o c c' xs keeps others rest,
    )

    module _ (operation_of : ActionStateResult → OperationId)
        (stable : StableIds operation_of) where
      stays :
          (p : Pool channel manager lru) (s : manager.S) (o : OperationId) (r : Result (Unit {0}))
          → IsValid channel manager lru registered p
          → Safe channel manager lru registered p o
              (some (with_manager channel manager lru engine known p s, r))
      stays p s o r v = (record p { worker_state_manager = s }, r, refl, v, λ o' n idle. idle)

      assigned-Safe :
          (p : Pool channel manager lru) (s : manager.S) (k : WorkerId) (o : OperationId)
          (info : ActionInfoWithProps) (r : Result (Unit {0}))
          → IsValid channel manager lru registered p
          → Safe channel manager lru registered p o (
              worker_notify_run_action channel manager lru
                (with_manager channel manager lru engine known p s)
                k
                o
                info)
          → Safe channel manager lru registered p o (
              assigned channel manager lru engine known k o info
                (with_manager channel manager lru engine known p s, r))
      unfolding assigned
      assigned-Safe p s k o info (ok done) v (q, r, e, v', keeps) = (
        q,
        err_tip r "Failed to run worker_notify_run_action in SimpleScheduler::do_try_match",
        ap (notified channel manager lru engine known) e,
        v',
        keeps,
      )
      assigned-Safe p s k o info (err x) v run = stays p s o _ v

      assign_to-Safe :
          (p : Pool channel manager lru) (s : manager.S) (k : WorkerId) (x : ActionStateResult)
          (info : ActionInfoWithProps) (found : Result ActionState)
          → IsValid channel manager lru registered p
          → ((state : ActionState) → found ≡ ok state → state.client_operation_id ≡ operation_of x)
          → ((s' : manager.S)
              → Safe channel manager lru registered p (operation_of x) (
                  worker_notify_run_action channel manager lru
                    (with_manager channel manager lru engine known p s')
                    k
                    (operation_of x)
                    info))
          → Safe channel manager lru registered p (operation_of x) (
              assign_to channel manager lru engine known k info
                (with_manager channel manager lru engine known p s, found))
      assign_to-Safe p s k x info (err e) v ids run = stays p s (operation_of x) _ v
      assign_to-Safe p s k x info (ok state) v ids run =
          let o = state.client_operation_id in
          let out = assign_operation s o (ok k) in
          subst
            (λ z. Safe channel manager lru registered p z (
              assigned channel manager lru engine known k o info
                (with_manager channel manager lru engine known p out.0, out.1)))
            (ids state refl)
            (assigned-Safe p out.0 k o info out.1 v (
              subst
                (λ z. Safe channel manager lru registered p z (
                  worker_notify_run_action channel manager lru
                    (with_manager channel manager lru engine known p out.0) k z info))
                (sym (ids state refl)) (run out.0)))

      place_on-Safe :
          (p : Pool channel manager lru) (x : ActionStateResult) (info : ActionInfoWithProps)
          (found : Option WorkerId)
          → IsValid channel manager lru registered p
          → NotRunning channel manager lru registered (operation_of x) p.workers
          → Distinct string_discrete info.platform_properties
          → inner_find_worker_for_action channel manager lru p info.platform_properties ≡ found
          → Safe channel manager lru registered p
              (operation_of x)
              (place_on channel manager lru engine known p x info found)
      place_on-Safe p x info none v idle names e =
          stays p p.worker_state_manager (operation_of x) _ v
      place_on-Safe p x info (some k) v idle names e =
          let (w, there, can) =
            find_worker-CanRun channel manager lru p info.platform_properties k
              (λ j w f. (v j w f).own_id) e in
          let out = as_state p.worker_state_manager x in
          assign_to-Safe p out.0 k x info out.1 v
            (λ state f. stable p.worker_state_manager out.0 x state (ap (λ r. (out.0, r)) f))
            (λ s'.
              run-Safe channel manager lru registered
                (with_manager channel manager lru engine known p s') k (operation_of x) info v names
                (λ w' f.
                  let same : w ≡ w' = ground (arith, sym there ∙ f) in
                  (
                    subst
                        (λ z. is_satisfied_by info.platform_properties z.platform_properties ≡ true)
                        same can.satisfied,
                    idle k w' f,
                  )))

      match_info-Safe :
          (p : Pool channel manager lru) (s : manager.S) (x : ActionStateResult)
          (info : Result ActionInfo)
          → IsValid channel manager lru registered p
          → NotRunning channel manager lru registered (operation_of x) p.workers
          → Safe channel manager lru registered p (operation_of x) (
              match_info channel manager lru engine known x
                (with_manager channel manager lru engine known p s, info))
      match_info-Safe p s x (err e) v idle = stays p s (operation_of x) _ v
      match_info-Safe p s x (ok info) v idle =
          let p1 = with_manager channel manager lru engine known p s in
          elim (Result-cases (make_platform_properties known info.platform_properties [])) [
            | inl (props, e) ↦
                subst
                  (λ r.
                    Safe channel manager lru registered p (operation_of x)
                      (match_typed channel manager lru engine known p1 x info r))
                  (sym e)
                  (place_on-Safe p1 x (record { inner = info; platform_properties = props }) _ v
                    idle
                    (make_platform_properties-Distinct known info.platform_properties [] props tt e)
                    refl)
            | inr (y, e) ↦
                subst
                  (λ r.
                    Safe channel manager lru registered p (operation_of x)
                      (match_typed channel manager lru engine known p1 x info r))
                  (sym e) (stays p s (operation_of x) _ v)
          ]

      match_all-IsValid :
          (xs : List ActionStateResult) (p : Pool channel manager lru) (result : Result (Unit {0}))
          → IsValid channel manager lru registered p
          → Waiting operation_of p.workers xs
          → (q : Pool channel manager lru) × (r : Result (Unit {0})) × (match_all channel manager
                lru engine known p xs result
              ≡ some (q, r))
            × IsValid channel manager lru registered q
      unfolding match_all match_action_to_worker
      match_all-IsValid [] p result v waiting = (p, result, refl, v)
      match_all-IsValid (x ∷ xs) p result v (idle, distinct, rest) =
          let info = as_action_info p.worker_state_manager x in
          let (q, r, e, v', keeps) = match_info-Safe p info.0 x info.1 v idle in
          let (q2, r2, e2, v2) = match_all-IsValid xs q (merge result r) v' (
            Waiting-Keeps operation_of (operation_of x) p.workers q.workers xs keeps distinct
              rest) in
          (
            q2,
            r2,
            ap
                  (λ o. o >>=? λ (p', r').
                    match_all channel manager lru engine known p' xs (merge result r'))
                  e
                ∙ e2,
            v2,
          )

      -- When the queue lists each waiting operation once, no worker runs any of them, and an
      -- operation keeps its id, a run of the matching engine on a pool where the resources of
      -- every worker add up comes to an end without a panic, whatever the state manager answers
      -- and whichever workers cannot be told, and the resources of every worker still add up.
      pub do_try_match-IsValid :
          (p : Pool channel manager lru)
          → IsValid channel manager lru registered p
          → ((s : manager.S) (xs : List ActionStateResult)
              → engine.filter_operations p.worker_state_manager queued_filter ≡ (s, ok xs)
              → Waiting operation_of p.workers xs)
          → (q : Pool channel manager lru) × (r : Result (Unit {0})) × (do_try_match channel manager
                lru engine known p
              ≡ some (q, r))
            × IsValid channel manager lru registered q
      unfolding do_try_match
      do_try_match-IsValid p v waiting =
          let out = engine.filter_operations p.worker_state_manager queued_filter in
          by_result out.1 (λ xs e. waiting out.0 xs (ap (λ r. (out.0, r)) e))
        where
          after : Pool channel manager lru
          after =
              with_manager channel manager lru engine known p
                (engine.filter_operations p.worker_state_manager queued_filter).0

          by_result :
              (found : Result (List ActionStateResult))
              → ((xs : List ActionStateResult) → found ≡ ok xs → Waiting operation_of p.workers xs)
              → (q : Pool channel manager lru) × (r : Result (Unit {0})) × (match_queued channel
                    manager lru engine known
                    (
                      after,
                      err_tip found
                          "In SimpleScheduler::get_queued_operations getting filter result",
                    )
                  ≡ some (q, r))
                × IsValid channel manager lru registered q
          by_result (ok xs) listed = match_all-IsValid xs after (ok tt) v (listed xs refl)
          by_result (err e) listed = (after, _, refl, v)
