-- ===== src/Examples/Matching.antt =====
-- The matching engine on a pool with one idle worker and two operations that wait.
use native_link.Base.{String, none, some, List, [], ◌∷◌, ◌≡◌, refl, sym, subst, Result, ok, lookup}
use native_link.ActionMessages.{OperationId, OperationId-discrete, uuid, queued}
use native_link.ApiWorkerScheduler.{Pool}
use native_link.ApiWorkerScheduler.Kept.{IsValid}
use native_link.SimpleScheduler.{
  PropertyType, minimum_type, MatchingEngineStateManager, do_try_match,
}
use native_link.SimpleScheduler.Placed.{NotRunning}
use native_link.SimpleScheduler.Match.{Waiting, do_try_match-IsValid}
use native_link.Examples.Data.{
  digest, info, registered, idle_worker, open_channel, log_manager, worker_cache,
}
use native_link.Examples.Pools.{with_worker, idle_pool-IsValid, only-one}

abbrev waiting_operations : List OperationId
waiting_operations = uuid 8 ∷ uuid 9 ∷ []

abbrev two_queued : MatchingEngineStateManager (List OperationId)
two_queued = record {
  ActionStateResult = OperationId;
  filter_operations = λ s filter. (s, ok waiting_operations);
  as_action_info = λ s o. (s, ok info);
  as_state =
      λ s o. (s, ok (record { stage = queued; client_operation_id = o; action_digest = digest }));
  assign_operation = λ s o worker. (o ∷ s, ok tt);
}

abbrev known_types : List (String × PropertyType)
known_types = ("cpu", minimum_type) ∷ []

idle_pool-NotRunning :
    (o : OperationId)
    → NotRunning open_channel log_manager worker_cache registered o
        (with_worker idle_worker).workers
unfolding lookup
idle_pool-NotRunning o k w e =
    let (q, same) = only-one idle_worker w k e in
    subst (λ z. lookup OperationId-discrete o z.running_action_infos ≡ none) (sym same) refl

two_queued-Waiting :
    (s : List OperationId) (xs : List OperationId)
    → ◌≡◌ {A = List OperationId × Result (List OperationId)} ([], ok waiting_operations) (s, ok xs)
    → Waiting open_channel log_manager worker_cache registered two_queued known_types
        (λ o. o)
        (with_worker idle_worker).workers
        xs
two_queued-Waiting s xs e =
    let same : waiting_operations ≡ xs = cc e in
    subst
      (Waiting open_channel log_manager worker_cache registered two_queued known_types (λ o. o)
        (with_worker idle_worker).workers)
      same (idle_pool-NotRunning (uuid 8), (λ z. cc z, tt), (idle_pool-NotRunning (uuid 9), tt, tt))

do_try_match-IsValid_example :
    (q : Pool open_channel log_manager worker_cache) × (r : Result (Unit {0})) × (do_try_match
        open_channel log_manager worker_cache two_queued known_types
        (with_worker idle_worker)
      ≡ some (q, r))
    × IsValid open_channel log_manager worker_cache registered q
do_try_match-IsValid_example =
    do_try_match-IsValid open_channel log_manager worker_cache registered two_queued known_types
      (λ o. o) (λ s s' x state e. cc e) (with_worker idle_worker) idle_pool-IsValid
      two_queued-Waiting
