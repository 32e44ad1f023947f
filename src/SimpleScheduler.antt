-- ===== src/SimpleScheduler.antt =====
-- nativelink-scheduler/src/simple_scheduler.rs, the matching engine: it takes the queued operations
-- one after the other and hands each to a worker of the pool that can run it. The state manager is a
-- parameter, on the state that the pool holds too, because both hold the same one; its stream of
-- operations is a list. nativelink-scheduler/src/platform_property_manager.rs gives the properties
-- of an action their types.
pub mod Placed
pub mod Match
use native_link.Base.{
  ℕ, String, Option, none, some, List, [], ◌∷◌, ite, lookup, insert, string_discrete, ℕ_discrete,
  Result, ok, err, Error, Code, Code-discrete, make_input_err, append, err_tip, merge, codes,
  parse_usize,
}
use native_link.Base.Lru.{LruCache}
use native_link.ActionMessages.{WorkerId, OperationId, ActionInfo, ActionState}
use native_link.PlatformProperties.{PlatformPropertyValue, exact, minimum, priority, Properties}
use native_link.Worker.{ActionInfoWithProps, Worker, Channel, ◌>>=?◌}
use native_link.ApiWorkerScheduler.{
  WorkerStateManager, Pool, inner_find_worker_for_action, worker_notify_run_action,
}
use native_link.StateManager.Filter.{OperationFilter, OrderDirection, desc, queued_flag}

-- nativelink-config/src/schedulers.rs
pub data PropertyType : Type 0 where
  minimum_type exact_type priority_type : PropertyType

-- A number for `minimum`. Of the error, the parser's own message is left out.
abbrev minimum_value : Option ℕ → Result PlatformPropertyValue
minimum_value (some n) = ok (minimum n)
minimum_value none = err (make_input_err "Cannot convert to platform property to u64")

abbrev value_of_type : Option PropertyType → String → Result PlatformPropertyValue
value_of_type (some minimum_type) value = minimum_value (parse_usize (codes value))
value_of_type (some exact_type) value = ok (exact value)
value_of_type (some priority_type) value = ok (priority value)
value_of_type none value = err (make_input_err "Unknown platform property")

unfoldable pub make_prop_value :
    List (String × PropertyType) → String → String → Result PlatformPropertyValue
make_prop_value known_properties key value =
    value_of_type (lookup string_discrete key known_properties) value

abbrev insert_value :
    (Properties → Result Properties)
    → Properties
    → String
    → Result PlatformPropertyValue
    → Result Properties
insert_value rest platform_properties key (ok prop_value) =
    rest (insert string_discrete key prop_value platform_properties)
insert_value rest platform_properties key (err e) = err e

-- `make_platform_properties`, from the properties so far.
unfoldable pub make_platform_properties :
    List (String × PropertyType) → List (String × String) → Properties → Result Properties
unfolding make_prop_value
make_platform_properties known_properties [] platform_properties = ok platform_properties
make_platform_properties known_properties ((key, value) ∷ properties) platform_properties =
    insert_value (make_platform_properties known_properties properties) platform_properties key
      (make_prop_value known_properties key value)

-- The trait `MatchingEngineStateManager`, with what an `ActionStateResult` answers.
pub record MatchingEngineStateManager (S : Type 0) : Type 1 where
  pub ActionStateResult : Type 0
  pub filter_operations : S → OperationFilter → S × Result (List ActionStateResult)
  pub as_action_info : S → ActionStateResult → S × Result ActionInfo
  pub as_state : S → ActionStateResult → S × Result ActionState
  pub assign_operation : S → OperationId → Result WorkerId → S × Result (Unit {0})

-- The operations that wait, those of the highest priority first.
abbrev pub queued_filter : OperationFilter
queued_filter = record {
  stages = queued_flag;
  client_operation_id = none;
  operation_id = none;
  worker_id = none;
  action_digest_filter = none;
  worker_update_before = none;
  completed_before = none;
  unique_key = none;
  order_by_priority_direction = some desc;
}

module _ (channel : Channel) (manager : WorkerStateManager)
    (lru : LruCache WorkerId (Worker channel.Tx) ℕ_discrete)
    (engine : MatchingEngineStateManager manager.S)
    (known_properties : List (String × PropertyType)) where
  open engine use {ActionStateResult, filter_operations, as_action_info, as_state, assign_operation}

  abbrev pub Outcome : Type 0
  Outcome = Option (Pool channel manager lru × Result (Unit {0}))

  abbrev pub with_manager : Pool channel manager lru → manager.S → Pool channel manager lru
  with_manager p s = record p { worker_state_manager = s }

  abbrev get_queued_operations : manager.S → manager.S × Result (List ActionStateResult)
  get_queued_operations s =
      let (s', found) = filter_operations s queued_filter in
      (s', err_tip found "In SimpleScheduler::get_queued_operations getting filter result")

  abbrev pub notified : Outcome → Outcome
  notified none = none
  notified (some (p, r)) =
      some (p, err_tip r "Failed to run worker_notify_run_action in SimpleScheduler::do_try_match")

  -- After `assign_operation`; an aborted one was assigned by another.
  unfoldable pub assigned :
      WorkerId
      → OperationId
      → ActionInfoWithProps
      → Pool channel manager lru × Result (Unit {0})
      → Outcome
  assigned worker_id operation_id action_info (p, ok done) =
      notified (worker_notify_run_action channel manager lru p worker_id operation_id action_info)
  assigned worker_id operation_id action_info (p, err e) = some (
    p,
    ite (Code-discrete e.code Code.aborted) (ok tt)
        (err (append e "Failed to assign operation in do_try_match")),
  )

  abbrev pub assign_to :
      WorkerId → ActionInfoWithProps → Pool channel manager lru × Result ActionState → Outcome
  assign_to worker_id action_info (p, err e) =
      some (p, err (append e "Failed to get action_info from as_state_result stream"))
  assign_to worker_id action_info (p, ok action_state) =
      let (s, r) =
        assign_operation p.worker_state_manager action_state.client_operation_id (ok worker_id) in
      assigned worker_id action_state.client_operation_id action_info (with_manager p s, r)

  abbrev pub place_on :
      Pool channel manager lru → ActionStateResult → ActionInfoWithProps → Option WorkerId → Outcome
  place_on p result action_info none = some (p, ok tt)
  place_on p result action_info (some worker_id) =
      let (s, state) = as_state p.worker_state_manager result in
      assign_to worker_id action_info (with_manager p s, state)

  abbrev pub match_typed :
      Pool channel manager lru → ActionStateResult → ActionInfo → Result Properties → Outcome
  match_typed p result info (err e) =
      some (p, err (append e "Failed to make platform properties in SimpleScheduler::do_try_match"))
  match_typed p result info (ok platform_properties) =
      place_on p result (record { inner = info; platform_properties = platform_properties })
        (inner_find_worker_for_action channel manager lru p platform_properties)

  abbrev pub match_info : ActionStateResult → Pool channel manager lru × Result ActionInfo → Outcome
  match_info result (p, err e) =
      some (p, err (append e "Failed to get action_info from as_action_info_result stream"))
  match_info result (p, ok info) =
      match_typed p result info
        (make_platform_properties known_properties info.platform_properties [])

  unfoldable pub match_action_to_worker : Pool channel manager lru → ActionStateResult → Outcome
  unfolding assigned make_platform_properties
  match_action_to_worker p result =
      let (s, info) = as_action_info p.worker_state_manager result in
      match_info result (with_manager p s, info)

  unfoldable pub match_all :
      Pool channel manager lru → List ActionStateResult → Result (Unit {0}) → Outcome
  unfolding match_action_to_worker
  match_all p [] result = some (p, result)
  match_all p (action_state_result ∷ stream) result =
      match_action_to_worker p action_state_result >>=? λ (p', r).
      match_all p' stream (merge result r)

  abbrev pub match_queued : Pool channel manager lru × Result (List ActionStateResult) → Outcome
  match_queued (p, err e) =
      some (p, err (append e "Failed to get queued operations in do_try_match"))
  match_queued (p, ok stream) = match_all p stream (ok tt)

  -- `none` is a panic.
  unfoldable pub do_try_match : Pool channel manager lru → Outcome
  unfolding match_all
  do_try_match p =
      let (s, queued) = get_queued_operations p.worker_state_manager in
      match_queued (with_manager p s, queued)
