-- ===== src/Worker.antt =====
-- nativelink-scheduler/src/worker.rs: a worker, the actions that run on it, and the resources that
-- they take. A function that may panic returns an `Option`, and `none` is the panic. Metrics are
-- left out, and so are the `debug_assert!` and the overflow checks of debug builds: arithmetic on
-- a `u64` wraps.
pub mod Resources
pub mod Demand
pub mod Conservation
pub mod Drained
use native_link.Base.{
  ℕ, suc, ◌+◌, ◌-◌, ◌%◌, String, Bool, true, false, not, ◌&&◌, Option, none, some, List, [], ◌∷◌,
  lookup, insert, remove, replace, string_discrete, Result, ok, err, Code, make_err, err_tip,
  ok_or_tip,
}
use native_link.ActionMessages.{WorkerId, OperationId, OperationId-discrete, ActionInfo}
use native_link.PlatformProperties.{
  PlatformPropertyValue, minimum, exact, priority, unknown, Properties,
}

pub record ActionInfoWithProps : Type 0 where
  pub inner : ActionInfo
  pub platform_properties : Properties

-- The messages to a worker.
pub data UpdateForWorker : Type 0 where
  connection_result : WorkerId → UpdateForWorker
  start_action : OperationId → ActionInfo → UpdateForWorker
  keep_alive disconnect : UpdateForWorker

-- The channel to a worker, of the crate `tokio`: `none` if the receiver is gone.
pub record Channel : Type 1 where
  pub Tx : Type 0
  pub send : Tx → UpdateForWorker → Option Tx

abbrev pub u64_mod : ℕ
u64_mod = 18446744073709551616

infixl 5 ◌>>=?◌
abbrev pub ◌>>=?◌ {ℓ κ} : {A : Type ℓ} {B : Type κ} → Option A → (A → Option B) → Option B
none >>=? f = none
some a >>=? f = f a

-- One pass of the loop of `reduce_platform_properties`; `none` is the `unwrap` of a missing key.
unfoldable pub reduce_value : ℕ → Option PlatformPropertyValue → Option PlatformPropertyValue
reduce_value value none = none
reduce_value value (some (minimum worker_value)) =
    some (minimum ((worker_value + u64_mod - value) % u64_mod))
reduce_value value (some (exact s)) = some (exact s)
reduce_value value (some (priority s)) = some (priority s)
reduce_value value (some (unknown s)) = some (unknown s)

-- The same for `restore_platform_properties`.
unfoldable pub restore_value : ℕ → Option PlatformPropertyValue → Option PlatformPropertyValue
restore_value value none = none
restore_value value (some (minimum worker_value)) =
    some (minimum ((worker_value + value) % u64_mod))
restore_value value (some (exact s)) = some (exact s)
restore_value value (some (priority s)) = some (priority s)
restore_value value (some (unknown s)) = some (unknown s)

-- The body of both loops: only `Minimum` properties of the action count.
unfoldable pub change_property :
    (ℕ → Option PlatformPropertyValue → Option PlatformPropertyValue)
    → String
    → PlatformPropertyValue
    → Properties
    → Option Properties
change_property change property (minimum value) worker_props =
    change value (lookup string_discrete property worker_props) >>=? λ v.
    some (replace string_discrete property v worker_props)
change_property change property (exact s) worker_props = some worker_props
change_property change property (priority s) worker_props = some worker_props
change_property change property (unknown s) worker_props = some worker_props

-- The loop that `reduce_platform_properties` and `restore_platform_properties` share.
unfoldable pub change_properties :
    (ℕ → Option PlatformPropertyValue → Option PlatformPropertyValue)
    → Properties
    → Properties
    → Option Properties
unfolding change_property
change_properties change worker_props [] = some worker_props
change_properties change worker_props ((property, prop_value) ∷ rest) =
    change_property change property prop_value worker_props >>=? λ props.
    change_properties change props rest

unfoldable pub reduce_platform_properties : Properties → Properties → Option Properties
unfolding change_properties reduce_value
reduce_platform_properties = change_properties reduce_value

unfoldable pub restore_platform_properties : Properties → Properties → Option Properties
unfolding change_properties restore_value
restore_platform_properties = change_properties restore_value

pub record Worker (Tx : Type 0) : Type 0 where
  pub id : WorkerId
  pub platform_properties : Properties
  pub tx : Tx
  pub running_action_infos : List (OperationId × ActionInfoWithProps)
  pub last_update_timestamp : ℕ
  pub is_paused : Bool
  pub is_draining : Bool

pub data WorkerUpdate : Type 0 where
  run_action : OperationId → ActionInfoWithProps → WorkerUpdate
  disconnect : WorkerUpdate

-- `Worker::new`.
unfoldable pub new : {Tx : Type 0} → WorkerId → Properties → Tx → ℕ → Worker Tx
new id platform_properties tx timestamp = record {
  id = id;
  platform_properties = platform_properties;
  tx = tx;
  running_action_infos = [];
  last_update_timestamp = timestamp;
  is_paused = false;
  is_draining = false;
}

module _ {Tx : Type 0} where
  unfoldable pub has_actions : Worker Tx → Bool
  has_actions w = elim w.running_action_infos [ [] ↦ false | _ ∷ _ ↦ true ]

  unfoldable pub can_accept_work : Worker Tx → Bool
  can_accept_work w = not w.is_paused && not w.is_draining

  unfoldable pub complete_action : Worker Tx → OperationId → Option (Worker Tx × Result (Unit {0}))
  complete_action w operation_id =
      elim (lookup OperationId-discrete operation_id w.running_action_infos) [
        | none ↦ some (
          w,
          err (record {
            code = Code.internal;
            messages = "Worker tried to complete operation that was not running" ∷ [];
          }),
        )
        | some action_info ↦
            restore_platform_properties w.platform_properties action_info.platform_properties
            >>=? λ props. some (
              record w {
                platform_properties = props;
                running_action_infos =
                    remove OperationId-discrete operation_id w.running_action_infos;
                is_paused = false;
              },
              ok tt,
            )
      ]

module _ (channel : Channel) where
  open channel use {Tx, send}

  -- `send_msg_to_worker`: the worker with the message sent, or the error.
  unfoldable pub send_msg_to_worker : Worker Tx → UpdateForWorker → Worker Tx × Result (Unit {0})
  send_msg_to_worker w msg = elim (send w.tx msg) [
    | none ↦ (w, err (make_err Code.internal "Worker disconnected"))
    | some tx ↦ (record w { tx = tx }, ok tt)
  ]

  unfoldable pub send_initial_connection_result : Worker Tx → Worker Tx × Result (Unit {0})
  unfolding send_msg_to_worker
  send_initial_connection_result w =
      let (w', res) = send_msg_to_worker w (connection_result w.id) in
      (w', err_tip res "Failed to send ConnectionResult to worker")

  unfoldable pub send_keep_alive : Worker Tx → Worker Tx × Result (Unit {0})
  unfolding send_msg_to_worker
  send_keep_alive w =
      let (w', res) = send_msg_to_worker w UpdateForWorker.keep_alive in
      (w', err_tip res "Failed to send KeepAlive to worker")

  -- `Worker::run_action`.
  unfoldable pub place_action :
      Worker Tx → OperationId → ActionInfoWithProps → Option (Worker Tx × Result (Unit {0}))
  unfolding send_msg_to_worker
  place_action w operation_id action_info =
      reduce_platform_properties w.platform_properties action_info.platform_properties >>=? λ props.
      some (
        send_msg_to_worker
          (record w {
            running_action_infos =
                insert OperationId-discrete operation_id action_info w.running_action_infos;
            platform_properties = props;
          })
          (start_action operation_id action_info.inner))

  unfoldable pub notify_update : Worker Tx → WorkerUpdate → Option (Worker Tx × Result (Unit {0}))
  unfolding place_action
  notify_update w (run_action operation_id action_info) = place_action w operation_id action_info
  notify_update w WorkerUpdate.disconnect = some (send_msg_to_worker w UpdateForWorker.disconnect)
