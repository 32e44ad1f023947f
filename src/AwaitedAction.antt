-- ===== src/AwaitedAction.antt =====
-- nativelink-scheduler/src/awaited_action_db/awaited_action.rs: an action that a client waits for,
-- and the key by which waiting actions are sorted. `SystemTime` is nanoseconds since the epoch.
pub mod SortKey
use Prim.Native.Nat.{bit_xor}
use native_link.Base.{
  ℕ, suc, ◌+◌, ◌-◌, ◌*◌, ◌/◌, ◌%◌, Option, none, some, List, [], ◌∷◌, ite, ℤ, pos_part, neg_part,
  ℕ_discrete,
}
use native_link.ActionMessages.{
  WorkerId, OperationId, ActionInfo, ActionState, queued, qualifier_digest,
}

abbrev pub u32_mod : ℕ
u32_mod = 4294967296

abbrev pub u64_mod : ℕ
u64_mod = 18446744073709551616

abbrev pub nanos_per_sec : ℕ
nanos_per_sec = 1000000000

-- `u32::to_be_bytes` and `u64::from_be_bytes`.
abbrev pub to_be_bytes : ℕ → List ℕ
to_be_bytes n = (n / 16777216 % 256) ∷ (n / 65536 % 256) ∷ (n / 256 % 256) ∷ (n % 256) ∷ []

abbrev pub from_be_bytes : ℕ → List ℕ → ℕ
from_be_bytes acc [] = acc
from_be_bytes acc (b ∷ bs) = from_be_bytes (acc * 256 + b) bs

abbrev join : List ℕ → List ℕ → List ℕ
join [] ys = ys
join (x ∷ xs) ys = x ∷ join xs ys

-- `priority as i64 + MIN_I32 as u32`, and `insert_timestamp ^ u32::MAX`, which flips all 32 bits.
abbrev pub shift_priority : ℤ → ℕ
shift_priority priority = (pos_part priority + 2147483648 - neg_part priority) % u32_mod

abbrev pub invert : ℕ → ℕ
invert timestamp = u32_mod - 1 - timestamp

-- `AwaitedActionSortKey::new`.
unfoldable pub sort_key : ℤ → ℕ → ℕ
sort_key priority insert_timestamp =
    from_be_bytes 0
      (join (to_be_bytes (shift_priority priority)) (to_be_bytes (invert insert_timestamp)))

-- `AwaitedActionSortKey::new_with_unique_key`.
unfoldable pub sort_key_at : ℤ → ℕ → ℕ
unfolding sort_key
sort_key_at priority insert_timestamp =
    sort_key priority (insert_timestamp / nanos_per_sec % u32_mod)

pub record AwaitedAction : Type 0 where
  pub version : ℕ
  pub action_info : ActionInfo
  pub operation_id : OperationId
  pub sort_key_value : ℕ
  pub last_worker_updated_timestamp : ℕ
  pub last_client_keepalive_timestamp : ℕ
  pub worker_id : Option WorkerId
  pub state : ActionState
  pub attempts : ℕ

unfoldable pub new : OperationId → ActionInfo → ℕ → AwaitedAction
unfolding sort_key_at
new operation_id action_info now = record {
  version = 0;
  action_info = action_info;
  operation_id = operation_id;
  sort_key_value = sort_key_at action_info.priority action_info.insert_timestamp;
  last_worker_updated_timestamp = now;
  last_client_keepalive_timestamp = now;
  worker_id = none;
  state = record {
    stage = queued;
    client_operation_id = operation_id;
    action_digest = qualifier_digest action_info.unique_qualifier;
  };
  attempts = 0;
}

unfoldable pub increment_version : AwaitedAction → AwaitedAction
increment_version a = record a { version = (a.version + 1) % u64_mod }

unfoldable pub worker_keep_alive : AwaitedAction → ℕ → AwaitedAction
worker_keep_alive a now = record a { last_worker_updated_timestamp = now }

unfoldable pub update_client_keep_alive : AwaitedAction → ℕ → AwaitedAction
update_client_keep_alive a now = record a { last_client_keepalive_timestamp = now }

unfoldable pub set_client_operation_id : AwaitedAction → OperationId → AwaitedAction
set_client_operation_id a client_operation_id = record a {
  state = record (a.state) { client_operation_id = client_operation_id };
}

WorkerId-option-discrete : Discrete (Option WorkerId)
WorkerId-option-discrete = hlevel ℕ_discrete

unfoldable pub set_worker_id : AwaitedAction → Option WorkerId → ℕ → AwaitedAction
unfolding worker_keep_alive WorkerId-option-discrete
set_worker_id a new_maybe_worker_id now =
    ite (WorkerId-option-discrete a.worker_id new_maybe_worker_id) a
      (worker_keep_alive (record a { worker_id = new_maybe_worker_id }) now)

unfoldable pub worker_set_state : AwaitedAction → ActionState → ℕ → AwaitedAction
unfolding worker_keep_alive
worker_set_state a state now = worker_keep_alive (record a { state = state }) now
