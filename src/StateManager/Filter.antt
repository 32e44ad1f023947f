-- ===== src/StateManager/Filter.antt =====
-- `apply_filter_predicate`: which operations a query returns, and what it does to abandoned ones.
pub mod Conditions
pub mod Matching
use native_link.Base.{
  ℕ, ◌+◌, ◌≤◌, Bool, true, false, not, ◌&&◌, Option, none, some, ◌≡◌, ◌≢◌, refl, sym, ap, ◌∙◌,
  arith, ltb, ◌==◌, if◌then◌else◌, ite, if_neg, Bool-cases, Code, make_err, inl, inr,
}
use Prim.Native.Nat.{bit_and}
use native_link.ActionMessages.{
  WorkerId, OperationId, OperationId-discrete, DigestInfo, DigestInfo-discrete, ActionUniqueKey,
  ActionUniqueKey-discrete, ActionUniqueQualifier, cachable, uncachable, action_digest,
  default_result, ActionStage, unknown, cache_check, queued, executing, completed,
  completed_from_cache, is_finished,
}
use native_link.AwaitedAction.{AwaitedAction, worker_set_state}
use native_link.StateManager.{AwaitedActionDb, Config, same_worker, is_set}

-- nativelink-util/src/operation_state_manager.rs: `OperationStageFlags`, and the filter.
abbrev pub cache_check_flag : ℕ
cache_check_flag = 2

abbrev pub queued_flag : ℕ
queued_flag = 4

abbrev pub executing_flag : ℕ
executing_flag = 8

abbrev pub completed_flag : ℕ
completed_flag = 16

abbrev pub any_flag : ℕ
any_flag = 4294967295

pub data OrderDirection : Type 0 where
  asc desc : OrderDirection

pub record OperationFilter : Type 0 where
  pub stages : ℕ
  pub client_operation_id : Option OperationId
  pub operation_id : Option OperationId
  pub worker_id : Option WorkerId
  pub action_digest_filter : Option DigestInfo
  pub worker_update_before : Option ℕ
  pub completed_before : Option ℕ
  pub unique_key : Option ActionUniqueKey
  pub order_by_priority_direction : Option OrderDirection

unfoldable pub stage_flag : ActionStage → ℕ
stage_flag unknown = any_flag
stage_flag cache_check = cache_check_flag
stage_flag queued = queued_flag
stage_flag executing = executing_flag
stage_flag (completed r) = completed_flag
stage_flag (completed_from_cache r) = completed_flag

-- Each test of the predicate: true lets the operation through.
unfoldable pub operation_id_passes : Option OperationId → OperationId → Bool
operation_id_passes none o = true
operation_id_passes (some p) o = ite (OperationId-discrete p o) true false

unfoldable pub worker_id_passes : Option WorkerId → Option WorkerId → Bool
worker_id_passes f w = not (is_set f && not (same_worker f w))

unfoldable pub unique_key_passes : Option ActionUniqueKey → ActionUniqueQualifier → Bool
unique_key_passes none q = true
unique_key_passes (some key) (cachable unique_key) =
    ite (ActionUniqueKey-discrete key unique_key) true false
unique_key_passes (some key) (uncachable unique_key) = false

unfoldable pub digest_passes : Option DigestInfo → DigestInfo → Bool
digest_passes none d = true
digest_passes (some e) d = ite (DigestInfo-discrete e d) true false

unfoldable pub update_before_passes : Option ℕ → ℕ → Bool
update_before_passes none t = true
update_before_passes (some before) t = not (ltb before t)

unfoldable pub completed_before_passes : Option ℕ → Bool → ℕ → Bool
completed_before_passes none finished t = true
completed_before_passes (some before) finished t = not (finished && ltb before t)

unfoldable pub stages_pass : ℕ → ActionStage → Bool
unfolding stage_flag
stages_pass stages stage =
    if stages == any_flag then true else not (bit_and stages (stage_flag stage) == 0)

-- The early returns of the predicate after its timeout check, in their order.
unfoldable pub passes : OperationFilter → AwaitedAction → Bool
unfolding operation_id_passes worker_id_passes unique_key_passes digest_passes update_before_passes
    completed_before_passes stages_pass
passes filter a =
    operation_id_passes filter.operation_id a.operation_id
    && worker_id_passes filter.worker_id a.worker_id
    && unique_key_passes filter.unique_key a.action_info.unique_qualifier
    && digest_passes filter.action_digest_filter (action_digest a.action_info)
    && update_before_passes filter.worker_update_before a.last_worker_updated_timestamp
    && completed_before_passes filter.completed_before (is_finished a.state.stage)
        a.last_worker_updated_timestamp
    && stages_pass filter.stages a.state.stage

module _ (db : AwaitedActionDb) (config : Config) where
  open db use {World, update_awaited_action, now}

  -- The operation that nobody listens to any more, as it is stored.
  unfoldable pub abandoned : AwaitedAction → ℕ → AwaitedAction
  unfolding worker_set_state
  abandoned a t =
      worker_set_state a
        (record (a.state) {
          stage = completed (record default_result {
            error = some (
                make_err Code.deadline_exceeded
                  "Operation timed out of having no more clients listening");
          });
        })
        t

  -- A failure to store it is only logged.
  unfoldable pub apply_filter_predicate : World → AwaitedAction → OperationFilter → World × Bool
  unfolding passes abandoned
  apply_filter_predicate w a filter =
      let (w', t) = now w in
      if ltb (a.last_client_keepalive_timestamp + config.client_action_timeout) t
      then if not (is_finished a.state.stage)
        then (let (w'', t') = now w' in ((update_awaited_action w'' (abandoned a t')).0, false))
        else (w', false)
      else (w', passes filter a)
