-- ===== src/StateManager/Filter/Matching.antt =====
-- Which operations `apply_filter_predicate` lets through.
use native_link.Base.{◌+◌, Bool, ltb}
use native_link.AwaitedAction.{AwaitedAction}
use native_link.StateManager.{AwaitedActionDb, Config}
use native_link.StateManager.Filter.{OperationFilter}

module _ (db : AwaitedActionDb) (config : Config) (w : AwaitedActionDb.World db) (a : AwaitedAction)
    (filter : OperationFilter) where
  is_late : Bool
  is_late =
      ltb (a.last_client_keepalive_timestamp + config.client_action_timeout)
        (AwaitedActionDb.now db w).1
