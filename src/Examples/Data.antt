-- ===== src/Examples/Data.antt =====
-- Values that the examples share: an action, a worker, a channel, a state manager.
use native_link.Base.{ℕ, ◌+◌, false, some, List, [], ◌∷◌, pos, ok}
use native_link.Base.Lru.{LruCache}
use native_link.Base.Lru.ListCache.{list_cache}
use native_link.ActionMessages.{
  WorkerId, OperationId, uuid, DigestInfo, sha256, ActionUniqueKey, cachable, ActionInfo,
}
use native_link.PlatformProperties.{minimum, Properties}
use native_link.Worker.{ActionInfoWithProps, Channel, Worker}
use native_link.ApiWorkerScheduler.{WorkerStateManager}
use native.Mathlib.Decide.{ℕ_discrete}

abbrev pub digest : DigestInfo
digest = record { packed_hash = 12345; size_bytes = 142 }

abbrev pub unique_key : ActionUniqueKey
unique_key = record { instance_name = "main"; digest_function = sha256; digest = digest }

abbrev pub info : ActionInfo
info = record {
  command_digest = digest;
  input_root_digest = digest;
  timeout = 60;
  platform_properties = ("cpu", "3") ∷ [];
  priority = pos 5;
  load_timestamp = 0;
  insert_timestamp = 7000000000;
  unique_qualifier = cachable unique_key;
}

abbrev pub build : ActionInfoWithProps
build = record { inner = info; platform_properties = ("cpu", minimum 3) ∷ [] }

abbrev pub machine : Properties
machine = ("cpu", minimum 4) ∷ []

abbrev pub registered : WorkerId → Properties
registered k = machine

abbrev pub idle_worker : Worker ℕ
idle_worker = record {
  id = 1;
  platform_properties = machine;
  tx = 0;
  running_action_infos = [];
  last_update_timestamp = 10;
  is_paused = false;
  is_draining = false;
}

abbrev pub busy_worker : Worker ℕ
busy_worker = record {
  id = 1;
  platform_properties = ("cpu", minimum 1) ∷ [];
  tx = 1;
  running_action_infos = (uuid 7, build) ∷ [];
  last_update_timestamp = 10;
  is_paused = false;
  is_draining = false;
}

-- A channel that counts its messages, and a manager that keeps a log.
abbrev pub open_channel : Channel
open_channel = record { Tx = ℕ; send = λ n u. some (n + 1) }

abbrev pub log_manager : WorkerStateManager
log_manager = record { S = List OperationId; update_operation = λ s o k u. (o ∷ s, ok tt) }

abbrev pub worker_cache : LruCache WorkerId (Worker ℕ) ℕ_discrete
worker_cache = list_cache WorkerId (Worker ℕ) ℕ_discrete
