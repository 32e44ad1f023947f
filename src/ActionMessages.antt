-- ===== src/ActionMessages.antt =====
-- nativelink-util/src/action_messages.rs: the values that the scheduler, its workers and its clients
-- exchange. Uuids and packed hashes are numbers, timestamps and durations are nanoseconds (a
-- `SystemTime` since the Unix epoch), and a message of the remote execution protocol is its bytes.
use native_link.Base.{
  ℕ, String, Bool, true, false, Option, none, List, [], Error, string_discrete, ℕ_discrete, ℤ,
  negsuc,
}

abbrev pub WorkerId : Type 0
WorkerId = ℕ

pub data OperationId : Type 0 where
  uuid : ℕ → OperationId
  string : String → OperationId

unfoldable pub OperationId-discrete : Discrete OperationId
OperationId-discrete = hlevel (string_discrete, ℕ_discrete)

pub record DigestInfo : Type 0 where
  pub packed_hash : ℕ
  pub size_bytes : ℕ

unfoldable pub DigestInfo-discrete : Discrete DigestInfo
DigestInfo-discrete = hlevel ℕ_discrete

pub data DigestHasherFunc : Type 0 where
  sha256 blake3 : DigestHasherFunc

pub record ActionUniqueKey : Type 0 where
  pub instance_name : String
  pub digest_function : DigestHasherFunc
  pub digest : DigestInfo

unfoldable pub ActionUniqueKey-discrete : Discrete ActionUniqueKey
ActionUniqueKey-discrete = hlevel (string_discrete, ℕ_discrete)

pub data ActionUniqueQualifier : Type 0 where
  cachable : ActionUniqueKey → ActionUniqueQualifier
  uncachable : ActionUniqueKey → ActionUniqueQualifier

abbrev pub qualifier_digest : ActionUniqueQualifier → DigestInfo
qualifier_digest (cachable action) = action.digest
qualifier_digest (uncachable action) = action.digest

pub record ActionInfo : Type 0 where
  pub command_digest : DigestInfo
  pub input_root_digest : DigestInfo
  pub timeout : ℕ
  pub platform_properties : List (String × String)
  pub priority : ℤ
  pub load_timestamp : ℕ
  pub insert_timestamp : ℕ
  pub unique_qualifier : ActionUniqueQualifier

abbrev pub action_digest : ActionInfo → DigestInfo
action_digest info = qualifier_digest info.unique_qualifier

pub data NameOrPath : Type 0 where
  name : String → NameOrPath
  path : String → NameOrPath

pub record FileInfo : Type 0 where
  pub name_or_path : NameOrPath
  pub digest : DigestInfo
  pub is_executable : Bool

pub record SymlinkInfo : Type 0 where
  pub name_or_path : NameOrPath
  pub target : String

pub record DirectoryInfo : Type 0 where
  pub path : String
  pub tree_digest : DigestInfo

pub record ExecutionMetadata : Type 0 where
  pub worker : String
  pub queued_timestamp : ℕ
  pub worker_start_timestamp : ℕ
  pub worker_completed_timestamp : ℕ
  pub input_fetch_start_timestamp : ℕ
  pub input_fetch_completed_timestamp : ℕ
  pub execution_start_timestamp : ℕ
  pub execution_completed_timestamp : ℕ
  pub output_upload_start_timestamp : ℕ
  pub output_upload_completed_timestamp : ℕ

abbrev pub default_metadata : ExecutionMetadata
default_metadata = record {
  worker = "";
  queued_timestamp = 0;
  worker_start_timestamp = 0;
  worker_completed_timestamp = 0;
  input_fetch_start_timestamp = 0;
  input_fetch_completed_timestamp = 0;
  execution_start_timestamp = 0;
  execution_completed_timestamp = 0;
  output_upload_start_timestamp = 0;
  output_upload_completed_timestamp = 0;
}

pub record ActionResult : Type 0 where
  pub output_files : List FileInfo
  pub output_folders : List DirectoryInfo
  pub output_directory_symlinks : List SymlinkInfo
  pub output_file_symlinks : List SymlinkInfo
  pub exit_code : ℤ
  pub stdout_digest : DigestInfo
  pub stderr_digest : DigestInfo
  pub execution_metadata : ExecutionMetadata
  pub server_logs : List (String × DigestInfo)
  pub error : Option Error
  pub message : String

-- INTERNAL_ERROR_EXIT_CODE is -178.
abbrev pub internal_error_exit_code : ℤ
internal_error_exit_code = negsuc 177

abbrev zero_digest : DigestInfo
zero_digest = record { packed_hash = 0; size_bytes = 0 }

abbrev pub default_result : ActionResult
default_result = record {
  output_files = [];
  output_folders = [];
  output_directory_symlinks = [];
  output_file_symlinks = [];
  exit_code = internal_error_exit_code;
  stdout_digest = zero_digest;
  stderr_digest = zero_digest;
  execution_metadata = default_metadata;
  server_logs = [];
  error = none;
  message = "";
}

-- A generated message, by its encoding.
abbrev pub ProtoActionResult : Type 0
ProtoActionResult = List ℕ

pub data ActionStage : Type 0 where
  unknown cache_check queued executing : ActionStage
  completed : ActionResult → ActionStage
  completed_from_cache : ProtoActionResult → ActionStage

abbrev pub has_action_result : ActionStage → Bool
has_action_result (completed result) = true
has_action_result (completed_from_cache result) = true
has_action_result unknown = false
has_action_result cache_check = false
has_action_result queued = false
has_action_result executing = false

abbrev pub is_finished : ActionStage → Bool
is_finished stage = has_action_result stage

abbrev pub is_queued : ActionStage → Bool
is_queued queued = true
is_queued unknown = false
is_queued cache_check = false
is_queued executing = false
is_queued (completed result) = false
is_queued (completed_from_cache result) = false

abbrev pub is_executing : ActionStage → Bool
is_executing executing = true
is_executing unknown = false
is_executing cache_check = false
is_executing queued = false
is_executing (completed result) = false
is_executing (completed_from_cache result) = false

pub record ActionState : Type 0 where
  pub stage : ActionStage
  pub client_operation_id : OperationId
  pub action_digest : DigestInfo

-- nativelink-util/src/operation_state_manager.rs: what a worker reports of an operation.
pub data UpdateOperationType : Type 0 where
  keep_alive : UpdateOperationType
  update_with_action_stage : ActionStage → UpdateOperationType
  update_with_error : Error → UpdateOperationType
