-- ===== src/Docker/Types.antt =====
-- petri/core/provider/docker: the provider's state, the tasks' states, the log of the calls made to
-- Docker, to the address allocator and to the operating system, and what answers those calls. A
-- task's state is shared by pointer between the provider and the task, so it stands in a cell.
use ironbird.Base.{ℕ, String, Bool, Option, List, ◌∷◌, ◌==◌, str_eq, if◌then◌else◌}
use ironbird.Base.Action.{Result, ok, Action}
use ironbird.Definition.{TaskDefinition, TaskStatus, DefinitionError}

pub record VolumeState : Type 0 where
  pub name : String
  pub size : String

-- A port binding is the host's port; its host address is always 0.0.0.0.
pub record TaskState : Type 0 where
  pub id : String
  pub name : String
  pub volume : Option VolumeState
  pub definition : TaskDefinition
  pub status : TaskStatus
  pub ip_address : String
  pub builder_image_name : String
  pub network_name : String
  pub port_bindings : List (String × String)

-- The map from a task's id to the cell of its state.
pub record ProviderState : Type 0 where
  pub task_states : List (String × ℕ)
  pub name : String
  pub network_id : String
  pub network_name : String
  pub network_cidr : String
  pub network_gateway : String
  pub builder_image_name : String

pub data Error : Type 0 where
  client : String → Error
  not_found : String → Error
  bad_definition : DefinitionError → Error
  empty_provider_name no_ipam_config bad_ipam_count bad_cidr ctx_done out_of_fuel : Error
  id_mismatch name_mismatch cidr_mismatch status_mismatch volume_mismatch : Error
  port_not_found wait_error bad_exit nil_dereference : Error

-- client.IsErrNotFound
abbrev pub is_not_found : Error → Bool
is_not_found (not_found s) = Bool.true
is_not_found _ = Bool.false

pub record NetworkOptions : Type 0 where
  pub name : String
  pub label : String
  pub subnet : String
  pub gateway : String

-- The IPAM configurations as pairs of a subnet and a gateway.
pub record NetworkInfo : Type 0 where
  pub id : String
  pub name : String
  pub ipam : List (String × String)

pub record ContainerOptions : Type 0 where
  pub name : String
  pub image : String
  pub entrypoint : List String
  pub command : List String
  pub environment : List (String × String)
  pub labels : List (String × String)
  pub mounts : List (String × String)
  pub port_bindings : List (String × String)
  pub network : Option String
  pub address : Option String
  pub auto_remove : Bool

pub record ContainerInfo : Type 0 where
  pub name : String
  pub status : String

-- The outcome of ContainerWait: the message of its error, and the exit code.
pub record WaitInfo : Type 0 where
  pub failure : Option String
  pub exit_code : ℕ

-- A call with its answer.
pub data Call : Type 0 where
  ping : Result Error (Unit {0}) → Call
  network_create : NetworkOptions → Result Error String → Call
  network_inspect : String → Result Error NetworkInfo → Call
  network_remove : String → Result Error (Unit {0}) → Call
  image_pull : String → String → Result Error (Unit {0}) → Call
  image_inspect : String → Result Error (Unit {0}) → Call
  container_create : ContainerOptions → Result Error String → Call
  container_start : String → Result Error (Unit {0}) → Call
  container_stop : String → Result Error (Unit {0}) → Call
  container_remove : String → Result Error (Unit {0}) → Call
  container_inspect : String → Result Error ContainerInfo → Call
  container_wait : String → Result Error WaitInfo → Call
  volume_create : String → String → Result Error String → Call
  volume_inspect : String → Result Error String → Call
  volume_remove : String → Result Error (Unit {0}) → Call
  open_port : Result Error String → Call
  close_port : Result Error (Unit {0}) → Call
  allocator_new : String → Result Error (Unit {0}) → Call
  allocate : String → Result Error (Unit {0}) → Call
  allocate_next : Result Error String → Call
  sleep : Call

-- The calls made so far, newest first.
abbrev pub Log : Type 0
Log = List Call

-- What answers the calls. An answer may depend on all the calls made before.
pub record Client : Type 0 where
  pub pinged : Log → Result Error (Unit {0})
  pub network_created : Log → NetworkOptions → Result Error String
  pub network_inspected : Log → String → Result Error NetworkInfo
  pub network_removed : Log → String → Result Error (Unit {0})
  pub image_pulled : Log → String → String → Result Error (Unit {0})
  pub image_inspected : Log → String → Result Error (Unit {0})
  pub container_created : Log → ContainerOptions → Result Error String
  pub container_started : Log → String → Result Error (Unit {0})
  pub container_stopped : Log → String → Result Error (Unit {0})
  pub container_removed : Log → String → Result Error (Unit {0})
  pub container_inspected : Log → String → Result Error ContainerInfo
  pub container_waited : Log → String → Result Error WaitInfo
  pub volume_created : Log → String → String → Result Error String
  pub volume_inspected : Log → String → Result Error String
  pub volume_removed : Log → String → Result Error (Unit {0})
  pub port_opened : Log → Result Error String
  pub port_closed : Log → Result Error (Unit {0})
  pub allocator_made : Log → String → Result Error (Unit {0})
  pub allocated : Log → String → Result Error (Unit {0})
  pub next_allocated : Log → Result Error String
  pub ctx_canceled : Log → Bool
  pub random_255 : Log → ℕ → ℕ
  pub time_text : Log → String
  pub ℕ_text : ℕ → String
  pub parse_cidr : String → Option String

-- A task is the cell of its state. `next` is the first cell that is not in use.
pub record World : Type 0 where
  pub log : Log
  pub cells : ℕ → TaskState
  pub next : ℕ
  pub provider : ProviderState

abbrev pub Docker : Type 0 → Type 0
Docker A = Action World Error A

-- One call: the answer is recorded.
unfoldable pub request : {A : Type 0} → (Log → Result Error A) → (Result Error A → Call) → Docker A
request ask entry w = (ask w.log, record w { log = entry (ask w.log) ∷ w.log })

-- One call whose failure the code looks at: the answer is the value.
unfoldable pub observe :
    {A : Type 0} → (Log → Result Error A) → (Result Error A → Call) → Docker (Result Error A)
observe ask entry w = (ok (ask w.log), record w { log = entry (ask w.log) ∷ w.log })

-- A step whose failure is only logged.
unfoldable pub ignore : {A : Type 0} → Docker A → Docker (Unit {0})
ignore m w = (ok tt, (m w).1)

unfoldable pub update : (ℕ → TaskState) → ℕ → TaskState → ℕ → TaskState
update cells r t s = if r == s then t else cells s

-- Go's map assignment and `delete`.
unfoldable pub insert : String → ℕ → List (String × ℕ) → List (String × ℕ)
insert k r List.[] = (k, r) ∷ List.[]
insert k r ((j, s) ∷ m) = if str_eq j k then (k, r) ∷ m else (j, s) ∷ insert k r m

unfoldable pub delete : String → List (String × ℕ) → List (String × ℕ)
delete k List.[] = List.[]
delete k ((j, s) ∷ m) = let rest = delete k m in if str_eq j k then rest else (j, s) ∷ rest
