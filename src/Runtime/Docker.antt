-- ===== src/Runtime/Docker.antt =====
-- What experiments/server/runtime_service.py reads from Docker and from the host. The JSON that
-- Docker prints is read into records; a member that is missing or of another type is an exception,
-- so it is no reply.
use azd_santa.Base.{ℕ, String, Bool, Option, List}
use azd_santa.Base.Dict.{Dict}

pub record Mount : Type 0 where
  pub kind : String
  -- the source of a bind, the name of a volume
  pub source : String
  pub target : String
  pub writable : Bool

pub record Image : Type 0 where
  pub id : String
  pub revision : Option String
  pub cmd : Option (List String)
  pub entrypoint : Option (List String)
  pub user : String
  pub env : Dict String String
  pub exposed : List String

-- an entry of `NetworkSettings.Ports`: not published, or published at these addresses
pub data Published : Type 0 where
  unbound : Published
  bound : List (String × String) → Published

-- a row of `docker inspect`
pub record Row : Type 0 where
  pub id : String
  pub name : String
  pub image : String
  -- the labels of the project and of the service
  pub project : Option String
  pub service : Option String
  pub restart_policy : String
  pub running : Bool
  pub paused : Bool
  pub restarting : Bool
  pub oom_killed : Bool
  pub status : String
  pub pid : ℕ
  pub started_at : String
  pub cmd : Option (List String)
  pub entrypoint : Option (List String)
  pub user : String
  pub hostname : String
  -- privileged, or any of CapAdd, PidMode, Devices, PublishAllPorts
  pub privileged : Bool
  pub security_opt : List String
  pub env : List (String × String)
  pub mounts : List Mount
  pub port_bindings : Dict String (List (String × String))
  pub network_mode : String
  pub networks : List String
  pub ports : Dict String Published

-- a service of the compose file; each volume is written `source:target`
pub record Service : Type 0 where
  pub image : String
  pub command : Option (List String)
  pub hostname : Option String
  pub volumes : List (String × String)

-- what `Runtime.__init__` takes from the manifest and from the compose file
pub record Setup : Type 0 where
  pub digest : String
  pub project : String
  -- the path of the directory `conf` beside the compose file
  pub conf : String
  pub services : Dict String Service
  pub volumes : List String

-- the content of container-generation.json
pub record Generation : Type 0 where
  pub scope : String
  pub manifest_sha256 : String
  pub project : String
  pub image_id : String
  pub generation : String
  pub container_ids : Dict String String

-- what the supervisor does to the world outside
pub data Event : Type 0 where
  -- `docker ps`: of the project, of all containers, and of their names
  list_project : Event
  list_all : Event
  list_names : Event
  inspect_rows : List String → Event
  inspect_image : String → Event
  inspect_helper : String → Event
  render : Event
  -- a call whose output decides nothing more than whether it succeeds
  probe : String → Event
  -- a helper container of a name, for a check
  helper : String → String → Event
  queues : Event
  start : String → List String → Event
  stop : List String → Event
  -- of the container of this identity
  stop_helper : String → Event
  -- container-generation.json is written
  write_generation : Generation → Event
  -- `READY=1` to the service manager
  notify : Event
  -- `time.sleep`
  pause : Event

-- the standard output, read
pub data Output : Type 0 where
  words : List String → Output
  rows : List Row → Output
  image : Image → Output
  -- the environments of the services
  rendered : Dict String (Dict String String) → Output
  consumers : Dict String ℕ → Output
  other : Output

pub record Reply : Type 0 where
  pub timed_out : Bool
  pub success : Bool
  pub output : Output

-- The host, at any time: a function of all that was done before, newest first.
pub record Host : Type 0 where
  pub reply : List Event → Event → Reply
  -- whether SIGTERM or SIGINT has arrived
  pub signalled : List Event → Bool
  -- whether the deadline of the wait of a label has passed
  pub late : String → List Event → Bool
  -- a name that was never used, drawn by `uuid4`
  pub fresh_name : List Event → String
  -- `secrets.token_hex(16)`
  pub fresh_token : List Event → String
  -- whether `load_manifest` returns
  pub binding_holds : List Event → Bool
  -- whether the check of the backing data, of the kernel and of the web page succeed
  pub backing_data_holds : List Event → Bool
  pub kernel_ready : List Event → Bool
  pub page_answers : List Event → Bool
  -- container-generation.json, if it is there
  pub generation : List Event → Option Generation
  -- whether an anchor or a unit is installed
  pub anchored : List Event → Bool
