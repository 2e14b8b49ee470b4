-- ===== src/Runtime/Rows.antt =====
-- `Runtime.inspect`: what a row of `docker inspect` must be for its service.
use azd_santa.Base.{String, Bool, true, false, not, ◌&&◌, ◌||◌, Option, none, some, List, [], ◌∷◌}
use azd_santa.Base.{◌==◌, ◌=?◌, contains, any, length, string_eq, strings_eq, if◌then◌else◌}
use azd_santa.Base.Dict.{Dict, lookup, insert}
use azd_santa.Base.Text.{concat}
use azd_santa.Runtime.Docker.{Mount, Image, Published, unbound, bound, Row, Service, Setup}

abbrev pub source_commit : String
source_commit = "88e67b3ce49033aab028029937a6e14f7c489073"

abbrev pub apps : List String
apps = "web" ∷ "workers" ∷ "celery" ∷ []

abbrev pub dependencies : List String
dependencies = "db" ∷ "redis" ∷ "rabbitmq" ∷ "elastic" ∷ []

abbrev pub every {ℓ} : {A : Type ℓ} → (A → Bool) → List A → Bool
every p [] = true
every p (x ∷ xs) = p x && every p xs

-- whether an optional text is this text
abbrev pub names : String → Option String → Bool
names t none = false
names t (some u) = u == t

-- equality of commands, of pairs, of lists and of mounts
abbrev pub same_command : Option (List String) → Option (List String) → Bool
same_command none none = true
same_command (some a) (some b) = a == b
same_command _ _ = false

abbrev pub same_address : String × String → String × String → Bool
same_address (a, b) (c, d) = a == c && b == d

abbrev pub same_list {ℓ} : {A : Type ℓ} → (A → A → Bool) → List A → List A → Bool
same_list same [] [] = true
same_list same (x ∷ xs) (y ∷ ys) = same x y && same_list same xs ys
same_list same _ _ = false

abbrev pub same_flag : Bool → Bool → Bool
same_flag a b = if a then b else not b

abbrev pub same_mount : Mount → Mount → Bool
same_mount m n =
    m.kind == n.kind
    && m.source == n.source
    && m.target == n.target
    && same_flag m.writable n.writable

-- whether a dictionary holds this item
abbrev pub has_item {ℓ} : {V : Type ℓ} → (V → V → Bool) → Dict String V → String × V → Bool
has_item same d (k, v) = elim (lookup k d) [ none ↦ false | some w ↦ same v w ]

-- `d == e` of dictionaries
abbrev pub same_dict {ℓ} : {V : Type ℓ} → (V → V → Bool) → Dict String V → Dict String V → Bool
same_dict same d e = every (has_item same e) d && every (has_item same d) e

-- `set(xs) == set(ys)`
abbrev pub same_set : List String → List String → Bool
same_set xs ys = every (contains ys) xs && every (contains xs) ys

-- `d.update(items)`
abbrev pub update {ℓ} : {V : Type ℓ} → Dict String V → Dict String V → Dict String V
update d [] = d
update d ((k, v) ∷ items) = update (insert k v d) items

-- `expected_mounts`, a set
abbrev pub expected_mount : Setup → String × String → Mount
expected_mount S (source, target) =
    if source == "./conf"
    then record { kind = "bind"; source = S.conf; target = target; writable = false }
    else record {
      kind = "volume";
      source = concat S.project (concat "_" source);
      target = target;
      writable = true;
    }

abbrev pub expected_mounts : Setup → List (String × String) → List Mount
expected_mounts S [] = []
expected_mounts S (v ∷ vs) =
    let rest = expected_mounts S vs in
    if any (same_mount (expected_mount S v)) rest then rest else expected_mount S v ∷ rest

abbrev pub mounts_fit : List Mount → List Mount → Bool
mounts_fit actual expected =
    every (λ m. any (same_mount m) expected) actual
    && every (λ m. any (same_mount m) actual) expected
    && length actual =? length expected

-- `ports` of a service
abbrev pub expected_ports : String → Dict String (List (String × String))
expected_ports name = if name == "web" then ("8000/tcp", ("127.0.0.1", "8000") ∷ []) ∷ [] else []

-- `published`; none where a port is published at no address
abbrev pub with_port :
    String
    → Published
    → Option (Dict String (List (String × String)))
    → Option (Dict String (List (String × String)))
with_port port p none = none
with_port port unbound (some rest) = some rest
with_port port (bound []) (some rest) = none
with_port port (bound (a ∷ more)) (some rest) = some ((port, a ∷ more) ∷ rest)

abbrev pub published : Dict String Published → Option (Dict String (List (String × String)))
published [] = some []
published ((port, p) ∷ ports) = with_port port p (published ports)

abbrev pub same_ports :
    Dict String (List (String × String)) → Dict String (List (String × String)) → Bool
same_ports = same_dict (same_list same_address)

abbrev pub may_be_unbound : String → Image → String × Published → Bool
may_be_unbound name image (port, unbound) =
    contains image.exposed port || name == "web" && port == "8000/tcp"
may_be_unbound name image (port, bound _) = true

abbrev pub ports_fit : String → Image → Row → Bool
ports_fit name image row = elim (published row.ports) [
  | none ↦ false
  | some addresses ↦
      every (may_be_unbound name image) row.ports
      && (if row.running
          then same_ports addresses (expected_ports name)
          else same_ports addresses [] || same_ports addresses (expected_ports name))
]

-- the names of the environment, each once
abbrev pub distinct_names : List (String × String) → Bool
distinct_names [] = true
distinct_names ((k, v) ∷ env) = not (any (λ (j, _). j == k) env) && distinct_names env

abbrev pub or_else {ℓ} : {A : Type ℓ} → Option A → Option A → Option A
or_else none b = b
or_else (some a) b = some a

-- the tests of a row against its service, its image and its rendered environment
unfoldable pub row_fits :
    Setup
    → (name : String) → Service
    → Image
    → (rendered : Dict String String) → (running : Bool) → Row
    → Bool
row_fits S name service image rendered running row =
    row.image == image.id
    && row.restart_policy == "no"
    && (not running || row.running)
    && (not (contains apps name) || names source_commit image.revision)
    && same_command row.cmd (or_else service.command image.cmd)
    && same_command row.entrypoint image.entrypoint
    && row.user == image.user
    && not row.privileged
    && row.security_opt == "no-new-privileges:true" ∷ []
    && elim service.hostname [ none ↦ true | some h ↦ row.hostname == h ]
    && distinct_names row.env
    && same_dict ◌==◌ row.env (update image.env rendered)
    && mounts_fit row.mounts (expected_mounts S service.volumes)
    && same_ports row.port_bindings (expected_ports name)
    && row.network_mode == concat S.project "_default"
    && same_set row.networks (concat S.project "_default" ∷ [])
    && ports_fit name image row
