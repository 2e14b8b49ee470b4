-- ===== src/Setup/Request.antt =====
-- `request_from_environment` of experiments/server/operator_setup_host.py. An exception is `none`.
use azd_santa.Base.{
  ℕ, String, Bool, true, false, not, ◌&&◌, ◌||◌, Option, none, some, List, [], ◌∷◌, ◌++◌,
}
use azd_santa.Base.{
  ◌==◌, ◌=?◌, ltb, leb, any, length, string_eq, strings_eq, bytes_eq, if◌then◌else◌,
}
use azd_santa.Base.Int.{int_eq}
use azd_santa.Base.Text.{
  codes, all, is_digit, is_hex, is_run, is_token_char, concat, starts_with, split_at,
}
use azd_santa.Json.{Value, Fields, get_field, keys}
use azd_santa.Json.Hooks.{◌>>=◌}
use azd_santa.Platform.{Bytes}
use azd_santa.Sync.Snapshot.{is_text, same_set}
use azd_santa.Recovery.Accounts.{Mode, bootstrap, recover}
use azd_santa.Setup.Kit.{Kit, loads_unique}
use azd_santa.Setup.Sealing.{◌>>◌, framed, is_ascii, is_span}

-- `BINDINGS`, sorted
abbrev pub bindings : List String
bindings =
    "AdmissionSha256" ∷ "ComposePath" ∷ "ComposeSha256" ∷ "EnvironmentName" ∷ "ImageId" ∷ "Origin"
    ∷ "RecoverySha256" ∷ "RemoteProgramSha256" ∷ "ResourceGroup" ∷ "SealedSha256" ∷ "SourceCommit"
    ∷ "SubscriptionId" ∷ "TenantId" ∷ "VmId" ∷ "VmInstanceId" ∷ "VmName" ∷ []

-- `value[key]`, of a text and of an object
abbrev pub as_text : Option Value → Option String
as_text (some (Value.str s)) = some s
as_text _ = none

abbrev pub as_object : Option Value → Option Fields
as_object (some (Value.obj fs)) = some fs
as_object _ = none

abbrev pub text_at : String → Fields → Option String
text_at key fs = as_text (get_field key fs)

abbrev pub mode_named : String → Option Mode
mode_named text =
    if text == "bootstrap" then some bootstrap else if text == "recover" then some recover else none

-- whether every member is a text
unfoldable pub all_texts : Fields → Bool
all_texts Fields.end = true
all_texts (Fields.field key (Value.str s) fs) = all_texts fs
all_texts (Fields.field key v fs) = false

-- a member, `""` where it is missing
abbrev pub or_blank : Option String → String
or_blank none = ""
or_blank (some s) = s

abbrev pub has_text : Option String → Bool
has_text none = false
has_text (some s) = true

abbrev pub is_lower_hex : String → Bool
is_lower_hex = is_run is_hex 64

abbrev pub guid_parts : List String → Bool
guid_parts (a ∷ b ∷ c ∷ d ∷ e ∷ []) =
    is_run is_hex 8 a
    && is_run is_hex 4 b
    && is_run is_hex 4 c
    && is_run is_hex 4 d
    && is_run is_hex 12 e
guid_parts _ = false

-- `GUID`
unfoldable pub is_guid : String → Bool
is_guid text = guid_parts (split_at b'-' text)

abbrev pub is_file_name : List String → Bool
is_file_name (name ∷ end ∷ []) =
    leb 1 (length (codes name)) && all is_token_char (codes name) && end == "json"
is_file_name _ = false

-- the parts after the first `/`: directories, and a file
abbrev pub path_parts : List String → Bool
path_parts [] = false
path_parts (file ∷ []) = is_file_name (split_at b'.' file)
path_parts (part ∷ next ∷ parts) =
    leb 1 (length (codes part)) && all is_token_char (codes part) && path_parts (next ∷ parts)

abbrev pub rooted_parts : List String → Bool
rooted_parts (root ∷ directory ∷ next ∷ parts) = root == "" && path_parts (directory ∷ next ∷ parts)
rooted_parts _ = false

-- the pattern of the compose path
unfoldable pub is_compose_path : String → Bool
is_compose_path path = rooted_parts (split_at b'/' path)

abbrev pub is_environment_char : ℕ → Bool
is_environment_char c = is_digit c || leb b'a' c && leb c b'z' || c =? b'-'

abbrev pub hash_parts : List String → Bool
hash_parts (name ∷ digest ∷ []) = name == "sha256" && is_run is_hex 64 digest
hash_parts _ = false

-- `sha256:[0-9a-f]{64}`
abbrev pub is_image_id : String → Bool
is_image_id text = hash_parts (split_at b':' text)

abbrev pub vm_id : (subscription group : String) → String
vm_id subscription group = concat "/subscriptions/" (
    concat subscription (
      concat "/resourceGroups/"
        (concat group "/providers/Microsoft.Compute/virtualMachines/vm-santa-lab")))

-- the tests of the members of a binding
unfoldable pub binding_fits : Fields → Bool
binding_fits binding =
    let at = λ (key : String). or_blank (text_at key binding) in
    is_guid (at "TenantId")
    && is_guid (at "SubscriptionId")
    && is_guid (at "VmInstanceId")
    && is_lower_hex (at "ComposeSha256")
    && is_lower_hex (at "AdmissionSha256")
    && is_lower_hex (at "RecoverySha256")
    && is_lower_hex (at "SealedSha256")
    && is_lower_hex (at "RemoteProgramSha256")
    && is_image_id (at "ImageId")
    && is_run is_hex 40 (at "SourceCommit")
    && is_span is_environment_char 2 32 (at "EnvironmentName")
    && at "ResourceGroup" == concat "rg-azd-santa-vm-" (at "EnvironmentName")
    && at "VmName" == "vm-santa-lab"
    && at "VmId" == vm_id (at "SubscriptionId") (at "ResourceGroup")
    && leb (length (codes (at "ComposePath"))) 512
    && is_compose_path (at "ComposePath")
    && is_ascii (at "Origin")
    && leb (length (codes (at "Origin"))) 256
    && starts_with (at "Origin") "https://"

pub record Request : Type 0 where
  pub binding : Fields
  pub mode : Mode
  pub nonce : String
  pub target_sha256 : String
  pub recipient_sha256 : String
  pub context_sha256 : String
  pub recipient_public_key : String
  pub username : String
  pub email : String
  pub reason : String

module _ (k : Kit) where
  -- a line of text with at most so many characters
  abbrev pub is_line : ℕ → String → Bool
  is_line limit v =
      ltb 0 (length (codes v))
      && leb (length (codes v)) limit
      && k.strip v == v
      && not (any (λ c. ltb c 32) (codes v))

  -- `target`
  unfoldable pub target : String → String → String
  target username email = k.sha256 (framed (k.utf8 username) ++ framed (k.utf8 email))

  -- the tests of the context and of its binding
  abbrev pub context_fits : Fields → Fields → Bool
  context_fits context binding =
      keys context
        == "scope" ∷ "nonce" ∷ "binding" ∷ "mode" ∷ "target_sha256" ∷ "recipient_sha256" ∷ []
      && keys binding == bindings
      && all_texts binding
      && is_text "azd-santa-setup-request-v1" (get_field "scope" context)
      && is_lower_hex (or_blank (text_at "nonce" context))
      && is_lower_hex (or_blank (text_at "target_sha256" context))
      && is_lower_hex (or_blank (text_at "recipient_sha256" context))

  abbrev pub key_matches : Request → Bytes → Bool
  key_matches r key =
      leb (length key) 768
      && k.b64encode key == r.recipient_public_key
      && k.sha256 key == r.recipient_sha256

  abbrev pub lines_fit : Request → Bool
  lines_fit r = is_line 150 r.username && is_line 254 r.email && is_line 256 r.reason

  abbrev pub digest_fits : Fields → Request → Bool
  digest_fits context r =
      is_lower_hex r.context_sha256
      && k.sha256 (k.dumps_utf8 (Value.obj context)) == r.context_sha256

  unfoldable pub accept_key : Request → Bytes → Option Request
  accept_key r key = (key_matches r key && binding_fits r.binding) >> some r

  -- the tests of a request whose members have been read
  unfoldable pub accept : Fields → Request → Option Request
  accept context r =
      (digest_fits context r && lines_fit r && target r.username r.email == r.target_sha256)
      >> (k.b64decode r.recipient_public_key >>= accept_key r)

  -- a request with its members; one that is no text reads as blank, which the tests refuse
  abbrev pub members : Fields → Fields → Fields → Mode → Request
  members request context binding mode = record {
    binding = binding;
    mode = mode;
    nonce = or_blank (text_at "nonce" context);
    target_sha256 = or_blank (text_at "target_sha256" context);
    recipient_sha256 = or_blank (text_at "recipient_sha256" context);
    context_sha256 = or_blank (text_at "context_sha256" request);
    recipient_public_key = or_blank (text_at "recipient_public_key" request);
    username = or_blank (text_at "username" request);
    email = or_blank (text_at "email" request);
    reason = or_blank (text_at "reason" request);
  }

  unfoldable pub read_mode : Fields → Fields → Fields → Mode → Option Request
  read_mode request context binding mode =
      (context_fits context binding && has_text (text_at "recipient_public_key" request))
      >> accept context (members request context binding mode)

  unfoldable pub read_binding : Fields → Fields → Fields → Option Request
  read_binding request context binding =
      mode_named (or_blank (text_at "mode" context)) >>= read_mode request context binding

  unfoldable pub read_parts : Fields → Fields → Option Request
  read_parts request context =
      as_object (get_field "binding" context) >>= read_binding request context

  abbrev pub request_keys : List String
  request_keys =
      "context" ∷ "context_sha256" ∷ "recipient_public_key" ∷ "username" ∷ "email" ∷ "reason" ∷ []

  -- the members of a request, tested
  unfoldable pub read_request : Fields → Option Request
  read_request request =
      same_set (keys request) request_keys
      >> (as_object (get_field "context" request) >>= read_parts request)

  unfoldable pub with_raw : Bytes → Request → Option (Request × Bytes)
  with_raw raw request = some (request, raw)

  unfoldable pub read_raw : Bytes → Fields → Option (Request × Bytes)
  read_raw raw fs = read_request fs >>= with_raw raw

  unfoldable pub read_value : String → Bytes → Option (Request × Bytes)
  read_value value raw =
      k.b64encode raw == value >> (as_object (loads_unique k raw) >>= read_raw raw)

  -- `request_from_environment`, with the bytes that were decoded
  unfoldable pub request_from_environment : String → Option (Request × Bytes)
  request_from_environment value =
      leb (length (codes value)) 16384 >> (k.b64decode value >>= read_value value)
