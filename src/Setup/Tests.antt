-- ===== src/Setup/Tests.antt =====
-- Runs of the setup programs with a concrete kit, where base64 keeps lengths only.
use azd_santa.Base.{
  ◌+◌, ◌*◌, ◌/◌, ◌≤◌, String, true, false, none, some, List, [], ◌∷◌, ◌≡◌, refl, arith,
}
use azd_santa.Base.{
  ◌=?◌, ltb, leb→le, length, replicate, string_eq, strings_eq, bytes_eq, if◌then◌else◌,
}
use azd_santa.Base.Int.{pos, int_eq}
use azd_santa.Base.Text.{codes, split_at, after_start}
use azd_santa.Json.{Value, Fields, get_field, put_field, keys}
use azd_santa.Json.Hooks.{load, load_pairs, unique_object, unique_onto}
use azd_santa.Sync.Snapshot.{same_set, is_text}
use azd_santa.Recovery.Accounts.{recover, Artifact}
use azd_santa.Setup.Kit.{Url, Kit, loads_unique, text_size}
use azd_santa.Json.{spell}
use azd_santa.Setup.Sealing.{
  repeated, scope, algorithm, Recipient, Drawn, link_payload, envelope_of, envelope_fields, seal,
  seal_link, seal_uid, reset_uid, encrypt, is_host, origin, target_digest,
}
use azd_santa.Setup.Preparing.{
  recipient_of, prepare_recipient, prepare_raw, prepare_key, prepare_target, tried,
  checked_recipient,
}
use azd_santa.Setup.Request.{
  Request, request_from_environment, read_value, read_raw, with_raw, read_request, read_parts,
  read_binding, read_mode, accept, accept_key, all_texts, is_guid, is_compose_path, binding_fits,
  target,
}
use azd_santa.Setup.Envelope.{envelope, envelope_fits}
use azd_santa.Setup.Agreement.{KitLaws}
use azd_santa.Setup.Answering.{request_answered}
use azd_santa.Setup.Host.{
  Host, run, operate, create, make_folder, write_new, reserve, access, collect, readback,
  read_artifact,
}
use azd_santa.Base.Dict.{insert, lookup}
use azd_santa.Setup.Tally.{count}
use azd_santa.Setup.Once.{run_all, empty_disk, access_once}

abbrev digest : String
digest = "aaaaaaaaaaaaaaaaaaaaaaaaaaaaaaaaaaaaaaaaaaaaaaaaaaaaaaaaaaaaaaaa"

abbrev guid : String
guid = "11111111-1111-1111-1111-111111111111"

abbrev text_field : String → String → Fields → Fields
text_field key text fs = Fields.field key (Value.str text) fs

abbrev binding : Fields
binding = text_field "AdmissionSha256" digest (
    text_field "ComposePath" "/srv/compose.json" (
      text_field "ComposeSha256" digest (
        text_field "EnvironmentName" "lab" (
          text_field "ImageId"
            "sha256:aaaaaaaaaaaaaaaaaaaaaaaaaaaaaaaaaaaaaaaaaaaaaaaaaaaaaaaaaaaaaaaa"
            (text_field "Origin" "https://a.example" (
              text_field "RecoverySha256" digest (
                text_field "RemoteProgramSha256" digest (
                  text_field "ResourceGroup" "rg-azd-santa-vm-lab" (
                    text_field "SealedSha256" digest (
                      text_field "SourceCommit" "aaaaaaaaaaaaaaaaaaaaaaaaaaaaaaaaaaaaaaaa" (
                        text_field "SubscriptionId" guid (
                          text_field "TenantId" guid (
                            text_field "VmId"
                              "/subscriptions/11111111-1111-1111-1111-111111111111/resourceGroups/rg-azd-santa-vm-lab/providers/Microsoft.Compute/virtualMachines/vm-santa-lab"
                              (text_field "VmInstanceId" guid
                                (text_field "VmName" "vm-santa-lab" Fields.end)))))))))))))))

abbrev context : Fields
context = text_field "scope" "azd-santa-setup-request-v1" (
    text_field "nonce" digest (
      Fields.field "binding" (Value.obj binding) (
        text_field "mode" "recover"
          (text_field "target_sha256" digest (text_field "recipient_sha256" digest Fields.end)))))

abbrev request_value : Value
request_value = Value.obj (
    Fields.field "context" (Value.obj context) (
      text_field "context_sha256" digest (
        text_field "recipient_public_key" "xxxxxxxx" (
          text_field "username" "ada"
            (text_field "email" "ada@a.example" (text_field "reason" "lost key" Fields.end))))))

-- the answer: a wrapped key of 384 bytes, a nonce of 12 and a ciphertext of 18
abbrev answer_value : Value
answer_value = Value.obj (
    text_field "scope" scope (
      Fields.field "version" (Value.int (pos 1)) (
        text_field "algorithm" algorithm (
          text_field "mode" "recover" (
            text_field "kid_sha256" digest (
              text_field "context_sha256" digest (
                text_field "target_sha256" digest (
                  text_field "wrapped_key_base64" (repeated 512) (
                    text_field "nonce_base64" (repeated 16)
                      (text_field "ciphertext_base64" (repeated 24) Fields.end))))))))))

abbrev site_url : Url
site_url = record {
  scheme = "https";
  netloc = "a.example";
  hostname = "a.example";
  has_user = false;
  has_password = false;
  port = none;
  path = "";
  query = "";
  fragment = "";
}

abbrev link_url : Url
link_url = record site_url { path = "/accounts/reset/MQ/c-aaaaaaaaaaaaaaaaaaaaaaaaaaaaaaaa/" }

abbrev kit : Kit
kit = record {
  sha256 = λ b. digest;
  utf8 = codes;
  b64encode = λ b. repeated (length b / 3 * 4);
  b64decode = λ text. some (replicate (length (codes text) / 4 * 3) 0);
  url_decode = λ text. some "1";
  parse = λ b. some (if length b =? 3 then spell request_value else spell answer_value);
  dumps = λ v. replicate 1000 0;
  dumps_utf8 = λ v. 0 ∷ 0 ∷ [];
  split_url = λ text. some (if ltb (length (codes text)) 40 then site_url else link_url);
  lower = λ s. s;
  strip = λ s. s;
  decimal = λ n. "1";
  Key = Unit;
  load_key = λ b. some tt;
  key_size = λ key. 3072;
  exponent = λ key. 65537;
  der = λ key. replicate 6 0;
  wrap = λ key seed secret. replicate 384 0;
  gcm = λ secret nonce plain extra. replicate (length plain + 16) 0;
}

abbrev drawn : Drawn kit
drawn = record { secret = []; nonce = replicate 12 0; seed = [] }

abbrev request : Request
request = record {
  binding = binding;
  mode = recover;
  nonce = digest;
  target_sha256 = digest;
  recipient_sha256 = digest;
  context_sha256 = digest;
  recipient_public_key = "xxxxxxxx";
  username = "ada";
  email = "ada@a.example";
  reason = "lost key";
}

abbrev recipient : Recipient kit
recipient = recipient_of kit tt (replicate 6 0) digest recover digest "https://a.example"

abbrev artifact : Artifact
artifact = record {
  mode = recover;
  pk = 1;
  username = "ada";
  email = "ada@a.example";
  reason = "lost key";
  removed = record { totp = 0; webauthn = 0; human_tokens = 0; human_oidc_issuers = 0 };
  setup_url = "https://a.example/accounts/reset/MQ/c-aaaaaaaaaaaaaaaaaaaaaaaaaaaaaaaa/";
  expires_at = 900;
}

abbrev sealed_answer : Value
sealed_answer = envelope_of kit recipient drawn (link_payload kit artifact.setup_url 900 1)

request_read : request_from_environment kit "xxxx" ≡ some (request, replicate 3 0)
unfolding request_from_environment read_value read_raw with_raw read_request read_parts read_binding
    read_mode accept accept_key all_texts is_guid is_compose_path binding_fits target repeated
    loads_unique load load_pairs unique_object unique_onto spell get_field put_field string_eq
    same_set keys strings_eq is_text split_at
request_read = refl

prepared :
    prepare_recipient kit drawn "xxxxxxxx" digest recover "ada" "ada@a.example" "https://a.example"
    ≡ some recipient
unfolding prepare_recipient prepare_raw prepare_key prepare_target tried checked_recipient
    target_digest origin is_host encrypt repeated string_eq bytes_eq
prepared = refl

sealed : seal kit recipient drawn artifact ≡ some sealed_answer
unfolding seal seal_link seal_uid reset_uid encrypt target_digest origin is_host string_eq split_at
    after_start repeated
sealed = refl

laws : KitLaws kit recipient drawn (link_payload kit artifact.setup_url 900 1)
unfolding repeated envelope_fields spell text_size
laws = record {
  parse-dumps = refl;
  length-dumps = leb→le _ _ refl;
  wrapped_back = refl;
  nonce_back = refl;
  ciphertext_back = refl;
  length-wrapped = refl;
  length-ciphertext = refl;
  length-wrap = λ _. refl;
  length-gcm = refl;
  payload_nonempty = omega arith;
}

request_answered_example : envelope kit (replicate 1000 0) request ≡ some (0 ∷ 0 ∷ [])
request_answered_example =
    request_answered kit "xxxx" "https://a.example" request (replicate 3 0) drawn drawn recipient
      artifact sealed_answer request_read prepared laws refl sealed

-- a creation whose call times out, another one, and a readback
abbrev host : String → Host
host operation = record {
  is_root = true;
  operation = operation;
  attests = λ n. true;
  container = "web";
  breaks = λ n. false;
  torn = λ n. none;
  exit_code = λ n. none;
  stdout = λ n. [];
  lines = λ b. none;
  artifact = λ n. some (replicate 1000 0);
}

abbrev runs : List (Host × String)
runs = (host "create", "xxxx") ∷ (host "create", "xxxx") ∷ (host "readback", "xxxx") ∷ []

access_once_example : count digest (run_all kit runs empty_disk).accessed ≤ 1
access_once_example = access_once kit digest runs

-- the first run makes the call
runs_access : (run_all kit runs empty_disk).accessed ≡ digest ∷ []
unfolding run_all run request_from_environment read_value read_raw with_raw read_request read_parts
    read_binding read_mode accept accept_key all_texts is_guid is_compose_path binding_fits target
    repeated loads_unique load load_pairs unique_object unique_onto spell get_field put_field
    string_eq same_set keys strings_eq is_text split_at operate create make_folder write_new reserve
    access collect readback read_artifact insert lookup bytes_eq envelope envelope_fits
    envelope_fields int_eq
runs_access = refl
