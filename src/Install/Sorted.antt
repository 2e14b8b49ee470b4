-- ===== src/Install/Sorted.antt =====
-- The record of an exit as it is read back, with its keys sorted.
use azd_santa.Base.{String, true, Option, some, ◌≡◌, refl}
use azd_santa.Base.{eq_self, string_eq, bytes_eq, strings_eq}
use azd_santa.Base.Text.{is_run, is_hex}
use azd_santa.Json.{Value, Fields, get_field, put_field, keys}
use azd_santa.Json.Hooks.{load, load_pairs, dict_onto}
use azd_santa.Platform.{Bytes}
use azd_santa.Json.{spell}
use azd_santa.Setup.Agreement.{◌also◌}
use azd_santa.Sync.Snapshot.{is_text, same_set}
use azd_santa.Install.Tools.{Tools, object_of}
use azd_santa.Install.Observing.{is_proof, proof_keys}

-- the record of an exit, with sorted keys
unfoldable pub sorted_proof : (digest bundle completed invocation : String) → Fields
sorted_proof digest bundle completed invocation = Fields.field "bundle_sha256" (Value.str bundle) (
    Fields.field "completion_sha256" (Value.str completed) (
      Fields.field "context_sha256" (Value.str digest) (
        Fields.field "exit_code" (Value.str "exited") (
          Fields.field "exit_status" (Value.str "0") (
            Fields.field "invocation" (Value.str invocation) (
              Fields.field "scope" (Value.str "private-azd-install-terminal-success")
                (Fields.field "service_result" (Value.str "success") Fields.end)))))))

text_is : (s : String) (o : Option Value) → o ≡ some (Value.str s) → is_text s o ≡ true
unfolding is_text
text_is s o found = rw found (eq_self s)

module _ (d b c i : String) where
  get_scope :
      get_field "scope" (sorted_proof d b c i)
      ≡ some (Value.str "private-azd-install-terminal-success")
  unfolding get_field sorted_proof string_eq
  get_scope = refl

  get_context : get_field "context_sha256" (sorted_proof d b c i) ≡ some (Value.str d)
  unfolding get_field sorted_proof string_eq
  get_context = refl

  get_bundle : get_field "bundle_sha256" (sorted_proof d b c i) ≡ some (Value.str b)
  unfolding get_field sorted_proof string_eq
  get_bundle = refl

  get_completion : get_field "completion_sha256" (sorted_proof d b c i) ≡ some (Value.str c)
  unfolding get_field sorted_proof string_eq
  get_completion = refl

  pub get_invocation : get_field "invocation" (sorted_proof d b c i) ≡ some (Value.str i)
  unfolding get_field sorted_proof string_eq
  get_invocation = refl

  get_result : get_field "service_result" (sorted_proof d b c i) ≡ some (Value.str "success")
  unfolding get_field sorted_proof string_eq
  get_result = refl

  get_code : get_field "exit_code" (sorted_proof d b c i) ≡ some (Value.str "exited")
  unfolding get_field sorted_proof string_eq
  get_code = refl

  get_status : get_field "exit_status" (sorted_proof d b c i) ≡ some (Value.str "0")
  unfolding get_field sorted_proof string_eq
  get_status = refl

  sorted_keys : same_set (keys (sorted_proof d b c i)) proof_keys ≡ true
  unfolding same_set keys sorted_proof string_eq
  sorted_keys = refl

  module _ (t : Tools) where
    pub sorted_proof-fits :
        is_run is_hex 32 i ≡ true → is_proof t d b c (sorted_proof d b c i) ≡ true
    unfolding is_proof
    sorted_proof-fits hex =
        let p = sorted_proof d b c i in
        sorted_keys
        also text_is "private-azd-install-terminal-success" (get_field "scope" p) get_scope
        also text_is d (get_field "context_sha256" p) get_context
        also text_is b (get_field "bundle_sha256" p) get_bundle
        also text_is c (get_field "completion_sha256" p) get_completion
        also rw get_invocation hex
        also text_is "success" (get_field "service_result" p) get_result
        also text_is "exited" (get_field "exit_code" p) get_code
        also text_is "0" (get_field "exit_status" p) get_status

    pub object_of-sorted :
        (raw : Bytes)
        → t.parse raw ≡ some (spell (Value.obj (sorted_proof d b c i)))
        → object_of t raw ≡ some (sorted_proof d b c i)
    unfolding object_of load load_pairs spell dict_onto put_field string_eq sorted_proof
    object_of-sorted raw law = rw law refl
