-- ===== src/Admission/IdentityTests.antt =====
-- A forged header and a configuration, at concrete data.
use azd_santa.Base.{String, true, false, none, some, [], ◌∷◌, ◌++◌, ◌≡◌, refl}
use azd_santa.Base.{◌==◌, contains, string_eq, if◌then◌else◌}
use azd_santa.Base.Dict.{Dict, lookup}
use azd_santa.Base.Text.{split_at, after_start, concat, decimal, decimal_from}
use azd_santa.Admission.Scripts.{default_config}
use azd_santa.Admission.Identity.{
  Addresses, proxy, Trust, forward, client_header, limit, configured, is_trusted, client_address,
  identity, keys_of, path_credential, credential_from,
}
use azd_santa.Admission.Scrubbing.{identity_scrubs, IsClient}

-- addresses as their texts, in the network of the text 10
abbrev sample_addresses : Addresses
sample_addresses = record {
  Address = String;
  parse = λ text. if text == "" then none else some text;
  is_member = λ address peer. some (address == "10.0.0.1");
  prefix_length = λ peer. some 8;
  is_v6 = λ address. false;
  show = λ address. address;
  show_network = λ address. address;
  mac = λ domain value. concat domain value;
  words = λ text. split_at b' ' text;
  lower = λ text. text;
}

abbrev sample_trust : Trust
sample_trust = record { config = default_config; mode = proxy; peers = "10.0.0.0/8" ∷ [] }

abbrev sample_meta : Dict String String
sample_meta =
    ("REMOTE_ADDR", "10.0.0.1")
    ∷ ("HTTP_X_FORWARDED_FOR", "6.6.6.6")
    ∷ ("HTTP_X_AZD_SANTA_CLIENT_IP", "192.0.2.1")
    ∷ []

run_identity :
    (identity sample_addresses sample_trust sample_meta "c").0
    ≡ some (keys_of sample_addresses "192.0.2.1" "c")
unfolding identity client_address is_trusted lookup string_eq
run_identity = refl

is_forward : contains (forward ++ client_header ∷ []) "HTTP_X_FORWARDED_FOR" ≡ true
unfolding string_eq
is_forward = refl

identity_scrubs_example :
    (address : String) × IsClient sample_addresses sample_trust sample_meta address
    × (keys_of sample_addresses "192.0.2.1" "c" ≡ keys_of sample_addresses address "c")
    × (lookup "HTTP_X_FORWARDED_FOR" (identity sample_addresses sample_trust sample_meta "c").1 ≡ (
        if ◌==◌ {A = String} "HTTP_X_FORWARDED_FOR" "HTTP_X_REAL_IP" then some address else none))
identity_scrubs_example =
    identity_scrubs sample_addresses sample_trust sample_meta "c"
      (keys_of sample_addresses "192.0.2.1" "c") run_identity "HTTP_X_FORWARDED_FOR" is_forward

run_configured :
    configured sample_addresses
      (("AZD_SANTA_ADMISSION_MODE", "proxy") ∷ ("AZD_SANTA_ADMISSION_PEERS", "10.0.0.0/8") ∷ [])
    ≡ some sample_trust
unfolding configured limit split_at decimal decimal_from lookup string_eq
run_configured = refl

run_credential :
    credential_from sample_addresses [] "/santa/sync/secret/preflight/machine" ≡ "secret"
unfolding credential_from path_credential after_start split_at lookup string_eq
run_credential = refl
