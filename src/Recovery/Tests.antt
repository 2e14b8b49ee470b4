-- ===== src/Recovery/Tests.antt =====
-- The recovery of one of two accounts.
use azd_santa.Base.{ℕ, String, true, false, none, some, [], ◌∷◌, ◌≡◌, refl}
use azd_santa.Base.{◌==◌, string_eq}
use azd_santa.Recovery.Accounts.{
  Account, Tables, recover, Demand, Artifact, part, committed, Surroundings, find_account,
  account_of,
}
use azd_santa.Recovery.Access.{
  applied, is_request, is_admitted, choose, reset_target, transact, publish, conclude, artifact_of,
  apply_access,
}
use azd_santa.Recovery.Containment.{rows_at, access_contained}

abbrev sample_account : ℕ → String → Account
sample_account pk name = record {
  pk = pk;
  username = name;
  email = name;
  password = "old";
  is_active = true;
  is_remote = false;
  is_service_account = false;
  is_superuser = false;
  is_staff = false;
}

abbrev sample_tables : Tables
sample_tables = record {
  accounts = sample_account 1 "ada" ∷ sample_account 2 "bob" ∷ [];
  totp = (1, "x") ∷ (2, "y") ∷ [];
  webauthn = (1, "k") ∷ [];
  tokens = (2, "t") ∷ [];
  issuers = [];
}

abbrev sample_demand : Demand
sample_demand = record {
  mode = recover;
  username = "ada";
  email = "ada";
  reason = "lost";
  recipient_public_key = none;
  context_sha256 = none;
  sealed_stdout = false;
}

abbrev sample_surroundings : Surroundings
sample_surroundings = record {
  strip = λ text. text;
  valid_email = λ text. true;
  valid_username = λ text. true;
  password_reset_timeout = 600;
  prepares_recipient = λ d. true;
  same_folded = λ a b. a == b;
  reserves_output = true;
  statements_hold = true;
  drawn_password = "drawn";
  next_pk = λ accounts. 3;
  setup_url = λ a. "https://santa/reset";
  is_https_origin = λ url. true;
  now = 1000;
  seals = λ artifact. true;
  commit = committed;
  writes_artifact = true;
  torn = λ output. part;
  posts_event = true;
  submits_event = false;
}

abbrev sample_artifact : Artifact
sample_artifact =
    artifact_of sample_surroundings sample_demand (sample_account 1 "ada") sample_tables

run_applied :
    (apply_access sample_surroundings sample_demand sample_tables).outcome ≡ applied sample_artifact
unfolding apply_access conclude publish transact reset_target choose is_admitted is_request
    find_account string_eq
run_applied = refl

access_contained_example :
    (rows_at sample_surroundings sample_demand sample_tables 1
        (apply_access sample_surroundings sample_demand sample_tables).tables
      ≡ [] ∷ [] ∷ [] ∷ [] ∷ [])
    × ((b : Account) × (account_of 1
            (apply_access sample_surroundings sample_demand sample_tables).tables.accounts
          ≡ some b)
        × (b.password ≡ "drawn"))
    × (account_of 2 (apply_access sample_surroundings sample_demand sample_tables).tables.accounts
        ≡ account_of 2 sample_tables.accounts)
    × (rows_at sample_surroundings sample_demand sample_tables 2
          (apply_access sample_surroundings sample_demand sample_tables).tables
        ≡ rows_at sample_surroundings sample_demand sample_tables 2 sample_tables)
access_contained_example =
    access_contained sample_surroundings sample_demand sample_tables sample_artifact run_applied 2
      refl
