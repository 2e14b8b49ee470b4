-- ===== src/Recovery/Accounts.antt =====
-- The tables that experiments/server/operator_recovery.py reads and writes, and what it asks of its
-- surroundings.
use azd_santa.Base.{ℕ, String, Bool, Option, none, some, List, [], ◌∷◌}
use azd_santa.Base.{◌==◌, ◌=?◌, string_eq, if◌then◌else◌}

pub record Account : Type 0 where
  pub pk : ℕ
  pub username : String
  pub email : String
  pub password : String
  pub is_active : Bool
  pub is_remote : Bool
  pub is_service_account : Bool
  pub is_superuser : Bool
  pub is_staff : Bool

-- the accounts, and the rows of four tables with the key of their owner
pub record Tables : Type 0 where
  pub accounts : List Account
  pub totp : List (ℕ × String)
  pub webauthn : List (ℕ × String)
  pub tokens : List (ℕ × String)
  pub issuers : List (ℕ × String)

pub data Mode : Type 0 where
  bootstrap : Mode
  recover : Mode

pub record Demand : Type 0 where
  pub mode : Mode
  pub username : String
  pub email : String
  pub reason : String
  pub recipient_public_key : Option String
  pub context_sha256 : Option String
  pub sealed_stdout : Bool

-- the counts of what a reset removes
pub record Removed : Type 0 where
  pub totp : ℕ
  pub webauthn : ℕ
  pub human_tokens : ℕ
  pub human_oidc_issuers : ℕ

pub record Artifact : Type 0 where
  pub mode : Mode
  pub pk : ℕ
  pub username : String
  pub email : String
  pub reason : String
  pub removed : Removed
  pub setup_url : String
  pub expires_at : ℕ

-- the artifact in the open, or sealed for a recipient
pub data Output : Type 0 where
  plain : Artifact → Output
  sealed : Artifact → Output

-- how the outer transaction ends: committed, rolled back, or with an exception after the commit
pub data Commit : Type 0 where
  committed : Commit
  rolled_back : Commit
  unknown : Commit

-- Django, the sealing module, the file system and the audit queue.
-- the content of the output file: nothing, a part of an artifact, or the whole
pub data Content : Type 0 where
  blank : Content
  part : Content
  whole : Output → Content

pub record Surroundings : Type 0 where
  -- `str.strip`
  pub strip : String → String
  pub valid_email : String → Bool
  pub valid_username : String → Bool
  pub password_reset_timeout : ℕ
  pub prepares_recipient : Demand → Bool
  -- `__iexact`
  pub same_folded : String → String → Bool
  pub reserves_output : Bool
  -- whether no statement of the transaction raises
  pub statements_hold : Bool
  -- `secrets.token_urlsafe(64)`
  pub drawn_password : String
  pub next_pk : List Account → ℕ
  pub setup_url : Account → String
  -- the tests of the parsed URL
  pub is_https_origin : String → Bool
  pub now : ℕ
  pub seals : Artifact → Bool
  pub commit : Commit
  -- whether the dump, the flush and the `fsync` return, and what the output file holds if one of
  -- them raises
  pub writes_artifact : Bool
  pub torn : Output → Content
  -- whether `event.post` returns, and whether it had submitted the event if it raises
  pub posts_event : Bool
  pub submits_event : Bool

-- `filter(username=...).first()`
unfoldable pub find_account : String → List Account → Option Account
find_account name [] = none
find_account name (a ∷ rest) = if a.username == name then some a else find_account name rest

-- the account of a key, and the rows of an owner
unfoldable pub account_of : ℕ → List Account → Option Account
account_of pk [] = none
account_of pk (a ∷ rest) = if a.pk =? pk then some a else account_of pk rest

unfoldable pub rows_of_owner : ℕ → List (ℕ × String) → List String
rows_of_owner pk [] = []
rows_of_owner pk ((owner, row) ∷ rest) =
    let more = rows_of_owner pk rest in if owner =? pk then row ∷ more else more

-- `filter(user=user).delete()`
unfoldable pub delete_rows : ℕ → List (ℕ × String) → List (ℕ × String)
delete_rows pk [] = []
delete_rows pk ((owner, row) ∷ rest) =
    let more = delete_rows pk rest in if owner =? pk then more else (owner, row) ∷ more

-- `user.save()` of an account that is there
unfoldable pub save_account : Account → List Account → List Account
save_account a [] = []
save_account a (b ∷ rest) =
    let more = save_account a rest in if b.pk =? a.pk then a ∷ more else b ∷ more
