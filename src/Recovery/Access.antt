-- ===== src/Recovery/Access.antt =====
-- `validate_request` and `apply_access`. The transaction is a function of the tables: an exception in
-- it keeps the tables it began with.
use azd_santa.Base.{
  ℕ, ◌+◌, String, Bool, true, false, not, ◌&&◌, ◌||◌, Option, none, some, List, [], ◌∷◌, ◌++◌,
}
use azd_santa.Base.{◌==◌, ◌=?◌, ltb, any, length, string_eq, if◌then◌else◌}
use azd_santa.Base.Text.{codes}
use azd_santa.Recovery.Accounts.{
  Account, Tables, Mode, bootstrap, recover, Demand, Removed, Artifact, Output, plain, sealed,
  Commit, committed, rolled_back, unknown, Surroundings, Content, blank, whole, find_account,
  account_of, rows_of_owner, delete_rows, save_account,
}

abbrev pub reset_seconds : ℕ
reset_seconds = 600

-- the exceptions: a refusal before any commit, an unconfirmed commit, a commit without its artifact,
-- and an artifact without its audit event; `unreserved` is an output file that is not to be had
pub data Failure : Type 0 where
  refused : Failure
  unreserved : Failure
  unconfirmed : Failure
  not_written : Failure
  not_posted : Failure

pub data Outcome : Type 0 where
  applied : Artifact → Outcome
  raised : Failure → Outcome

-- what is left: the tables, the content of the output file and whether the event was submitted
pub record After : Type 0 where
  pub outcome : Outcome
  pub tables : Tables
  pub written : Content
  pub posted : Bool

-- inside the transaction: an account to reset, with the tables it is in
pub data Target : Type 0 where
  no_target : Target
  target : Account → List Account → Target

-- an artifact with the tables to commit, or an exception
pub data Attempt : Type 0 where
  attempt_failed : Failure → Attempt
  prepared : Artifact → Output → Tables → Attempt

-- the end of the command
pub data Report : Type 0 where
  command_failed : Failure → Report
  not_flushed : (completed : Bool) → Report
  reported : Report
  -- with the sealed envelope printed
  reported_sealed : Option Output → Report

abbrev pub is_applied : Outcome → Bool
is_applied (applied artifact) = true
is_applied (raised failure) = false

-- the artifact in the output file, if it is there as a whole
abbrev pub whole_in : Content → Option Output
whole_in (whole output) = some output
whole_in _ = none

abbrev pub report_of : Demand → Outcome → Content → Report
report_of d (raised failure) written = command_failed failure
report_of d (applied artifact) written =
    if d.sealed_stdout then reported_sealed (whole_in written) else reported

module _ (E : Surroundings) where
  -- `validate_request`: a text that is stripped, not empty and not too long
  abbrev pub is_exact : String → ℕ → Bool
  is_exact text most =
      not (text == "") && text == E.strip text && not (ltb most (length (codes text)))

  unfoldable pub is_request : Demand → Bool
  is_request d =
      is_exact d.username 150
      && is_exact d.email 254
      && not (E.strip d.reason == "")
      && not (ltb 256 (length (codes d.reason)))
      && not (any (λ c. ltb c 32) (codes d.reason))

  -- the tests before the output file is reserved
  abbrev pub recipient_fits : Demand → Bool
  recipient_fits d = elim d.recipient_public_key [
    | some key ↦ E.prepares_recipient d
    | none ↦ elim d.context_sha256 [ some context ↦ false | none ↦ not d.sealed_stdout ]
  ]

  unfoldable pub is_admitted : Demand → Bool
  unfolding is_request
  is_admitted d =
      is_request d
      && E.valid_email d.email
      && E.valid_username d.username
      && E.password_reset_timeout =? reset_seconds
      && recipient_fits d

  abbrev pub created : Demand → List Account → Account
  created d accounts = record {
    pk = E.next_pk accounts;
    username = d.username;
    email = d.email;
    password = "";
    is_active = true;
    is_remote = false;
    is_service_account = false;
    is_superuser = true;
    is_staff = false;
  }

  abbrev pub is_human : Account → Bool
  is_human a = not a.is_service_account

  -- an active local human
  abbrev pub is_recoverable : Account → Bool
  is_recoverable a = a.is_active && not a.is_remote && not a.is_service_account

  abbrev pub recovered : Demand → List Account → Option Account → Target
  recovered d accounts none = no_target
  recovered d accounts (some a) =
      if a.email == d.email && is_recoverable a then target a accounts else no_target

  -- the account of the two modes
  unfoldable pub choose : Mode → Demand → List Account → Target
  choose bootstrap d accounts =
      if any is_human accounts
        || any (λ a. E.same_folded a.username d.username || E.same_folded a.email d.email) accounts
      then no_target
      else target (created d accounts) (accounts ++ created d accounts ∷ [])
  choose recover d accounts = recovered d accounts (find_account d.username accounts)

  abbrev pub removed_of : ℕ → Tables → Removed
  removed_of pk t = record {
    totp = length (rows_of_owner pk t.totp);
    webauthn = length (rows_of_owner pk t.webauthn);
    human_tokens = length (rows_of_owner pk t.tokens);
    human_oidc_issuers = length (rows_of_owner pk t.issuers);
  }

  abbrev pub with_password : Account → Account
  with_password a = record a { password = E.drawn_password }

  -- the reset of an account in the tables
  unfoldable pub reset : Account → List Account → Tables → Tables
  reset a accounts t = record {
    accounts = save_account (with_password a) accounts;
    totp = delete_rows a.pk t.totp;
    webauthn = delete_rows a.pk t.webauthn;
    tokens = delete_rows a.pk t.tokens;
    issuers = delete_rows a.pk t.issuers;
  }

  abbrev pub artifact_of : Demand → Account → Tables → Artifact
  artifact_of d a t = record {
    mode = d.mode;
    pk = a.pk;
    username = a.username;
    email = a.email;
    reason = d.reason;
    removed = removed_of a.pk t;
    setup_url = E.setup_url (with_password a);
    expires_at = E.now + reset_seconds;
  }

  -- `output_artifact`
  abbrev pub sealed_for : Option String → Artifact → Option Output
  sealed_for none artifact = some (plain artifact)
  sealed_for (some key) artifact = if E.seals artifact then some (sealed artifact) else none

  abbrev pub prepare_output : Artifact → Tables → Option Output → Attempt
  prepare_output artifact t none = attempt_failed unconfirmed
  prepare_output artifact t (some output) = prepared artifact output t

  -- the rest of the transaction
  unfoldable pub reset_target : Demand → Tables → Target → Attempt
  reset_target d t no_target = attempt_failed refused
  reset_target d t (target a accounts) =
      if not (E.is_https_origin (E.setup_url (with_password a)))
      then attempt_failed refused
      else prepare_output (artifact_of d a t) (reset a accounts t)
          (sealed_for d.recipient_public_key (artifact_of d a t))

  -- the block under `transaction.atomic`
  unfoldable pub transact : Demand → Tables → Attempt
  transact d t =
      if E.statements_hold
      then reset_target d t (choose d.mode d t.accounts)
      else attempt_failed unconfirmed

  abbrev pub left : Failure → Tables → After
  left failure t = record { outcome = raised failure; tables = t; written = blank; posted = false }

  -- the steps after the commit
  unfoldable pub publish : Artifact → Output → Tables → After
  publish artifact output t =
      if not E.writes_artifact
      then record {
        outcome = raised not_written;
        tables = t;
        written = E.torn output;
        posted = false;
      }
      else if not E.posts_event
      then record {
        outcome = raised not_posted;
        tables = t;
        written = whole output;
        posted = E.submits_event;
      }
      else record { outcome = applied artifact; tables = t; written = whole output; posted = true }

  -- the end of the transaction
  unfoldable pub conclude : Tables → Attempt → Commit → After
  conclude before (attempt_failed failure) commit = left failure before
  conclude before (prepared artifact output t) committed = publish artifact output t
  conclude before (prepared artifact output t) rolled_back = left unconfirmed before
  conclude before (prepared artifact output t) unknown = left unconfirmed t

  -- `apply_access`
  unfoldable pub apply_access : Demand → Tables → After
  apply_access d t =
      if not (is_admitted d)
      then left refused t
      else if not E.reserves_output
      then left unreserved t
      else conclude t (transact d t) E.commit

  -- what `Command.handle` ends with: the error of `apply_access`, the error of the audit flush with
  -- whether the access was completed, or the lines that it prints
  unfoldable pub run_command : (queues_stop : Bool) → Demand → Tables → Report × After
  run_command queues_stop d t =
      let r = apply_access d t in
      (
        if queues_stop then report_of d r.outcome r.written else not_flushed (is_applied r.outcome),
        r,
      )

  -- `LockedResetConfirmView.get_user`: the account of the link, read again under the row lock
  unfoldable pub locked_user : Option Account → List Account → Option Account
  locked_user none accounts = none
  locked_user (some a) accounts = elim (account_of a.pk accounts) [
    | none ↦ none
    | some b ↦ if is_recoverable b then some b else none
  ]
