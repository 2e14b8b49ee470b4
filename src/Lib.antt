-- ===== src/Lib.antt =====
-- The azd-santa server experiments: a synthetic Santa sync server, the bounded JSON input of the
-- sync views and what stands around them, modelled as pure functions on explicit states.
--
-- The program. Santa clients sync with a server in four stages: preflight starts a session on the
-- current snapshot of rules, eventupload reports events, ruledownload serves the rules page by
-- page behind signed cursors, and postflight acknowledges a revision. tools/sync_spike/model.py is
-- the synthetic server for these stages, with its credentials and its HTTP handler;
-- tools/sync_spike/durable.py keeps its snapshots and reports in SQLite.
-- experiments/server/santa_request_limits.py reads the body of every sync request of the real
-- server under limits on bytes, nesting and events, and
-- experiments/server/santa_admission.py lets a request into that server only with a permit from a
-- shared Redis store. experiments/server/operator_mfa.py lets operators into it only with a fresh
-- proof of a second factor, experiments/server/operator_recovery.py gives one of them access again,
-- and experiments/server/runtime_service.py starts, watches and stops the containers of it all.
-- experiments/server/operator_setup_host.py has such an access made on the host, and
-- experiments/server/sealed_setup.py seals its link for the recipient of the request.
-- experiments/server/private_install_transport.py brings a package to a host in chunks and has
-- systemd install it.
--
-- The files.
--   Base: numbers, lists, dicts (`d.get`, `d[k] = v`, `d.pop`), texts and the native integers;
--     Base/Faulty has steps that may raise and what they keep.
--   Json: JSON values. Json/Hooks has `json.loads` with the hooks of both programs
--     (`unique_object`, `_unique`, `_constant`, `_float`); Json/Strict is on what they keep out.
--   Platform: the parameters. Raise: exceptions as values, one constructor for each class that a
--     handler tells apart.
--   Sync: tools/sync_spike/model.py. Snapshot has `Snapshot.fixture` and `canonical`; State the
--     attributes of `Model` and its credential operations; Cursor `Model.cursor` and
--     `Model.offset`; Stages and Handle `Model.handle`, a function for each stage; Http `decode`
--     and `Handler`. Step is the abstract protocol, Client a client of it; Invariant, Binding,
--     Paging, Completion, FullSync, Guarantees, Access, Revocation, Caught and Answers hold
--     proofs.
--   Limits: experiments/server/santa_request_limits.py. Config has `configured_limits`, Depth
--     `_check_depth`, Decode `decode_bytes` and `decode_request`; Nesting, Bounds and Statuses
--     hold proofs.
--   Admission: experiments/server/santa_admission.py. Redis is the interface of the store and its
--     laws; Scripts has `VALIDATE`, `ACQUIRE` and `RELEASE` with the guard of
--     experiments/server/operator_mfa.py, Middleware `Admission.__call__` in two halves, between
--     which other requests run, Upkeep `RECONCILE`, `CHECK` and `EMPTY`, Identity `configured`,
--     `identity`, `credential_from` and `SecretPathFilter`; Permits, Exclusion and Scrubbing hold
--     proofs.
--   Operator: experiments/server/operator_mfa.py. Framework is the interface of Django, pyotp and
--     Python's library; Accounts has `_factors`, `_local`, `_fresh` and `_proof`, Claims the
--     security store with `_budget` and `_cache_add`, Factor the steps of a sign-in, Middleware
--     `_challenge` and `RequireOperatorMFA`; Protection, Budget, SingleUse and Proofs hold proofs.
--   Recovery: experiments/server/operator_recovery.py. Accounts has the tables and the parameters,
--     Access `validate_request`, `apply_access`, the end of the command and the locked view; Effects
--     and Containment hold proofs.
--   Setup: experiments/server/sealed_setup.py and experiments/server/operator_setup_host.py. Kit is
--     the interface of Python's library and of the package cryptography; Sealing has
--     `target_digest`, `origin` and `Recipient`, Preparing `prepare_recipient`, Request
--     `request_from_environment`, Envelope `envelope`, Host `run` over the folders of its store;
--     Agreement, Sealed, Answering, Tally and Once hold proofs.
--   Install: experiments/server/private_install_transport.py. Tools is the interface of Python's
--     library, Machine the files with `exclusive` and the host around them; Package has the tests
--     of a package, Observing `completion`, `record_terminal` and `status`, Transport `run`; Growth,
--     Steady, Holding, Placing, Submission, Finishing, Sorted and Reporting hold proofs.
--   Runtime: experiments/server/runtime_service.py, the class `Runtime`. Docker is the interface of
--     Docker and of the host, Machine the state with a log of all that was done, `call` and `wait`;
--     Rows has the tests of `inspect`, Containers `inspect`, `start_ids`, `oneoff`, `stop_helpers`
--     and `stop`, Admission `container_generation`, `bind_admission_fresh` and
--     `reconcile_admission`, Lifecycle `start` and `supervise`. Keeping and Steady are on
--     assertions that actions keep, Told and Showing on what Docker's replies tell; Order, Picking,
--     Supervision, Running, Checking, Safety and Waiting hold proofs.
--   Durable: tools/sync_spike/durable.py. Database is the interface of SQLite and its laws, Store
--     has `State`, Server `DurableModel`; Reports, Publishing and Persistence hold proofs.
--
-- State and effects. An operation takes the state and returns the result with the new state, also
-- where it raises, so that a change before an exception is kept. The clock and random values are
-- arguments. `Model.handle` runs under the server's lock, so requests are a sequence. A Python int
-- is an integer without bound, a float its 64-bit pattern, a dict a list of pairs in insertion
-- order. The expiry time of an artifact is a natural number. A RecursionError of the JSON parser is
-- not told apart from a ValueError. A folder that is made and cannot be synced counts as not made. A
-- signal arrives with an event of the log of `Runtime`, so one between the last test of
-- `ensure_running` and the call that follows it counts as one that arrives with that call.
--
-- Bounds and fuel. Every operation is structurally recursive but two kinds. The client of
-- Sync/Client, who is no code of the repository, downloads on fuel, as much as there are rules. The
-- loops of `Runtime.wait` and `supervise` are given a number of rounds, and an outcome of its own
-- says that the rounds are used up: `supervise` runs until a signal, so any number is a part of its
-- run, and for `wait` one round more than pauses fit before its deadline is enough.
--
-- Parameters. Platform holds the JSON printer and parser, sha256, hmac, base64, zlib, the UTF-8
-- decoder, the comparison of a float with an integer, `int` of a text and `strip().lower()`; Redis
-- holds the commands that the scripts call, Database the statements, Runtime/Docker what Docker and
-- the host answer at any time, Recovery/Accounts what the accounts' surroundings do, Setup/Kit the
-- cryptography and texts of the setup programs, Setup/Host what its host answers,
-- Install/Tools and Install/Machine the same for the installation. A theorem names what it
-- assumes of them; the Tests modules instantiate them by concrete functions.
--
-- Not modelled: sockets, header lines of replies, the opening of files and the process's own start,
-- which are input and output; in experiments/server/santa_admission.py `require_admission` and the
-- installation of the logging filter; in experiments/server/operator_mfa.py the settings that it
-- installs, the management command and the editing of pages; in
-- experiments/server/runtime_service.py the preparation and the loading of a manifest, the checks of
-- the backing data and the unit file, which read and write files; in
-- experiments/server/operator_setup_host.py the attestation of the host; the other programs under
-- experiments/server (the installer itself, source preparation, drivers), which edit sources and
-- call other programs; the PowerShell scripts, profiles, infrastructure and documents.
pub mod Base
pub mod Json
pub mod Platform
pub mod Raise
pub mod Sync
pub mod Limits
pub mod Admission
pub mod Durable
pub mod Operator
pub mod Runtime
pub mod Recovery
pub mod Setup
pub mod Install
