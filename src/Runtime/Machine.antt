-- ===== src/Runtime/Machine.antt =====
-- The state of `Runtime`, its calls of Docker and its waits. An action returns the state also when
-- it raises. `Cancelled` is told apart from the other exceptions.
use azd_santa.Base.{
  ℕ, zero, suc, String, Bool, true, false, not, ◌&&◌, ◌||◌, Option, none, some, List, ◌∷◌,
  if◌then◌else◌,
}
use azd_santa.Base.Dict.{Dict}
use azd_santa.Runtime.Docker.{Host, Event, pause, Reply, Image}

pub data Outcome {ℓ} (A : Type ℓ) : Type ℓ where
  done : A → Outcome A
  cancelled : Outcome A
  -- the rounds that are modelled are used up: what happened so far
  unfinished : Outcome A
  failed : Outcome A

pub record Machine : Type 0 where
  pub ids : List String
  pub cleanup_ids : List String
  pub images : Dict String Image
  pub rendered : Option (Dict String (Dict String String))
  pub stopping : Bool
  pub helpers : List String
  -- all that was done, newest first
  pub trace : List Event

abbrev pub Action {ℓ} : Type ℓ → Type ℓ
Action A = Machine → Outcome A × Machine

abbrev pub and_then {ℓ κ} :
    {A : Type ℓ} {B : Type κ} → (A → Action B) → Outcome A × Machine → Outcome B × Machine
and_then f (done a, s) = f a s
and_then f (cancelled, s) = (cancelled, s)
and_then f (unfinished, s) = (unfinished, s)
and_then f (failed, s) = (failed, s)

infixl 5 ◌>>=◌ ◌>>◌
abbrev pub ◌>>=◌ {ℓ κ} : {A : Type ℓ} {B : Type κ} → Action A → (A → Action B) → Action B
◌>>=◌ m f s = and_then f (m s)

abbrev pub ◌>>◌ {ℓ κ} : {A : Type ℓ} {B : Type κ} → Action A → Action B → Action B
m >> k = m >>= λ _. k

abbrev pub pure {ℓ} : {A : Type ℓ} → A → Action A
pure a s = (done a, s)

abbrev pub raise {ℓ} : {A : Type ℓ} → Action A
raise s = (failed, s)

-- `if b: raise`
abbrev pub fail_if : Bool → Action (Unit {0})
fail_if b s = (if b then failed else done tt, s)

abbrev pub or_fail {ℓ} : {A : Type ℓ} → Option A → Action A
or_fail none s = (failed, s)
or_fail (some a) s = (done a, s)

-- a test of the host that raises where it does not hold
abbrev pub demand : (List Event → Bool) → Action (Unit {0})
demand test s = (if test s.trace then done tt else failed, s)

-- `ensure_running`
unfoldable pub ensure_running : Action (Unit {0})
ensure_running s = (if s.stopping then cancelled else done tt, s)

module _ (H : Host) where
  -- something is done, and a signal may have arrived meanwhile
  abbrev pub after_event : Event → Machine → Machine
  after_event e s = record s {
    trace = e ∷ s.trace;
    stopping = s.stopping || H.signalled (e ∷ s.trace);
  }

  unfoldable pub perform : Event → Action Reply
  perform e s = (done (H.reply s.trace e), after_event e s)

  -- `call`
  unfoldable pub call : Event → (allowed_failure allow_stopping : Bool) → Action Reply
  call e allowed_failure allow_stopping = do
    if allow_stopping then pure tt else ensure_running
    r ← perform e
    fail_if (r.timed_out || not r.success && not allowed_failure)
    if allow_stopping then pure tt else ensure_running
    pure r

  abbrev pub checked_call : Event → Action Reply
  checked_call e = call e false false

  -- `time.sleep`
  abbrev pub sleep : Action (Unit {0})
  sleep s = (done tt, after_event pause s)

  -- a round of `wait` that was not ready
  unfoldable pub wait_on : String → Bool → Action (Unit {0}) → Action (Unit {0})
  wait_on label true later s = (done tt, s)
  wait_on label false later s = (if H.late label s.trace then raise s else (sleep >> later) s)

  -- The loop of `wait`, for a number of rounds.
  unfoldable pub wait : ℕ → String → Action Bool → Action (Unit {0})
  wait zero label check s = (unfinished, s)
  wait (suc rounds) label check s =
      let later = wait rounds label check in
      (do ensure_running; ready ← check; ensure_running; wait_on label ready later) s

-- `finally`: what the cleanup raises replaces the outcome
abbrev pub settled_with {ℓ} :
    {A : Type ℓ} → Outcome A → Outcome (Unit {0}) × Machine → Outcome A × Machine
settled_with r (done _, s) = (r, s)
settled_with r (cancelled, s) = (cancelled, s)
settled_with r (unfinished, s) = (unfinished, s)
settled_with r (failed, s) = (failed, s)

abbrev pub finally {ℓ} :
    {A : Type ℓ} → Action (Unit {0}) → Outcome A × Machine → Outcome A × Machine
finally cleanup (done a, s) = settled_with (done a) (cleanup s)
finally cleanup (cancelled, s) = settled_with cancelled (cleanup s)
finally cleanup (unfinished, s) = (unfinished, s)
finally cleanup (failed, s) = settled_with failed (cleanup s)

abbrev pub always {ℓ} : {A : Type ℓ} → Action A → Action (Unit {0}) → Action A
always m cleanup s = finally cleanup (m s)
