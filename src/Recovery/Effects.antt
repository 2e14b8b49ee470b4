-- ===== src/Recovery/Effects.antt =====
-- What `apply_access` leaves behind: what each exception says of the tables, and which rows change.
use azd_santa.Base.{ℕ, true, false, not, Option, none, some, List, ◌≡◌, refl, ◌⊎◌, inl, inr}
use azd_santa.Base.{if_cases, string_eq}
use azd_santa.Recovery.Accounts.{
  Account, Tables, Demand, Artifact, Output, Commit, blank, whole, committed, rolled_back, unknown,
  Surroundings,
}
use azd_santa.Recovery.Access.{
  Failure, refused, unreserved, unconfirmed, not_written, not_posted, Outcome, applied, raised,
  After, left, Target, no_target, target, Attempt, attempt_failed, prepared, is_admitted, choose,
  with_password, reset, artifact_of, sealed_for, prepare_output, reset_target, transact, publish,
  conclude, apply_access,
}

module _ (E : Surroundings) (d : Demand) (t : Tables) where
  -- the tables after a reset of the account that the demand names
  abbrev pub IsReset : ℕ → Tables → Type 0
  IsReset pk u =
      (a : Account) × (accounts : List Account) × (choose E d.mode d t.accounts ≡ target a accounts)
      × (pk ≡ a.pk)
      × (u ≡ reset E a accounts t)

  -- what an outcome says of what is left
  unfoldable pub IsTruthful : Outcome → After → Type 0
  IsTruthful (applied artifact) r =
      IsReset artifact.pk r.tables × ((o : Output) × (r.written ≡ whole o)) × (r.posted ≡ true)
  IsTruthful (raised refused) r = (r.tables ≡ t) × (r.written ≡ blank) × (r.posted ≡ false)
  IsTruthful (raised unreserved) r = (r.tables ≡ t) × (r.written ≡ blank) × (r.posted ≡ false)
  IsTruthful (raised unconfirmed) r =
      ((r.tables ≡ t) ⊎ (E.commit ≡ unknown)) × (r.written ≡ blank) × (r.posted ≡ false)
  IsTruthful (raised not_written) r = ((pk : ℕ) × IsReset pk r.tables) × (r.posted ≡ false)
  IsTruthful (raised not_posted) r =
      ((pk : ℕ) × IsReset pk r.tables) × ((o : Output) × (r.written ≡ whole o))

  -- the attempts that the transaction makes
  abbrev IsSound : Attempt → Type 0
  IsSound (attempt_failed failure) = (failure ≡ refused) ⊎ (failure ≡ unconfirmed)
  IsSound (prepared artifact output u) = IsReset artifact.pk u

  prepare_output-IsSound :
      (artifact : Artifact) (u : Tables) (o : Option Output)
      → IsReset artifact.pk u
      → IsSound (prepare_output E artifact u o)
  prepare_output-IsSound artifact u none h = inr refl
  prepare_output-IsSound artifact u (some o) h = h

  reset_target-IsSound :
      (x : Target) → choose E d.mode d t.accounts ≡ x → IsSound (reset_target E d t x)
  unfolding reset_target
  reset_target-IsSound no_target h = inl refl
  reset_target-IsSound (target a accounts) h =
      if_cases IsSound (not (E.is_https_origin (E.setup_url (with_password E a)))) (λ _. inl refl)
        λ _.
          prepare_output-IsSound (artifact_of E d a t) (reset E a accounts t)
            (sealed_for E d.recipient_public_key (artifact_of E d a t)) (a, accounts, h, refl, refl)

  transact-IsSound : IsSound (transact E d t)
  unfolding transact
  transact-IsSound =
      if_cases IsSound E.statements_hold
        (λ _. reset_target-IsSound (choose E d.mode d t.accounts) refl) (λ _. inr refl)

  left-IsTruthful :
      (failure : Failure)
      → (failure ≡ refused) ⊎ (failure ≡ unconfirmed)
      → IsTruthful (raised failure) (left E failure t)
  unfolding IsTruthful
  left-IsTruthful refused h = (refl, refl, refl)
  left-IsTruthful unconfirmed h = (inl refl, refl, refl)
  left-IsTruthful unreserved (inl h) = cc
  left-IsTruthful unreserved (inr h) = cc
  left-IsTruthful not_written (inl h) = cc
  left-IsTruthful not_written (inr h) = cc
  left-IsTruthful not_posted (inl h) = cc
  left-IsTruthful not_posted (inr h) = cc

  publish-IsTruthful :
      (artifact : Artifact) (output : Output) (u : Tables)
      → IsReset artifact.pk u
      → IsTruthful (publish E artifact output u).outcome (publish E artifact output u)
  unfolding publish IsTruthful
  publish-IsTruthful artifact output u h =
      if_cases (λ (r : After). IsTruthful r.outcome r) (not E.writes_artifact)
        (λ _. ((artifact.pk, h), refl))
        λ _.
          if_cases (λ (r : After). IsTruthful r.outcome r) (not E.posts_event)
            (λ _. ((artifact.pk, h), (output, refl))) (λ _. (h, (output, refl), refl))

  conclude-IsTruthful :
      (x : Attempt) (commit : Commit)
      → IsSound x
      → E.commit ≡ commit
      → IsTruthful (conclude E t x commit).outcome (conclude E t x commit)
  unfolding conclude IsTruthful
  conclude-IsTruthful (attempt_failed failure) commit h c = left-IsTruthful failure h
  conclude-IsTruthful (prepared artifact output u) committed h c =
      publish-IsTruthful artifact output u h
  conclude-IsTruthful (prepared artifact output u) rolled_back h c = (inl refl, refl, refl)
  conclude-IsTruthful (prepared artifact output u) unknown h c = (inr c, refl, refl)

  pub outcome-IsTruthful : IsTruthful (apply_access E d t).outcome (apply_access E d t)
  unfolding apply_access IsTruthful
  outcome-IsTruthful =
      if_cases (λ (r : After). IsTruthful r.outcome r) (not (is_admitted E d))
        (λ _. (refl, refl, refl))
        λ _.
          if_cases (λ (r : After). IsTruthful r.outcome r) (not E.reserves_output)
            (λ _. (refl, refl, refl))
            (λ _. conclude-IsTruthful (transact E d t) E.commit transact-IsSound refl)
