-- ===== src/Recovery/Containment.antt =====
-- Which rows `apply_access` changes when it returns.
use azd_santa.Base.{
  ℕ, String, true, false, ◌&&◌, ◌||◌, Option, none, some, List, [], ◌∷◌, ◌++◌, ◌≡◌, refl, ◌∙◌,
  subst, arith,
}
use azd_santa.Base.{◌==◌, ◌=?◌, any, if_cases, string_eq}
use azd_santa.Recovery.Accounts.{
  Account, Tables, Mode, bootstrap, recover, Demand, Artifact, Surroundings, find_account,
  account_of, rows_of_owner, delete_rows, save_account,
}
use azd_santa.Recovery.Access.{
  applied, Target, no_target, target, choose, created, recovered, is_recoverable, is_human,
  with_password, reset, apply_access,
}
use azd_santa.Recovery.Effects.{IsReset, IsTruthful, outcome-IsTruthful}

rows_of_owner-delete_rows_same :
    (pk : ℕ) (rows : List (ℕ × String)) → rows_of_owner pk (delete_rows pk rows) ≡ []
unfolding rows_of_owner delete_rows
rows_of_owner-delete_rows_same pk [] = refl
rows_of_owner-delete_rows_same pk (_ ∷ rows) =
    ground (arith, rows_of_owner-delete_rows_same pk rows)

rows_of_owner-delete_rows_other :
    (j pk : ℕ) (rows : List (ℕ × String))
    → (j =? pk) ≡ false
    → rows_of_owner j (delete_rows pk rows) ≡ rows_of_owner j rows
unfolding rows_of_owner delete_rows
rows_of_owner-delete_rows_other j pk [] h = refl
rows_of_owner-delete_rows_other j pk (_ ∷ rows) h =
    ground (arith, rows_of_owner-delete_rows_other j pk rows h)

account_of-save_account_other :
    (j : ℕ) (a : Account) (accounts : List Account)
    → (j =? a.pk) ≡ false
    → account_of j (save_account a accounts) ≡ account_of j accounts
unfolding account_of save_account
account_of-save_account_other j a [] h = refl
account_of-save_account_other j a (b ∷ accounts) h =
    ground (arith, account_of-save_account_other j a accounts h)

account_of-save_account_same :
    (a : Account) (accounts : List Account)
    → any (λ b. b.pk =? a.pk) accounts ≡ true
    → account_of a.pk (save_account a accounts) ≡ some a
unfolding account_of save_account
account_of-save_account_same a [] h = cc
account_of-save_account_same a (b ∷ accounts) h =
    ground (arith, account_of-save_account_same a accounts)

some-injective : {A : Type 0} {a b : A} → some a ≡ some b → a ≡ b
some-injective h = cc

find_account-any :
    (name : String) (accounts : List Account) {a : Account}
    → find_account name accounts ≡ some a
    → any (λ b. b.pk =? a.pk) accounts ≡ true
unfolding find_account
find_account-any name [] h = cc
find_account-any name (b ∷ accounts) {a} h =
    if_cases (λ (o : Option Account). o ≡ some a → any (λ b. b.pk =? a.pk) (b ∷ accounts) ≡ true)
      (b.username == name)
      (λ _ (same : some b ≡ some a).
        subst (λ c. any (λ x. x.pk =? c.pk) (b ∷ accounts) ≡ true) (some-injective same)
          (ground arith))
      (λ _ more. ground (arith, find_account-any name accounts more)) h

any-append :
    (a : Account) (accounts : List Account) → any (λ b. b.pk =? a.pk) (accounts ++ a ∷ []) ≡ true
any-append a [] = ground arith
any-append a (b ∷ accounts) = ground (arith, any-append a accounts)

account_of-append :
    (j : ℕ) (a : Account) (accounts : List Account)
    → (j =? a.pk) ≡ false
    → account_of j (accounts ++ a ∷ []) ≡ account_of j accounts
unfolding account_of
account_of-append j a [] h = ground arith
account_of-append j a (b ∷ accounts) h = ground (arith, account_of-append j a accounts h)

module _ (E : Surroundings) (d : Demand) (t : Tables) where
  -- the chosen account is there, and the others are as they were
  abbrev IsChoice : Target → Type 0
  IsChoice no_target = Unit
  IsChoice (target a accounts) =
      (any (λ b. b.pk =? a.pk) accounts ≡ true)
      × ((j : ℕ) → (j =? a.pk) ≡ false → account_of j accounts ≡ account_of j t.accounts)

  recovered-IsChoice :
      (o : Option Account)
      → find_account d.username t.accounts ≡ o
      → IsChoice (recovered E d t.accounts o)
  recovered-IsChoice none h = tt
  recovered-IsChoice (some a) h =
      if_cases IsChoice (a.email == d.email && is_recoverable E a)
        (λ _. (find_account-any d.username t.accounts h, λ j other. refl)) (λ _. tt)

  choose-IsChoice : (mode : Mode) → IsChoice (choose E mode d t.accounts)
  unfolding choose
  choose-IsChoice bootstrap =
      if_cases IsChoice
        (any (is_human E) t.accounts
          || any (λ a. E.same_folded a.username d.username || E.same_folded a.email d.email)
              t.accounts)
        (λ _. tt)
        λ _. (
          any-append (created E d t.accounts) t.accounts,
          λ j other. account_of-append j (created E d t.accounts) t.accounts other,
        )
  choose-IsChoice recover = recovered-IsChoice (find_account d.username t.accounts) refl

  -- the rows of a key in the four tables
  abbrev pub rows_at : ℕ → Tables → List (List String)
  rows_at pk u =
      rows_of_owner pk u.totp
      ∷ rows_of_owner pk u.webauthn
      ∷ rows_of_owner pk u.tokens
      ∷ rows_of_owner pk u.issuers
      ∷ []

  none_left : (pk : ℕ) (u : Tables) → IsReset E d t pk u → rows_at pk u ≡ [] ∷ [] ∷ [] ∷ [] ∷ []
  unfolding reset
  none_left pk u (a, accounts, chosen, same, tables) =
      rw
        (
          tables,
          same,
          rows_of_owner-delete_rows_same a.pk t.totp,
          rows_of_owner-delete_rows_same a.pk t.webauthn,
          rows_of_owner-delete_rows_same a.pk t.tokens,
          rows_of_owner-delete_rows_same a.pk t.issuers,
        )
        refl

  others_same :
      (pk : ℕ) (u : Tables)
      → IsReset E d t pk u
      → (j : ℕ) → (j =? pk) ≡ false
      → (account_of j u.accounts ≡ account_of j t.accounts) × (rows_at j u ≡ rows_at j t)
  unfolding reset
  others_same pk u (a, accounts, chosen, same, tables) j other =
      let differ : (j =? a.pk) ≡ false = subst (λ n. (j =? n) ≡ false) same other in
      let choice : IsChoice (target a accounts) = subst IsChoice chosen (choose-IsChoice d.mode) in
      (
        rw tables (
            account_of-save_account_other j (with_password E a) accounts differ
            ∙ choice.1 j differ),
        rw
            (
              tables,
              rows_of_owner-delete_rows_other j a.pk t.totp differ,
              rows_of_owner-delete_rows_other j a.pk t.webauthn differ,
              rows_of_owner-delete_rows_other j a.pk t.tokens differ,
              rows_of_owner-delete_rows_other j a.pk t.issuers differ,
            )
            refl,
      )

  new_password :
      (pk : ℕ) (u : Tables)
      → IsReset E d t pk u
      → (b : Account) × (account_of pk u.accounts ≡ some b) × (b.password ≡ E.drawn_password)
  unfolding reset
  new_password pk u (a, accounts, chosen, same, tables) =
      let choice : IsChoice (target a accounts) = subst IsChoice chosen (choose-IsChoice d.mode) in
      (
        with_password E a,
        rw (tables, same) (account_of-save_account_same (with_password E a) accounts choice.0),
        refl,
      )

  -- When `apply_access` returns, the account of its artifact has the drawn password, and no TOTP device, WebAuthn device, API token or OIDC issuer is left of it; every other
  -- account is as it was, with all its rows.
  pub access_contained :
      (artifact : Artifact)
      → (apply_access E d t).outcome ≡ applied artifact
      → (j : ℕ) → (j =? artifact.pk) ≡ false
      → (rows_at artifact.pk (apply_access E d t).tables ≡ [] ∷ [] ∷ [] ∷ [] ∷ [])
        × ((b : Account) × (account_of artifact.pk (apply_access E d t).tables.accounts ≡ some b)
            × (b.password ≡ E.drawn_password))
        × (account_of j (apply_access E d t).tables.accounts ≡ account_of j t.accounts)
        × (rows_at j (apply_access E d t).tables ≡ rows_at j t)
  unfolding IsTruthful
  access_contained artifact h j other =
      let r = apply_access E d t in
      let (done, kept, posted) = subst (λ o. IsTruthful E d t o r) h (outcome-IsTruthful E d t) in
      let (account, rows) = others_same artifact.pk r.tables done j other in
      (none_left artifact.pk r.tables done, new_password artifact.pk r.tables done, account, rows)
