-- ===== src/Durable/Reports.antt =====
-- What `report_fixture` does to the database, and what it does not.
use azd_santa.Base.{
  String, Bool, true, false, not, ◌||◌, ◌≡◌, ◌⊎◌, inl, inr, refl, sym, subst, ap, ◌∙◌, Option, none,
  some, arith,
}
use azd_santa.Base.{if_cases, ◌==◌, string_eq, eq_self}
use azd_santa.Base.Int.{ℤ, int_eq, pos, ltb_ℤ, ◌≤ℤ◌}
use native.Mathlib.Decide.{ℕ_discrete}
use azd_santa.Raise.{
  Exc, Result, ok, err, Result-cases, value_error, ◌>>=◌, ◌>>◌, raise_if, or_raise,
}
use azd_santa.Durable.Database.{Database, DatabaseLaws, revoked_of, reported_of}
use azd_santa.Durable.Store.{
  device_id, revoke_body, revoke_fixture, transaction, device_state, report_body, report_fixture,
}

pub >>=-eq-ok {ℓ κ} :
    {A : Type ℓ} {B : Type κ} (r : Result A) (f : A → Result B) {b : B}
    → (r >>= f) ≡ ok b
    → (a : A) × (r ≡ ok a) × (f a ≡ ok b)
>>=-eq-ok (err e) f h = cc
>>=-eq-ok (ok a) f h = (a, refl, h)

pub raise_if-ok {κ} :
    {B : Type κ} (c : Bool) (e : Exc) (rest : Result B) {b : B}
    → (raise_if c e >> rest) ≡ ok b
    → (c ≡ false) × (rest ≡ ok b)
raise_if-ok true e rest h = cc
raise_if-ok false e rest h = (refl, h)

or_raise-ok {ℓ} : {A : Type ℓ} (o : Option A) (e : Exc) {a : A} → or_raise o e ≡ ok a → o ≡ some a
or_raise-ok none e h = cc
or_raise-ok (some a) e h = cc

pub ok-injective {ℓ} : {A : Type ℓ} {a b : A} → ok a ≡ ok b → a ≡ b
ok-injective h = cc

or_left : (a b : Bool) → (a || b) ≡ false → a ≡ false
or_left true b h = cc
or_left false b h = refl

within : (m n : ℤ) (b : Bool) → (b || ltb_ℤ m n) ≡ false → n ≤ℤ m
within m n b h = ground arith

device_id-same : (device id : String) → device_id device ≡ ok id → id ≡ device
unfolding device_id
device_id-same device id h =
    if_cases (λ r. r ≡ ok id → id ≡ device) (device == "device-a" || device == "device-b")
      (λ _ k. sym (ok-injective k)) (λ _ k. cc) h

row_values :
    (o : Option (ℤ × ℤ)) (revoked : Bool) (n : ℤ)
    → ok (elim o as (λ _. Bool × ℤ) [ none ↦ (false, pos 0) | some (r, m) ↦ (not (r == pos 0), m) ])
      ≡ ok (revoked, n)
    → (reported_of o ≡ n) × (not (revoked_of o == pos 0) ≡ revoked)
row_values none revoked n h =
    (ap (λ p. p.1) (ok-injective h), ap not (eq_self (pos 0)) ∙ ap (λ p. p.0) (ok-injective h))
row_values (some row) revoked n h = (ap (λ p. p.1) (ok-injective h), ap (λ p. p.0) (ok-injective h))

module _ (D : Database) where
  -- A transaction ends with the body's effect or with none.
  pub transaction_atomic {ℓ} :
      {A : Type ℓ} (body : D.Db → Result (A × D.Db)) (d : D.Db)
      → ((a : A) × (t : D.Db) × (body d ≡ ok (a, t)) × (transaction D body d ≡ (ok a, t)))
        ⊎ ((e : Exc) × (transaction D body d ≡ (err e, d)))
  unfolding transaction
  transaction_atomic body d = elim (Result-cases (D.begin d)) [
    | inr (e, failed) ↦ inr (e, rw (failed, transaction) refl)
    | inl (u, begun) ↦ elim (Result-cases (body d)) [
      | inr (e, failed) ↦ inr (e, rw (begun, failed, transaction) refl)
      | inl ((a, t), made) ↦ elim (Result-cases (D.commit t)) [
        | inr (e, failed) ↦ inr (e, rw (begun, made, failed, transaction) refl)
        | inl (v, done) ↦ inl (a, t, made, rw (begun, made, done, transaction) refl)
      ]
    ]
  ]

  pub device_state-row :
      (device : String) (d : D.Db) (revoked : Bool) (n : ℤ)
      → device_state D device d ≡ ok (revoked, n)
      → (device_id device ≡ ok device)
        × ((o : Option (ℤ × ℤ)) × (D.device_row device d ≡ ok o)
            × (reported_of o ≡ n)
            × (not (revoked_of o == pos 0) ≡ revoked))
  unfolding device_state
  device_state-row device d revoked n h =
      let (id, named, h₁) = >>=-eq-ok (device_id device) _ h in
      let (o, found, h₂) = >>=-eq-ok (D.device_row id d) _ h₁ in
      let is : id ≡ device = device_id-same device id named in
      let (reported, flag) = row_values o revoked n h₂ in
      (
        subst (λ x. device_id device ≡ ok x) is named,
        (o, subst (λ x. D.device_row x d ≡ ok o) is found, reported, flag),
      )

  -- A report that succeeds is of a published revision, from a device that is not revoked and has
  -- reported no later one, and is written down. One that fails changes nothing.
  pub report_fixture_effect :
      (device : String) (revision : ℤ) (d : D.Db)
      → ((t : D.Db) × (n : ℤ) × (report_fixture D device revision d ≡ (ok tt, t))
          × (device_state D device d ≡ ok (false, n))
          × (n ≤ℤ revision)
          × (D.find_revision revision d ≡ ok (some tt))
          × (D.set_reported device revision d ≡ ok t))
        ⊎ ((e : Exc) × (report_fixture D device revision d ≡ (err e, d)))
  unfolding report_fixture report_body
  report_fixture_effect device revision d =
      if_cases Effect (ltb_ℤ revision (pos 1)) (λ _. inr (value_error, refl))
        λ positive. elim (transaction_atomic (report_body D device revision) d) [
          | inr (e, failed) ↦ inr (e, failed)
          | inl (u, t, made, done) ↦
              let ((revoked, n), read, h₁) = >>=-eq-ok (device_state D device d) _ made in
              let (allowed, h₂) = raise_if-ok (revoked || ltb_ℤ revision n) _ _ h₁ in
              let (known, found, h₃) = >>=-eq-ok (D.find_revision revision d) _ h₂ in
              let (v, is, h₄) = >>=-eq-ok (or_raise known value_error) _ h₃ in
              let (x, set, h₅) = >>=-eq-ok (D.set_reported device revision d) _ h₄ in
              inl (
                t,
                n,
                done,
                read ∙ ap (λ b. ok (b, n)) (or_left revoked _ allowed),
                within revision n revoked allowed,
                found ∙ ap ok (or_raise-ok known value_error is),
                set ∙ ap ok (ap (λ p. p.1) (ok-injective h₅)),
              )
        ]
    where
      Effect : Result (Unit {0}) × D.Db → Type 0
      Effect o =
          ((t : D.Db) × (n : ℤ) × (o ≡ (ok tt, t))
            × (device_state D device d ≡ ok (false, n))
            × (n ≤ℤ revision)
            × (D.find_revision revision d ≡ ok (some tt))
            × (D.set_reported device revision d ≡ ok t))
          ⊎ ((e : Exc) × (o ≡ (err e, d)))

  revoked_state :
      (device : String) (t : D.Db) (n : ℤ)
      → device_id device ≡ ok device
      → D.device_row device t ≡ ok (some (pos 1, n))
      → device_state D device t ≡ ok (true, n)
  unfolding device_state int_eq ℕ_discrete
  revoked_state device t n named row = rw (named, row) refl

  -- A revocation that succeeds is in the row of its device.
  pub revoke_fixture_row :
      (laws : DatabaseLaws D) (device : String) (d : D.Db) (o : Option (ℤ × ℤ))
      → D.device_row device d ≡ ok o
      → ((t : D.Db) × (revoke_fixture D device d ≡ (ok tt, t))
          × (device_state D device t ≡ ok (true, reported_of o)))
        ⊎ ((e : Exc) × (revoke_fixture D device d ≡ (err e, d)))
  unfolding revoke_fixture revoke_body
  revoke_fixture_row laws device d o row = elim (transaction_atomic (revoke_body D device) d) [
    | inr (e, failed) ↦ inr (e, failed)
    | inl (u, t, made, done) ↦
        let (id, named, h₁) = >>=-eq-ok (device_id device) _ made in
        let is : id ≡ device = device_id-same device id named in
        let (x, set, h₂) = >>=-eq-ok (D.set_revoked id d) _ h₁ in
        let there : x ≡ t = ap (λ p. p.1) (ok-injective h₂) in
        let own : D.set_revoked device d ≡ ok t =
          subst (λ y. D.set_revoked y d ≡ ok t) is (set ∙ ap ok there) in
        inl (
          t,
          done,
          revoked_state device t (reported_of o) (subst (λ y. device_id device ≡ ok y) is named)
              (laws.row-set_revoked device d t o row own),
        )
  ]
