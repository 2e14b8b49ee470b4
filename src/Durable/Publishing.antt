-- ===== src/Durable/Publishing.antt =====
-- What `publish_fixture` does to the database.
use azd_santa.Base.{
  ℕ, suc, ◌≤◌, sym, Bool, true, false, not, ◌||◌, ◌≡◌, ◌⊎◌, inl, inr, refl, subst, ap, ◌∙◌, arith,
}
use azd_santa.Base.{leb, ltb, length, ◌=?◌}
use azd_santa.Base.Int.{ℤ, ltb_ℤ}
use azd_santa.Platform.{Platform, Bytes}
use azd_santa.Raise.{Exc, ok, err, Result-cases, value_error}
use azd_santa.Sync.Snapshot.{Snapshot, canonical, fixture, max_bytes}
use azd_santa.Durable.Database.{Database, Row}
use azd_santa.Durable.Store.{
  publish_body, checked_row, publish_fixture, history, load_rules, is_label, payload_value,
}
use azd_santa.Durable.Reports.{>>=-eq-ok, raise_if-ok, ok-injective, transaction_atomic}

not-false : (b : Bool) → not b ≡ false → b ≡ true
not-false true h = refl
not-false false h = cc

module _ (D : Database) (P : Platform) (s : Snapshot) where
  -- the row is of the snapshot's revision, and its digest is that of its payload
  checked_row-row :
      (row : Row)
      → checked_row D P s ≡ ok row
      → (payload : Bytes) × (row ≡ (s.revision, payload, P.sha256 payload))
        × (length payload ≤ max_bytes)
  unfolding checked_row
  checked_row-row row h =
      let (rules, h₁, k₁) = >>=-eq-ok (load_rules D P s.rules) _ h in
      let (made, h₂, k₂) = >>=-eq-ok (fixture P _ rules s.approval) _ k₁ in
      let (label, k₃) =
        raise_if-ok (length rules =? 0 || not (is_label s.approval)) value_error _ k₂ in
      let (payload, h₄, k₄) = >>=-eq-ok (canonical P (payload_value D P s rules)) _ k₃ in
      let (small, k₅) = raise_if-ok (ltb max_bytes (length payload)) value_error _ k₄ in
      (payload, sym (ok-injective k₅), ground arith)

  -- A snapshot that is published has a revision above every earlier one, a payload within the
  -- limit and the digest of it, among at most 100 rows. A publication that fails changes nothing.
  pub publish_fixture_effect :
      (d : D.Db)
      → ((t : D.Db) × (m : ℤ) × (n : ℕ) × (payload : Bytes) × (publish_fixture D P s d ≡ (ok tt, t))
          × (D.max_revision d ≡ ok m)
          × (ltb_ℤ m s.revision ≡ true)
          × (D.count d ≡ ok n)
          × (suc n ≤ history)
          × (length payload ≤ max_bytes)
          × (D.insert_snapshot (s.revision, payload, P.sha256 payload) d ≡ ok t))
        ⊎ ((e : Exc) × (publish_fixture D P s d ≡ (err e, d)))
  unfolding publish_fixture publish_body
  publish_fixture_effect d = elim (Result-cases (checked_row D P s)) [
    | inr (e, bad) ↦ inr (e, rw (bad, publish_fixture) refl)
    | inl (row, checked) ↦ elim (transaction_atomic D (publish_body D row) d) [
      | inr (e, failed) ↦ inr (e, rw (checked, publish_fixture) failed)
      | inl (u, t, made, done) ↦
          let (payload, is, small) = checked_row-row row checked in
          let (m, h₁, k₁) = >>=-eq-ok (D.max_revision d) _ made in
          let (above, k₂) = raise_if-ok (not (ltb_ℤ m row.0)) value_error _ k₁ in
          let (n, h₃, k₃) = >>=-eq-ok (D.count d) _ k₂ in
          let (few, k₄) = raise_if-ok (leb history n) value_error _ k₃ in
          let (x, set, k₅) = >>=-eq-ok (D.insert_snapshot row d) _ k₄ in
          inl (
            t,
            m,
            n,
            payload,
            rw (checked, publish_fixture) done,
            h₁,
            subst (λ r. ltb_ℤ m r.0 ≡ true) is (not-false _ above),
            h₃,
            ground arith,
            small,
            subst (λ r. D.insert_snapshot r d ≡ ok t) is
                (set ∙ ap ok (ap (λ p. p.1) (ok-injective k₅))),
          )
    ]
  ]
