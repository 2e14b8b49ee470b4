-- ===== src/Operator/Protection.antt =====
-- What a signed-in request needs to reach a view.
use azd_santa.Base.{ℕ, false, not, ◌&&◌, ◌≡◌, refl, subst, sym, some, arith}
use azd_santa.Base.{string_eq, if_cases}
use azd_santa.Base.Int.{int_eq}
use azd_santa.Json.{get_field}
use azd_santa.Admission.Redis.{Redis}
use azd_santa.Admission.Scripts.{Site}
use azd_santa.Operator.Framework.{Framework}
use azd_santa.Operator.Accounts.{
  User, find_user, is_local_in, enroll_key, enroll_seconds, factors_of, is_fresh, has_proof,
  is_nonempty,
}
use azd_santa.Operator.Claims.{store_answers}
use azd_santa.Operator.Factor.{World}
use azd_santa.Operator.Middleware.{
  Request, Response, Cleared, Gate, stop, free, cleared, setup_view, is_view, changes_factors,
  is_realm_view, needs_store, clearance, signed_in, enter, gate, pass_on, respond,
}

module _ (F : Framework) (R : Redis) (site : Site) where
  -- the gate lets no view run
  unfoldable IsShut : Gate R.Store → Type 0
  IsShut (stop response w) = Unit
  IsShut (free w) = ⊥
  IsShut (cleared c w) = ⊥

  clearance-IsShut :
      (r : Request) (c : Cleared) (w : World R.Store)
      → c.verified ≡ false
      → (c.enrolling && is_view setup_view r.name) ≡ false
      → IsShut (clearance F R site r c w)
  unfolding IsShut clearance
  clearance-IsShut r c w unverified outside =
      if_cases IsShut (not c.verified && not c.enrolling) (λ _. tt)
        λ a.
          if_cases IsShut (not c.verified && not (is_view setup_view r.name)) (λ _. tt)
            λ b. absurd (ground arith)

  pass_on-IsShut :
      (view other : World R.Store → Response × World R.Store) (r : Request) (g : Gate R.Store)
      → IsShut g
      → pass_on F R site view r g ≡ pass_on F R site other r g
  unfolding IsShut pass_on
  pass_on-IsShut view other r (stop response w) h = refl
  pass_on-IsShut view other r (free w) h = absurd h
  pass_on-IsShut view other r (cleared c w) h = absurd h

  module _ (r : Request) (now : ℕ) (u : User) (w : World R.Store)
      (inside : is_view "logout" r.name ≡ false) (known : find_user u.pk w.accounts.users ≡ some u)
      (unverified : has_proof F w.session u (factors_of F u.pk w.accounts) now ≡ false)
      (outside : (not (is_nonempty (factors_of F u.pk w.accounts))
          && is_fresh F (get_field enroll_key w.session) u now enroll_seconds
          && is_view setup_view r.name)
        ≡ false) where
    signed_in-IsShut : IsShut (signed_in F R site r now u w)
    unfolding IsShut signed_in
    signed_in-IsShut =
        if_cases IsShut (not (is_local_in u w.session)) (λ _. tt)
          λ _.
            if_cases IsShut (is_view "logout" r.name) (λ leaving. cc)
              λ _.
                if_cases IsShut (changes_factors r)
                  (λ _. rw known (clearance-IsShut r _ _ unverified (ground arith)))
                  (λ _. clearance-IsShut r _ w unverified (ground arith))

    gate-IsShut : w.user ≡ some u → IsShut (gate F R site r now w)
    unfolding IsShut gate enter
    gate-IsShut signed =
        if_cases IsShut (needs_store F R site r w && not (store_answers R site w.store)) (λ _. tt)
          λ _.
            if_cases IsShut (is_realm_view F R site r.name) (λ _. tt)
              λ _. subst (λ o. IsShut (enter F R site r now w o)) (sym signed) signed_in-IsShut

    -- A signed-in request whose session holds no proof that is fresh and bound to the present
    -- methods of its account reaches no view, so the response and the state are the same whatever
    -- the view would do. The two exceptions are the sign-out and, in a fresh enrolment of an
    -- account with no method yet, the setup of the first one.
    pub view_protected :
        (view other : World R.Store → Response × World R.Store)
        → w.user ≡ some u
        → respond F R site view r now w ≡ respond F R site other r now w
    unfolding respond
    view_protected view other signed = pass_on-IsShut view other r _ (gate-IsShut signed)
