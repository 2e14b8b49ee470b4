-- ===== src/Runtime/Told.antt =====
-- What the replies of Docker to `Runtime.call` are: those of the host to the call.
use azd_santa.Base.{Bool, true, false, not, ◌&&◌, ◌||◌, Option, none, some, List, ◌≡◌, refl}
use azd_santa.Base.{if◌then◌else◌}
use azd_santa.Runtime.Docker.{Host, Event, Reply}
use azd_santa.Runtime.Machine.{call, perform, ensure_running, fail_if, pure, or_fail}
use azd_santa.Runtime.Keeping.{
  Assertion, Triple, Stable, bind, fail_if-Keeps, is_harmless, unless-Keeps,
}

module _ (H : Host) where
  -- a reply that the host gave to the event
  abbrev pub IsTold : Event → Reply → Type 0
  IsTold e r = (t : List Event) × (r ≡ H.reply t e)

  module _ (K : Assertion) (stable : Stable H K) where
    abbrev pub Told : Event → Reply → Assertion
    Told e r t b c d = K t b c d × IsTold e r

    perform-Told : (e : Event) → is_harmless e ≡ true → Triple K (perform H e) (Told e) K
    unfolding perform
    perform-Told e quiet s h =
        (stable e s.trace s.stopping s.cleanup_ids s.helpers quiet h, (s.trace, refl))

    pub call-Told :
        (e : Event) (f a : Bool) → is_harmless e ≡ true → Triple K (call H e f a) (Told e) K
    unfolding call
    call-Told e f a quiet =
        bind K (λ _. K) (Told e) K (if a then pure tt else ensure_running) _ (unless-Keeps K a)
          λ _. bind K (Told e) (Told e) K (perform H e) _ (perform-Told e quiet) λ r s (h, told).
            bind K (λ _. K) (Told e) K (fail_if (r.timed_out || not r.success && not f)) _
              (fail_if-Keeps K _)
              (λ _.
                bind K (λ _. K) (Told e) K (if a then pure tt else ensure_running) _
                  (unless-Keeps K a) λ _ u k. (k, told))
              s h

    -- a value that is read, with where it comes from
    pub read-Told :
        {A : Type 0} (o : Option A) → Triple K (or_fail o) (λ x t b c d. K t b c d × (o ≡ some x)) K
    read-Told none s h = h
    read-Told (some x) s h = (h, refl)

    -- a test that was passed
    pub tested-Told :
        (b : Bool) → Triple K (fail_if (not b)) (λ _ t b' c d. K t b' c d × (b ≡ true)) K
    tested-Told true s h = (h, refl)
    tested-Told false s h = h
