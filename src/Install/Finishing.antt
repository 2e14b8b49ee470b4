-- ===== src/Install/Finishing.antt =====
-- What a run of `record_terminal` that has returned saw and wrote.
use azd_santa.Base.{eq_sound}
use azd_santa.Base.{
  String, Bool, true, false, ◌&&◌, Option, none, some, ◌≡◌, refl, sym, ap, ◌∙◌, arith,
}
use azd_santa.Base.{◌==◌, string_eq, bytes_eq, if_cases, if◌then◌else◌}
use azd_santa.Base.Faulty.{and_then, ◌>>=◌, need, or_fail}
use azd_santa.Json.{Value, Fields, get_field}
use azd_santa.Platform.{Bytes}
use azd_santa.Setup.Agreement.{some-injective}
use azd_santa.Sync.Snapshot.{is_text}
use azd_santa.Install.Tools.{Tools, as_fields, object_of}
use azd_santa.Install.Machine.{
  Store, Host, Action, tick, job_folder, file_at, is_there, put_at, exclusive,
}
use azd_santa.Install.Observing.{Exit, completion_of, record_in, is_complete, proof_fields}
use azd_santa.Install.Growth.{file_at-put_at}

module _ {B : Type 0} (s u : Store) (b : B) where
  pub ran_need :
      (c : Bool) (f : Unit {0} → Action B)
      → (need c >>= f) s ≡ (some b, u)
      → (c ≡ true) × (f tt s ≡ (some b, u))
  ran_need true f h = (refl, h)
  ran_need false f h = cc

  pub ran_take :
      {A : Type 0} (o : Option A) (f : A → Action B)
      → (or_fail o >>= f) s ≡ (some b, u)
      → (a : A) × (o ≡ some a) × (f a s ≡ (some b, u))
  ran_take none f h = cc
  ran_take (some a) f h = (a, refl, h)

  ran_demand_from :
      (c : Bool) (f : Unit {0} → Action B) (v : Store)
      → and_then f (if c then some tt else none, v) ≡ (some b, u)
      → f tt v ≡ (some b, u)
  ran_demand_from true f v h = h
  ran_demand_from false f v h = cc

  ran_read_from :
      (o : Option Bytes) (f : Bytes → Action B) (v : Store)
      → and_then f (o, v) ≡ (some b, u)
      → (raw : Bytes) × (o ≡ some raw) × (f raw v ≡ (some b, u))
  ran_read_from none f v h = cc
  ran_read_from (some raw) f v h = (raw, refl, h)

  ran_from :
      {A : Type 0} (o : Option A × Store) (f : A → Action B)
      → and_then f o ≡ (some b, u)
      → (a : A) × (v : Store) × (o ≡ (some a, v)) × (f a v ≡ (some b, u))
  ran_from (none, v) f h = cc
  ran_from (some a, v) f h = (a, v, refl, h)

same_end :
    {A B : Type 0} (a b : A) (v w : Store) (f : A → Action B) {r : Option B × Store}
    → ◌≡◌ {A = Option A × Store} (some a, v) (some b, w)
    → f b w ≡ r
    → f a v ≡ r
same_end a b v w f e h =
    let p : some a ≡ some b = ap (λ (x : Option _ × Store). x.0) e in
    let p' : a ≡ b = some-injective p in let q : v ≡ w = ap (λ (x : Option _ × Store). x.1) e in cc

exclusive-Written :
    (h : Host) (folder name : String) (raw : Bytes) (s u : Store)
    → exclusive h folder name raw s ≡ (some tt, u)
    → u ≡ put_at folder name raw s
unfolding exclusive
exclusive-Written h folder name raw s u =
    if_cases (λ (o : Option (Unit {0}) × Store). o ≡ (some tt, u) → u ≡ put_at folder name raw s)
      (is_there (file_at folder name s)) (λ _ e. cc)
      (λ _.
        if_cases
          (λ (o : Option (Unit {0}) × Store). o ≡ (some tt, u) → u ≡ put_at folder name raw s)
          (h.breaks s.clock) (λ _ e. cc)
          (λ _ e. sym (ap (λ (x : Option (Unit {0}) × Store). x.1) e)))

module _ (t : Tools) (h : Host) where
  -- what a completion rests on, in a store with the same files
  abbrev pub Completed : String → Fields → Bytes → Fields → Store → Type 0
  Completed bundle active raw value s =
      (file_at (job_folder bundle) "complete.json" s ≡ some raw)
      × (object_of t raw ≡ some value)
      × ((goal : Fields) × (as_fields (get_field "target" active) ≡ some goal)
          × (is_complete t active goal value ≡ true))

  ran_completion :
      {B : Type 0} (bundle : String) (active : Fields) (f : Bytes × Fields → Action B) (s u : Store)
      (b : B)
      → (completion_of t h bundle active >>= f) s ≡ (some b, u)
      → (raw : Bytes) × (value : Fields) × Completed bundle active raw value s
        × (f (raw, value) (tick (tick s)) ≡ (some b, u))
  unfolding completion_of
  ran_completion bundle active f s u b ran =
      let (pair, v, inner, outer) = ran_from s u b (completion_of t h bundle active s) f ran in
      let opened = ran_demand_from s v pair (h.is_secure s.clock) _ (tick s) inner in
      let (raw, there, read) =
        ran_read_from s v pair (file_at (job_folder bundle) "complete.json" s) _ (tick (tick s))
          opened in
      let (value, parsed, left) = ran_take (tick (tick s)) v pair (object_of t raw) _ read in
      let (goal, aimed, last) =
        ran_take (tick (tick s)) v pair (as_fields (get_field "target" active)) _ left in
      let (whole, same) =
        ran_need (tick (tick s)) v pair (is_complete t active goal value) _ last in
      (
        raw,
        value,
        (there, parsed, (goal, aimed, whole)),
        same_end (raw, value) pair (tick (tick s)) v f same outer,
      )

  -- what a recorded exit rests on, and the store that it leaves
  abbrev pub Recorded : Exit → String → Store → Store → Type 0
  Recorded e bundle s u =
      (raw completed : Bytes) × (active value : Fields) × (file_at (job_folder bundle)
          "context.json" s
        ≡ some raw)
      × (t.sha256 raw ≡ e.digest)
      × (object_of t raw ≡ some active)
      × (is_text bundle (get_field "bundle_sha256" active) ≡ true)
      × (s.active ≡ some raw)
      × Completed bundle active completed value s
      × (u.active ≡ s.active)
      × ((f n : String)
          → file_at f n u ≡ (
              if f == job_folder bundle
              then (if n == "terminal-success.json"
                  then some (
                      t.dumps (
                        Value.obj
                          (proof_fields t e.digest bundle (t.sha256 completed) e.invocation)))
                  else file_at (job_folder bundle) n s)
              else file_at f n s))

  ran_active :
      {B : Type 0} (s u : Store) (b : B) (o : Option Bytes) (f : Bytes → Action B)
      → s.active ≡ o
      → and_then f (o, s) ≡ (some b, u)
      → (raw : Bytes) × (s.active ≡ some raw) × (f raw s ≡ (some b, u))
  ran_active s u b none f e ran = cc
  ran_active s u b (some raw) f e ran = (raw, e, ran)

  pub record_in-Recorded :
      (e : Exit) (bundle : String) (s u : Store)
      → record_in t h e bundle s ≡ (some tt, u)
      → Recorded e bundle s u
  unfolding record_in
  record_in-Recorded e bundle s u ran =
      let s1 = tick s in
      let s2 = tick s1 in
      let s3 = tick s2 in
      let s4 = tick s3 in
      let s5 = tick s4 in
      let r1 = ran_demand_from s u tt (h.is_secure s.clock) _ s1 ran in
      let (raw, there, r2) =
        ran_read_from s u tt (file_at (job_folder bundle) "context.json" s) _ s2 r1 in
      let (digest, r3) = ran_need s2 u tt (t.sha256 raw == e.digest) _ r2 in
      let (active, parsed, r4) = ran_take s2 u tt (object_of t raw) _ r3 in
      let (texts, r5) =
        ran_need s2 u tt
          (is_text bundle (get_field "bundle_sha256" active)
            && is_text "private-azd-install-v1" (get_field "scope" active))
          _ r4 in
      let r6 = ran_demand_from s u tt (h.is_secure s2.clock) _ s3 r5 in
      let (current, reserved, r7) = ran_active s3 u tt s.active _ refl r6 in
      let (equal, r8) = ran_need s3 u tt (current == raw) _ r7 in
      let r9 = ran_demand_from s u tt (h.is_secure s3.clock) _ s4 r8 in
      let (bundle_raw, _, r10) =
        ran_read_from s u tt (file_at (job_folder bundle) "bundle.json" s) _ s5 r9 in
      let (_, r11) = ran_need s5 u tt (t.sha256 bundle_raw == bundle) _ r10 in
      let (completed, value, whole, r12) = ran_completion bundle active _ s5 u tt r11 in
      let proof =
        t.dumps (Value.obj (proof_fields t e.digest bundle (t.sha256 completed) e.invocation)) in
      let written =
        exclusive-Written h (job_folder bundle) "terminal-success.json" proof (tick (tick s5)) u
          r12 in
      (
        raw,
        completed,
        active,
        value,
        there,
        eq_sound (t.sha256 raw) e.digest digest,
        parsed,
        ground (arith, texts),
        reserved ∙ ap some (eq_sound current raw equal),
        whole,
        ap (λ (x : Store). x.active) written,
        λ f n.
            ap (file_at f n) written
            ∙ file_at-put_at f n (job_folder bundle) "terminal-success.json" proof (tick (tick s5)),
      )
