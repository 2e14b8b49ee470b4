-- ===== src/Install/Holding.antt =====
-- What a job rests on in the store, and the three steps that make one.
use azd_santa.Base.{eq_sound}
use azd_santa.Base.{
  ℕ, ◌+◌, ◌≤◌, String, Bool, true, false, Option, none, some, List, [], ◌∷◌, ◌≡◌, refl, sym, subst,
  arith,
}
use azd_santa.Base.{◌==◌, eq_self, length, string_eq, bytes_eq, if_cases, if◌then◌else◌}
use azd_santa.Base.Dict.{Dict, lookup}
use azd_santa.Base.Faulty.{and_then, ◌>>=◌, need, Ends, Ends-bind}
use azd_santa.Platform.{Bytes}
use azd_santa.Install.Tools.{Tools}
use azd_santa.Install.Machine.{
  Store, Host, Action, or_none, tick, leave_at, put_at, job_folder, file_at, is_there, exclusive,
  activate, launch,
}
use azd_santa.Install.Growth.{
  Kept, Later, Later-active, Grows, Later-put_at, Later-leave_at, file_at-put_at, is_there-none,
}

-- the jobs that a reservation leaves room for
abbrev pub room : Option Bytes → ℕ
room none = 0
room (some raw) = 1

module _ (t : Tools) where
  abbrev pub Folders : Type 0
  Folders = Dict String (Dict String Bytes)

  -- the folder of a digest holds a bundle with this digest
  abbrev pub HasBundle : String → Folders → Type 0
  HasBundle digest d =
      (raw : Bytes) × (lookup "bundle.json" (or_none (lookup (job_folder digest) d)) ≡ some raw)
      × (t.sha256 raw ≡ digest)

  -- and the context of the job
  abbrev pub IsHeld : String → Bytes → Folders → Type 0
  IsHeld digest context d =
      HasBundle digest d
      × (lookup "context.json" (or_none (lookup (job_folder digest) d)) ≡ some context)

  unfoldable pub AllHeld : List (String × Bytes) → Folders → Type 0
  AllHeld [] d = Unit
  AllHeld ((digest, context) ∷ jobs) d = IsHeld digest context d × AllHeld jobs d

  -- the invariant of the store
  abbrev pub IsSound : Store → Type 0
  IsSound s = (length s.submitted ≤ room s.active) × AllHeld s.submitted s.folders

  IsHeld-Kept :
      (digest : String) (context : Bytes) (s u : Store)
      → Kept s u
      → IsHeld digest context s.folders
      → IsHeld digest context u.folders
  IsHeld-Kept digest context s u k ((raw, there, same), last) = (
    (raw, k (job_folder digest) "bundle.json" raw there, same),
    k (job_folder digest) "context.json" context last,
  )

  AllHeld-Kept :
      (jobs : List (String × Bytes)) (s u : Store)
      → Kept s u
      → AllHeld jobs s.folders
      → AllHeld jobs u.folders
  unfolding AllHeld
  AllHeld-Kept [] s u k a = tt
  AllHeld-Kept ((digest, context) ∷ jobs) s u k (a, b) =
      (IsHeld-Kept digest context s u k a, AllHeld-Kept jobs s u k b)

  room-kept : (o p : Option Bytes) → ((raw : Bytes) → o ≡ some raw → p ≡ some raw) → room o ≤ room p
  room-kept none p k = omega arith
  room-kept (some raw) p k = rw (k raw refl) (omega arith)

  pub IsSound-Later : (s u : Store) → Later s u → IsSound s → IsSound u
  IsSound-Later s u l (few, held) =
      let more = room-kept s.active u.active l.1 in
      (
        rw l.2 (omega (arith, few, more)),
        subst (λ jobs. AllHeld jobs u.folders) (sym l.2) (AllHeld-Kept s.submitted s u l.0 held),
      )

  -- the folder of a digest holds a bundle with this digest
  abbrev pub IsPlaced : String → Store → Type 0
  IsPlaced digest s = IsSound s × HasBundle digest s.folders

  pub IsPlaced-Later :
      (digest : String) (s u : Store) → Later s u → IsPlaced digest s → IsPlaced digest u
  IsPlaced-Later digest s u l (sound, (raw, there, same)) =
      (IsSound-Later s u l sound, (raw, l.0 (job_folder digest) "bundle.json" raw there, same))

  -- a step that a test ends
  Ends-test :
      {A : Type 0} (Q : A → Store → Type 0) (b : Bool) (x y : Option A × Store)
      → (b ≡ true → Ends Q IsSound x)
      → (b ≡ false → Ends Q IsSound y)
      → Ends Q IsSound (if b then x else y)
  Ends-test Q b x y = if_cases (Ends Q IsSound) b

  module _ (P : Store → Type 0) (mono : (s u : Store) → Later s u → P s → P u)
      (sound : (s : Store) → P s → IsSound s) where
    steady_from {ℓ} :
        {A : Type ℓ} (s : Store) (o : Option A × Store)
        → Later s o.1
        → P s
        → Ends (λ _ u. P u) IsSound o
    steady_from s (none, u) l p = sound u (mono s u l p)
    steady_from s (some a, u) l p = mono s u l p

    pub steady {ℓ} :
        {A : Type ℓ} (m : Action A) → Grows m → (s : Store) → P s → Ends (λ _ u. P u) IsSound (m s)
    steady m g s p = steady_from s (m s) (g s) p

  -- the end of a run keeps the invariant
  abbrev pub Safe {ℓ} : {A : Type ℓ} → Action A → Type 0
  Safe m = (s : Store) → IsSound s → Ends (λ _ u. IsSound u) IsSound (m s)

  pub grown {ℓ} : {A : Type ℓ} (m : Action A) → Grows m → Safe m
  grown m g = steady IsSound IsSound-Later (λ s p. p) m g

  pub followed {ℓ κ} :
      {A : Type ℓ} {B : Type κ} (m : Action A) (f : A → Action B)
      → Grows m
      → ((a : A) → Safe (f a))
      → Safe (m >>= f)
  followed m f g hf =
      Ends-bind m f IsSound (λ _ u. IsSound u) (λ _ u. IsSound u) IsSound (grown m g) hf

  found_same :
      (digest : String) (raw found : Bytes) (s : Store)
      → IsSound s
      → file_at (job_folder digest) "bundle.json" s ≡ some found
      → t.sha256 raw ≡ digest
      → Ends (λ _ u. IsPlaced digest u) IsSound (need (found == raw) s)
  found_same digest raw found s sound there same =
      if_cases (λ (o : Option (Unit {0})). Ends (λ _ u. IsPlaced digest u) IsSound (o, s))
        (found == raw) (λ p. (sound, (found, there, rw (eq_sound found raw p) same))) (λ _. sound)

  pub read_from :
      (digest : String) (raw : Bytes) (s : Store) (o : Option Bytes)
      → IsSound s
      → file_at (job_folder digest) "bundle.json" s ≡ o
      → t.sha256 raw ≡ digest
      → Ends
          (λ _ u. IsPlaced digest u)
          IsSound
          (and_then (λ found. need (found == raw)) (o, tick s))
  read_from digest raw s none sound there same = sound
  read_from digest raw s (some found) sound there same =
      found_same digest raw found (tick s) sound there same

  module _ (h : Host) where
    pub exclusive-Held :
        (digest : String) (context : Bytes) (s : Store)
        → IsPlaced digest s
        → Ends
            (λ _ u. IsSound u × IsHeld digest context u.folders)
            IsSound
            (exclusive h (job_folder digest) "context.json" context s)
    unfolding exclusive
    exclusive-Held digest context s (sound, placed) =
        let Q = λ (_ : Unit {0}) (u : Store). IsSound u × IsHeld digest context u.folders in
        Ends-test Q (is_there (file_at (job_folder digest) "context.json" s)) _ _ (λ _. sound)
          λ absent.
            let free = is_there-none (file_at (job_folder digest) "context.json" s) absent in
            Ends-test Q (h.breaks s.clock) _ _
              (λ _.
                IsSound-Later s (leave_at (job_folder digest) "context.json" (h.torn s.clock) s)
                  (Later-leave_at (job_folder digest) "context.json" (h.torn s.clock) s free) sound)
              (λ _.
                let (kept, held) =
                  IsPlaced-Later digest s (put_at (job_folder digest) "context.json" context s)
                    (Later-put_at (job_folder digest) "context.json" context s free)
                    (sound, placed) in
                (
                  kept,
                  (
                    held,
                    rw
                        (
                          file_at-put_at (job_folder digest) "context.json" (job_folder digest)
                              "context.json" context s,
                          eq_self (job_folder digest),
                          eq_self {A = String} "context.json",
                        )
                        refl,
                  ),
                ))

    -- a reservation that no job has yet
    abbrev pub IsReserved : String → Bytes → Store → Type 0
    IsReserved digest context s =
        (length s.submitted ≤ 0)
        × (room s.active ≡ 1)
        × AllHeld s.submitted s.folders
        × IsHeld digest context s.folders

    pub activate-Reserved :
        (digest : String) (context : Bytes) (s : Store)
        → IsSound s × IsHeld digest context s.folders
        → Ends (λ _ u. IsReserved digest context u) IsSound (activate h context s)
    unfolding activate
    activate-Reserved digest context s ((few, all_held), held) =
        let Q = λ (_ : Unit {0}) (u : Store). IsReserved digest context u in
        Ends-test Q (is_there s.active) _ _ (λ _. (few, all_held))
          λ absent.
            let no_room : room s.active ≡ 0 = rw (is_there-none s.active absent) refl in
            Ends-test Q (h.breaks s.clock) _ _
              (λ _.
                IsSound-Later s (record s { active = h.torn s.clock; clock = s.clock + 1 })
                  (Later-active s (h.torn s.clock) (s.clock + 1) (is_there-none s.active absent))
                  (few, all_held))
              (λ _. (omega (arith, few, no_room), refl, all_held, held))

    pub launch-Sound :
        (digest : String) (context : Bytes) (s : Store)
        → IsReserved digest context s
        → Ends (λ _ u. IsSound u) IsSound (launch h digest context s)
    unfolding launch AllHeld
    launch-Sound digest context s (few, taken, all_held, held) =
        let next : Store = record s {
          submitted = (digest, context) ∷ s.submitted;
          clock = s.clock + 1;
        } in
        let sound : IsSound next = (omega (arith, few, taken), (held, all_held)) in
        if_cases (λ (o : Option (Unit {0})). Ends (λ _ u. IsSound u) IsSound (o, next))
          (h.starts s.clock) (λ _. sound) (λ _. sound)
