-- ===== src/Install/Growth.antt =====
-- On the files that are there before and after a step of
-- experiments/server/private_install_transport.py.
use azd_santa.Base.{eq_sound}
use azd_santa.Base.{ℕ, ◌+◌, String, Bool, true, false, Option, none, some, [], ◌≡◌, refl, ◌∙◌}
use azd_santa.Base.{◌==◌, string_eq, bytes_eq, if_cases, if◌then◌else◌}
use azd_santa.Base.Dict.{Dict, lookup, insert, lookup-insert}
use azd_santa.Base.Faulty.{◌>>=◌, need, or_fail, Steps, bind-Steps}
use azd_santa.Platform.{Bytes}
use azd_santa.Install.Machine.{
  Store, Host, Action, or_none, files_in, file_at, is_there, put_at, leave_at, file_of, demand, ask,
  exclusive, activate, make_dir,
}

-- the files of one store are those of a later one
abbrev pub Kept : Store → Store → Type 0
Kept s t =
    (folder name : String) (raw : Bytes)
    → file_at folder name s ≡ some raw
    → file_at folder name t ≡ some raw

-- the files and the reservation of one store are those of a later one, and the jobs are the same
abbrev pub Later : Store → Store → Type 0
Later s t =
    Kept s t
    × ((raw : Bytes) → s.active ≡ some raw → t.active ≡ some raw)
    × (t.submitted ≡ s.submitted)

pub Later-refl : (s : Store) → Later s s
Later-refl s = (λ folder name raw h. h, λ raw h. h, refl)

pub Later-trans : (s t u : Store) → Later s t → Later t u → Later s u
Later-trans s t u p q = (
  λ folder name raw h. q.0 folder name raw (p.0 folder name raw h),
  λ raw h. q.1 raw (p.1 raw h),
  q.2 ∙ p.2,
)

pub is_there-none {ℓ} : {A : Type ℓ} (o : Option A) → is_there o ≡ false → o ≡ none
is_there-none none h = refl
is_there-none (some a) h = cc

pub file_at-put_at :
    (f n folder name : String) (raw : Bytes) (s : Store)
    → file_at f n (put_at folder name raw s) ≡ (
        if f == folder then (if n == name then some raw else file_at folder n s) else file_at f n s)
file_at-put_at f n folder name raw s =
    rw (lookup-insert f folder (insert name raw (files_in folder s)) s.folders) (
      if_cases
        (λ (o : Option (Dict String Bytes)). lookup n (or_none o) ≡ (
          if f == folder
          then (if n == name then some raw else file_at folder n s)
          else file_at f n s))
        (f == folder) (λ p. rw (p, lookup-insert n name raw (files_in folder s)) refl)
        (λ p. rw p refl))

pub Later-put_at :
    (folder name : String) (raw : Bytes) (s : Store)
    → file_at folder name s ≡ none
    → Later s (put_at folder name raw s)
Later-put_at folder name raw s absent = (
  λ f n found h. rw (file_at-put_at f n folder name raw s) (
      if_cases (λ o. o ≡ some found) (f == folder)
        (λ p.
          if_cases (λ o. o ≡ some found) (n == name)
            (λ q. let p' = eq_sound f folder p in let q' = eq_sound n name q in cc)
            (λ q. let p' = eq_sound f folder p in cc))
        (λ _. h)),
  λ raw h. h,
  refl,
)

pub Later-leave_at :
    (folder name : String) (o : Option Bytes) (s : Store)
    → file_at folder name s ≡ none
    → Later s (leave_at folder name o s)
Later-leave_at folder name none s absent = Later-refl s
Later-leave_at folder name (some raw) s absent = Later-put_at folder name raw s absent

pub Later-active :
    (s : Store) (o : Option Bytes) (n : ℕ)
    → s.active ≡ none
    → Later s (record s { active = o; clock = n })
Later-active s o n absent = (λ folder name raw h. h, λ raw h. cc, refl)

-- a step that a test ends, with two stores
Later-test :
    {A : Type 0} (s : Store) (b : Bool) (x y : Option A × Store)
    → (b ≡ true → Later s x.1)
    → (b ≡ false → Later s y.1)
    → Later s (if b then x else y).1
Later-test s b x y hx hy = if_cases (λ (o : Option _ × Store). Later s o.1) b hx hy

abbrev pub Grows {ℓ} : {A : Type ℓ} → Action A → Type 0
Grows m = Steps Later m

pub chain {ℓ κ} :
    {A : Type ℓ} {B : Type κ} (m : Action A) (f : A → Action B)
    → Grows m
    → ((a : A) → Grows (f a))
    → Grows (m >>= f)
chain m f hm hf = bind-Steps Later Later-trans m f hm hf

pub or_fail-Grows {ℓ} : {A : Type ℓ} (o : Option A) → Grows (or_fail o)
or_fail-Grows o s = Later-refl s

pub need-Grows : (b : Bool) → Grows (need b)
need-Grows b s = Later-refl s

pub file_of-Grows : (folder name : String) → Grows (file_of folder name)
file_of-Grows folder name s = Later-refl s

module _ (h : Host) where
  pub demand-Grows : (test : ℕ → Bool) → Grows (demand h test)
  demand-Grows test s = Later-refl s

  pub ask-Grows {ℓ} : {A : Type ℓ} (answer : ℕ → Option A) → Grows (ask h answer)
  ask-Grows answer s = Later-refl s

  pub exclusive-Grows : (folder name : String) (raw : Bytes) → Grows (exclusive h folder name raw)
  unfolding exclusive
  exclusive-Grows folder name raw s =
      Later-test s (is_there (file_at folder name s)) _ _ (λ _. Later-refl s)
        λ absent.
          Later-test s (h.breaks s.clock) _ _
            (λ _.
              Later-leave_at folder name (h.torn s.clock) s
                (is_there-none (file_at folder name s) absent))
            (λ _. Later-put_at folder name raw s (is_there-none (file_at folder name s) absent))

  pub activate-Grows : (raw : Bytes) → Grows (activate h raw)
  unfolding activate
  activate-Grows raw s =
      Later-test s (is_there s.active) _ _ (λ _. Later-refl s)
        λ absent.
          Later-test s (h.breaks s.clock) _ _
            (λ _. Later-active s (h.torn s.clock) (s.clock + 1) (is_there-none s.active absent))
            (λ _. Later-active s (some raw) (s.clock + 1) (is_there-none s.active absent))

  pub make_dir-Grows : (exist_ok : Bool) (folder : String) → Grows (make_dir h exist_ok folder)
  unfolding make_dir
  make_dir-Grows exist_ok folder s =
      Later-test s (h.breaks s.clock) _ _ (λ _. Later-refl s)
        λ _.
          Later-test s (is_there (lookup folder s.folders)) _ _ (λ _. Later-refl s)
            λ absent. (
              λ f n found there. rw (lookup-insert f folder [] s.folders) (
                  if_cases (λ (o : Option (Dict String Bytes)). lookup n (or_none o) ≡ some found)
                    (f == folder)
                    (λ p.
                      let p' = eq_sound f folder p in
                      let none_there = is_there-none (lookup folder s.folders) absent in cc)
                    (λ _. there)),
              λ raw there. there,
              refl,
            )
