-- ===== src/Sync/Revocation.antt =====
-- A revoked device is out: no request changes anything of it, whatever the requests are.
use azd_santa.Base.{
  String, ◌≡◌, ◌≢◌, ◌∙◌, refl, sym, ap, none, some, List, [], ◌∷◌, arith, inl, inr,
}
use azd_santa.Base.{string_eq}
use azd_santa.Base.Dict.{lookup, lookup-insert, lookup-erase}
use azd_santa.Platform.{Platform}
use azd_santa.Sync.State.{State, without_device, revoke_fixture_device, rotate_fixture_device}
use azd_santa.Sync.Stages.{Inputs}
use azd_santa.Sync.Invariant.{Step-elsewhere, Step-constants}
use azd_santa.Sync.Http.{Post, bearer, do_post}
use azd_santa.Sync.Access.{do_post-ActsFor, without_device-lookup}

-- no token leads to the device, and it has no session
pub record IsRevoked (device : String) (s : State) : Type 0 where
  pub no_token : (token : String) → lookup token s.tokens ≢ some device
  pub no_session : lookup device s.sessions ≡ none

-- What a device has left behind in the server.
pub record SameRecords (device : String) (s t : State) : Type 0 where
  pub acknowledged : lookup device t.acknowledged ≡ lookup device s.acknowledged
  pub digests : lookup device t.event_digests ≡ lookup device s.event_digests

pub revoke-IsRevoked :
    (device : String) (s : State) → IsRevoked device (revoke_fixture_device device s)
unfolding revoke_fixture_device
revoke-IsRevoked device s = record {
  no_token = λ token. without_device-lookup device token s.tokens;
  no_session = ground (arith, lookup-erase device device s.sessions);
}

pub record Arrival : Type 0 where
  pub inputs : Inputs
  pub request_id : String
  pub post : Post

module _ (P : Platform) where
  unfoldable pub post_all : List Arrival → State → State
  post_all [] s = s
  post_all (a ∷ rest) s = post_all rest (do_post P a.inputs a.request_id a.post s).1

  module _ (device : String) where
    do_post-IsRevoked :
        (i : Inputs) (request_id : String) (q : Post) (s : State)
        → IsRevoked device s
        → let t = (do_post P i request_id q s).1 in IsRevoked device t × SameRecords device s t
    do_post-IsRevoked i request_id q s v = elim (do_post-ActsFor P i request_id q s) [
      | inl same ↦ (
        record {
          no_token = λ token. rw (ap (λ (u : State). u.tokens) same) (v.no_token token);
          no_session = rw (ap (λ (u : State). u.sessions) same) v.no_session;
        },
        record {
          acknowledged = ap (λ (u : State). lookup device u.acknowledged) same;
          digests = ap (λ (u : State). lookup device u.event_digests) same;
        },
      )
      | inr (e, u, acts, same) ↦
          let other : device ≢ e =
            λ p. v.no_token (bearer q.authorization) (acts.token ∙ ap some (sym p)) in
          let (sessions, acknowledged, digests) = Step-elsewhere acts.step device other in
          (
            record {
              no_token = λ token.
                  rw (ap (λ (w : State). w.tokens) same, (Step-constants acts.step).1)
                    (v.no_token token);
              no_session =
                  ap (λ (w : State). lookup device w.sessions) same ∙ sessions ∙ v.no_session;
            },
            record {
              acknowledged = ap (λ (w : State). lookup device w.acknowledged) same ∙ acknowledged;
              digests = ap (λ (w : State). lookup device w.event_digests) same ∙ digests;
            },
          )
    ]

    post_all-IsRevoked :
        (posts : List Arrival) (s : State)
        → IsRevoked device s
        → IsRevoked device (post_all posts s) × SameRecords device s (post_all posts s)
    unfolding post_all
    post_all-IsRevoked [] s v = (v, record { acknowledged = refl; digests = refl })
    post_all-IsRevoked (a ∷ rest) s v =
        let (v', first) = do_post-IsRevoked a.inputs a.request_id a.post s v in
        let (v'', later) = post_all-IsRevoked rest _ v' in
        (
          v'',
          record {
            acknowledged = later.acknowledged ∙ first.acknowledged;
            digests = later.digests ∙ first.digests;
          },
        )

    -- After a device is revoked, no sequence of POSTs gives it a token or a session again, or
    -- changes what it has acknowledged or uploaded.
    pub revocation_final :
        (posts : List Arrival) (s : State)
        → let t = revoke_fixture_device device s in
          IsRevoked device (post_all posts t) × SameRecords device t (post_all posts t)
    revocation_final posts s = post_all-IsRevoked posts _ (revoke-IsRevoked device s)

-- After a rotation the drawn token leads to the device, and no other token does.
pub rotation_exclusive :
    (device token other : String) (s : State)
    → let (drawn, t) = rotate_fixture_device device token s in
      (lookup drawn t.tokens ≡ some device)
      × (lookup other t.tokens ≡ some device → other ≡ drawn)
      × (lookup device t.sessions ≡ none)
unfolding rotate_fixture_device
rotation_exclusive device token other s = (
  ground (arith, lookup-insert token token device (without_device device s.tokens)),
  λ h. ground (
    arith,
    lookup-insert other token device (without_device device s.tokens),
    without_device-lookup device other s.tokens,
  ),
  ground (arith, lookup-erase device device s.sessions),
)
