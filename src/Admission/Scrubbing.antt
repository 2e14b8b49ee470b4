-- ===== src/Admission/Scrubbing.antt =====
-- The forwarded headers that pass `identity`.
use azd_santa.Base.{
  String, Bool, true, false, ◌⊎◌, sym, Option, none, some, List, [], ◌∷◌, ◌++◌, ◌≡◌, refl, inl, inr,
  arith,
}
use azd_santa.Base.{◌==◌, contains, if◌then◌else◌, string_eq, eq_self, Bool-cases}
use azd_santa.Base.Dict.{Dict, lookup, erase, lookup-insert, lookup-erase}
use azd_santa.Admission.Identity.{
  Addresses, Mode, direct, proxy, Trust, header_of, is_trusted, keys_of, ◌>>=◌, forward,
  client_header, client_address, erase_all, identify, identity,
}

some-injective : {A : Type 0} {a b : A} → some a ≡ some b → a ≡ b
some-injective h = cc

module _ (N : Addresses) where
  erase_all-keeps_none :
      (names : List String) (meta : Dict String String) (h : String)
      → lookup h meta ≡ none
      → lookup h (erase_all N names meta) ≡ none
  unfolding erase_all
  erase_all-keeps_none [] meta h gone = gone
  erase_all-keeps_none (name ∷ names) meta h gone =
      erase_all-keeps_none names (erase name meta) h
        (ground (arith, lookup-erase h name meta, gone))

  lookup-erase_all :
      (names : List String) (meta : Dict String String) (h : String)
      → contains names h ≡ true
      → lookup h (erase_all N names meta) ≡ none
  unfolding erase_all
  lookup-erase_all [] meta h there = cc
  lookup-erase_all (name ∷ names) meta h there = elim (Bool-cases (name == h)) [
    | inl same ↦
        erase_all-keeps_none names (erase name meta) h
          (ground (arith, lookup-erase h name meta, same))
    | inr other ↦ lookup-erase_all names (erase name meta) h (ground (arith, other, there))
  ]

  identified :
      (meta : Dict String String) (credential : String) (keys : String × String)
      (o : Option N.Address)
      → (identify N credential meta o).0 ≡ some keys
      → (h : String) → contains (forward ++ client_header ∷ []) h ≡ true
      → (address : N.Address) × (o ≡ some address)
        × (keys ≡ keys_of N address credential)
        × (lookup h (identify N credential meta o).1
            ≡ (if h == "HTTP_X_REAL_IP" then some (N.show address) else none))
  identified meta credential keys none returned h forged = cc
  identified meta credential keys (some address) returned h forged =
      let names : List String = forward ++ client_header ∷ [] in
      (
        address,
        refl,
        sym (some-injective returned),
        rw
            (
              lookup-insert h "HTTP_X_REAL_IP" (N.show address) (erase_all N names meta),
              lookup-erase_all names meta h forged,
            )
            refl,
      )

  -- one of the peers is a network that the address is in
  abbrev pub IsTrusted : N.Address → List String → Type 0
  IsTrusted address peers =
      (peer : String) × (contains peers peer ≡ true) × (N.is_member address peer ≡ some true)

  -- The address of the client: the peer's own where clients come directly; behind a proxy the one
  -- that the peer names, and that only if the peer is in a configured network.
  abbrev pub IsClient : Trust → Dict String String → N.Address → Type 0
  IsClient trust meta address =
      (trust.mode ≡ direct) × (N.parse (header_of N "REMOTE_ADDR" meta) ≡ some address)
      ⊎ ((trust.mode ≡ proxy)
          × ((peer : N.Address) × (N.parse (header_of N "REMOTE_ADDR" meta) ≡ some peer)
              × IsTrusted peer trust.peers
              × (N.parse (header_of N client_header meta) ≡ some address)))

  IsTrusted-from :
      (address : N.Address) (peer : String) (peers : List String) (o : Option Bool)
      → (is_trusted N address peers ≡ some true → IsTrusted address peers)
      → N.is_member address peer ≡ o
      → is_trusted N address (peer ∷ peers) ≡ some true
      → IsTrusted address (peer ∷ peers)
  unfolding is_trusted
  IsTrusted-from address peer peers none ih e h = cc (rw (e, is_trusted) at h)
  IsTrusted-from address peer peers (some true) ih e h = (peer, rw (eq_self peer) refl, e)
  IsTrusted-from address peer peers (some false) ih e h =
      let (found, there, inside) = ih (rw (e, is_trusted) at h) in
      (found, ground (arith, there), inside)

  is_trusted-IsTrusted :
      (address : N.Address) (peers : List String)
      → is_trusted N address peers ≡ some true
      → IsTrusted address peers
  unfolding is_trusted
  is_trusted-IsTrusted address [] h = cc
  is_trusted-IsTrusted address (peer ∷ peers) h =
      IsTrusted-from address peer peers (N.is_member address peer)
        (is_trusted-IsTrusted address peers) refl h

  IsTrusted-proxied :
      (trust : Trust) (meta : Dict String String) (address peer : N.Address) (o : Option Bool)
      → is_trusted N peer trust.peers ≡ o
      → (o >>= λ trusted. if trusted then N.parse (header_of N client_header meta) else none)
        ≡ some address
      → IsTrusted peer trust.peers × (N.parse (header_of N client_header meta) ≡ some address)
  IsTrusted-proxied trust meta address peer none e h = cc
  IsTrusted-proxied trust meta address peer (some false) e h = cc
  IsTrusted-proxied trust meta address peer (some true) e h =
      (is_trusted-IsTrusted peer trust.peers e, h)

  IsClient-proxied :
      (trust : Trust) (meta : Dict String String) (address : N.Address) (o : Option N.Address)
      → trust.mode ≡ proxy
      → N.parse (header_of N "REMOTE_ADDR" meta) ≡ o
      → (o >>= λ peer. is_trusted N peer trust.peers >>= λ trusted.
          if trusted then N.parse (header_of N client_header meta) else none)
        ≡ some address
      → IsClient trust meta address
  IsClient-proxied trust meta address none m e h = cc
  IsClient-proxied trust meta address (some peer) m e h =
      let (trusted, named) =
        IsTrusted-proxied trust meta address peer (is_trusted N peer trust.peers) refl h in
      inr (m, (peer, e, trusted, named))

  client_address-IsClient :
      (trust : Trust) (meta : Dict String String) (address : N.Address) (mode : Mode)
      → trust.mode ≡ mode
      → client_address N trust meta ≡ some address
      → IsClient trust meta address
  unfolding client_address
  client_address-IsClient trust meta address direct m h = inl (m, rw m at h)
  client_address-IsClient trust meta address proxy m h =
      IsClient-proxied trust meta address (N.parse (header_of N "REMOTE_ADDR" meta)) m refl
        (rw m at h)

  -- When `identity` returns keys, none of the headers of `FORWARD` is left, nor the one that names
  -- the client, but for HTTP_X_REAL_IP, which is the address of the client: the peer's own where
  -- clients come directly, and behind a proxy the one that the peer names, if the peer is in a
  -- configured network. The keys are made from this address and the credential.
  pub identity_scrubs :
      (trust : Trust) (meta : Dict String String) (credential : String) (keys : String × String)
      → (identity N trust meta credential).0 ≡ some keys
      → (h : String) → contains (forward ++ client_header ∷ []) h ≡ true
      → (address : N.Address) × IsClient trust meta address
        × (keys ≡ keys_of N address credential)
        × (lookup h (identity N trust meta credential).1
            ≡ (if h == "HTTP_X_REAL_IP" then some (N.show address) else none))
  unfolding identity
  identity_scrubs trust meta credential keys returned h forged =
      let (address, found, made, left) =
        identified meta credential keys (client_address N trust meta) returned h forged in
      (address, client_address-IsClient trust meta address trust.mode refl found, made, left)
