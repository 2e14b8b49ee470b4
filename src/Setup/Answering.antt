-- ===== src/Setup/Answering.antt =====
-- The request of the host, the recipient that the container prepares for it, and the envelope that
-- comes back.
use azd_santa.Base.{String, ◌&&◌, some, ◌++◌, ◌≡◌, refl, sym, ap, subst, ◌∙◌, arith}
use azd_santa.Base.{◌==◌, leb, length, string_eq}
use azd_santa.Base.Text.{codes, is_run, is_hex}
use azd_santa.Json.{Value, Fields, get_field, keys}
use azd_santa.Json.Hooks.{◌>>=◌}
use azd_santa.Platform.{Bytes}
use azd_santa.Sync.Snapshot.{same_set}
use azd_santa.Recovery.Accounts.{Mode, Artifact}
use azd_santa.Setup.Kit.{Kit, loads_unique}
use azd_santa.Setup.Sealing.{
  Recipient, Drawn, framed, link_payload, target_digest, origin, encrypt, seal,
}
use azd_santa.Setup.Preparing.{
  key_fits, recipient_of, checked_recipient, tried, prepare_target, prepare_key, prepare_raw,
  prepare_recipient, largest,
}
use azd_santa.Setup.Request.{
  Request, or_blank, has_text, text_at, as_object, mode_named, binding_fits, context_fits,
  lines_fit, digest_fits, key_matches, target, accept_key, accept, members, read_mode, read_binding,
  read_parts, read_request, request_keys, with_raw, read_raw, read_value, request_from_environment,
}
use azd_santa.Setup.Envelope.{envelope}
use azd_santa.Setup.Agreement.{KitLaws, some-injective, guarded, bound}
use azd_santa.Setup.Sealed.{envelope-seal}

module _ (k : Kit) where
  -- what the tests of a request say of its digests
  abbrev IsDigested : Request → Type 0
  IsDigested q =
      (target k q.username q.email ≡ q.target_sha256)
      × ((key : Bytes) × (k.b64decode q.recipient_public_key ≡ some key)
          × (k.sha256 key ≡ q.recipient_sha256))

  accept-IsDigested :
      (context : Fields) (r q : Request) → accept k context r ≡ some q → IsDigested q
  unfolding accept accept_key
  accept-IsDigested context r q h =
      let (tests, read) =
        guarded
          (digest_fits k context r
            && lines_fit k r
            && target k r.username r.email == r.target_sha256)
          (k.b64decode r.recipient_public_key >>= accept_key k r) h in
      let (key, decoded, last) = bound (k.b64decode r.recipient_public_key) (accept_key k r) read in
      let (matches, same) = guarded (key_matches k r key && binding_fits r.binding) (some r) last in
      subst IsDigested (some-injective same)
        (ground (arith, tests), (key, decoded, ground (arith, matches)))

  read_request-IsDigested :
      (request : Fields) (q : Request) → read_request k request ≡ some q → IsDigested q
  unfolding read_request read_parts read_binding read_mode
  read_request-IsDigested request q h =
      let (_, read) =
        guarded (same_set (keys request) (request_keys k))
          (as_object (get_field "context" request) >>= read_parts k request) h in
      let (context, _, parts) =
        bound (as_object (get_field "context" request)) (read_parts k request) read in
      let (binding, _, bindings) =
        bound (as_object (get_field "binding" context)) (read_binding k request context) parts in
      let (mode, _, modes) =
        bound (mode_named (or_blank (text_at "mode" context))) (read_mode k request context binding)
          bindings in
      let (_, left) =
        guarded
          (context_fits k context binding && has_text (text_at "recipient_public_key" request))
          (accept k context (members k request context binding mode)) modes in
      accept-IsDigested context (members k request context binding mode) q left

  request-IsDigested :
      (value : String) (q : Request) (raw : Bytes)
      → request_from_environment k value ≡ some (q, raw)
      → IsDigested q
  unfolding request_from_environment read_value read_raw with_raw
  request-IsDigested value q raw h =
      let (_, read) =
        guarded (leb (length (codes value)) 16384) (k.b64decode value >>= read_value k value) h in
      let (bytes, _, decoded) = bound (k.b64decode value) (read_value k value) read in
      let (_, loaded) =
        guarded (k.b64encode bytes == value) (as_object (loads_unique k bytes) >>= read_raw k bytes)
          decoded in
      let (fs, _, requested) = bound (as_object (loads_unique k bytes)) (read_raw k bytes) loaded in
      let (p, there, same) = bound (read_request k fs) (with_raw k bytes) requested in
      subst IsDigested (ap (λ (x : Request × Bytes). x.0) (some-injective same))
        (read_request-IsDigested fs p there)

  -- how the recipient of a key, a context, a mode and an identity is made
  prepared_as :
      (d : Drawn k) (public_key context : String) (mode : Mode) (username email site : String)
      (r : Recipient k)
      → prepare_recipient k d public_key context mode username email site ≡ some r
      → (key : k.Key) × (raw : Bytes) × (goal expected : String) × (recipient_of k key raw context
            mode goal expected
          ≡ r)
        × (k.b64decode public_key ≡ some raw)
        × (target_digest k username email ≡ some goal)
        × (k.key_size key ≡ 3072)
  unfolding prepare_recipient prepare_raw prepare_key prepare_target tried checked_recipient
  prepared_as d public_key context mode username email site r h =
      let (_, read) =
        guarded (is_run is_hex 64 context && leb (length (codes public_key)) 1024)
          (k.b64decode public_key >>= prepare_raw k d public_key context mode username email site)
          h in
      let (raw, decoded, at_raw) =
        bound (k.b64decode public_key) (prepare_raw k d public_key context mode username email site)
          read in
      let (_, load_it) =
        guarded (k.b64encode raw == public_key)
          (k.load_key raw >>= prepare_key k d raw context mode username email site) at_raw in
      let (key, _, at_key) =
        bound (k.load_key raw) (prepare_key k d raw context mode username email site) load_it in
      let (fits, digest_it) =
        guarded (key_fits k key raw)
          (target_digest k username email >>= prepare_target k d key raw context mode site)
          at_key in
      let (goal, digest, at_goal) =
        bound (target_digest k username email) (prepare_target k d key raw context mode site)
          digest_it in
      let (expected, _, try_it) =
        bound (origin k site) (λ x. tried k d (recipient_of k key raw context mode goal x))
          at_goal in
      let made = recipient_of k key raw context mode goal expected in
      let (sealed, _, same) =
        bound (encrypt k made d (largest k)) (checked_recipient k made) try_it in
      (key, raw, goal, expected, some-injective same, decoded, digest, ground (arith, fits))

  target_digest-target :
      (username email goal : String)
      → target_digest k username email ≡ some goal
      → target k username email ≡ goal
  unfolding target target_digest
  target_digest-target username email goal h =
      some-injective
        (guarded (leb (length (k.utf8 username)) 2048 && leb (length (k.utf8 email)) 2048)
          (some (k.sha256 (framed (k.utf8 username) ++ framed (k.utf8 email)))) h).1

  -- A request that the host accepts is answered: the envelope that is sealed for the recipient of
  -- its key, its context, its mode and its identity, with a nonce of 12 bytes, passes the tests of
  -- `envelope` for that request. The two programs compute the digest of the target alike, and the
  -- limit of 2600 bytes on the one side keeps the ciphertext within the limit of 1600 bytes on the
  -- other.
  pub request_answered :
      (value site : String) (q : Request) (raw : Bytes) (c d : Drawn k) (r : Recipient k)
      (a : Artifact) (v : Value)
      → request_from_environment k value ≡ some (q, raw)
      → prepare_recipient k c q.recipient_public_key q.context_sha256 q.mode q.username q.email site
        ≡ some r
      → KitLaws k r d (link_payload k a.setup_url a.expires_at a.pk)
      → length d.nonce ≡ 12
      → seal k r d a ≡ some v
      → envelope k (k.dumps v) q ≡ some (k.dumps_utf8 v)
  request_answered value site q raw c d r a v request prepared laws nonce sealed =
      let (goal_same, (key, decoded, digest)) = request-IsDigested value q raw request in
      let (rsa, bytes, goal, expected, made, decoded', goal_made, size) =
        prepared_as c q.recipient_public_key q.context_sha256 q.mode q.username q.email site r
          prepared in
      let same_key : key ≡ bytes = some-injective (sym decoded ∙ decoded') in
      let x = recipient_of k rsa bytes q.context_sha256 q.mode goal expected in
      envelope-seal k x d a v q
        (subst (λ y. KitLaws k y d (link_payload k a.setup_url a.expires_at a.pk)) (sym made) laws)
        size nonce refl refl (sym digest ∙ ap k.sha256 same_key)
        (sym goal_same ∙ target_digest-target q.username q.email goal goal_made)
        (subst (λ y. seal k y d a ≡ some v) (sym made) sealed)
