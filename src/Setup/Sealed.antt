-- ===== src/Setup/Sealed.antt =====
-- On what `Recipient.seal` returns and what `envelope` of the host tests.
use azd_santa.Base.{ℕ, ◌+◌, ◌*◌, ◌/◌, ◌≤◌, true, some, ◌≡◌, refl, sym, subst, arith}
use azd_santa.Base.{leb, leb→le, length, string_eq, strings_eq}
use azd_santa.Base.Int.{int_eq}
use azd_santa.Base.Text.{codes}
use azd_santa.Json.{Value, Fields}
use azd_santa.Json.Hooks.{◌>>=◌}
use azd_santa.Platform.{Bytes}
use azd_santa.Recovery.Accounts.{Artifact}
use azd_santa.Setup.Kit.{Kit, loads_unique, text_size}
use azd_santa.Setup.Sealing.{
  ◌>>◌, Recipient, Drawn, mode_text, link_payload, ciphertext_of, envelope_fields, envelope_of,
  encrypt, seal, seal_link, seal_uid, uid_fits, artifact_fits, link_fits, reset_uid,
}
use azd_santa.Setup.Request.{Request, as_object}
use azd_santa.Setup.Envelope.{envelope_fits, envelope}
use azd_santa.Setup.Agreement.{
  KitLaws, guarded, some-injective, bound, loads-dumps, Matches, fields, envelope_fits-fields,
}

module _ (k : Kit) where
  text_size-fields :
      (r : Recipient k) (w n c : Bytes)
      → length (codes (k.b64encode w)) + length (codes (k.b64encode c))
        ≤ text_size (envelope_fields k r w n c)
  unfolding text_size envelope_fields
  text_size-fields r w n c = omega arith

  -- The ciphertext of an envelope within its limit is within the limit of the host.
  ciphertext-bound :
      (r : Recipient k) (w n c : Bytes) (size : ℕ)
      → text_size (envelope_fields k r w n c) ≤ size
      → length (codes (k.b64encode w)) ≡ 4 * ((length w + 2) / 3)
      → length (codes (k.b64encode c)) ≡ 4 * ((length c + 2) / 3)
      → length w ≡ 384
      → size ≤ 2600
      → length c ≤ 1600
  ciphertext-bound r w n c size long hw hc wide small = omega (arith, text_size-fields r w n c)

  encrypt-cases :
      (r : Recipient k) (d : Drawn k) (p v : Value)
      → encrypt k r d p ≡ some v
      → (v ≡ envelope_of k r d p) × (leb (length (k.dumps v)) 2600 ≡ true)
  unfolding encrypt
  encrypt-cases r d p v h =
      let sealed = envelope_of k r d p in
      let (small, same) = guarded (leb (length (k.dumps sealed)) 2600) (some sealed) h in
      let e : sealed ≡ v = some-injective same in
      (sym e, subst (λ x. leb (length (k.dumps x)) 2600 ≡ true) e small)

  seal-encrypt :
      (r : Recipient k) (d : Drawn k) (a : Artifact) (v : Value)
      → seal k r d a ≡ some v
      → encrypt k r d (link_payload k a.setup_url a.expires_at a.pk) ≡ some v
  unfolding seal seal_link seal_uid
  seal-encrypt r d a v h =
      let (_, linked) =
        guarded (artifact_fits k r a) (k.split_url a.setup_url >>= seal_link k r d a) h in
      let (u, _, tested) = bound (k.split_url a.setup_url) (seal_link k r d a) linked in
      let (_, named) = guarded (link_fits k r u) (reset_uid u.path >>= seal_uid k r d a) tested in
      let (uid, _, left) = bound (reset_uid u.path) (seal_uid k r d a) named in
      (guarded (uid_fits k a uid) (encrypt k r d (link_payload k a.setup_url a.expires_at a.pk))
        left).1

  accepted :
      (raw : Bytes) (fs : Fields) (q : Request)
      → leb (length raw) 2600 ≡ true
      → loads_unique k raw ≡ some (Value.obj fs)
      → envelope_fits k q fs ≡ true
      → envelope k raw q ≡ some (k.dumps_utf8 (Value.obj fs))
  unfolding envelope
  accepted raw fs q small read fits = rw (small, read, as_object, fits, ◌>>◌, ◌>>=◌) refl

  envelope-encrypt :
      (r : Recipient k) (d : Drawn k) (p v : Value) (q : Request)
      → KitLaws k r d p
      → Matches k r (k.wrap r.key d.seed d.secret) d.nonce (ciphertext_of k r d p) q
      → k.key_size r.key ≡ 3072
      → length d.nonce ≡ 12
      → encrypt k r d p ≡ some v
      → envelope k (k.dumps v) q ≡ some (k.dumps_utf8 v)
  unfolding fields
  envelope-encrypt r d p v q laws for size nonce h =
      let w = k.wrap r.key d.seed d.secret in
      let c = ciphertext_of k r d p in
      let (same, small) = encrypt-cases r d p v h in
      let fs = envelope_fields k r w d.nonce c in
      let wrapped : length w ≡ 384 = laws.length-wrap size in
      let tagged = laws.length-gcm in
      let fits : leb (length (k.dumps (Value.obj fs))) 2600 ≡ true =
        subst (λ x. leb (length (k.dumps x)) 2600 ≡ true) same small in
      subst (λ x. envelope k (k.dumps x) q ≡ some (k.dumps_utf8 x)) (sym same)
        (accepted (k.dumps (Value.obj fs)) fs q fits (loads-dumps k r w d.nonce c laws.parse-dumps)
          (envelope_fits-fields k r w d.nonce c q for laws.wrapped_back laws.nonce_back
            laws.ciphertext_back wrapped nonce (omega (arith, tagged, laws.payload_nonempty))
            (ciphertext-bound r w d.nonce c (length (k.dumps (Value.obj fs))) laws.length-dumps
              laws.length-wrapped laws.length-ciphertext wrapped
              (leb→le (length (k.dumps (Value.obj fs))) 2600 fits))))

  -- An envelope that `Recipient.seal` returns, written as JSON, is accepted by `envelope` of the host
  -- for every request with the mode, the context, the target and the key digest of its recipient.
  pub envelope-seal :
      (r : Recipient k) (d : Drawn k) (a : Artifact) (v : Value) (q : Request)
      → KitLaws k r d (link_payload k a.setup_url a.expires_at a.pk)
      → k.key_size r.key ≡ 3072
      → length d.nonce ≡ 12
      → mode_text q.mode ≡ mode_text r.mode
      → q.context_sha256 ≡ r.context
      → q.recipient_sha256 ≡ r.kid
      → q.target_sha256 ≡ r.target
      → seal k r d a ≡ some v
      → envelope k (k.dumps v) q ≡ some (k.dumps_utf8 v)
  envelope-seal r d a v q laws size nonce mode context kid target sealed =
      envelope-encrypt r d (link_payload k a.setup_url a.expires_at a.pk) v q laws
        (mode, context, kid, target) size nonce (seal-encrypt r d a v sealed)
