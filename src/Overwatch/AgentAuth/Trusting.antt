-- ===== src/Overwatch/AgentAuth/Trusting.antt =====
-- pkg/overwatch/agent_auth.go: whom one call of `AuthenticateAgent` lets in, and what happens to it when
-- a revocation comes between its read and its write.
use open_gslb.Common.{
  ℕ, ◌≡◌, refl, sym, subst, ◌⊎◌, inl, inr, Text, none, some, true, false, ◌||◌, ltb, ==_iff,
  text_eq, Bool-cases, Option-cases, arith,
}
use open_gslb.Common.Table.{Table, lookup, insert, lookup-insert_same}
use open_gslb.Overwatch.AgentAuth.{
  Certificate, Crypto, PinnedCertificate, AgentAuth, Moment, store_failed, Got, got, not_pinned,
  unreadable, get_pinned, save_pinned, verify_known_agent, validate_service_token,
  calculate_fingerprint, refused, known, unknown, register_new_agent, begin_authentication,
  end_authentication, authenticate_agent, revoke_certificate, as_revoked,
}

module _ (crypto : Crypto) where
  -- A certificate that parses, at a time of its validity.
  abbrev pub IsValidAt : ℕ → Text → Certificate → Type 0
  IsValidAt now pem cert =
      (crypto.parse_certificate pem ≡ some cert)
      × (ltb now cert.not_before ≡ false)
      × (ltb cert.not_after now ≡ false)

  -- The agent is pinned, not revoked, with the fingerprint of the certificate.
  abbrev pub IsKnown : AgentAuth → Moment → Text → Certificate → Type 0
  IsKnown a t agent_id cert =
      (p : PinnedCertificate) × (get_pinned a t agent_id ≡ got p)
      × (p.revoked ≡ false)
      × (calculate_fingerprint crypto cert ≡ p.fingerprint)

  -- Nothing is pinned for the agent, and it has a token.
  abbrev pub IsNew : AgentAuth → Moment → Text → Text → Type 0
  IsNew a t agent_id token =
      (get_pinned a t agent_id ≡ not_pinned) × (validate_service_token crypto a token ≡ true)

  verify_known_agent-IsKnown :
      (a : AgentAuth) (t : Moment) (p : PinnedCertificate) (fingerprint : Text)
      → (verify_known_agent a t p fingerprint).1 ≡ none
      → (p.revoked ≡ false) × (fingerprint ≡ p.fingerprint)
  unfolding verify_known_agent
  verify_known_agent-IsKnown a t p fingerprint h = ground (arith, ==_iff fingerprint p.fingerprint)

  -- What the read of the store leads to, once the certificate is fine.
  end_authentication_justified :
      (a : AgentAuth) (t : Moment) (agent_id pem token : Text) (cert : Certificate) (g : Got)
      → get_pinned a t agent_id ≡ g
      → (end_authentication crypto a t agent_id pem token (elim g [
        | got pinned ↦ known pinned (calculate_fingerprint crypto cert)
        | not_pinned ↦ unknown cert (calculate_fingerprint crypto cert)
        | unreadable ↦ refused store_failed
      ])).1
        ≡ none
      → IsKnown a t agent_id cert ⊎ IsNew a t agent_id token
  unfolding end_authentication register_new_agent
  end_authentication_justified a t agent_id pem token cert (got p) e h =
      let (live, same) = verify_known_agent-IsKnown a t p _ h in inl (p, e, live, same)
  end_authentication_justified a t agent_id pem token cert not_pinned e h =
      elim (Bool-cases (validate_service_token crypto a token)) [
        | inl valid ↦ inr (e, valid)
        | inr invalid ↦ cc (rw invalid at h)
      ]
  end_authentication_justified a t agent_id pem token cert unreadable e h = cc

  -- Whom `AuthenticateAgent` lets in has a certificate that parses and is valid at the time, and either
  -- is pinned with the fingerprint of that certificate and not revoked, or is not pinned at all and
  -- has a valid service token.
  pub authenticate_agent_justified :
      (a : AgentAuth) (t : Moment) (agent_id pem token : Text)
      → (authenticate_agent crypto a t agent_id pem token).1 ≡ none
      → (cert : Certificate) × IsValidAt t.now pem cert
        × (IsKnown a t agent_id cert ⊎ IsNew a t agent_id token)
  unfolding authenticate_agent begin_authentication end_authentication register_new_agent
  authenticate_agent_justified a t agent_id pem token h =
      elim (Option-cases (crypto.parse_certificate pem)) [
        | inl bad ↦ cc (rw (bad, authenticate_agent, begin_authentication, end_authentication) at h)
        | inr (cert, parsed) ↦
            elim (Bool-cases (ltb t.now cert.not_before || ltb cert.not_after t.now)) [
              | inl outside ↦ cc (
                  rw (parsed, authenticate_agent, begin_authentication, outside, end_authentication)
                    at h)
              | inr inside ↦ (
                cert,
                (parsed, ground arith, ground arith),
                end_authentication_justified a t agent_id pem token cert (get_pinned a t agent_id)
                    refl (rw (parsed, authenticate_agent, begin_authentication, inside) at h),
              )
            ]
      ]

  get_pinned-held :
      (a : AgentAuth) (t : Moment) (table : Table Text PinnedCertificate) (agent_id : Text)
      (p : PinnedCertificate)
      → a.store ≡ some table
      → t.reads ≡ true
      → lookup agent_id table ≡ some p
      → get_pinned a t agent_id ≡ got p
  unfolding get_pinned
  get_pinned-held a t table agent_id p stored reads found =
      rw (stored, get_pinned, reads, found) refl

  save_pinned-held :
      (a : AgentAuth) (t : Moment) (table : Table Text PinnedCertificate) (p : PinnedCertificate)
      → a.store ≡ some table
      → t.writes ≡ true
      → save_pinned a t p ≡ (record a { store = some (insert p.agent_id p table) }, none)
  unfolding save_pinned
  save_pinned-held a t table p stored writes = rw (stored, save_pinned, writes) refl

  revoke_certificate-held :
      (a : AgentAuth) (t : Moment) (table : Table Text PinnedCertificate) (agent_id reason : Text)
      (p : PinnedCertificate)
      → a.store ≡ some table
      → t.writes ≡ true
      → get_pinned a t agent_id ≡ got p
      → revoke_certificate a t agent_id reason
        ≡ (record a { store = some (insert p.agent_id (as_revoked t.now reason p) table) }, none)
  unfolding revoke_certificate
  revoke_certificate-held a t table agent_id reason p stored writes e =
      rw (e, revoke_certificate) (save_pinned-held a t table _ stored writes)

  begin_authentication-known :
      (a : AgentAuth) (t : Moment) (agent_id pem : Text) (cert : Certificate)
      (p : PinnedCertificate)
      → IsValidAt t.now pem cert
      → get_pinned a t agent_id ≡ got p
      → begin_authentication crypto a t agent_id pem ≡ known p (calculate_fingerprint crypto cert)
  unfolding begin_authentication
  begin_authentication-known a t agent_id pem cert p (parsed, after, before) e =
      rw (parsed, begin_authentication, after, before, e) refl

  verify_known_agent-live :
      (a : AgentAuth) (t : Moment) (p : PinnedCertificate) (fingerprint : Text)
      → p.revoked ≡ false
      → p.fingerprint ≡ fingerprint
      → verify_known_agent a t p fingerprint
        ≡ ((save_pinned a t (record p { last_seen = t.now })).0, none)
  unfolding verify_known_agent
  verify_known_agent-live a t p fingerprint live same =
      rw (live, (==_iff fingerprint p.fingerprint).1 (sym same)) refl

  -- An authentication that has read the store when a revocation is made, and writes after it, undoes the
  -- revocation: the revocation succeeds, the authentication succeeds, and so does the next one with
  -- the same certificate, if the agent is pinned under its id with the fingerprint of a certificate
  -- that is valid at both times, is not revoked, and the store can be read and written.
  pub revoke_certificate_lost :
      (a : AgentAuth) (table : Table Text PinnedCertificate) (p : PinnedCertificate)
      (cert : Certificate) (t later : Moment) (agent_id pem token reason : Text)
      → a.store ≡ some table
      → lookup agent_id table ≡ some p
      → p.agent_id ≡ agent_id
      → p.revoked ≡ false
      → p.fingerprint ≡ calculate_fingerprint crypto cert
      → IsValidAt t.now pem cert
      → IsValidAt later.now pem cert
      → t.reads ≡ true
      → t.writes ≡ true
      → later.reads ≡ true
      → let begun = begin_authentication crypto a t agent_id pem in
        let after = revoke_certificate a t agent_id reason in
        let done = end_authentication crypto after.0 t agent_id pem token begun in
        (after.1 ≡ none)
        × (done.1 ≡ none)
        × ((authenticate_agent crypto done.0 later agent_id pem token).1 ≡ none)
  unfolding authenticate_agent begin_authentication end_authentication revoke_certificate get_pinned
      save_pinned verify_known_agent
  revoke_certificate_lost a table p cert t later agent_id pem token reason stored found own live
        same valid valid2 reads writes reads2 =
      let fingerprint = calculate_fingerprint crypto cert in
      let gone = as_revoked t.now reason p in
      let back : PinnedCertificate = record p { last_seen = t.now } in
      let revoked_table = insert p.agent_id gone table in
      let final_table = insert p.agent_id back revoked_table in
      let revoked_auth : AgentAuth = record a { store = some revoked_table } in
      let final : AgentAuth = record a { store = some final_table } in
      let before = get_pinned-held a t table agent_id p stored reads found in
      let revoking = revoke_certificate-held a t table agent_id reason p stored writes before in
      let saving = save_pinned-held revoked_auth t revoked_table back refl writes in
      let held = get_pinned-held final later final_table agent_id back refl reads2 (
        subst (λ k. lookup k final_table ≡ some back) own
          (lookup-insert_same p.agent_id back revoked_table)) in
      let again = begin_authentication-known final later agent_id pem cert back valid2 held in
      rw
        (
          begin_authentication-known a t agent_id pem cert p valid before,
          revoking,
          verify_known_agent-live revoked_auth t p fingerprint live same,
          saving,
          again,
          verify_known_agent-live final later back fingerprint live same,
        )
        (refl, refl, refl)
