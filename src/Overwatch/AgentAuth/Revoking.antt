-- ===== src/Overwatch/AgentAuth/Revoking.antt =====
-- pkg/overwatch/agent_auth.go: a revocation over any calls, none of which runs inside another.
use open_gslb.Common.{
  ◌≡◌, ◌≢◌, sym, ◌∙◌, subst, inl, inr, Text, none, some, some-injective, true, ◌||◌, List, [], ◌∷◌,
  ltb, text_eq, Bool-cases, Option-cases,
}
use open_gslb.Common.Table.{Table, AllEntries}
use open_gslb.Overwatch.AgentAuth.{
  Crypto, PinnedCertificate, AgentAuth, Moment, verify_known_agent, begin_authentication,
  end_authentication, authenticate_agent, update_certificate, revoke_certificate, delete_pinned,
}
use open_gslb.Overwatch.AgentAuth.Revoked.{
  OwnId, IsRevoked, get_pinned-lookup, delete_pinned-IsRevoked, revoke_certificate-IsRevoked,
  revoke_certificate_done, update_certificate-IsRevoked, authenticate_agent-IsRevoked,
}

pub data Op : Type 0 where
  do_authenticate do_update : Text → Text → Text → Op
  do_revoke : Text → Text → Op
  do_delete : Text → Op

unfoldable pub step : Crypto → AgentAuth → Moment → Op → AgentAuth
step crypto a t (do_authenticate agent_id pem token) =
    (authenticate_agent crypto a t agent_id pem token).0
step crypto a t (do_update agent_id pem old) = (update_certificate crypto a t agent_id pem old).0
step crypto a t (do_revoke agent_id reason) = (revoke_certificate a t agent_id reason).0
step crypto a t (do_delete agent_id) = (delete_pinned a t agent_id).0

unfoldable pub run : Crypto → AgentAuth → List (Moment × Op) → AgentAuth
run crypto a [] = a
run crypto a ((t, o) ∷ ops) = run crypto (step crypto a t o) ops

-- No call of the list deletes what is pinned of an agent.
abbrev pub NeverDeletes : Text → List (Moment × Op) → Type 0
NeverDeletes agent_id [] = Unit
NeverDeletes agent_id ((t, do_delete other) ∷ ops) = (other ≢ agent_id) × NeverDeletes agent_id ops
NeverDeletes agent_id (o ∷ ops) = NeverDeletes agent_id ops

module _ (crypto : Crypto) where
  run-IsRevoked :
      (agent_id : Text) (ops : List (Moment × Op)) (a : AgentAuth)
      → NeverDeletes agent_id ops
      → IsRevoked agent_id a
      → IsRevoked agent_id (run crypto a ops)
  unfolding run step
  run-IsRevoked agent_id [] a never i = i
  run-IsRevoked agent_id ((t, do_authenticate key pem token) ∷ ops) a never i =
      run-IsRevoked agent_id ops _ never
        (authenticate_agent-IsRevoked crypto a t agent_id key pem token i)
  run-IsRevoked agent_id ((t, do_update key pem old) ∷ ops) a never i =
      run-IsRevoked agent_id ops _ never
        (update_certificate-IsRevoked crypto a t agent_id key pem old i)
  run-IsRevoked agent_id ((t, do_revoke key reason) ∷ ops) a never i =
      run-IsRevoked agent_id ops _ never (revoke_certificate-IsRevoked a t agent_id key reason i)
  run-IsRevoked agent_id ((t, do_delete key) ∷ ops) a never i =
      run-IsRevoked agent_id ops _ never.1 (delete_pinned-IsRevoked a t agent_id key never.0 i)

  authenticate_agent-revoked :
      (a : AgentAuth) (t : Moment) (agent_id pem token : Text)
      → IsRevoked agent_id a
      → (authenticate_agent crypto a t agent_id pem token).1 ≢ none
  unfolding authenticate_agent begin_authentication end_authentication verify_known_agent
  authenticate_agent-revoked a t agent_id pem token i =
      elim (Option-cases (crypto.parse_certificate pem)) [
        | inl bad ↦
            rw (bad, authenticate_agent, begin_authentication, end_authentication) (λ k. cc k)
        | inr (cert, parsed) ↦
            elim (Bool-cases (ltb t.now cert.not_before || ltb cert.not_after t.now)) [
              | inl outside ↦
                  rw (parsed, authenticate_agent, begin_authentication, outside, end_authentication)
                    (λ k. cc k)
              | inr inside ↦ elim (get_pinned-lookup a t i.table agent_id i.stored) [
                | inl e ↦
                    rw
                      (
                        parsed, authenticate_agent, begin_authentication, inside, e,
                        end_authentication,
                      )
                      (λ k. cc k)
                | inr (inl (absent, e)) ↦ cc (absent, i.found)
                | inr (inr (p, found, e)) ↦
                    let same = some-injective _ _ (sym i.found ∙ found) in
                    let gone = subst (λ q. q.revoked ≡ true) same i.revoked in
                    rw
                      (
                        parsed, authenticate_agent, begin_authentication, inside, e,
                        end_authentication, verify_known_agent, gone,
                      )
                      (λ k. cc k)
              ]
            ]
      ]

  -- Once the revocation of an agent's certificate has succeeded, on a store that holds every certificate
  -- under its own agent's id, the agent is never let in again, with any certificate and any token, and
  -- whatever calls come between, as long as none of them deletes what is pinned of the agent and
  -- each call ends before the next begins.
  pub revoke_certificate_lasts :
      (a : AgentAuth) (t : Moment) (table : Table Text PinnedCertificate) (agent_id reason : Text)
      (ops : List (Moment × Op)) (later : Moment) (pem token : Text)
      → a.store ≡ some table
      → AllEntries OwnId table
      → (revoke_certificate a t agent_id reason).1 ≡ none
      → NeverDeletes agent_id ops
      → (authenticate_agent crypto
          (run crypto (revoke_certificate a t agent_id reason).0 ops)
          later
          agent_id
          pem
          token).1
        ≢ none
  revoke_certificate_lasts a t table agent_id reason ops later pem token stored keyed done never =
      authenticate_agent-revoked _ later agent_id pem token (
        run-IsRevoked agent_id ops _ never
          (revoke_certificate_done a t table agent_id reason stored keyed done))
