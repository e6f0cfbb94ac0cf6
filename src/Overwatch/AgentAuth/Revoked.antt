-- ===== src/Overwatch/AgentAuth/Revoked.antt =====
-- pkg/overwatch/agent_auth.go: no call but a deletion undoes a revocation.
use open_gslb.Common.{
  ◌≡◌, ◌≢◌, refl, sym, ◌∙◌, subst, ◌⊎◌, inl, inr, Text, none, some, some-injective, true, false,
  ◌||◌, ltb, ◌==◌, ==_iff, text_eq, Bool-cases, Option-cases, arith,
}
use open_gslb.Common.Table.{
  Table, lookup, insert, erase, lookup-insert, lookup-insert_same, lookup-erase, AllEntries,
  AllEntries-insert, AllEntries-erase, AllEntries-lookup,
}
use open_gslb.Overwatch.AgentAuth.{
  Certificate, Crypto, PinnedCertificate, AgentAuth, Moment, got, not_pinned, unreadable,
  get_pinned, save_pinned, verify_known_agent, new_pinned, validate_service_token,
  register_new_agent, begin_authentication, end_authentication, authenticate_agent,
  update_certificate, as_revoked, revoke_certificate, delete_pinned,
}

abbrev pub OwnId : Text → PinnedCertificate → Type 0
OwnId key p = p.agent_id ≡ key

-- The agent is pinned as revoked, and every certificate is under its own agent's id.
pub record IsRevoked (agent_id : Text) (a : AgentAuth) : Type 0 where
  pub table : Table Text PinnedCertificate
  pub stored : a.store ≡ some table
  pub keyed : AllEntries OwnId table
  pub pinned : PinnedCertificate
  pub found : lookup agent_id table ≡ some pinned
  pub revoked : pinned.revoked ≡ true

pub get_pinned-lookup :
    (a : AgentAuth) (t : Moment) (table : Table Text PinnedCertificate) (key : Text)
    → a.store ≡ some table
    → (get_pinned a t key ≡ unreadable)
      ⊎ ((lookup key table ≡ none) × (get_pinned a t key ≡ not_pinned))
      ⊎ ((p : PinnedCertificate) × (lookup key table ≡ some p) × (get_pinned a t key ≡ got p))
unfolding get_pinned
get_pinned-lookup a t table key stored = elim (Bool-cases t.reads) [
  | inr fails ↦ inl (rw (stored, get_pinned, fails) refl)
  | inl reads ↦ elim (Option-cases (lookup key table)) [
    | inl e ↦ inr (inl (e, rw (stored, get_pinned, reads, e) refl))
    | inr (p, e) ↦ inr (inr (p, e, rw (stored, get_pinned, reads, e) refl))
  ]
]

-- A save keeps the revocation, unless it puts another certificate of the agent there.
save_pinned-IsRevoked :
    (a : AgentAuth) (t : Moment) (agent_id : Text) (p : PinnedCertificate)
    → (p.agent_id ≡ agent_id → p.revoked ≡ true)
    → IsRevoked agent_id a
    → IsRevoked agent_id (save_pinned a t p).0
unfolding save_pinned
save_pinned-IsRevoked a t agent_id p same i = elim (Bool-cases t.writes) [
  | inr fails ↦ rw (i.stored, save_pinned, fails) i
  | inl writes ↦
      rw (i.stored, save_pinned, writes)
        (elim (Bool-cases (p.agent_id == agent_id)) [
          | inl equal ↦ record {
            table = insert p.agent_id p i.table;
            stored = refl;
            keyed = AllEntries-insert OwnId p.agent_id p i.table refl i.keyed;
            pinned = p;
            found = rw (lookup-insert p.agent_id agent_id p i.table, equal) refl;
            revoked = same ((==_iff p.agent_id agent_id).0 equal);
          }
          | inr other ↦ record {
            table = insert p.agent_id p i.table;
            stored = refl;
            keyed = AllEntries-insert OwnId p.agent_id p i.table refl i.keyed;
            pinned = i.pinned;
            found = rw (lookup-insert p.agent_id agent_id p i.table, other) i.found;
            revoked = i.revoked;
          }
        ])
]

-- What is pinned under any key, if it is the agent's, is revoked.
held_revoked :
    (a : AgentAuth) (agent_id key : Text) (p : PinnedCertificate)
    → (i : IsRevoked agent_id a) → lookup key i.table ≡ some p
    → p.agent_id ≡ agent_id
    → p.revoked ≡ true
held_revoked a agent_id key p i found same =
    let own = AllEntries-lookup OwnId key p i.table i.keyed found in
    let at = subst (λ k. lookup k i.table ≡ some p) (sym own ∙ same) found in
    subst (λ q. q.revoked ≡ true) (some-injective _ _ (sym i.found ∙ at)) i.revoked

pub delete_pinned-IsRevoked :
    (a : AgentAuth) (t : Moment) (agent_id other : Text)
    → other ≢ agent_id
    → IsRevoked agent_id a
    → IsRevoked agent_id (delete_pinned a t other).0
unfolding delete_pinned
delete_pinned-IsRevoked a t agent_id other ne i = elim (Bool-cases t.writes) [
  | inr fails ↦ rw (i.stored, delete_pinned, fails) i
  | inl writes ↦
      rw (i.stored, delete_pinned, writes)
        (record {
          table = erase other i.table;
          stored = refl;
          keyed = AllEntries-erase OwnId other i.table i.keyed;
          pinned = i.pinned;
          found =
              ground
                (arith, lookup-erase other agent_id i.table, ==_iff other agent_id, i.found, ne);
          revoked = i.revoked;
        })
]

pub revoke_certificate-IsRevoked :
    (a : AgentAuth) (t : Moment) (agent_id key reason : Text)
    → IsRevoked agent_id a
    → IsRevoked agent_id (revoke_certificate a t key reason).0
unfolding revoke_certificate
revoke_certificate-IsRevoked a t agent_id key reason i =
    elim (get_pinned-lookup a t i.table key i.stored) [
      | inl e ↦ rw (e, revoke_certificate) i
      | inr (inl (absent, e)) ↦ rw (e, revoke_certificate) i
      | inr (inr (p, found, e)) ↦
          rw (e, revoke_certificate)
            (save_pinned-IsRevoked a t agent_id (as_revoked t.now reason p) (λ same. refl) i)
    ]

pub revoke_certificate_done :
    (a : AgentAuth) (t : Moment) (table : Table Text PinnedCertificate) (agent_id reason : Text)
    → a.store ≡ some table
    → AllEntries OwnId table
    → (revoke_certificate a t agent_id reason).1 ≡ none
    → IsRevoked agent_id (revoke_certificate a t agent_id reason).0
unfolding revoke_certificate save_pinned
revoke_certificate_done a t table agent_id reason stored keyed done =
    elim (get_pinned-lookup a t table agent_id stored) [
      | inl e ↦ cc (rw (e, revoke_certificate) at done)
      | inr (inl (absent, e)) ↦ cc (rw (e, revoke_certificate) at done)
      | inr (inr (p, found, e)) ↦ elim (Bool-cases t.writes) [
        | inr fails ↦ cc (rw (e, revoke_certificate, stored, save_pinned, fails) at done)
        | inl writes ↦
            rw (e, revoke_certificate, stored, save_pinned, writes)
              (record {
                table = insert p.agent_id (as_revoked t.now reason p) table;
                stored = refl;
                keyed = AllEntries-insert OwnId p.agent_id _ table refl keyed;
                pinned = as_revoked t.now reason p;
                found =
                    subst
                      (λ k.
                        lookup k (insert p.agent_id (as_revoked t.now reason p) table)
                        ≡ some (as_revoked t.now reason p))
                      (AllEntries-lookup OwnId agent_id p table keyed found)
                      (lookup-insert_same p.agent_id (as_revoked t.now reason p) table);
                revoked = refl;
              })
      ]
    ]

module _ (crypto : Crypto) where
  pub update_certificate-IsRevoked :
      (a : AgentAuth) (t : Moment) (agent_id key pem old : Text)
      → IsRevoked agent_id a
      → IsRevoked agent_id (update_certificate crypto a t key pem old).0
  unfolding update_certificate
  update_certificate-IsRevoked a t agent_id key pem old i =
      elim (get_pinned-lookup a t i.table key i.stored) [
        | inl e ↦ rw (e, update_certificate) i
        | inr (inl (absent, e)) ↦ rw (e, update_certificate) i
        | inr (inr (p, found, e)) ↦ elim (Bool-cases (old == p.fingerprint)) [
          | inr wrong ↦ rw (e, update_certificate, wrong) i
          | inl right ↦ elim (Option-cases (crypto.parse_certificate pem)) [
            | inl bad ↦ rw (e, update_certificate, right, bad) i
            | inr (cert, parsed) ↦
                rw (e, update_certificate, right, parsed)
                  (save_pinned-IsRevoked a t agent_id _ (held_revoked a agent_id key p i found) i)
          ]
        ]
      ]

  verify_known_agent-IsRevoked :
      (a : AgentAuth) (t : Moment) (agent_id : Text) (p : PinnedCertificate) (fingerprint : Text)
      → (p.agent_id ≡ agent_id → p.revoked ≡ true)
      → IsRevoked agent_id a
      → IsRevoked agent_id (verify_known_agent a t p fingerprint).0
  unfolding verify_known_agent
  verify_known_agent-IsRevoked a t agent_id p fingerprint same i = elim (Bool-cases p.revoked) [
    | inl gone ↦ rw gone i
    | inr live ↦ elim (Bool-cases (fingerprint == p.fingerprint)) [
      | inr wrong ↦ rw (live, wrong) i
      | inl right ↦
          rw (live, right)
            (save_pinned-IsRevoked a t agent_id (record p { last_seen = t.now; revoked = false })
              (λ own. cc (same own, live)) i)
    ]
  ]

  register_new_agent-IsRevoked :
      (a : AgentAuth) (t : Moment) (agent_id key pem fingerprint token : Text) (cert : Certificate)
      → key ≢ agent_id
      → IsRevoked agent_id a
      → IsRevoked agent_id (register_new_agent crypto a t key pem fingerprint token cert).0
  unfolding register_new_agent new_pinned
  register_new_agent-IsRevoked a t agent_id key pem fingerprint token cert ne i =
      elim (Bool-cases (validate_service_token crypto a token)) [
        | inr invalid ↦ rw invalid i
        | inl valid ↦ rw valid (
            save_pinned-IsRevoked a t agent_id (new_pinned t.now key pem fingerprint cert)
              (λ e. elim (ne e) [ ]) i)
      ]

  pub authenticate_agent-IsRevoked :
      (a : AgentAuth) (t : Moment) (agent_id key pem token : Text)
      → IsRevoked agent_id a
      → IsRevoked agent_id (authenticate_agent crypto a t key pem token).0
  unfolding authenticate_agent begin_authentication end_authentication
  authenticate_agent-IsRevoked a t agent_id key pem token i =
      elim (Option-cases (crypto.parse_certificate pem)) [
        | inl bad ↦ rw (bad, authenticate_agent, begin_authentication, end_authentication) i
        | inr (cert, parsed) ↦
            elim (Bool-cases (ltb t.now cert.not_before || ltb cert.not_after t.now)) [
              | inl outside ↦
                  rw (parsed, authenticate_agent, begin_authentication, outside, end_authentication)
                    i
              | inr inside ↦ elim (get_pinned-lookup a t i.table key i.stored) [
                | inl e ↦
                    rw
                      (
                        parsed, authenticate_agent, begin_authentication, inside, e,
                        end_authentication,
                      )
                      i
                | inr (inl (absent, e)) ↦
                    rw
                      (
                        parsed, authenticate_agent, begin_authentication, inside, e,
                        end_authentication,
                      )
                      (register_new_agent-IsRevoked a t agent_id key pem _ token cert
                        (λ same. cc (subst (λ k. lookup k i.table ≡ none) same absent, i.found)) i)
                | inr (inr (p, found, e)) ↦
                    rw
                      (
                        parsed, authenticate_agent, begin_authentication, inside, e,
                        end_authentication,
                      )
                      (verify_known_agent-IsRevoked a t agent_id p _
                        (held_revoked a agent_id key p i found) i)
              ]
            ]
      ]
