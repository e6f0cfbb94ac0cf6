-- ===== src/Overwatch/AgentAuth.antt =====
-- pkg/overwatch/agent_auth.go: trust on first use. The store is a table under the agents' ids, what is
-- saved is read back, and whether a call of it succeeds is an argument. Certificates and hashes are
-- parameters.
mod Revoked
pub mod Revoking
pub mod Trusting
mod Tests
use open_gslb.Common.{
  ℕ, ◌+◌, Text, codes, Option, none, some, Bool, true, false, not, ◌&&◌, ◌||◌, List, [], ◌∷◌, map,
  length, ltb, take, drop, Comparable, ◌==◌, text_eq, if◌then◌else◌,
}
use open_gslb.Common.Table.{Table, lookup, insert, erase, mentions}

pub record Certificate : Type 0 where
  pub raw : Text
  pub common_name : Text
  pub not_before : ℕ
  pub not_after : ℕ

-- `pem.Decode` with `x509.ParseCertificate`, `sha256.Sum256` and `hex.EncodeToString`.
pub record Crypto : Type 0 where
  pub parse_certificate : Text → Option Certificate
  pub sha256 : Text → Text
  pub hex : Text → Text

pub record PinnedCertificate : Type 0 where
  pub agent_id : Text
  pub fingerprint : Text
  pub certificate_pem : Text
  pub region : Text
  pub first_seen : ℕ
  pub last_seen : ℕ
  pub not_after : ℕ
  pub revoked : Bool
  pub revoked_at : ℕ
  pub revoked_reason : Text

pub record AgentAuth : Type 0 where
  pub store : Option (Table Text PinnedCertificate)
  pub token_hashes : List Text

-- What a call meets: the time, and whether the store can be read and written.
pub record Moment : Type 0 where
  pub now : ℕ
  pub reads : Bool
  pub writes : Bool

pub data AuthError : Type 0 where
  agent_not_found invalid_token fingerprint_mismatch certificate_expired certificate_revoked
        invalid_certificate store_failed :
      AuthError

unfoldable pub new_agent_auth :
    Crypto → List Text → Option (Table Text PinnedCertificate) → AgentAuth
new_agent_auth crypto tokens store = record {
  store = store;
  token_hashes = map crypto.sha256 tokens;
}

unfoldable pub validate_service_token : Crypto → AgentAuth → Text → Bool
validate_service_token crypto a token = mentions a.token_hashes (crypto.sha256 token)

unfoldable pub calculate_fingerprint : Crypto → Certificate → Text
calculate_fingerprint crypto cert = crypto.hex (crypto.sha256 cert.raw)

unfoldable pub extract_region : Certificate → Text
extract_region cert =
    let prefix = codes "opengslb-agent-" in
    if ltb (length prefix) (length cert.common_name)
      && take (length prefix) cert.common_name == prefix
    then drop (length prefix) cert.common_name
    else []

-- `GetPinnedCertificate`: a certificate, `ErrAgentNotFound`, or another error.
pub data Got : Type 0 where
  got : PinnedCertificate → Got
  not_pinned unreadable : Got

unfoldable pub get_pinned : AgentAuth → Moment → Text → Got
get_pinned a t agent_id = elim a.store [
  | none ↦ not_pinned
  | some table ↦
      if t.reads
      then (elim (lookup agent_id table) [ none ↦ not_pinned | some pinned ↦ got pinned ])
      else unreadable
]

-- `savePinnedCertificate`, with its error.
unfoldable pub save_pinned : AgentAuth → Moment → PinnedCertificate → AgentAuth × Option AuthError
save_pinned a t pinned = elim a.store [
  | none ↦ (a, none)
  | some table ↦
      if t.writes
      then (record a { store = some (insert pinned.agent_id pinned table) }, none)
      else (a, some store_failed)
]

-- `verifyKnownAgent`: that the last write fails is only logged.
unfoldable pub verify_known_agent :
    AgentAuth → Moment → PinnedCertificate → Text → AgentAuth × Option AuthError
unfolding save_pinned
verify_known_agent a t pinned fingerprint =
    if pinned.revoked
    then (a, some certificate_revoked)
    else if fingerprint == pinned.fingerprint
    then ((save_pinned a t (record pinned { last_seen = t.now })).0, none)
    else (a, some fingerprint_mismatch)

-- What is pinned of a new agent.
unfoldable pub new_pinned : ℕ → Text → Text → Text → Certificate → PinnedCertificate
unfolding extract_region
new_pinned now agent_id pem fingerprint cert = record {
  agent_id = agent_id;
  fingerprint = fingerprint;
  certificate_pem = pem;
  region = extract_region cert;
  first_seen = now;
  last_seen = now;
  not_after = cert.not_after;
  revoked = false;
  revoked_at = 0;
  revoked_reason = [];
}

-- How far `AuthenticateAgent` is once it has read the store; it takes no lock.
pub data Halfway : Type 0 where
  refused : AuthError → Halfway
  known : PinnedCertificate → Text → Halfway
  unknown : Certificate → Text → Halfway

module _ (crypto : Crypto) where
  open crypto use {parse_certificate}

  unfoldable pub register_new_agent :
      AgentAuth → Moment → Text → Text → Text → Text → Certificate → AgentAuth × Option AuthError
  unfolding validate_service_token new_pinned save_pinned
  register_new_agent a t agent_id pem fingerprint token cert =
      if validate_service_token crypto a token
      then save_pinned a t (new_pinned t.now agent_id pem fingerprint cert)
      else (a, some invalid_token)

  -- `AuthenticateAgent` up to the read of the store.
  unfoldable pub begin_authentication : AgentAuth → Moment → Text → Text → Halfway
  unfolding calculate_fingerprint get_pinned
  begin_authentication a t agent_id pem = elim (parse_certificate pem) [
    | none ↦ refused invalid_certificate
    | some cert ↦
        if ltb t.now cert.not_before || ltb cert.not_after t.now
        then refused certificate_expired
        else (elim (get_pinned a t agent_id) [
          | got pinned ↦ known pinned (calculate_fingerprint crypto cert)
          | not_pinned ↦ unknown cert (calculate_fingerprint crypto cert)
          | unreadable ↦ refused store_failed
        ])
  ]

  -- The rest of it, on the store as it then is.
  unfoldable pub end_authentication :
      AgentAuth → Moment → Text → Text → Text → Halfway → AgentAuth × Option AuthError
  unfolding verify_known_agent register_new_agent
  end_authentication a t agent_id pem token (refused e) = (a, some e)
  end_authentication a t agent_id pem token (known pinned fingerprint) =
      verify_known_agent a t pinned fingerprint
  end_authentication a t agent_id pem token (unknown cert fingerprint) =
      register_new_agent a t agent_id pem fingerprint token cert

  -- `AuthenticateAgent`, when no other call comes between.
  unfoldable pub authenticate_agent :
      AgentAuth → Moment → Text → Text → Text → AgentAuth × Option AuthError
  unfolding begin_authentication end_authentication
  authenticate_agent a t agent_id pem token =
      end_authentication a t agent_id pem token (begin_authentication a t agent_id pem)

  unfoldable pub update_certificate :
      AgentAuth → Moment → Text → Text → Text → AgentAuth × Option AuthError
  unfolding get_pinned calculate_fingerprint save_pinned
  update_certificate a t agent_id pem old = elim (get_pinned a t agent_id) [
    | not_pinned ↦ (a, some agent_not_found)
    | unreadable ↦ (a, some store_failed)
    | got pinned ↦
        if not (old == pinned.fingerprint)
        then (a, some fingerprint_mismatch)
        else (elim (parse_certificate pem) [
          | none ↦ (a, some invalid_certificate)
          | some cert ↦ save_pinned a t (record pinned {
            certificate_pem = pem;
            fingerprint = calculate_fingerprint crypto cert;
            not_after = cert.not_after;
            last_seen = t.now;
          })
        ])
  ]

abbrev pub as_revoked : ℕ → Text → PinnedCertificate → PinnedCertificate
as_revoked now reason p = record p { revoked = true; revoked_at = now; revoked_reason = reason }

unfoldable pub revoke_certificate : AgentAuth → Moment → Text → Text → AgentAuth × Option AuthError
unfolding get_pinned save_pinned
revoke_certificate a t agent_id reason = elim (get_pinned a t agent_id) [
  | not_pinned ↦ (a, some agent_not_found)
  | unreadable ↦ (a, some store_failed)
  | got pinned ↦ save_pinned a t (as_revoked t.now reason pinned)
]

unfoldable pub delete_pinned : AgentAuth → Moment → Text → AgentAuth × Option AuthError
delete_pinned a t agent_id = elim a.store [
  | none ↦ (a, none)
  | some table ↦
      if t.writes
      then (record a { store = some (erase agent_id table) }, none)
      else (a, some store_failed)
]

unfoldable pub values : Table Text PinnedCertificate → List PinnedCertificate
values [] = []
values ((agent_id, pinned) ∷ table) = pinned ∷ values table

-- `ListPinnedCertificates`; `none` is the error of the store.
unfoldable pub list_pinned : AgentAuth → Moment → Option (List PinnedCertificate)
unfolding values
list_pinned a t = elim a.store [
  | none ↦ some []
  | some table ↦ if t.reads then some (values table) else none
]

unfoldable pub expiring : ℕ → List PinnedCertificate → List PinnedCertificate
expiring deadline [] = []
expiring deadline (p ∷ ps) =
    let rest = expiring deadline ps in
    if not p.revoked && ltb p.not_after deadline then p ∷ rest else rest

unfoldable pub get_expiring : AgentAuth → Moment → ℕ → Option (List PinnedCertificate)
unfolding list_pinned expiring
get_expiring a t threshold = elim (list_pinned a t) [
  | none ↦ none
  | some all ↦ some (expiring (t.now + threshold) all)
]
