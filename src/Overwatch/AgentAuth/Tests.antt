-- ===== src/Overwatch/AgentAuth/Tests.antt =====
-- Calls of pkg/overwatch/agent_auth.go on a store with one agent.
use open_gslb.Common.{
  ℕ, ◌≡◌, ◌≢◌, refl, Text, codes, none, some, true, false, List, [], ◌∷◌, text_eq, ◌⊎◌, text_beq,
}
use open_gslb.Common.Table.{Table, lookup}
use open_gslb.Overwatch.AgentAuth.{
  Certificate, Crypto, PinnedCertificate, AgentAuth, Moment, calculate_fingerprint,
  begin_authentication, end_authentication, authenticate_agent, revoke_certificate,
}
use open_gslb.Overwatch.AgentAuth.Trusting.{
  IsValidAt, IsKnown, IsNew, authenticate_agent_justified, revoke_certificate_lost,
}
use open_gslb.Overwatch.AgentAuth.Revoking.{
  Op, do_authenticate, do_update, do_delete, run, revoke_certificate_lasts,
}

-- A certificate is its own text and always valid, and a hash is what it is of.
abbrev plain : Crypto
plain = record {
  parse_certificate = λ pem. some (record {
    raw = pem;
    common_name = codes "opengslb-agent-eu";
    not_before = 0;
    not_after = 100;
  });
  sha256 = λ t. t;
  hex = λ t. t;
}

abbrev pinned_one : PinnedCertificate
pinned_one = record {
  agent_id = codes "n1";
  fingerprint = codes "cert";
  certificate_pem = codes "cert";
  region = codes "eu";
  first_seen = 1;
  last_seen = 1;
  not_after = 100;
  revoked = false;
  revoked_at = 0;
  revoked_reason = [];
}

abbrev pinned_table : Table Text PinnedCertificate
pinned_table = (codes "n1", pinned_one) ∷ []

abbrev with_one : AgentAuth
with_one = record { store = some pinned_table; token_hashes = codes "token" ∷ [] }

abbrev at_time : ℕ → Moment
at_time now = record { now = now; reads = true; writes = true }

abbrev certificate : Certificate
certificate = record {
  raw = codes "cert";
  common_name = codes "opengslb-agent-eu";
  not_before = 0;
  not_after = 100;
}

let_in : (authenticate_agent plain with_one (at_time 5) (codes "n1") (codes "cert") []).1 ≡ none
unfolding authenticate_agent lookup text_beq
let_in = refl

authenticate_agent_justified_example :
    (cert : Certificate) × IsValidAt plain 5 (codes "cert") cert
    × (IsKnown plain with_one (at_time 5) (codes "n1") cert
        ⊎ IsNew plain with_one (at_time 5) (codes "n1") [])
authenticate_agent_justified_example =
    authenticate_agent_justified plain with_one (at_time 5) (codes "n1") (codes "cert") [] let_in

revoke_certificate_lost_example :
    let begun = begin_authentication plain with_one (at_time 5) (codes "n1") (codes "cert") in
    let after = revoke_certificate with_one (at_time 5) (codes "n1") (codes "stolen") in
    let done = end_authentication plain after.0 (at_time 5) (codes "n1") (codes "cert") [] begun in
    (after.1 ≡ none)
    × (done.1 ≡ none)
    × ((authenticate_agent plain done.0 (at_time 6) (codes "n1") (codes "cert") []).1 ≡ none)
unfolding calculate_fingerprint lookup text_beq
revoke_certificate_lost_example =
    revoke_certificate_lost plain with_one pinned_table pinned_one certificate (at_time 5)
      (at_time 6) (codes "n1") (codes "cert") [] (codes "stolen") refl refl refl refl refl
      (refl, refl, refl) (refl, refl, refl) refl refl refl

revoking_done : (revoke_certificate with_one (at_time 5) (codes "n1") (codes "stolen")).1 ≡ none
unfolding revoke_certificate lookup text_beq
revoking_done = refl

abbrev between : List (Moment × Op)
between =
    (at_time 6, do_authenticate (codes "n1") (codes "cert") (codes "token"))
    ∷ (at_time 7, do_update (codes "n1") (codes "new") (codes "cert"))
    ∷ (at_time 8, do_delete [])
    ∷ []

revoke_certificate_lasts_example :
    (authenticate_agent plain
      (run plain (revoke_certificate with_one (at_time 5) (codes "n1") (codes "stolen")).0 between)
      (at_time 9)
      (codes "n1")
      (codes "new")
      (codes "token")).1
    ≢ none
revoke_certificate_lasts_example =
    revoke_certificate_lasts plain with_one (at_time 5) pinned_table (codes "n1") (codes "stolen")
      between (at_time 9) (codes "new") (codes "token") refl (refl, tt) revoking_done
      ((λ e. cc e), tt)
