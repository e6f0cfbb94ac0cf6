-- ===== src/Provider/Tests.antt =====
-- Runs of cmd/opengslb/server_provider.go with an IPv4 and an IPv6 server.
use open_gslb.Common.{
  ℕ, ◌/◌, ◌+◌, ◌≡◌, refl, Text, codes, none, some, true, false, [], arith, text_eq,
}
use open_gslb.Common.Table.{lookup}
use open_gslb.Common.Keys.{backend_key}
use open_gslb.Overwatch.Registry.State.{Floats, Registry, Moment}
use open_gslb.Provider.{
  BackendServer, invalid_id, service_of, create_server, update_server, delete_server,
}
use open_gslb.Provider.Identifiers.{IsComplete, delete_server-create_server, delete_server-colon}

abbrev numbers : Floats
numbers = record {
  Float = ℕ;
  zero_float = 0;
  in_unit_interval = λ x. true;
  three_tenths = 30;
  mean = λ a x y. (x + y) / 2;
}

abbrev no_backends : Registry numbers
no_backends = record {
  stale_threshold = 30;
  remove_after = 300;
  smoothing = 30;
  backends = [];
  store = none;
  listening = false;
  notified = [];
}

abbrev at_time : ℕ → Moment
at_time now = record { now = now; saved = true }

abbrev web : BackendServer
web = record {
  name = codes "web";
  address = codes "10.0.0.1";
  port = 80;
  weight = 0;
  region = codes "eu";
  metadata = [];
}

web-IsComplete : IsComplete web
unfolding service_of lookup
web-IsComplete = record {
  address_given = λ e. cc e;
  port_given = ground arith;
  region_given = λ e. cc e;
  service_given = λ e. cc e;
}

delete_server-create_server_example :
    let created = create_server no_backends (at_time 1) web in
    let deleted =
      delete_server created.0 (at_time 2) (backend_key (service_of web) (codes "10.0.0.1") 80) in
    (created.1 ≡ none)
    × (deleted.1 ≡ none)
    × ((key : Text) → lookup key deleted.0.backends ≡ lookup key no_backends.backends)
unfolding service_of lookup
delete_server-create_server_example =
    delete_server-create_server no_backends (at_time 1) (at_time 2) web web-IsComplete
      (ground arith) (ground arith) (omega arith) refl

delete_server-colon_example :
    let id = backend_key (codes "web") (codes "::1") 80 in
    (delete_server no_backends (at_time 1) id ≡ (no_backends, some invalid_id))
    × (update_server no_backends (at_time 1) id web ≡ (no_backends, some invalid_id))
delete_server-colon_example =
    delete_server-colon no_backends (at_time 1) (codes "web") (codes "::1") 80 web (λ l. l.0 refl)
