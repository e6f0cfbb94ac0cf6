-- ===== src/Common/KeyTests.antt =====
-- Keys of backends, one of them with an IPv6 address.
use open_gslb.Common.{ℕ, ◌≡◌, refl, codes, arith}
use open_gslb.Common.Keys.{backend_key-injective}

backend_key-injective_example :
    (codes "app" ≡ codes "app") × (codes "fe80::1" ≡ codes "fe80::1") × (◌≡◌ {A = ℕ} 80 80)
backend_key-injective_example =
    backend_key-injective (codes "app") (codes "app") (codes "fe80::1") (codes "fe80::1") 80 80
      (ground arith) (ground arith) (omega arith) (omega arith) refl
