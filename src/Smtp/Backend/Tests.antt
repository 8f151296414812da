-- ===== src/Smtp/Backend/Tests.antt =====
-- The properties of the shared state at concrete inputs.
use sendry.Base.{◌≡◌, refl, none, some, [], ◌∷◌, codes, lookup, arith}
use sendry.Smtp.Backend.{
  Backend, AuthFailures, check_auth_blocked, record_auth_failure, cleanup_expired_auth_failures,
}
use sendry.Smtp.Backend.Forgetting.{cleanup-Same}

abbrev server : Backend
server = record {
  auth = none;
  rate_limiter = none;
  allowed_domains = [];
  max_auth_failures = 2;
  auth_block_duration = 9;
  auth_failure_window = 3;
}

abbrev failures : AuthFailures
failures = (codes "10.0.0.1", record { count = 2; last_fail = some 1; blocked_at = some 1 }) ∷ []

cleanup-Same_example :
    let m' = cleanup_expired_auth_failures server 20 failures in
    (check_auth_blocked server 21 (codes "10.0.0.1") m'
      ≡ check_auth_blocked server 21 (codes "10.0.0.1") failures)
    × ((record_auth_failure server 21 (codes "10.0.0.1") m').0
        ≡ (record_auth_failure server 21 (codes "10.0.0.1") failures).0)
    × (lookup (codes "10.0.0.1") (record_auth_failure server 21 (codes "10.0.0.1") m').1
        ≡ lookup (codes "10.0.0.1") (record_auth_failure server 21 (codes "10.0.0.1") failures).1)
unfolding lookup
cleanup-Same_example =
    cleanup-Same server 20 21 (codes "10.0.0.1") failures (omega arith) (refl, tt)
