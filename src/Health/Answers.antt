-- ===== src/Health/Answers.antt =====
-- When the health check says that the server is online.
use verm.Prelude.{true, false, [], ◌∷◌, Bytes, bytes_eq_iff, ◌≡◌, ◌⊎◌, ◌↔◌, refl, arith}
use verm.Http.{write_header, write, http_error, set_header}
use verm.Health.{
  Stat, is_not_exist, HealthCheckServer, add_root, online, offline, check_unless, serve_health,
}

-- A path with a root is left as it is.
pub add_root-add_root : (path : Bytes) → add_root (add_root path) ≡ add_root path
unfolding add_root
add_root-add_root [] = refl
add_root-add_root (c ∷ path) = ground arith

online_status : online.status ≡ 200
unfolding online write write_header
online_status = refl

offline_status : offline.status ≡ 503
unfolding offline http_error set_header write write_header
offline_status = refl

-- The status is 200 exactly if the first file, where one is given, may exist, and the second one, where
-- one is given, does not.
pub serve_health_iff :
    (stat : Bytes → Stat) (server : HealthCheckServer)
    → ((serve_health stat server).status ≡ 200) ↔ (
        ((server.healthy_if_file ≡ []) ⊎ (is_not_exist (stat server.healthy_if_file) ≡ false))
        × ((server.healthy_unless_file ≡ [])
            ⊎ (is_not_exist (stat server.healthy_unless_file) ≡ true)))
unfolding serve_health check_unless
serve_health_iff stat server = ground (
  arith,
  online_status,
  offline_status,
  bytes_eq_iff server.healthy_if_file [],
  bytes_eq_iff server.healthy_unless_file [],
)
