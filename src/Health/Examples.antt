-- ===== src/Health/Examples.antt =====
-- A health check with a file that must exist.
use verm.Prelude.{[], codes, ◌≡◌, ◌⊎◌, ◌↔◌, true, false}
use verm.Health.{found, is_not_exist, HealthCheckServer, add_root, serve_health}
use verm.Health.Answers.{add_root-add_root, serve_health_iff}

adds_once : add_root (add_root (codes "tmp/ok")) ≡ add_root (codes "tmp/ok")
adds_once = add_root-add_root (codes "tmp/ok")

abbrev server : HealthCheckServer
server = record { healthy_if_file = codes "/tmp/ok"; healthy_unless_file = [] }

serve_health_iff_example : ((serve_health (λ path. found) server).status ≡ 200) ↔ (
    ((server.healthy_if_file ≡ []) ⊎ (is_not_exist found ≡ false))
    × ((server.healthy_unless_file ≡ []) ⊎ (is_not_exist found ≡ true)))
serve_health_iff_example = serve_health_iff (λ path. found) server
