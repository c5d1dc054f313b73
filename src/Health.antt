-- ===== src/Health.antt =====
-- health_check_server.go: whether the server says that it is online.
pub mod Answers
mod Examples
use verm.Prelude.{Bool, true, false, [], ◌∷◌, ◌++◌, Bytes, codes, bytes_eq, ◌==◌, if◌then◌else◌}
use verm.Http.{Response, write_header, write, http_error, empty_response}

-- What `os.Stat` finds: the file, that there is none, or another error.
pub data Stat : Type 0 where
  found not_exist failure : Stat

-- `os.IsNotExist` of the error
unfoldable pub is_not_exist : Stat → Bool
is_not_exist found = false
is_not_exist not_exist = true
is_not_exist failure = false

pub record HealthCheckServer : Type 0 where
  pub healthy_if_file : Bytes
  pub healthy_unless_file : Bytes

-- `AddRoot`
unfoldable pub add_root : Bytes → Bytes
add_root [] = []
add_root (c ∷ path) = if c == b'/' then c ∷ path else b'/' ∷ c ∷ path

-- the function `HealthCheckServer`
unfoldable pub health_check_server : Bytes → Bytes → HealthCheckServer
health_check_server healthy_if_file healthy_unless_file = record {
  healthy_if_file = add_root healthy_if_file;
  healthy_unless_file = add_root healthy_unless_file;
}

abbrev pub offline : Response
unfolding http_error
offline = http_error (codes "Offline") 503 empty_response

abbrev pub online : Response
unfolding write write_header
online = write (codes "Online" ++ 10 ∷ []) (write_header 200 empty_response)

-- The test of the second file.
unfoldable pub check_unless : (Bytes → Stat) → Bytes → Response
check_unless stat path =
    if bytes_eq path [] then online else if is_not_exist (stat path) then online else offline

-- `ServeHTTP`
unfoldable pub serve_health : (Bytes → Stat) → HealthCheckServer → Response
serve_health stat server =
    let rest = check_unless stat server.healthy_unless_file in
    if bytes_eq server.healthy_if_file []
    then rest
    else if is_not_exist (stat server.healthy_if_file)
    then offline
    else rest
