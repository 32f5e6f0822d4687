-- ===== src/Tests/Serving.antt =====
-- The server over its events, the subcommand of the keys, and the registry of the plugins.
use corridor.Prelude.{ℕ, ◌≡◌, refl, List, [], ◌∷◌, ◌++◌, Option, none, some, eqb, if◌then◌else◌}
use corridor.Prelude.Int.{ℤ, pos, ◌<ℤ◌}
use corridor.Prelude.Text.{Text, text, ◌==◌}
use corridor.Config.{PluginInstanceConfig}
use corridor.Server.{shutdown_timeout, start_tls, load_certificates}
use corridor.Server.Serving.{HttpServer, listens, fails, signals, returns, new_server, start_server}
use corridor.Server.Serving.Outcomes.{Explained, server_of, start_server-Explained}
use corridor.Keygen.{generate_api_key_hashes}
use corridor.Main.Command.{command, report, Told, command-Told}
use corridor.PathRewrite.{PathRewriteError}
use corridor.Gateway.Registered.{Handlers}
use corridor.Tests.Server.{cfg, load_key_pair}
use corridor.Tests.Guarded.{Handler}

abbrev sprint_int : ℤ → Text
sprint_int n = text "8443"

-- A server that cannot be closed in time.
abbrev close : HttpServer ℕ → ℤ → Option Text
close server timeout = if eqb server.handler 7 then some (text "deadline") else none

start_server_test :
    start_server sprint_int load_key_pair close (listens ∷ signals ∷ []) (new_server 0 cfg (some 7))
    ≡ returns (some (text "deadline"))
unfolding start_server new_server start_tls load_certificates shutdown_timeout
start_server_test = refl

start_server-Explained_example :
    Explained
      (start_tls load_key_pair cfg)
      (close (server_of sprint_int 0 cfg (some 7)) (shutdown_timeout cfg.global))
      (listens ∷ fails (text "in use") ∷ signals ∷ [])
      (start_server sprint_int load_key_pair close
        (listens ∷ fails (text "in use") ∷ signals ∷ [])
        (new_server 0 cfg (some 7)))
    × (pos 0 <ℤ shutdown_timeout cfg.global)
start_server-Explained_example =
    start_server-Explained sprint_int load_key_pair close 0 cfg (some 7)
      (listens ∷ fails (text "in use") ∷ signals ∷ [])

abbrev sha256_hex : Text → Text
sha256_hex key = text "ab" ++ key

abbrev bcrypt_generate : Text → Option Text
bcrypt_generate key = some (text "$2a$" ++ key)

abbrev arguments : List Text
arguments = text "corridor" ∷ text "keygen" ∷ text "k" ∷ []

command_test :
    command sha256_hex bcrypt_generate [] arguments
    ≡ some
        (record { status = 0; output = report (text "k") (text "abk") (text "$2a$k"); errors = [] })
unfolding command generate_api_key_hashes ◌==◌
command_test = refl

command-Told_example :
    Told sha256_hex bcrypt_generate [] arguments (command sha256_hex bcrypt_generate [] arguments)
command-Told_example = command-Told sha256_hex bcrypt_generate [] arguments

abbrev compile : Text → Option Text
compile pattern = some pattern

abbrev rewrite_message : PathRewriteError → Text
rewrite_message e = text "path-rewrite"

abbrev handlers : Handlers Handler Text
handlers = record {
  caching = λ p next. next;
  path_rewrite = λ p next. next;
  rate_limiting = λ p next. next;
  request_id = λ next. next;
}

abbrev rewriting_route : PluginInstanceConfig
rewriting_route = record { name = text "path-rewrite"; config = [] }
