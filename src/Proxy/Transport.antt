-- ===== src/Proxy/Transport.antt =====
-- app/proxy/proxy.go: the limits of `http.Transport` in `NewProxy`.
use corridor.Prelude.{ℕ, ◌*◌, ◌++◌, Option, none, some, if◌then◌else◌}
use corridor.Prelude.Int.{ℤ, pos, is_positive, duration, second}
use corridor.Prelude.Text.{Text, text}
use corridor.Config.{GlobalConfig}
use corridor.Config.Timeouts.{get_default_timeout, seconds_or, count_or, or_half_a_minute}

pub record Transport : Type 0 where
  pub dial_timeout : ℤ
  pub keep_alive : ℤ
  pub max_idle_conns : ℤ
  pub max_idle_conns_per_host : ℤ
  pub idle_conn_timeout : ℤ
  pub tls_handshake_timeout : ℤ
  pub expect_continue_timeout : ℤ
  pub response_header_timeout : ℤ

-- The setting, or the default time-out of a request, with half a minute in place of one that is
-- not positive; the code asks for that twice.
abbrev pub response_header_or : ℤ → Option ℤ → ℤ
response_header_or default none = or_half_a_minute default
response_header_or default (some n) =
    if is_positive n then duration second n else or_half_a_minute default

unfoldable pub new_transport : GlobalConfig → Transport
new_transport g = record {
  dial_timeout = seconds_or (pos (5 * second)) g.transport_dial_timeout_sec;
  keep_alive = seconds_or (pos (30 * second)) g.transport_keep_alive_sec;
  max_idle_conns = count_or (pos 100) g.transport_max_idle_conns;
  max_idle_conns_per_host = count_or (pos 10) g.transport_max_idle_conns_per_host;
  idle_conn_timeout = seconds_or (pos (90 * second)) g.transport_idle_conn_timeout_sec;
  tls_handshake_timeout = seconds_or (pos (10 * second)) g.transport_tls_handshake_timeout_sec;
  expect_continue_timeout = seconds_or (pos (1 * second)) g.transport_expect_continue_timeout_sec;
  response_header_timeout =
      response_header_or (or_half_a_minute (get_default_timeout g))
        g.transport_response_header_timeout_sec;
}

-- The time that `ServeHTTP` gives a whole request, if it limits it.
abbrev pub request_deadline : GlobalConfig → Option ℤ
request_deadline g = if is_positive g.default_timeout_ms then some (get_default_timeout g) else none

-- The error handler's answer when the target cannot be reached: its status and its body.
abbrev pub upstream_error : Text → ℕ × Text
upstream_error service_name = (502, text "Error connecting to upstream service: " ++ service_name)
