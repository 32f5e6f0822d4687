-- ===== src/Server/Limits.antt =====
-- No limit of the gateway is taken away by a setting that is not positive.
use corridor.Prelude.{Option, none, some, arith, Bool-cases, inl, inr}
use corridor.Prelude.Int.{ℤ, pos, ◌<ℤ◌, is_positive}
use corridor.Config.{GlobalConfig}
use corridor.Config.Timeouts.{
  get_default_timeout, IsBrief, IsBriefMs, get_default_timeout_positive, seconds_or_positive,
  count_or_positive, or_half_a_minute, or_half_a_minute_positive,
}
use corridor.Proxy.Transport.{Transport, response_header_or, new_transport, request_deadline}
use corridor.Server.{Timeouts, timeouts, shutdown_timeout}

-- Every setting of a time is one that 64 bits of nanoseconds hold.
pub record AreBrief (g : GlobalConfig) : Type 0 where
  pub read : IsBrief g.read_timeout_sec
  pub write : IsBrief g.write_timeout_sec
  pub idle : IsBrief g.idle_timeout_sec
  pub read_header : IsBrief g.read_header_timeout_sec
  pub dial : IsBrief g.transport_dial_timeout_sec
  pub keep_alive : IsBrief g.transport_keep_alive_sec
  pub idle_conn : IsBrief g.transport_idle_conn_timeout_sec
  pub tls_handshake : IsBrief g.transport_tls_handshake_timeout_sec
  pub expect_continue : IsBrief g.transport_expect_continue_timeout_sec
  pub response_header : IsBrief g.transport_response_header_timeout_sec
  pub default : IsBriefMs g.default_timeout_ms

abbrev pub IsAhead : Option ℤ → Type 0
IsAhead none = Unit
IsAhead (some d) = pos 0 <ℤ d

-- Every limit is there: one that is zero or below would be none.
pub record IsLimited (s : Timeouts) (t : Transport) (wait : ℤ) (deadline : Option ℤ) : Type 0 where
  pub read : pos 0 <ℤ s.read_timeout
  pub write : pos 0 <ℤ s.write_timeout
  pub idle : pos 0 <ℤ s.idle_timeout
  pub read_header : pos 0 <ℤ s.read_header_timeout
  pub dial : pos 0 <ℤ t.dial_timeout
  pub keep_alive : pos 0 <ℤ t.keep_alive
  pub max_idle : pos 0 <ℤ t.max_idle_conns
  pub max_idle_per_host : pos 0 <ℤ t.max_idle_conns_per_host
  pub idle_conn : pos 0 <ℤ t.idle_conn_timeout
  pub tls_handshake : pos 0 <ℤ t.tls_handshake_timeout
  pub expect_continue : pos 0 <ℤ t.expect_continue_timeout
  pub response_header : pos 0 <ℤ t.response_header_timeout
  pub shutdown : pos 0 <ℤ wait
  pub request : IsAhead deadline

response_header_or_positive :
    (d : ℤ) (o : Option ℤ) → pos 0 <ℤ d → IsBrief o → pos 0 <ℤ response_header_or d o
response_header_or_positive d none up brief = or_half_a_minute_positive d
response_header_or_positive d (some n) up brief =
    seconds_or_positive (or_half_a_minute d) (some n) (or_half_a_minute_positive d) brief

request_deadline-IsAhead :
    (g : GlobalConfig) → IsBriefMs g.default_timeout_ms → IsAhead (request_deadline g)
request_deadline-IsAhead g brief = elim (Bool-cases (is_positive g.default_timeout_ms)) [
  | inl set ↦ rw set (get_default_timeout_positive g brief set)
  | inr unset ↦ rw unset tt
]

-- If no setting in seconds or in milliseconds exceeds what 64 bits of nanoseconds hold, then every time-out and every
-- count of the server and of the proxy's transport is positive, whatever the settings are and the
-- default time-out; and so is the time that a shutdown waits, and the
-- deadline of a request where there is one.
pub timeouts-IsLimited :
    (g : GlobalConfig)
    → AreBrief g
    → IsLimited (timeouts g) (new_transport g) (shutdown_timeout g) (request_deadline g)
unfolding timeouts new_transport shutdown_timeout
timeouts-IsLimited g brief = record {
  read = seconds_or_positive _ g.read_timeout_sec (ground arith) brief.read;
  write = seconds_or_positive _ g.write_timeout_sec (ground arith) brief.write;
  idle = seconds_or_positive _ g.idle_timeout_sec (ground arith) brief.idle;
  read_header = seconds_or_positive _ g.read_header_timeout_sec (ground arith) brief.read_header;
  dial = seconds_or_positive _ g.transport_dial_timeout_sec (ground arith) brief.dial;
  keep_alive = seconds_or_positive _ g.transport_keep_alive_sec (ground arith) brief.keep_alive;
  max_idle = count_or_positive _ g.transport_max_idle_conns (ground arith);
  max_idle_per_host = count_or_positive _ g.transport_max_idle_conns_per_host (ground arith);
  idle_conn =
      seconds_or_positive _ g.transport_idle_conn_timeout_sec (ground arith) brief.idle_conn;
  tls_handshake =
      seconds_or_positive _ g.transport_tls_handshake_timeout_sec (ground arith)
        brief.tls_handshake;
  expect_continue =
      seconds_or_positive _ g.transport_expect_continue_timeout_sec (ground arith)
        brief.expect_continue;
  response_header =
      response_header_or_positive _ g.transport_response_header_timeout_sec
        (or_half_a_minute_positive (get_default_timeout g)) brief.response_header;
  shutdown = or_half_a_minute_positive (get_default_timeout g);
  request = request_deadline-IsAhead g brief.default;
}
