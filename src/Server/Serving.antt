-- ===== src/Server/Serving.antt =====
-- app/server/server.go: `NewServer`, `Start` with the goroutine that listens, and `Shutdown`. The
-- listening and the closing are `http.Server`'s: what comes of them is a list of events and the
-- parameter `close`.
pub mod Outcomes
use corridor.Prelude.{List, [], ◌∷◌, ◌++◌, Option, none, some, Bool, true, false, Result, ok, err}
use corridor.Prelude.Int.{ℤ}
use corridor.Prelude.Text.{Text, text}
use corridor.Config.{Config}
use corridor.Server.{Timeouts, timeouts, shutdown_timeout, FatalError, start_tls}

pub record HttpServer (H : Type 0) : Type 0 where
  pub addr : Text
  pub handler : H
  pub limits : Timeouts

pub record GatewayServer (H : Type 0) : Type 0 where
  pub config : Config
  pub http_server : Option (HttpServer H)
  pub handler : H

-- The handler, or the one that finds nothing.
abbrev pub or_fallback : {H : Type 0} → H → Option H → H
or_fallback fallback none = fallback
or_fallback fallback (some handler) = handler

unfoldable pub new_server : {H : Type 0} → H → Config → Option H → GatewayServer H
new_server fallback cfg main_handler = record {
  config = cfg;
  http_server = none;
  handler = or_fallback fallback main_handler;
}

-- In the order in which `Start` and its goroutine meet them: the goroutine comes to read the
-- certificates and to listen, the listening ends with an error other than `ErrServerClosed`, and a
-- signal comes.
pub data Event : Type 0 where
  listens : Event
  fails : Text → Event
  signals : Event

-- The two fatal errors of the goroutine, the return of `Start`, and none of them yet.
pub data Outcome : Type 0 where
  refuses : FatalError → Outcome
  breaks : Text → Outcome
  returns : Option Text → Outcome
  runs : Outcome

-- `tls` is what the certificates give, `closed` what `Shutdown` returns, and the Boolean is whether
-- the goroutine listens.
unfoldable pub serve :
    {Cert : Type 0}
    → Result FatalError (Option (List Cert))
    → Option Text
    → Bool
    → List Event
    → Outcome
serve tls closed listening [] = runs
serve tls closed listening (signals ∷ events) = returns closed
serve (err e) closed false (listens ∷ events) = refuses e
serve (ok certs) closed false (listens ∷ events) = serve (ok certs) closed true events
serve tls closed true (listens ∷ events) = serve tls closed true events
serve tls closed true (fails reason ∷ events) = breaks reason
serve tls closed false (fails reason ∷ events) = serve tls closed false events

module _ {H Cert : Type 0} (sprint_int : ℤ → Text) (load_key_pair : Text → Text → Option Cert)
    (close : HttpServer H → ℤ → Option Text) where
  -- `Shutdown`: the error, if there is one.
  abbrev pub shutdown_of : Option (HttpServer H) → ℤ → Option Text
  shutdown_of none timeout = none
  shutdown_of (some server) timeout = close server timeout

  unfoldable pub shutdown : GatewayServer H → Option Text
  shutdown s = shutdown_of s.http_server (shutdown_timeout s.config.global)

  abbrev pub with_http_server : GatewayServer H → GatewayServer H
  with_http_server s = record s {
    http_server = some (record {
      addr = text ":" ++ sprint_int s.config.global.port;
      handler = s.handler;
      limits = timeouts s.config.global;
    });
  }

  unfoldable pub start_server : List Event → GatewayServer H → Outcome
  unfolding shutdown serve
  start_server events s =
      serve (start_tls load_key_pair s.config) (shutdown (with_http_server s)) false events
