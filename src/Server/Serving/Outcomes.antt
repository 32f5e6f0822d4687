-- ===== src/Server/Serving/Outcomes.antt =====
-- What `Start` comes to, in any order of events.
use corridor.Prelude.{
  ◌≡◌, refl, List, [], ◌∷◌, Option, Bool, true, false, Result, ok, err, inl, inr, ◌⊎◌, ◌++◌,
}
use corridor.Prelude.Int.{ℤ, pos, ◌<ℤ◌}
use corridor.Prelude.Text.{Text, text}
use corridor.Config.{Config}
use corridor.Config.Timeouts.{get_default_timeout, or_half_a_minute_positive}
use corridor.Server.{timeouts, shutdown_timeout, FatalError, start_tls}
use corridor.Server.Serving.{
  HttpServer, Event, listens, fails, signals, Outcome, refuses, breaks, returns, runs, serve,
  shutdown, start_server, new_server, or_fallback,
}

-- Whether an event is there, and whether it comes with no signal before it.
abbrev pub Has : Event → List Event → Type 0
Has e [] = ⊥
Has e (f ∷ events) = (f ≡ e) ⊎ Has e events

abbrev pub HasFirst : Event → List Event → Type 0
HasFirst e [] = ⊥
HasFirst e (signals ∷ events) = ⊥
HasFirst e (f ∷ events) = (f ≡ e) ⊎ HasFirst e events

-- What an outcome says of the certificates and of the events.
abbrev pub Explained :
    {Cert : Type 0}
    → Result FatalError (Option (List Cert))
    → Option Text
    → List Event
    → Outcome
    → Type 0
Explained tls closed events (refuses e) = (tls ≡ err e) × HasFirst listens events
Explained {Cert} tls closed events (breaks reason) =
    ((certs : Option (List Cert)) × (tls ≡ ok certs)) × HasFirst (fails reason) events
Explained tls closed events (returns error) = (error ≡ closed) × Has signals events
Explained tls closed events runs = Has signals events → ⊥

module _ {Cert : Type 0} where
  -- An event before the others that is no signal.
  Explained-listens :
      (tls : Result FatalError (Option (List Cert))) (closed : Option Text) (events : List Event)
      (o : Outcome)
      → Explained tls closed events o
      → Explained tls closed (listens ∷ events) o
  Explained-listens tls closed events (refuses e) (why, m) = (why, inr m)
  Explained-listens tls closed events (breaks reason) (why, m) = (why, inr m)
  Explained-listens tls closed events (returns error) (why, m) = (why, inr m)
  Explained-listens tls closed events runs quiet =
      λ m. elim m [ inl e ↦ absurd (cc) | inr later ↦ quiet later ]

  Explained-fails :
      (tls : Result FatalError (Option (List Cert))) (closed : Option Text) (reason : Text)
      (events : List Event) (o : Outcome)
      → Explained tls closed events o
      → Explained tls closed (fails reason ∷ events) o
  Explained-fails tls closed reason events (refuses e) (why, m) = (why, inr m)
  Explained-fails tls closed reason events (breaks r) (why, m) = (why, inr m)
  Explained-fails tls closed reason events (returns error) (why, m) = (why, inr m)
  Explained-fails tls closed reason events runs quiet =
      λ m. elim m [ inl e ↦ absurd (cc) | inr later ↦ quiet later ]

  serve-Explained :
      (tls : Result FatalError (Option (List Cert))) (closed : Option Text) (listening : Bool)
      (events : List Event)
      → (listening ≡ true → (certs : Option (List Cert)) × (tls ≡ ok certs))
      → Explained tls closed events (serve tls closed listening events)
  unfolding serve
  serve-Explained tls closed listening [] on = λ none. none
  serve-Explained tls closed listening (signals ∷ events) on = (refl, inl refl)
  serve-Explained (err e) closed false (listens ∷ events) on = (refl, inl refl)
  serve-Explained (ok certs) closed false (listens ∷ events) on =
      Explained-listens (ok certs) closed events (serve (ok certs) closed true events)
        (serve-Explained (ok certs) closed true events (λ e. (certs, refl)))
  serve-Explained tls closed true (listens ∷ events) on =
      Explained-listens tls closed events (serve tls closed true events)
        (serve-Explained tls closed true events on)
  serve-Explained tls closed true (fails reason ∷ events) on = (on refl, inl refl)
  serve-Explained tls closed false (fails reason ∷ events) on =
      Explained-fails tls closed reason events (serve tls closed false events)
        (serve-Explained tls closed false events on)

-- The server that `Start` makes of a configuration and a handler.
abbrev pub server_of : {H : Type 0} → (ℤ → Text) → H → Config → Option H → HttpServer H
server_of sprint_int fallback cfg handler = record {
  addr = text ":" ++ sprint_int cfg.global.port;
  handler = or_fallback fallback handler;
  limits = timeouts cfg.global;
}

-- What `Start` comes to on a new server, whatever happens and in whatever order: it returns only
-- at a signal, with what the closing of the server of the configuration's port, handler and limits
-- gives within a positive time; before a signal the program dies only of certificates that it
-- cannot have, as its listening begins, or of an error of the listening with the certificates
-- there; and it goes on running only while there is no signal.
pub start_server-Explained :
    {H Cert : Type 0} (sprint_int : ℤ → Text) (load_key_pair : Text → Text → Option Cert)
    (close : HttpServer H → ℤ → Option Text) (fallback : H) (cfg : Config) (handler : Option H)
    (events : List Event)
    → Explained
        (start_tls load_key_pair cfg)
        (close (server_of sprint_int fallback cfg handler) (shutdown_timeout cfg.global))
        events
        (start_server sprint_int load_key_pair close events (new_server fallback cfg handler))
      × (pos 0 <ℤ shutdown_timeout cfg.global)
unfolding start_server new_server shutdown shutdown_timeout
start_server-Explained sprint_int load_key_pair close fallback cfg handler events = (
  serve-Explained (start_tls load_key_pair cfg)
      (close (server_of sprint_int fallback cfg handler) (shutdown_timeout cfg.global)) false events
      (λ e. absurd (cc)),
  or_half_a_minute_positive (get_default_timeout cfg.global),
)
