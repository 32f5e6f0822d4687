-- ===== src/Proxy/Forwarding/Traffic.antt =====
-- The gateway's requests from their arrival to the end of their answers, as the steps of
-- `ServeHTTP`, of `countingRoundTripper` and of `httputil.ReverseProxy` between them.
use corridor.Prelude.{ℕ, suc, ◌≡◌, List, [], ◌∷◌, ◌++◌, Option, Bool}
use corridor.Prelude.Int.{pos}
use corridor.LoadBalancer.Target.{set_health, get_active_connections}
use corridor.Router.{MatchedRouteInfo}
use corridor.Proxy.Forwarding.{Forward, forwards, Shared, serve_request, end_round_trip}

-- The requests by the phase they are in, each as its target: those whose round trip has not ended,
-- those that the reverse proxy answered or dropped without a round trip, and those whose answer
-- streams to the client after the round trip.
pub record Traffic : Type 0 where
  pub shared : Shared
  pub waiting : List ℕ
  pub abandoned : List ℕ
  pub streaming : List ℕ

-- A request that is handed over waits for its round trip.
abbrev pub handed_over : Forward → List ℕ → List ℕ
handed_over (forwards a) waiting = a ∷ waiting
handed_over _ waiting = waiting

abbrev pub arrival : Forward × Shared → Traffic → Traffic
arrival out t = record t { shared = out.1; waiting = handed_over out.0 t.waiting }

-- One step of the gateway: a request arrives; the round trip of one ends, with the headers of an
-- answer, whose body then streams, or with an error; the reverse proxy ends one without a round
-- trip; a body has been streamed; or a health is set. The choice of a target and the increment of
-- its counter are one step.
pub data Step : Traffic → Traffic → Type 0 where
  arrives :
      (intn : ℕ → ℕ) (info : Option MatchedRouteInfo) (t : Traffic)
      → Step t (arrival (serve_request intn info t.shared) t)
  responds :
      (a : ℕ) (g : Shared) (pre post dropped bodies : List ℕ)
      → Step
          (record {
            shared = g;
            waiting = pre ++ (a ∷ post);
            abandoned = dropped;
            streaming = bodies;
          })
          (record {
            shared = end_round_trip a g;
            waiting = pre ++ post;
            abandoned = dropped;
            streaming = a ∷ bodies;
          })
  breaks :
      (a : ℕ) (g : Shared) (pre post dropped bodies : List ℕ)
      → Step
          (record {
            shared = g;
            waiting = pre ++ (a ∷ post);
            abandoned = dropped;
            streaming = bodies;
          })
          (record {
            shared = end_round_trip a g;
            waiting = pre ++ post;
            abandoned = dropped;
            streaming = bodies;
          })
  abandons :
      (a : ℕ) (g : Shared) (pre post dropped bodies : List ℕ)
      → Step
          (record {
            shared = g;
            waiting = pre ++ (a ∷ post);
            abandoned = dropped;
            streaming = bodies;
          })
          (record {
            shared = g;
            waiting = pre ++ post;
            abandoned = a ∷ dropped;
            streaming = bodies;
          })
  finishes :
      (a : ℕ) (t : Traffic) (pre post : List ℕ)
      → Step (record t { streaming = pre ++ (a ∷ post) }) (record t { streaming = pre ++ post })
  updates :
      (healthy : Bool) (a : ℕ) (t : Traffic)
      → Step t
          (record t { shared = record t.shared { store = set_health healthy a t.shared.store } })

-- What is reached in a number of steps from a gateway without requests.
pub data Reached : ℕ → Traffic → Type 0 where
  starts :
      (g : Shared)
      → ((a : ℕ) → get_active_connections g.store a ≡ pos 0)
      → Reached 0 (record { shared = g; waiting = []; abandoned = []; streaming = [] })
  goes_on : (n : ℕ) (t u : Traffic) → Reached n t → Step t u → Reached (suc n) u
