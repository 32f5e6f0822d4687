-- ===== src/Tests/Forwarding.antt =====
-- One request to a service with one target, and the end of its round trip.
use corridor.Prelude.{ℕ, ◌≡◌, ◌+◌, refl, [], ◌∷◌, none, some, true, arith}
use corridor.Prelude.Int.{pos}
use corridor.Prelude.Text.{text, ◌==◌}
use corridor.Prelude.Dict.{lookup, insert}
use corridor.LoadBalancer.Target.{Store, get_active_connections}
use corridor.LoadBalancer.Next.{least_connections, next_least, next}
use corridor.Router.{MatchedRouteInfo}
use corridor.Proxy.Forwarding.{Shared, forwards, serve_request}
use corridor.Proxy.Forwarding.Counting.{occurrences}
use corridor.Proxy.Forwarding.Traffic.{Traffic, arrival, starts, goes_on, arrives}
use corridor.Proxy.Forwarding.Connections.{active_connections-Reached}

abbrev info : MatchedRouteInfo
info = record {
  route_config = record {
    id = text "r";
    paths = text "/" ∷ [];
    methods = [];
    host = [];
    service = text "s";
    plugins = [];
  };
  service_config = record {
    name = text "s";
    upstream_urls = [];
    upstream_url = [];
    load_balancing = none;
  };
}

abbrev store : Store
store = record {
  next = 1;
  cell = λ a. record {
    url = record { scheme = text "http"; host = text "a"; path = []; raw_query = [] };
    healthy = true;
    weight = pos 1;
    active_connections = pos 0;
  };
}

abbrev idle : Shared
idle = record {
  balancers = insert (text "s") (least_connections (text "s") (0 ∷ [])) [];
  store = store;
}

abbrev zero_draw : ℕ → ℕ
zero_draw n = 0

forwards_test : (serve_request zero_draw (some info) idle).0 ≡ forwards 0
unfolding serve_request lookup insert next next_least ◌==◌
forwards_test = refl

abbrev one_waiting : Traffic
one_waiting =
    arrival (serve_request zero_draw (some info) idle)
      (record { shared = idle; waiting = []; abandoned = []; streaming = [] })

active_connections-Reached_example :
    get_active_connections one_waiting.shared.store 0
    ≡ pos (occurrences 0 one_waiting.waiting + occurrences 0 [])
active_connections-Reached_example =
    active_connections-Reached 1 one_waiting 0 (omega arith)
      (goes_on 0 _ _ (starts idle (λ a. refl)) (arrives zero_draw (some info) _))
