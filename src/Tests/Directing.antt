-- ===== src/Tests/Directing.antt =====
-- A request that the director sends to a target with a path and a query.
use corridor.Prelude.{◌≡◌, refl, [], ◌∷◌, if◌then◌else◌}
use corridor.Prelude.Text.{Text, text, ◌==◌, to_lower, has_prefix, has_suffix}
use corridor.Prelude.Dict.{lookup, insert}
use corridor.LoadBalancer.Target.{Url}
use corridor.Proxy.Joining.{single_joining_slash, join_query}
use corridor.Proxy.Director.{
  Outgoing, set_header, set_headers, direct, IsCanonical, IsDirected, direct-IsDirected,
}

-- The two names, and any other as it is.
abbrev canonical : Text → Text
canonical name =
    if to_lower name == text "x-forwarded-proto"
    then text "X-Forwarded-Proto"
    else if to_lower name == text "x-forwarded-host"
    then text "X-Forwarded-Host"
    else name

canonical-IsCanonical : IsCanonical canonical (text "") (text "gw")
unfolding ◌==◌
canonical-IsCanonical = record { of_proto = λ name e. rw e refl; of_host = λ name e. rw e refl }

abbrev target : Url
target = record {
  scheme = text "http";
  host = text "a:80";
  path = text "/v1/";
  raw_query = text "k=1";
}

abbrev client : Outgoing
client = record {
  url = record { scheme = []; host = []; path = text "/users"; raw_query = text "q" };
  host = text "gw";
  header = (text "X-Forwarded-Proto", text "https" ∷ []) ∷ [];
}

direct_test :
    direct canonical []
      (text "gw")
      target
      (text "x-forwarded-Host" ∷ text "X-Forwarded-Proto" ∷ [])
      client
    ≡ record {
      url = record {
        scheme = text "http";
        host = text "a:80";
        path = text "/v1/users";
        raw_query = text "k=1&q";
      };
      host = text "a:80";
      header =
          (text "X-Forwarded-Proto", [] ∷ [])
          ∷ (text "User-Agent", [] ∷ [])
          ∷ (text "X-Forwarded-Host", text "gw" ∷ [])
          ∷ [];
    }
unfolding direct set_headers set_header single_joining_slash join_query lookup insert to_lower
    has_prefix has_suffix ◌==◌
direct_test = refl

direct-IsDirected_example :
    IsDirected canonical []
      (text "gw")
      (text "X-Forwarded-Proto" ∷ [])
      client.header
      (direct canonical [] (text "gw") target (text "X-Forwarded-Proto" ∷ []) client).header
direct-IsDirected_example =
    direct-IsDirected canonical [] (text "gw") target (text "X-Forwarded-Proto" ∷ []) client
      canonical-IsCanonical
