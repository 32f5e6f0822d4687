-- ===== src/Tests/RateLimiting.antt =====
-- Two requests a second for each of two clients.
use corridor.Prelude.{◌+◌, ◌*◌, ◌≤◌, ◌≡◌, refl, List, [], ◌∷◌, Option, some, arith, ltb}
use corridor.Prelude.Int.{pos}
use corridor.Prelude.Text.{Text, text, ◌==◌, before}
use corridor.Prelude.Dict.{lookup, insert}
use corridor.Config.Yaml.{int}
use corridor.RateLimiting.{
  RateLimitingPlugin, second, init, handle, cleanup_old_clients, prune, check, get_or_create, limit,
  sweep,
}
use corridor.RateLimiting.Window.{count_in}
use corridor.RateLimiting.Clients.{log_of, is_forwarded}
use corridor.RateLimiting.Fairness.{
  Event, request, cleanup, let_through, no_clients, let_through-count_in, handle_forwards,
  no_clients-IsAllotted, still_within,
}

abbrev plugin : RateLimitingPlugin
plugin = record { requests_per_window = pos 2; window = second; strategy = text "ip-address" }

init_test : init ((text "requests_per_second", int (pos 2)) ∷ []) [] ≡ plugin
unfolding init lookup ◌==◌
init_test = refl

-- The host before the port.
abbrev split : Text → Option Text
split t = some (before t b':')

abbrev events : List Event
events =
    request (text "a:1") 5
    ∷ request (text "a:2") 6
    ∷ request (text "b:1") 7
    ∷ request (text "a:3") 8
    ∷ cleanup (9 + 20 * second)
    ∷ request (text "a:4") (10 + 20 * second)
    ∷ []

events_test :
    let_through split plugin (text "a") events no_clients ≡ 5 ∷ 6 ∷ (10 + 20 * second) ∷ []
unfolding let_through handle limit check get_or_create prune cleanup_old_clients sweep lookup insert
    before ◌==◌
events_test = refl

let_through-count_in_example :
    count_in second 5 (let_through split plugin (text "a") events no_clients) ≤ 2
let_through-count_in_example =
    let_through-count_in split plugin 2 (text "a") events 5 refl
      (omega arith, (omega arith, (omega arith, (omega arith, (omega arith, (omega arith, tt))))))

a_host : split (text "a:1") ≡ some (text "a")
unfolding before
a_host = refl

handle_forwards_example :
    is_forwarded (handle split plugin (text "a:1") 5 no_clients).0
    ≡ ltb (still_within second 5 (log_of (text "a") no_clients)) 2
handle_forwards_example =
    handle_forwards split plugin 2 (text "a") (text "a:1") 5 no_clients no_clients-IsAllotted refl
      refl a_host (λ e. cc)
