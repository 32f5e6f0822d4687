-- ===== src/Proxy/Forwarding/Connections.antt =====
-- The connection counters over any interleaving of requests, round trips, streamed bodies and
-- health updates.
use mathlib.Core.List.{append_assoc}
use corridor.Prelude.{
  subst, ℕ, suc, ◌+◌, ◌^◌, ◌≤◌, ◌<◌, ◌≡◌, refl, sym, ◌∙◌, ap, List, ◌∷◌, ◌++◌, Option, none, some,
  ok, err, arith, Bool, length, length-append,
}
use corridor.Prelude.Int.{pos}
use corridor.Prelude.Text.{Text}
use corridor.Prelude.Dict.{lookup}
use corridor.LoadBalancer.Target.{Store, set_health, get_active_connections}
use corridor.LoadBalancer.Next.{LoadBalancer, no_targets, no_healthy, panics, Picked, next}
use corridor.Router.{MatchedRouteInfo}
use corridor.Proxy.Forwarding.Counting.{
  occurrences, occurrences_middle, occurrences_append, one_more, one_less,
}
use corridor.Proxy.Forwarding.Traffic.{
  Traffic, handed_over, Step, arrives, responds, breaks, abandons, finishes, updates, Reached,
  starts, goes_on,
}
use corridor.Proxy.Forwarding.{
  internal_server_error, bad_gateway, service_unavailable, crashes, Forward, forwards, Shared,
  picked, choose, serve_request, end_round_trip,
}

-- Every counter is the number of a list's entries for its target.
record Counted (n : ℕ) (s : Shared × List ℕ) : Type 0 where
  few : length s.1 ≤ n
  count : (a : ℕ) → get_active_connections s.0.store a ≡ pos (occurrences a s.1)

Counted-arrival :
    (n : ℕ) (g : Shared) (flying : List ℕ) (name : Text) (out : Picked × LoadBalancer)
    → suc n < 2 ^ 63
    → Counted n (g, flying)
    → Counted (suc n) ((picked name g out).1, handed_over (picked name g out).0 flying)
Counted-arrival n g flying name (err no_targets, lb) room c = record {
  few = omega (arith, c.few);
  count = c.count;
}
Counted-arrival n g flying name (err no_healthy, lb) room c = record {
  few = omega (arith, c.few);
  count = c.count;
}
Counted-arrival n g flying name (err panics, lb) room c = record {
  few = omega (arith, c.few);
  count = c.count;
}
Counted-arrival n g flying name (ok a, lb) room c = record {
  few = omega (arith, c.few);
  count = λ b. one_more n a b g.store flying room c.few (c.count b);
}

Counted-choose :
    (n : ℕ) (intn : ℕ → ℕ) (g : Shared) (flying : List ℕ) (name : Text) (o : Option LoadBalancer)
    → suc n < 2 ^ 63
    → Counted n (g, flying)
    → Counted (suc n) ((choose intn name g o).1, handed_over (choose intn name g o).0 flying)
Counted-choose n intn g flying name none room c = record {
  few = omega (arith, c.few);
  count = c.count;
}
Counted-choose n intn g flying name (some lb) room c =
    Counted-arrival n g flying name (next g.store intn lb) room c

active-set_health :
    (healthy : Bool) (a b : ℕ) (h : Store)
    → get_active_connections (set_health healthy a h) b ≡ get_active_connections h b
unfolding set_health
active-set_health healthy a b h = ground arith

-- The requests that the counters count.
abbrev counted : Traffic → List ℕ
counted t = t.waiting ++ t.abandoned

handed_over_append :
    (f : Forward) (bs cs : List ℕ) → handed_over f (bs ++ cs) ≡ handed_over f bs ++ cs
handed_over_append (forwards a) bs cs = refl
handed_over_append internal_server_error bs cs = refl
handed_over_append bad_gateway bs cs = refl
handed_over_append service_unavailable bs cs = refl
handed_over_append crashes bs cs = refl

Counted-serve_request :
    (n : ℕ) (intn : ℕ → ℕ) (info : Option MatchedRouteInfo) (g : Shared) (flying : List ℕ)
    → suc n < 2 ^ 63
    → Counted n (g, flying)
    → Counted
        (suc n)
        ((serve_request intn info g).1, handed_over (serve_request intn info g).0 flying)
unfolding serve_request
Counted-serve_request n intn none g flying room c = record {
  few = omega (arith, c.few);
  count = c.count;
}
Counted-serve_request n intn (some info) g flying room c =
    Counted-choose n intn g flying info.service_config.name
      (lookup info.service_config.name g.balancers) room c

Counted-end_round_trip :
    (n a : ℕ) (g : Shared) (pre post : List ℕ)
    → suc n < 2 ^ 63
    → Counted n (g, pre ++ (a ∷ post))
    → Counted (suc n) (end_round_trip a g, pre ++ post)
unfolding end_round_trip
Counted-end_round_trip n a g pre post room c =
    let before = length-append pre (a ∷ post) in
    let after = length-append pre post in
    let fewer : suc (length (pre ++ post)) ≤ n = omega (arith, c.few) in
    record {
      few = omega arith;
      count = λ b.
          one_less n a b g.store (pre ++ post) (omega arith) fewer
            (c.count b ∙ ap pos (occurrences_middle b a pre post));
    }

-- The same with the requests that the reverse proxy ended.
Counted-ended :
    (n a : ℕ) (g : Shared) (pre post dropped : List ℕ)
    → suc n < 2 ^ 63
    → Counted n (g, (pre ++ (a ∷ post)) ++ dropped)
    → Counted (suc n) (end_round_trip a g, (pre ++ post) ++ dropped)
Counted-ended n a g pre post dropped room c =
    subst (λ l. Counted (suc n) (end_round_trip a g, l)) (sym (append_assoc pre post dropped))
      (Counted-end_round_trip n a g pre (post ++ dropped) room
        (subst (λ l. Counted n (g, l)) (append_assoc pre (a ∷ post) dropped) c))

moved :
    (a b : ℕ) (pre post dropped : List ℕ)
    → occurrences b ((pre ++ (a ∷ post)) ++ dropped)
      ≡ occurrences b ((pre ++ post) ++ (a ∷ dropped))
moved a b pre post dropped =
    ap (occurrences b) (append_assoc pre (a ∷ post) dropped)
    ∙ occurrences_middle b a pre (post ++ dropped)
    ∙ ap (λ l. occurrences b (a ∷ l)) (sym (append_assoc pre post dropped))
    ∙ sym (occurrences_middle b a (pre ++ post) dropped)

Counted-abandons :
    (n a : ℕ) (g : Shared) (pre post dropped : List ℕ)
    → Counted n (g, (pre ++ (a ∷ post)) ++ dropped)
    → Counted (suc n) (g, (pre ++ post) ++ (a ∷ dropped))
Counted-abandons n a g pre post dropped c =
    let l1 = length-append (pre ++ (a ∷ post)) dropped in
    let l2 = length-append pre (a ∷ post) in
    let l3 = length-append (pre ++ post) (a ∷ dropped) in
    let l4 = length-append pre post in
    record {
      few = omega (arith, c.few);
      count = λ b. c.count b ∙ ap pos (moved a b pre post dropped);
    }

Counted-Step :
    (n : ℕ) (t u : Traffic)
    → suc n < 2 ^ 63
    → Counted n (t.shared, counted t)
    → Step t u
    → Counted (suc n) (u.shared, counted u)
Counted-Step n t u room c (arrives intn info v) =
    subst (λ l. Counted (suc n) ((serve_request intn info v.shared).1, l))
      (handed_over_append (serve_request intn info v.shared).0 v.waiting v.abandoned)
      (Counted-serve_request n intn info v.shared (counted v) room c)
Counted-Step n t u room c (responds a g pre post dropped bodies) =
    Counted-ended n a g pre post dropped room c
Counted-Step n t u room c (breaks a g pre post dropped bodies) =
    Counted-ended n a g pre post dropped room c
Counted-Step n t u room c (abandons a g pre post dropped bodies) =
    Counted-abandons n a g pre post dropped c
Counted-Step n t u room c (finishes a v pre post) = record {
  few = omega (arith, c.few);
  count = c.count;
}
Counted-Step n t u room c (updates healthy a v) = record {
  few = omega (arith, c.few);
  count = λ b. active-set_health healthy a b v.shared.store ∙ c.count b;
}

Reached-Counted : (n : ℕ) (t : Traffic) → n < 2 ^ 63 → Reached n t → Counted n (t.shared, counted t)
unfolding occurrences
Reached-Counted n t room (starts g idle) = record { few = omega arith; count = idle }
Reached-Counted n t room (goes_on k s u reached step) =
    Counted-Step k s u room (Reached-Counted k s (omega arith) reached) step

-- Through fewer than 2^63 steps of any kind and in any order, from a gateway without requests, each
-- target's counter of active connections is the number of the requests whose round trip to it has
-- not ended, and of those that the reverse proxy ended without one; the requests whose answers
-- still stream to their clients are not among them.
pub active_connections-Reached :
    (n : ℕ) (t : Traffic) (a : ℕ)
    → n < 2 ^ 63
    → Reached n t
    → get_active_connections t.shared.store a
      ≡ pos (occurrences a t.waiting + occurrences a t.abandoned)
active_connections-Reached n t a room reached =
    (Reached-Counted n t room reached).count a ∙ ap pos (occurrences_append a t.waiting t.abandoned)
