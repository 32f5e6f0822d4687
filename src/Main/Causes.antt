-- ===== src/Main/Causes.antt =====
-- What a failed start of the proxy or of the router comes from.
use corridor.Prelude.{
  ◌≡◌, refl, In, Result-cases, err-injective, ◌∙◌, ap, List, [], ◌∷◌, Option, none, Bool, true,
  false, Result, ok, err, ◌>>=◌, if◌then◌else◌, inl, inr, Bool-cases,
}
use corridor.Prelude.Text.{Text}
use corridor.Prelude.Dict.{insert}
use corridor.Config.{Config, ServiceConfig, RouteConfig, PluginsConfig, PluginInstanceConfig}
use corridor.Config.Validate.{lacks_targets}
use corridor.LoadBalancer.Target.{Url, Store}
use corridor.LoadBalancer.Next.{LoadBalancer}
use corridor.LoadBalancer.Create.{CreateError, new_load_balancer}
use corridor.Plugin.{
  Plugin, PluginError, not_registered, init_failed, init_panics, Registry, get_plugin_instance,
  chain_plugins,
}
use corridor.Proxy.{Balancers, add_balancer, build_balancers}
use corridor.Router.{instances, build_plugin_chain, ends_program, panics_in, new_router}

-- A service whose balancer cannot be made.
abbrev pub Unbalanced : (Text → Option Url) → List ServiceConfig → CreateError → Type 0
Unbalanced url_parse ss e =
    (s : ServiceConfig) × (h : Store) × In s ss
    × (lacks_targets s.load_balancing ≡ false)
    × (new_load_balancer url_parse s h ≡ err e)

module _ (url_parse : Text → Option Url) where
  Unbalanced-later :
      (s : ServiceConfig) (ss : List ServiceConfig) (e : CreateError)
      → Unbalanced url_parse ss e
      → Unbalanced url_parse (s ∷ ss) e
  Unbalanced-later s ss e (t, h, known, has, failed) = (t, h, inr known, has, failed)

  Unbalanced-cons :
      (strict : Bool) (s : ServiceConfig) (ss : List ServiceConfig) (lbs : Balancers) (h : Store)
      (e : CreateError) (r : Result CreateError (LoadBalancer × Store))
      → lacks_targets s.load_balancing ≡ false
      → new_load_balancer url_parse s h ≡ r
      → ((lbs' : Balancers) (h' : Store)
          → build_balancers url_parse strict ss lbs' h' ≡ err e
          → Unbalanced url_parse ss e)
      → (add_balancer url_parse strict s.name lbs h r >>= λ (lbs', h').
          build_balancers url_parse strict ss lbs' h')
        ≡ err e
      → Unbalanced url_parse (s ∷ ss) e
  Unbalanced-cons strict s ss lbs h e (ok (lb, h')) has made later failed =
      Unbalanced-later s ss e (later (insert s.name lb lbs) h' failed)
  Unbalanced-cons true s ss lbs h e (err d) has made later failed =
      (s, h, inl refl, has, made ∙ ap err (err-injective failed))
  Unbalanced-cons false s ss lbs h e (err d) has made later failed =
      Unbalanced-later s ss e (later lbs h failed)

  pub build_balancers-Unbalanced :
      (strict : Bool) (ss : List ServiceConfig) (lbs : Balancers) (h : Store) (e : CreateError)
      → build_balancers url_parse strict ss lbs h ≡ err e
      → Unbalanced url_parse ss e
  unfolding build_balancers
  build_balancers-Unbalanced strict [] lbs h e failed = absurd (cc)
  build_balancers-Unbalanced strict (s ∷ ss) lbs h e failed =
      elim (Bool-cases (lacks_targets s.load_balancing)) [
        | inl lacks ↦
            Unbalanced-later s ss e
              (build_balancers-Unbalanced strict ss lbs h e (rw lacks at failed))
        | inr has ↦
            Unbalanced-cons strict s ss lbs h e (new_load_balancer url_parse s h) has refl
              (λ lbs' h' f. build_balancers-Unbalanced strict ss lbs' h' e f) (rw has at failed)
      ]

  -- What a lenient proxy makes of its services.
  add_balancer-ok :
      (name : Text) (lbs : Balancers) (h : Store) (r : Result CreateError (LoadBalancer × Store))
      → (out : Balancers × Store) × (add_balancer url_parse false name lbs h r ≡ ok out)
  add_balancer-ok name lbs h (ok (lb, h')) = (_, refl)
  add_balancer-ok name lbs h (err e) = (_, refl)

  step-ok :
      (b : Bool) (name : Text) (lbs : Balancers) (h : Store)
      (r : Result CreateError (LoadBalancer × Store))
      → (out : Balancers × Store) × ((if b
            then ok (lbs, h)
            else add_balancer url_parse false name lbs h r)
          ≡ ok out)
  step-ok true name lbs h r = (_, refl)
  step-ok false name lbs h r = add_balancer-ok name lbs h r

  pub build_balancers-ok :
      (ss : List ServiceConfig) (lbs : Balancers) (h : Store)
      → (out : Balancers × Store) × (build_balancers url_parse false ss lbs h ≡ ok out)
  unfolding build_balancers
  build_balancers-ok [] lbs h = (_, refl)
  build_balancers-ok (s ∷ ss) lbs h =
      let (mid, e) =
        step-ok (lacks_targets s.load_balancing) s.name lbs h (new_load_balancer url_parse s h) in
      let (out, f) = build_balancers-ok ss mid.0 mid.1 in
      (out, ap (λ r. r >>= λ (lbs', h'). build_balancers url_parse false ss lbs' h') e ∙ f)

-- A plugin of a route whose `Init` panics.
abbrev pub Panicking : {H : Type 0} → Registry H → PluginsConfig → List RouteConfig → Type 0
Panicking registry global routes =
    (r : RouteConfig) × (conf : PluginInstanceConfig) × (name : Text) × In r routes
    × In conf r.plugins
    × (get_plugin_instance registry global conf ≡ err (init_panics name))

module _ {H : Type 0} (registry : Registry H) (global : PluginsConfig) where
  -- The instance that the loop of the plugins stops at.
  instances_fails :
      (confs : List PluginInstanceConfig) (e : PluginError)
      → instances registry global confs ≡ err e
      → (conf : PluginInstanceConfig) × In conf confs
        × (get_plugin_instance registry global conf ≡ err e)
  unfolding instances
  instances_fails [] e failed = absurd (cc)
  instances_fails (conf ∷ confs) e failed =
      elim (Result-cases (get_plugin_instance registry global conf)) [
        | inl (p, got) ↦ elim (Result-cases (instances registry global confs)) [
          | inl (ps, rest) ↦ let f = rw (got, rest) at failed in absurd (cc)
          | inr (d, rest) ↦
              let f = rw (got, rest) at failed in
              let (culprit, known, same) =
                instances_fails confs e (rest ∙ ap err (err-injective f)) in
              (culprit, inr known, same)
        ]
        | inr (d, got) ↦
            let f = rw got at failed in (conf, inl refl, got ∙ ap err (err-injective f))
      ]

  ends_program-Panicking :
      (r : RouteConfig) (rs : List RouteConfig) (proxy : H)
      (o : Result PluginError (List (Plugin H)))
      → instances registry global r.plugins ≡ o
      → ends_program (o >>= λ ps. ok (chain_plugins ps proxy)) ≡ true
      → Panicking registry global (r ∷ rs)
  ends_program-Panicking r rs proxy (ok ps) made ends = absurd (cc)
  ends_program-Panicking r rs proxy (err (not_registered name)) made ends = absurd (cc)
  ends_program-Panicking r rs proxy (err (init_failed name message)) made ends = absurd (cc)
  ends_program-Panicking r rs proxy (err (init_panics name)) made ends =
      let (conf, known, same) = instances_fails r.plugins (init_panics name) made in
      (r, conf, name, inl refl, known, same)

  panics_in-Panicking :
      (proxy : H) (rs : List RouteConfig)
      → panics_in registry global proxy rs ≡ true
      → Panicking registry global rs
  unfolding panics_in build_plugin_chain
  panics_in-Panicking proxy [] ends = absurd (cc)
  panics_in-Panicking proxy (r ∷ rs) ends =
      elim (Bool-cases (ends_program (build_plugin_chain registry global r proxy))) [
        | inl here ↦
            ends_program-Panicking r rs proxy (instances registry global r.plugins) refl here
        | inr calm ↦
            let (q, conf, name, known, listed, same) =
              panics_in-Panicking proxy rs (rw calm at ends) in
            (q, conf, name, inr known, listed, same)
      ]

  pub new_router-Panicking :
      (cfg : Config) (proxy : H)
      → cfg.plugins ≡ global
      → new_router registry cfg proxy ≡ none
      → Panicking registry global cfg.routes
  unfolding new_router
  new_router-Panicking cfg proxy same failed =
      elim (Bool-cases (panics_in registry cfg.plugins proxy cfg.routes)) [
        | inl ends ↦ panics_in-Panicking proxy cfg.routes (rw same at ends)
        | inr calm ↦ let f = rw calm at failed in absurd (cc)
      ]
