-- ===== src/Gateway/Guarded.antt =====
-- What an authentication plugin in a route's chain keeps from the proxy.
use corridor.Prelude.{
  ◌≡◌, refl, sym, ◌∙◌, ap, subst, List, [], ◌∷◌, ◌++◌, Option, some, Result, ok, err, In, inl, inr,
  ok-injective, >>=-eq-ok,
}
use corridor.Prelude.Text.{Text, text}
use corridor.Prelude.Dict.{Dict, lookup}
use corridor.Config.{Config, PluginsConfig, PluginInstanceConfig}
use corridor.Config.Yaml.{Value}
use corridor.Config.Validate.Loops.{IsWellFormed}
use corridor.Plugin.{Plugin, Registry, initialized, instance_of, get_plugin_instance, chain_plugins}
use corridor.Plugin.Chain.{chain_plugins_cons}
use corridor.Authentication.{
  AuthenticationPlugin, Sources, InitError, algorithm_missing, secret_missing, public_key_missing,
  algorithm_unsupported, panics,
}
use corridor.Authentication.Settings.{init}
use corridor.Authentication.Handling.{
  Crypto, AuthenticatedUser, Outcome, passes, unauthorized, misconfigured, handle,
}
use corridor.Router.{
  MatchedRouteInfo, Router, serves, instances, build_plugin_chain, new_router, serve_http,
}
use corridor.Router.Matching.{Request}
use corridor.Router.Handlers.{own_chain}
use corridor.Router.Serve.{serve_http_iff, chain_or_proxy}
use corridor.Gateway.{
  Call, Refusal, denied, crashed, current, answered, resume, authenticate, constructed,
  authentication_constructor,
}

-- What the authentication let through: a call, at which the headers of one name are those of the
-- call that was made, and as whom; by the plugin as it was set up, with the keys of the ticks of
-- its refresh before the call.
pub record Admitted {S : Type 0} (c : Crypto) (src : Sources)
    (ticks : Dict Value → Call S → List Sources) (config global_config : Dict Value) (name : Text)
    (call : Call S) : Type 0 where
  pub plugin : AuthenticationPlugin
  pub made : init src config global_config ≡ ok plugin
  pub seen : Call S
  pub kept : seen.header name ≡ call.header name
  pub now : AuthenticationPlugin
  pub refreshed : current (ticks config seen) plugin ≡ ok now
  pub user : Option AuthenticatedUser
  pub passed : handle c now seen.header ≡ passes user

module _ {S R : Type 0} (Proxied : R → Type 0) where
  -- A plugin that has no answers of the proxy but those of the next handler, which it calls with
  -- the header of a name as it is.
  pub record PassesOn (name : Text) (q : Plugin (Call S → R)) : Type 0 where
    pub from_next :
        (next : Call S → R) (call : Call S)
        → Proxied (q.handle next call)
        → (seen : Call S) × (seen.header name ≡ call.header name) × Proxied (next seen)

  module _ (c : Crypto) (deny : Refusal → R) (denies : (o : Refusal) → Proxied (deny o) → ⊥)
      (src : Sources) (ticks : Dict Value → Call S → List Sources) (message : InitError → Text)
      (registry : Registry (Call S → R)) (global : PluginsConfig)
      (registered : lookup (text "authentication") registry
        ≡ some (authentication_constructor c deny src ticks message)) where
    resume-passes :
        (next : Call S → R) (call : Call S) (o : Outcome)
        → Proxied (resume c deny next call o)
        → (u : Option AuthenticatedUser) × (o ≡ passes u)
    resume-passes next call (passes u) proxied = (u, refl)
    resume-passes next call (unauthorized d) proxied =
        absurd (denies (denied (unauthorized d)) proxied)
    resume-passes next call misconfigured proxied = absurd (denies (denied misconfigured) proxied)

    answered-Admitted :
        (config : Dict Value) (name : Text) (p : AuthenticationPlugin)
        (o : Result InitError AuthenticationPlugin) (next : Call S → R) (call : Call S)
        → init src config global.authentication ≡ ok p
        → current (ticks config call) p ≡ o
        → Proxied (answered c deny next call o)
        → Admitted c src ticks config global.authentication name call
    answered-Admitted config name p (err e) next call made refreshed proxied =
        absurd (denies crashed proxied)
    answered-Admitted config name p (ok q) next call made refreshed proxied =
        let (u, passed) = resume-passes next call (handle c q call.header) proxied in
        record {
          plugin = p;
          made = made;
          seen = call;
          kept = refl;
          now = q;
          refreshed = refreshed;
          user = u;
          passed = passed;
        }

    constructed-Admitted :
        (config : Dict Value) (name : Text) (o : Result InitError AuthenticationPlugin)
        (q : Plugin (Call S → R)) (next : Call S → R) (call : Call S)
        → init src config global.authentication ≡ o
        → initialized (text "authentication") (constructed c deny (ticks config) message o) ≡ ok q
        → Proxied (q.handle next call)
        → Admitted c src ticks config global.authentication name call
    unfolding authenticate
    constructed-Admitted config name (err panics) q next call made done proxied = absurd (cc)
    constructed-Admitted config name (err algorithm_missing) q next call made done proxied =
        absurd (cc)
    constructed-Admitted config name (err (secret_missing a)) q next call made done proxied =
        absurd (cc)
    constructed-Admitted config name (err (public_key_missing a)) q next call made done proxied =
        absurd (cc)
    constructed-Admitted config name (err (algorithm_unsupported a)) q next call made done proxied =
        absurd (cc)
    constructed-Admitted config name (ok p) q next call made done proxied =
        let same = ok-injective done in
        let own : Proxied (authenticate c deny (ticks config) p next call) =
          subst (λ x. Proxied (x.handle next call)) (sym same) proxied in
        answered-Admitted config name p (current (ticks config call) p) next call made refl own

    instance-Admitted :
        (conf : PluginInstanceConfig) (name : Text) (q : Plugin (Call S → R)) (next : Call S → R)
        (call : Call S)
        → conf.name ≡ text "authentication"
        → get_plugin_instance registry global conf ≡ ok q
        → Proxied (q.handle next call)
        → Admitted c src ticks conf.config global.authentication name call
    unfolding get_plugin_instance authentication_constructor
    instance-Admitted conf name q next call named got proxied =
        let found = ap (λ n. lookup n registry) named ∙ registered in
        let f = rw named at (sym (ap (instance_of global conf) found) ∙ got) in
        constructed-Admitted conf.config name (init src conf.config global.authentication) q next
          call refl f proxied

    -- The plugins that stand before the authentication in the route's list pass calls on.
    abbrev pub AllPassOn : Text → List PluginInstanceConfig → Type 0
    AllPassOn name confs =
        (conf : PluginInstanceConfig) (q : Plugin (Call S → R))
        → In conf confs
        → get_plugin_instance registry global conf ≡ ok q
        → PassesOn name q

    instances-Admitted :
        (before after : List PluginInstanceConfig) (conf : PluginInstanceConfig) (name : Text)
        (ps : List (Plugin (Call S → R))) (proxy : Call S → R) (call : Call S)
        → conf.name ≡ text "authentication"
        → AllPassOn name before
        → instances registry global (before ++ (conf ∷ after)) ≡ ok ps
        → Proxied (chain_plugins ps proxy call)
        → Admitted c src ticks conf.config global.authentication name call
    unfolding instances
    instances-Admitted [] after conf name ps proxy call named on made proxied =
        let (q, got, e) = >>=-eq-ok (get_plugin_instance registry global conf) _ made in
        let (qs, rest, f) = >>=-eq-ok (instances registry global after) _ e in
        let run : chain_plugins ps proxy ≡ q.handle (chain_plugins qs proxy) =
          ap (λ x. chain_plugins x proxy) (sym (ok-injective f)) ∙ chain_plugins_cons q qs proxy in
        instance-Admitted conf name q (chain_plugins qs proxy) call named got
          (subst (λ h. Proxied (h call)) run proxied)
    instances-Admitted (first ∷ before) after conf name ps proxy call named on made proxied =
        let (q, got, e) = >>=-eq-ok (get_plugin_instance registry global first) _ made in
        let (qs, rest, f) = >>=-eq-ok (instances registry global (before ++ (conf ∷ after))) _ e in
        let run : chain_plugins ps proxy ≡ q.handle (chain_plugins qs proxy) =
          ap (λ x. chain_plugins x proxy) (sym (ok-injective f)) ∙ chain_plugins_cons q qs proxy in
        let (seen, kept, inner) =
          (on first q (inl refl) got).from_next (chain_plugins qs proxy) call
            (subst (λ h. Proxied (h call)) run proxied) in
        let a =
          instances-Admitted before after conf name qs proxy seen named (λ k x m. on k x (inr m))
            rest inner in
        record {
          plugin = a.plugin;
          made = a.made;
          seen = a.seen;
          kept = a.kept ∙ kept;
          now = a.now;
          refreshed = a.refreshed;
          user = a.user;
          passed = a.passed;
        }

-- In a gateway whose configuration passed its checks, whose router could be made and whose registry
-- has the authentication plugin: if the plugins of the matched route could be made and the
-- authentication is one of them, then an answer of the proxy is one to a call that the plugin let
-- through, at the same headers of a name: the plugin as it was set up from the route's and the
-- global settings, with the keys of the ticks of its refresh before the call. The plugins before it
-- have no answers of the proxy of their own and keep the headers of the name, and neither the
-- plugin's errors nor the end of the program are such answers.
pub serve_http-Admitted :
    {S R : Type 0} (Proxied : R → Type 0) (c : Crypto) (deny : Refusal → R) (src : Sources)
    (ticks : Dict Value → Call S → List Sources) (message : InitError → Text)
    (registry : Registry (Call S → R)) (cfg : Config) (proxy h chained : Call S → R)
    (rt : Router (Call S → R)) (req : Request) (info : MatchedRouteInfo)
    (before after : List PluginInstanceConfig) (conf : PluginInstanceConfig) (name : Text)
    (call : Call S) (denies : (o : Refusal) → Proxied (deny o) → ⊥)
    (registered : lookup (text "authentication") registry
      ≡ some (authentication_constructor c deny src ticks message))
    → IsWellFormed cfg
    → new_router registry cfg proxy ≡ some rt
    → serve_http rt req ≡ serves info h
    → build_plugin_chain registry cfg.plugins info.route_config proxy ≡ ok chained
    → info.route_config.plugins ≡ before ++ (conf ∷ after)
    → conf.name ≡ text "authentication"
    → AllPassOn Proxied c deny denies src ticks message registry cfg.plugins registered name before
    → Proxied (h call)
    → Admitted c src ticks conf.config cfg.plugins.authentication name call
unfolding build_plugin_chain
serve_http-Admitted Proxied c deny src ticks message registry cfg proxy h chained rt req info before
      after conf name call denies registered w routed served built listed named on proxied =
    let (first, own) = (serve_http_iff registry cfg proxy rt req info h w routed).0 served in
    let (ps, made, e) =
      >>=-eq-ok (instances registry cfg.plugins info.route_config.plugins) _ built in
    let run : h ≡ chain_plugins ps proxy =
      own ∙ ap (λ x. chain_or_proxy proxy (own_chain x)) built ∙ sym (ok-injective e) in
    instances-Admitted Proxied c deny denies src ticks message registry cfg.plugins registered
      before after conf name ps proxy call named on
      (ap (instances registry cfg.plugins) (sym listed) ∙ made)
      (subst (λ k. Proxied (k call)) run proxied)
