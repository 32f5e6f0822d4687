-- ===== src/Gateway/Registered.antt =====
-- The registry of the package app/plugins once its files have run their `init` functions: each
-- registers the constructor of its plugin, with `Name` and `Init`. Handlers of calls are those of the
-- gateway; what the four other plugins make of one is a parameter.
use corridor.Prelude.{◌≡◌, List, [], ◌∷◌, Option, none, some, Result, ok, err, In}
use corridor.Prelude.Text.{Text, text}
use corridor.Prelude.Dict.{Dict}
use corridor.Config.{PluginsConfig, PluginInstanceConfig}
use corridor.Config.Yaml.{Value}
use corridor.Plugin.{
  Plugin, PluginError, not_registered, init_failed, init_panics, InitFailure, fails, crashes,
  Constructor, Registry, register_plugin,
}
use corridor.Authentication.{Sources, InitError, panics}
use corridor.Authentication.Handling.{Crypto}
use corridor.Caching.{CachingPlugin}
use corridor.RateLimiting.{RateLimitingPlugin}
use corridor.PathRewrite.{PathRewritePlugin, PathRewriteError}
use corridor.Gateway.{Call, Refusal, authentication_constructor}

-- A nil map of settings; an empty one fails as well, with another message.
abbrev pub config_or_nil : Dict Value → Option (Dict Value)
config_or_nil [] = none
config_or_nil (s ∷ config) = some (s ∷ config)

module _ {H : Type 0} where
  abbrev pub caching_constructor : (CachingPlugin → H → H) → Constructor H
  caching_constructor handle config global = ok (record {
    name = text "caching";
    handle = handle (corridor.Caching.init config global.caching);
  })

  abbrev pub rate_limiting_constructor : (RateLimitingPlugin → H → H) → Constructor H
  rate_limiting_constructor handle config global = ok (record {
    name = text "rate-limiting";
    handle = handle (corridor.RateLimiting.init config global.rate_limiting);
  })

  abbrev pub request_id_constructor : (H → H) → Constructor H
  request_id_constructor handle config global =
      ok (record { name = text "request-id"; handle = handle })

  abbrev pub rewriting :
      {Regex : Type 0}
      → (PathRewritePlugin Regex → H → H)
      → (PathRewriteError → Text)
      → Result PathRewriteError (PathRewritePlugin Regex)
      → Result InitFailure (Plugin H)
  rewriting handle message (ok p) = ok (record { name = text "path-rewrite"; handle = handle p })
  rewriting handle message (err e) = err (fails (message e))

  abbrev pub path_rewrite_constructor :
      {Regex : Type 0}
      → (Text → Option Regex)
      → (PathRewritePlugin Regex → H → H)
      → (PathRewriteError → Text)
      → Constructor H
  path_rewrite_constructor compile handle message config global =
      rewriting handle message (corridor.PathRewrite.init compile (config_or_nil config))

abbrev pub plugin_names : List Text
plugin_names =
    text "authentication"
    ∷ text "caching"
    ∷ text "path-rewrite"
    ∷ text "rate-limiting"
    ∷ text "request-id"
    ∷ []

-- Those whose `Init` can fail.
abbrev pub fallible : List Text
fallible = text "authentication" ∷ text "path-rewrite" ∷ []

abbrev keys : {V : Type 0} → Dict V → List Text
keys [] = []
keys ((slot, v) ∷ m) = slot ∷ keys m

-- The handlers of the plugins, beside that of the authentication.
pub record Handlers (H Regex : Type 0) : Type 0 where
  pub caching : CachingPlugin → H → H
  pub path_rewrite : PathRewritePlugin Regex → H → H
  pub rate_limiting : RateLimitingPlugin → H → H
  pub request_id : H → H

module _ {S R Regex : Type 0} (c : Crypto) (deny : Refusal → R) (src : Sources)
    (ticks : Dict Value → Call S → List Sources) (compile : Text → Option Regex)
    (auth_message : InitError → Text) (rewrite_message : PathRewriteError → Text)
    (handlers : Handlers (Call S → R) Regex) where
  -- The registry in the order of the files' names.
  unfoldable pub registered : Registry (Call S → R)
  unfolding register_plugin
  registered = register_plugin (text "request-id") (request_id_constructor handlers.request_id) (
      register_plugin (text "rate-limiting") (rate_limiting_constructor handlers.rate_limiting) (
        register_plugin (text "path-rewrite")
          (path_rewrite_constructor compile handlers.path_rewrite rewrite_message)
          (register_plugin (text "caching") (caching_constructor handlers.caching) (
            register_plugin (text "authentication")
              (authentication_constructor c deny src ticks auth_message) []))))

  -- What an instance is: the plugin of the name that was asked for, or an error, which only the
  -- authentication and the rewriting of paths can have at their `Init`; and the program ends only at
  -- a panic of the authentication's.
  abbrev pub Classified :
      PluginsConfig → PluginInstanceConfig → Result PluginError (Plugin (Call S → R)) → Type 0
  Classified global cfg (ok p) = (p.name ≡ cfg.name) × In cfg.name plugin_names
  Classified global cfg (err (not_registered name)) =
      (name ≡ cfg.name) × (In cfg.name plugin_names → ⊥)
  Classified global cfg (err (init_failed name message)) = (name ≡ cfg.name) × In cfg.name fallible
  Classified global cfg (err (init_panics name)) =
      (name ≡ cfg.name)
      × (cfg.name ≡ text "authentication")
      × (corridor.Authentication.Settings.init src cfg.config global.authentication ≡ err panics)

  -- What a constructor makes bears the name that it is registered under, or it is one of the two
  -- that can fail, or the one that can panic.
  abbrev Made :
      Text → Dict Value → PluginsConfig → Result InitFailure (Plugin (Call S → R)) → Type 0
  Made name config global (ok p) = p.name ≡ name
  Made name config global (err (fails message)) = In name fallible
  Made name config global (err crashes) =
      (name ≡ text "authentication")
      × (corridor.Authentication.Settings.init src config global.authentication ≡ err panics)

  abbrev IsNamed : Text × Constructor (Call S → R) → Type 0
  IsNamed entry =
      (config : Dict Value) (global : PluginsConfig)
      → Made entry.0 config global (entry.1 config global)
