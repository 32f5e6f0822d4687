-- ===== src/Plugin.antt =====
-- app/plugins/plugin.go: the registry of plugin constructors, and the chain of a route's plugins.
-- `H` is `http.Handler`.
pub mod Chain
use corridor.Prelude.{List, [], ◌∷◌, Option, none, some, Result, ok, err, ◌>>=◌, reverse}
use corridor.Prelude.Text.{Text}
use corridor.Prelude.Dict.{Dict, lookup, insert}
use corridor.Config.{PluginInstanceConfig, PluginsConfig}
use corridor.Config.Yaml.{Value}

-- An initialised plugin: its `Name` and its `Handle`.
pub record Plugin (H : Type 0) : Type 0 where
  pub name : Text
  pub handle : H → H

-- The two ways in which an `Init` does not make a plugin: an error, with its message, and a panic.
pub data InitFailure : Type 0 where
  fails : Text → InitFailure
  crashes : InitFailure

-- The two errors of `GetPluginInstance`; the third is no error of it, but the end of the program at
-- a panic of the `Init` of the plugin of a name.
pub data PluginError : Type 0 where
  not_registered : Text → PluginError
  init_failed : Text → Text → PluginError
  init_panics : Text → PluginError

-- A constructor followed by the `Init` of what it makes.
abbrev pub Constructor : Type 0 → Type 0
Constructor H = Dict Value → PluginsConfig → Result InitFailure (Plugin H)

abbrev pub Registry : Type 0 → Type 0
Registry H = Dict (Constructor H)

module _ {H : Type 0} where
  unfoldable pub register_plugin : Text → Constructor H → Registry H → Registry H
  unfolding insert
  register_plugin name constructor registry = insert name constructor registry

  abbrev pub initialized : Text → Result InitFailure (Plugin H) → Result PluginError (Plugin H)
  initialized name (ok p) = ok p
  initialized name (err (fails message)) = err (init_failed name message)
  initialized name (err crashes) = err (init_panics name)

  abbrev pub instance_of :
      PluginsConfig → PluginInstanceConfig → Option (Constructor H) → Result PluginError (Plugin H)
  instance_of global instance_config none = err (not_registered instance_config.name)
  instance_of global instance_config (some constructor) =
      initialized instance_config.name (constructor instance_config.config global)

  unfoldable pub get_plugin_instance :
      Registry H → PluginsConfig → PluginInstanceConfig → Result PluginError (Plugin H)
  get_plugin_instance registry global instance_config =
      instance_of global instance_config (lookup instance_config.name registry)

  -- The loop of `ChainPlugins`, which runs from the last plugin to the first.
  unfoldable pub chain_loop : List (Plugin H) → H → H
  chain_loop [] current = current
  chain_loop (p ∷ ps) current = chain_loop ps (p.handle current)

  unfoldable pub chain_plugins : List (Plugin H) → H → H
  unfolding chain_loop
  chain_plugins ps ultimate = chain_loop (reverse ps) ultimate
