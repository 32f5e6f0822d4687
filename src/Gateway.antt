-- ===== src/Gateway.antt =====
-- The plugin of app/plugins/authentication.go as a handler in a chain: `http.Handler` is a function
-- from calls to answers, `R` is the answers.
pub mod Guarded
pub mod Registered
use corridor.Prelude.{
  List, [], ◌∷◌, Option, none, some, Bool, Result, ok, err, ◌>>=◌, if◌then◌else◌,
}
use corridor.Prelude.Text.{Text, text}
use corridor.Config.{PluginsConfig}
use corridor.Prelude.Dict.{Dict}
use corridor.Config.Yaml.{Value}
use corridor.Plugin.{Plugin, Constructor, InitFailure, fails, crashes}
use corridor.Authentication.{
  AuthenticationPlugin, Sources, InitError, algorithm_missing, secret_missing, public_key_missing,
  algorithm_unsupported, panics,
}
use corridor.Authentication.Settings.{init, refresh}
use corridor.Authentication.Handling.{
  Crypto, AuthenticatedUser, Outcome, passes, unauthorized, misconfigured, handle,
}

-- A request with the user in its context; what else the request has is in `rest`.
pub record Call (S : Type 0) : Type 0 where
  pub header : Text → Text
  pub user : Option AuthenticatedUser
  pub rest : S

-- What a client gets in place of an answer: the plugin's error, or nothing, as the program has ended.
pub data Refusal : Type 0 where
  denied : Outcome → Refusal
  crashed : Refusal

-- The ticks of `periodicAPIKeyRefresh` in order, with what MongoDB answers at each; a panic of one
-- ends the program.
unfoldable pub refreshes :
    List Sources → AuthenticationPlugin → Result InitError AuthenticationPlugin
refreshes [] p = ok p
refreshes (src ∷ ticks) p = refresh src p >>= λ p'. refreshes ticks p'

-- The plugin after the ticks, if its refresh runs.
abbrev pub current : List Sources → AuthenticationPlugin → Result InitError AuthenticationPlugin
current ticks p = if p.refreshing then refreshes ticks p else ok p

module _ {S R : Type 0} (c : Crypto) (deny : Refusal → R) where
  -- The call of the next handler, or the error that is written in its place.
  abbrev pub resume : (Call S → R) → Call S → Outcome → R
  resume next call (passes none) = next call
  resume next call (passes (some u)) = next (record call { user = some u })
  resume next call (unauthorized d) = deny (denied (unauthorized d))
  resume next call misconfigured = deny (denied misconfigured)

  abbrev pub answered : (Call S → R) → Call S → Result InitError AuthenticationPlugin → R
  answered next call (ok p) = resume next call (handle c p call.header)
  answered next call (err e) = deny crashed

  -- `Handle` of a plugin that was set up, at the keys that it has when the call comes; `ticks` are
  -- those before the call.
  unfoldable pub authenticate :
      (Call S → List Sources) → AuthenticationPlugin → (Call S → R) → Call S → R
  authenticate ticks p next call = answered next call (current (ticks call) p)

  -- `Init` with its error or its panic.
  abbrev pub constructed :
      (Call S → List Sources)
      → (InitError → Text)
      → Result InitError AuthenticationPlugin
      → Result InitFailure (Plugin (Call S → R))
  constructed ticks message (ok p) =
      ok (record { name = text "authentication"; handle = authenticate ticks p })
  constructed ticks message (err panics) = err crashes
  constructed ticks message (err algorithm_missing) = err (fails (message algorithm_missing))
  constructed ticks message (err (secret_missing a)) = err (fails (message (secret_missing a)))
  constructed ticks message (err (public_key_missing a)) =
      err (fails (message (public_key_missing a)))
  constructed ticks message (err (algorithm_unsupported a)) =
      err (fails (message (algorithm_unsupported a)))

  -- What the package registers, with `Init`; the plugins of different settings have ticks of their
  -- own.
  unfoldable pub authentication_constructor :
      Sources → (Dict Value → Call S → List Sources) → (InitError → Text) → Constructor (Call S → R)
  authentication_constructor src ticks message config global =
      constructed (ticks config) message (init src config global.authentication)
