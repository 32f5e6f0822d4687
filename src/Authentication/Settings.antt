-- ===== src/Authentication/Settings.antt =====
-- app/plugins/authentication.go: `Init`, `applyAuthConfig` and the loading from MongoDB.
use corridor.Prelude.{
  ◌*◌, List, [], Option, none, some, Bool, true, false, not, ◌&&◌, ◌||◌, Result, ok, err, ◌>>=◌,
  ◌>>◌, refuse, if◌then◌else◌,
}
use corridor.Prelude.Int.{ℤ, pos, duration, millisecond, second, is_positive}
use corridor.Prelude.Text.{Text, text, ◌==◌, to_lower, has_prefix}
use corridor.Prelude.Dict.{Dict, lookup}
use corridor.Config.Yaml.{Value, as_list}
use corridor.Authentication.{
  AuthenticationPlugin, ApiKeyDoc, Sources, InitError, algorithm_missing, secret_missing,
  public_key_missing, algorithm_unsupported, panics, setting, positive_setting, or_else, given,
  load_docs, listed, load_public_key,
}

pub data Scope : Type 0 where
  global route_specific : Scope

abbrev lower_or : Text → Option Text → Text
lower_or old none = old
lower_or old (some s) = to_lower s

-- The settings that are strings.
unfoldable pub apply_texts : Dict Value → AuthenticationPlugin → AuthenticationPlugin
apply_texts config p = record p {
  provider = lower_or p.provider (setting (text "provider") config);
  jwt_secret_key = given (setting (text "jwt_secret") config) p.jwt_secret_key;
  jwt_expected_algorithm = or_else p.jwt_expected_algorithm (setting (text "jwt_algorithm") config);
  jwt_expected_issuer = or_else p.jwt_expected_issuer (setting (text "jwt_issuer") config);
  jwt_expected_audience = or_else p.jwt_expected_audience (setting (text "jwt_audience") config);
  token_header_name = or_else p.token_header_name (setting (text "token_header_name") config);
  token_header_scheme = or_else p.token_header_scheme (setting (text "token_header_scheme") config);
  api_key_header_name = or_else p.api_key_header_name (setting (text "api_key_header_name") config);
}

abbrev pub is_given {ℓ} : {A : Type ℓ} → Option A → Bool
is_given none = false
is_given (some a) = true

abbrev duration_or : ℤ → Option ℤ → (ℤ → ℤ) → ℤ
duration_or old none f = old
duration_or old (some n) f = f n

-- The settings for MongoDB, which is used when all three names are there.
abbrev pub with_mongo :
    Scope → Dict Value → Option Text → AuthenticationPlugin → AuthenticationPlugin
with_mongo scope config (some uri) p =
    let db = setting (text "mongodb_database") config in
    let coll = setting (text "mongodb_collection_apikeys") config in
    record p {
      mongo_uri = uri;
      use_mongodb = is_given db && is_given coll;
      mongo_database_name = or_else p.mongo_database_name db;
      mongo_collection_name = or_else p.mongo_collection_name coll;
      mongo_timeout =
          duration_or p.mongo_timeout (positive_setting (text "mongodb_timeout_ms") config)
            (duration millisecond);
      refresh_interval =
          duration_or p.refresh_interval
            (positive_setting (text "mongodb_apikeys_refresh_interval_sec") config)
            (duration second);
    }
with_mongo global config none p = record p { use_mongodb = false }
with_mongo route_specific config none p = p

unfoldable pub apply_mongo : Scope → Dict Value → AuthenticationPlugin → AuthenticationPlugin
apply_mongo scope config p = with_mongo scope config (setting (text "mongodb_uri") config) p

abbrev pub is_global : Scope → Bool
is_global global = true
is_global route_specific = false

-- Keys from the global configuration, unless MongoDB is to hold them.
unfoldable pub apply_keys :
    Scope → Dict Value → AuthenticationPlugin → Result InitError AuthenticationPlugin
apply_keys scope config p =
    if not p.use_mongodb && is_global scope
    then (do
      keys ← load_docs (listed (as_list (lookup (text "api_keys") config))) p.valid_api_keys
      ok (record p { valid_api_keys = keys }))
    else ok p

abbrev key_or {ℓ} : {A : Type ℓ} → Option A → Option A → Option A
key_or (some k) old = some k
key_or none old = old

abbrev pub with_key : Sources → Option Text → AuthenticationPlugin → AuthenticationPlugin
with_key src none p = p
with_key src (some file) p = record p {
  jwt_public_key = key_or (load_public_key src file) p.jwt_public_key;
}

unfoldable pub apply_public_key : Sources → Dict Value → AuthenticationPlugin → AuthenticationPlugin
apply_public_key src config p = with_key src (setting (text "jwt_public_key_file") config) p

unfoldable pub apply_auth_config :
    Sources → Scope → Dict Value → AuthenticationPlugin → Result InitError AuthenticationPlugin
apply_auth_config src scope config p = do
  p' ← apply_keys scope config (apply_mongo scope config (apply_texts config p))
  ok (apply_public_key src config p')

abbrev pub defaults : AuthenticationPlugin
defaults = record {
  provider = text "none";
  jwt_secret_key = none;
  jwt_public_key = none;
  jwt_expected_algorithm = [];
  jwt_expected_issuer = [];
  jwt_expected_audience = [];
  token_header_name = text "Authorization";
  token_header_scheme = text "Bearer";
  valid_api_keys = [];
  api_key_header_name = text "X-API-Key";
  mongo_uri = [];
  mongo_connected = false;
  mongo_database_name = [];
  mongo_collection_name = [];
  mongo_timeout = pos (5 * second);
  use_mongodb = false;
  refresh_interval = pos (300 * second);
  refreshing = false;
}

abbrev pub is_hmac : Text → Bool
is_hmac algorithm = has_prefix algorithm (text "HS")

abbrev pub is_asymmetric : Text → Bool
is_asymmetric algorithm =
    (has_prefix algorithm (text "RS") || has_prefix algorithm (text "ES"))
    || has_prefix algorithm (text "PS")

-- The checks of the JWT settings.
unfoldable pub check_jwt : AuthenticationPlugin → Result InitError (Unit {0})
check_jwt p = do
  refuse (p.jwt_expected_algorithm == []) algorithm_missing
  refuse (is_hmac p.jwt_expected_algorithm && not (is_given p.jwt_secret_key))
      (secret_missing p.jwt_expected_algorithm)
  refuse (is_asymmetric p.jwt_expected_algorithm && not (is_given p.jwt_public_key))
      (public_key_missing p.jwt_expected_algorithm)
  refuse (not (is_hmac p.jwt_expected_algorithm) && not (is_asymmetric p.jwt_expected_algorithm))
      (algorithm_unsupported p.jwt_expected_algorithm)

-- The documents of the query replace the keys.
abbrev pub replace_keys :
    Option (List (Option ApiKeyDoc))
    → AuthenticationPlugin
    → Result InitError (Bool × AuthenticationPlugin)
replace_keys none p = ok (false, p)
replace_keys (some docs) p =
    load_docs docs [] >>= λ keys. ok (true, record p { valid_api_keys = keys })

-- Whether the keys could be loaded, and the plugin with them.
unfoldable pub load_api_keys_from_mongodb :
    Sources → AuthenticationPlugin → Result InitError (Bool × AuthenticationPlugin)
load_api_keys_from_mongodb src p =
    if not p.mongo_connected || (p.mongo_database_name == [] || p.mongo_collection_name == [])
    then ok (false, p)
    else replace_keys (src.mongo_find p.mongo_database_name p.mongo_collection_name p.mongo_timeout)
        p

-- A tick of `periodicAPIKeyRefresh`, which logs a failure and goes on.
unfoldable pub refresh : Sources → AuthenticationPlugin → Result InitError AuthenticationPlugin
refresh src p = load_api_keys_from_mongodb src p >>= λ (loaded, p'). ok p'

-- `connectMongoDB`: whether it succeeded.
abbrev pub connects : Sources → AuthenticationPlugin → Bool
connects src p = not (p.mongo_uri == []) && src.mongo_connect p.mongo_uri p.mongo_timeout

-- The refresh runs once the first load has succeeded.
unfoldable pub use_mongo : Sources → AuthenticationPlugin → Result InitError AuthenticationPlugin
use_mongo src p =
    if connects src p
    then (do
      (loaded, p') ← load_api_keys_from_mongodb src (record p { mongo_connected = true })
      ok (record p' { refreshing = loaded && is_positive p'.refresh_interval }))
    else ok (record p { use_mongodb = false })

unfoldable pub init : Sources → Dict Value → Dict Value → Result InitError AuthenticationPlugin
init src config global_config = do
  p ← apply_auth_config src global global_config defaults
  p' ← apply_auth_config src route_specific config p
  if p'.provider == text "jwt" then check_jwt p' else ok tt
  if p'.provider == text "api-key" && p'.use_mongodb then use_mongo src p' else ok p'

-- `Shutdown`, with the error of `Disconnect` as a parameter, where the channel of the refresh was
-- closed before or not: the error that it returns and whether the channel is closed now. To close a
-- channel that is closed panics.
unfoldable pub shutdown :
    (ℤ → Option Text) → Bool → AuthenticationPlugin → Result InitError (Option Text × Bool)
shutdown disconnect closed p =
    if p.refreshing && closed
    then err panics
    else ok (if p.mongo_connected then disconnect p.mongo_timeout else none, p.refreshing || closed)
