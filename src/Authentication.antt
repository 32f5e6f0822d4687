-- ===== src/Authentication.antt =====
-- app/plugins/authentication.go: the plugin's settings and its key store. Files, PEM, X.509 and
-- the MongoDB driver are the parameters of `Sources`. A nil map of settings is the empty one.
pub mod Settings
pub mod Handling
pub mod Keys
pub mod Access
pub mod ApiKey
pub mod Listed
pub mod Refresh
pub mod Usable
pub mod Tokens
use corridor.Prelude.{
  ℕ, List, [], ◌∷◌, Option, none, some, Bool, true, false, not, ◌&&◌, ltb, length, Result, ok, err,
  ◌>>=◌, refuse, ◌>>◌, if◌then◌else◌,
}
use corridor.Prelude.Int.{ℤ, pos, duration, millisecond, second, is_positive}
use corridor.Prelude.Text.{Text, text, ◌==◌, to_lower}
use corridor.Prelude.Dict.{Dict, lookup, insert}
use corridor.Config.Yaml.{
  Value, str, dict, Items, nil, cons, Fields, as_string, as_int, as_list, field_at,
}

-- The bytes of a key beside its Go type.
pub data PublicKey : Type 0 where
  rsa ecdsa ed25519 other : Text → PublicKey

pub record HashedApiKeyDetails : Type 0 where
  pub client_id : Text
  pub bcrypt_hash : Text

pub record AuthenticationPlugin : Type 0 where
  pub provider : Text
  pub jwt_secret_key : Option Text
  pub jwt_public_key : Option PublicKey
  pub jwt_expected_algorithm : Text
  pub jwt_expected_issuer : Text
  pub jwt_expected_audience : Text
  pub token_header_name : Text
  pub token_header_scheme : Text
  pub valid_api_keys : Dict HashedApiKeyDetails
  pub api_key_header_name : Text
  pub mongo_uri : Text
  pub mongo_connected : Bool
  pub mongo_database_name : Text
  pub mongo_collection_name : Text
  pub mongo_timeout : ℤ
  pub use_mongodb : Bool
  pub refresh_interval : ℤ
  pub refreshing : Bool

pub record ApiKeyDoc : Type 0 where
  pub client_id : Text
  pub lookup_key : Text
  pub hashed_value : Text

-- What the file system, the decoders and the database answer while the plugin is set up. A
-- document that cannot be decoded is `none`, and so is a failed query.
pub record Sources : Type 0 where
  pub read_file : Text → Option Text
  pub pem_decode : Text → Option Text
  pub parse_pkix : Text → Option PublicKey
  pub parse_pkcs1 : Text → Option PublicKey
  pub mongo_connect : Text → ℤ → Bool
  pub mongo_find : Text → Text → ℤ → Option (List (Option ApiKeyDoc))

-- The errors of `Init`, and the panic of a slice that is out of range.
pub data InitError : Type 0 where
  algorithm_missing : InitError
  secret_missing public_key_missing algorithm_unsupported : Text → InitError
  panics : InitError

-- `s != ""` for a setting that is a string.
abbrev pub nonblank : Option Text → Option Text
nonblank none = none
nonblank (some s) = if s == [] then none else some s

abbrev pub setting : Text → Dict Value → Option Text
setting key config = nonblank (as_string (lookup key config))

abbrev pub positive_setting : Text → Dict Value → Option ℤ
positive_setting key config = elim (as_int (lookup key config)) [
  | none ↦ none
  | some n ↦ if is_positive n then some n else none
]

abbrev pub or_else {ℓ} : {A : Type ℓ} → A → Option A → A
or_else a none = a
or_else a (some b) = b

-- A setting that was given, over the one that stands.
abbrev pub given : Option Text → Option Text → Option Text
given (some s) old = some s
given none old = old

-- `lookupKey[:8]` of a log line.
abbrev pub is_short : Text → Bool
is_short key = ltb (length key) 8

-- A key that is stored, from its two settings and the client's name.
abbrev pub stored : Option Text → Option Text → Text → Option ApiKeyDoc
stored (some lookup_key) (some hashed_value) client_id =
    some (record { client_id = client_id; lookup_key = lookup_key; hashed_value = hashed_value })
stored _ _ client_id = none

-- One element of the list `api_keys`; one that is no map or lacks a setting is skipped.
unfoldable pub entry_of : Value → Option ApiKeyDoc
entry_of (dict fields) =
    stored (nonblank (as_string (field_at (text "lookup_key") fields)))
      (nonblank (as_string (field_at (text "hashed_value") fields)))
      (or_else [] (as_string (field_at (text "client_id") fields)))
entry_of _ = none

unfoldable pub entries : Items → List (Option ApiKeyDoc)
entries nil = []
entries (cons v vs) = entry_of v ∷ entries vs

abbrev pub details : ApiKeyDoc → HashedApiKeyDetails
details doc = record { client_id = doc.client_id; bcrypt_hash = doc.hashed_value }

-- The loop over the list, and the one over the database's cursor.
unfoldable pub load_docs :
    List (Option ApiKeyDoc) → Dict HashedApiKeyDetails → Result InitError (Dict HashedApiKeyDetails)
load_docs [] keys = ok keys
load_docs (none ∷ docs) keys = load_docs docs keys
load_docs (some doc ∷ docs) keys =
    refuse (is_short doc.lookup_key) panics
    >> load_docs docs (insert doc.lookup_key (details doc) keys)

-- The documents of a list that may be missing.
abbrev pub listed : Option Items → List (Option ApiKeyDoc)
listed none = []
listed (some vs) = entries vs

-- The type switch over a parsed key.
abbrev pub supported : PublicKey → Option PublicKey
supported (other k) = none
supported (rsa k) = some (rsa k)
supported (ecdsa k) = some (ecdsa k)
supported (ed25519 k) = some (ed25519 k)

abbrev and_then : {A B : Type 0} → Option A → (A → Option B) → Option B
and_then none f = none
and_then (some a) f = f a

-- PKIX, or else PKCS1.
abbrev parse_public_key : Sources → Text → Option PublicKey
parse_public_key src block = elim (src.parse_pkix block) [
  | none ↦ src.parse_pkcs1 block
  | some k ↦ some k
]

-- The key of `jwt_public_key_file`; any failure is logged and leaves the key that stands.
unfoldable pub load_public_key : Sources → Text → Option PublicKey
load_public_key src file = and_then (src.read_file file) λ bytes.
    and_then (src.pem_decode bytes) λ block. and_then (parse_public_key src block) supported
