-- ===== src/Authentication/Handling.antt =====
-- app/plugins/authentication.go: `Handle`. A request is what `r.Header.Get` returns. SHA-256 in
-- hex, bcrypt's comparison, `fmt.Sprintf("%v", …)` and the JWT parser are parameters.
use corridor.Prelude.{List, [], ◌∷◌, Option, none, some, Bool, false, if◌then◌else◌}
use corridor.Prelude.Text.{Text, text, ◌==◌, equal_fold, fields}
use corridor.Prelude.Dict.{Dict, lookup}
use corridor.Config.Yaml.{Value}
use corridor.Authentication.{PublicKey, HashedApiKeyDetails, AuthenticationPlugin}

-- The Go type of a token's signing method.
pub data SigningMethod : Type 0 where
  hmac rsa_pkcs1 ecdsa_method ed25519_method rsa_pss other_method : SigningMethod

pub record Token : Type 0 where
  pub alg : Option Text
  pub method : SigningMethod
  pub claims : Dict Value
  pub valid : Bool

-- What verifies a signature: nil, bytes or a public key.
pub data VerificationKey : Type 0 where
  no_key : VerificationKey
  secret_key : Text → VerificationKey
  public_key : PublicKey → VerificationKey

-- The options that the parser is given; an issuer and an audience are checked when they are there.
pub record ParserOptions : Type 0 where
  pub valid_methods : List Text
  pub issuer : Option Text
  pub audience : Option Text

pub record Crypto : Type 0 where
  pub sha256_hex : Text → Text
  pub bcrypt_compare : Text → Text → Bool
  pub sprint : Option Value → Text
  pub parse_with_claims : Text → (Token → Option VerificationKey) → ParserOptions → Option Token

pub record AuthenticatedUser : Type 0 where
  pub id : Text
  pub claims : Option (Dict Value)

pub data Denial : Type 0 where
  missing_token malformed_token invalid_token missing_api_key invalid_api_key : Denial

-- A status 401 with its message, a status 500, or the next handler with the user in the context.
pub data Outcome : Type 0 where
  unauthorized : Denial → Outcome
  misconfigured : Outcome
  passes : Option AuthenticatedUser → Outcome

abbrev secret_of : Option Text → VerificationKey
secret_of none = no_key
secret_of (some s) = secret_key s

abbrev public_of : Option PublicKey → VerificationKey
public_of none = no_key
public_of (some k) = public_key k

-- The switch over the method's type; a method of RSA-PSS has a type of its own.
abbrev pub key_for : AuthenticationPlugin → SigningMethod → Option VerificationKey
key_for p hmac = some (secret_of p.jwt_secret_key)
key_for p rsa_pkcs1 = some (public_of p.jwt_public_key)
key_for p ecdsa_method = some (public_of p.jwt_public_key)
key_for p ed25519_method = some (public_of p.jwt_public_key)
key_for p rsa_pss = none
key_for p other_method = none

abbrev pub is_expected : AuthenticationPlugin → Option Text → Bool
is_expected p none = false
is_expected p (some alg) = alg == p.jwt_expected_algorithm

-- `keyFunc`.
unfoldable pub key_func : AuthenticationPlugin → Token → Option VerificationKey
key_func p token = if is_expected p token.alg then key_for p token.method else none

abbrev when_set : Text → Option Text
when_set s = if s == [] then none else some s

unfoldable pub parser_options : AuthenticationPlugin → ParserOptions
parser_options p = record {
  valid_methods = p.jwt_expected_algorithm ∷ [];
  issuer = when_set p.jwt_expected_issuer;
  audience = when_set p.jwt_expected_audience;
}

-- The token in the header's words: after the scheme, or alone when no scheme is expected.
unfoldable pub token_in : Text → List Text → Option Text
token_in scheme (s ∷ token ∷ []) = if equal_fold s scheme then some token else none
token_in scheme (token ∷ []) = if scheme == [] then some token else none
token_in scheme _ = none

abbrev pub user_of : Crypto → Token → AuthenticatedUser
user_of c token = record {
  id = c.sprint (lookup (text "sub") token.claims);
  claims = some token.claims;
}

abbrev pub accepted : Crypto → Option Token → Outcome
accepted c none = unauthorized invalid_token
accepted c (some token) =
    if token.valid then passes (some (user_of c token)) else unauthorized invalid_token

abbrev pub parsed : Crypto → AuthenticationPlugin → Option Text → Outcome
parsed c p none = unauthorized malformed_token
parsed c p (some token) =
    if token == []
    then unauthorized invalid_token
    else accepted c (c.parse_with_claims token (key_func p) (parser_options p))

unfoldable pub handle_jwt : Crypto → AuthenticationPlugin → (Text → Text) → Outcome
handle_jwt c p header =
    if header p.token_header_name == []
    then unauthorized missing_token
    else parsed c p (token_in p.token_header_scheme (fields (header p.token_header_name)))

abbrev pub compared : Crypto → Text → Option HashedApiKeyDetails → Outcome
compared c key none = unauthorized invalid_api_key
compared c key (some details) =
    if c.bcrypt_compare details.bcrypt_hash key
    then passes (some (record { id = details.client_id; claims = none }))
    else unauthorized invalid_api_key

unfoldable pub handle_api_key : Crypto → AuthenticationPlugin → (Text → Text) → Outcome
handle_api_key c p header =
    let key = header p.api_key_header_name in
    if key == []
    then unauthorized missing_api_key
    else compared c key (lookup (c.sha256_hex key) p.valid_api_keys)

unfoldable pub handle : Crypto → AuthenticationPlugin → (Text → Text) → Outcome
handle c p header =
    if p.provider == text "jwt"
    then handle_jwt c p header
    else if p.provider == text "api-key"
    then handle_api_key c p header
    else if p.provider == text "none"
    then passes none
    else misconfigured
