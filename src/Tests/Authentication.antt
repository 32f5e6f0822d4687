-- ===== src/Tests/Authentication.antt =====
-- A plugin for API keys with one key.
use corridor.Prelude.{
  ◌≡◌, ◌≢◌, refl, sym, ◌∙◌, ap, [], ◌∷◌, ◌++◌, Option, none, some, true, false, ok, err,
  if◌then◌else◌, inl, some-injective,
}
use corridor.Prelude.Text.{Text, text, ◌==◌, eq_iff, to_lower}
use corridor.Prelude.Dict.{Dict, lookup, insert}
use corridor.Config.Yaml.{Value, str, dict, list, nil, cons, end, field, field_at}
use corridor.Authentication.{
  HashedApiKeyDetails, ApiKeyDoc, AuthenticationPlugin, Sources, panics, entry_of, entries,
  load_docs, details,
}
use corridor.Authentication.Settings.{
  apply_texts, apply_mongo, apply_keys, apply_public_key, apply_auth_config, defaults, check_jwt,
  use_mongo, init, load_api_keys_from_mongodb, refresh,
}
use corridor.Authentication.Handling.{
  hmac, Token, VerificationKey, no_key, secret_key, public_key, Crypto, passes, handle_api_key,
  handle,
}
use corridor.Authentication.Access.{IsStored}
use corridor.Authentication.ApiKey.{client, handle-IsStored}
use corridor.Authentication.Listed.{handle-generate_api_key_hashes, init-panics}
use corridor.Authentication.Refresh.{refresh_revokes}
use corridor.Keygen.{generate_api_key_hashes}

abbrev sha256_hex : Text → Text
sha256_hex key = text "sha256-of-" ++ key

abbrev bcrypt_hash : Text → Text
bcrypt_hash key = text "$2a$" ++ key

abbrev sprint : Option Value → Text
sprint (some (str s)) = s
sprint _ = text "<nil>"

-- The token that every text which is signed right stands for.
abbrev pub token : Token
token = record {
  alg = some (text "HS256");
  method = hmac;
  claims = (text "sub", str (text "ann")) ∷ [];
  valid = true;
}

abbrev pub sign : VerificationKey → Text
sign no_key = []
sign (secret_key s) = text "signed-" ++ s
sign (public_key k) = []

abbrev pub verify : Text → Option VerificationKey → Option Token
verify t none = none
verify t (some k) = if sign k == t then some token else none

abbrev pub crypto : Crypto
crypto = record {
  sha256_hex = sha256_hex;
  bcrypt_compare = λ hash key. hash == bcrypt_hash key;
  sprint = sprint;
  parse_with_claims = λ t key_of options. verify t (key_of token);
}

-- No files and no database.
abbrev pub sources : Sources
sources = record {
  read_file = λ file. none;
  pem_decode = λ bytes. none;
  parse_pkix = λ block. none;
  parse_pkcs1 = λ block. none;
  mongo_connect = λ uri timeout. false;
  mongo_find = λ db coll timeout. none;
}

abbrev pub doc : ApiKeyDoc
doc = record {
  client_id = text "acme";
  lookup_key = sha256_hex (text "k1");
  hashed_value = bcrypt_hash (text "k1");
}

abbrev pub key_settings : Dict Value
key_settings =
    (text "provider", str (text "API-Key"))
    ∷ (
      text "api_keys",
      list (
          cons
            (dict (
              field (text "client_id") (str (text "acme")) (
                field (text "lookup_key") (str (sha256_hex (text "k1")))
                  (field (text "hashed_value") (str (bcrypt_hash (text "k1"))) end))))
            nil),
    )
    ∷ []

abbrev pub key_plugin : AuthenticationPlugin
key_plugin = record defaults {
  provider = text "api-key";
  valid_api_keys = (sha256_hex (text "k1"), details doc) ∷ [];
}

key_plugin_made : init sources [] key_settings ≡ ok key_plugin
unfolding init apply_auth_config apply_texts apply_mongo apply_keys apply_public_key entries
    entry_of load_docs insert lookup field_at to_lower check_jwt use_mongo ◌==◌
key_plugin_made = refl

abbrev pub header : Text → Text
header name = if name == text "X-API-Key" then text "k1" else []

header_key : header (text "X-API-Key") ≡ text "k1"
unfolding ◌==◌
header_key = refl

key_passes : handle crypto key_plugin header ≡ passes (client (details doc))
unfolding handle handle_api_key lookup ◌==◌
key_passes = refl

handle-IsStored_example :
    (d : HashedApiKeyDetails) × IsStored sources key_settings key_plugin
      (crypto.sha256_hex (header (text "X-API-Key")))
      d
    × (crypto.bcrypt_compare d.bcrypt_hash (header (text "X-API-Key")) ≡ true)
    × (client (details doc) ≡ client d)
handle-IsStored_example =
    handle-IsStored crypto sources [] key_settings key_plugin header (client (details doc))
      key_plugin_made refl key_passes

abbrev bcrypt_generate : Text → Option Text
bcrypt_generate key = some (bcrypt_hash key)

generated :
    generate_api_key_hashes sha256_hex bcrypt_generate (text "k1")
    ≡ ok (doc.lookup_key, doc.hashed_value)
unfolding generate_api_key_hashes ◌==◌
generated = refl

listed_doc :
    entries (
      cons
        (dict (
          field (text "client_id") (str (text "acme")) (
            field
              (text "lookup_key")
              (str (sha256_hex (text "k1")))
              (field (text "hashed_value") (str (bcrypt_hash (text "k1"))) end))))
        nil)
    ≡ some doc ∷ []
unfolding entries entry_of field_at ◌==◌
listed_doc = refl

handle-generate_api_key_hashes_example :
    handle crypto key_plugin header ≡ passes (client (details doc))
unfolding lookup entries entry_of field_at ◌==◌
handle-generate_api_key_hashes_example =
    handle-generate_api_key_hashes crypto bcrypt_generate sources [] key_settings key_plugin header
      (text "k1") doc [] []
      (λ hash e. (eq_iff hash (bcrypt_hash (text "k1"))).1 (sym (some-injective e))) generated refl
      tt refl refl key_plugin_made refl header_key

abbrev short_settings : Dict Value
short_settings =
    (
      text "api_keys",
      list (
          cons
            (dict (
              field (text "lookup_key") (str (text "k1"))
                (field (text "hashed_value") (str (text "h")) end)))
            nil),
    )
    ∷ []

abbrev short_doc : ApiKeyDoc
short_doc = record { client_id = []; lookup_key = text "k1"; hashed_value = text "h" }

init-panics_example : init sources [] short_settings ≡ err panics
unfolding lookup entries entry_of field_at ◌==◌
init-panics_example = init-panics sources [] short_settings short_doc refl (inl refl) refl

-- The key is stored, and the database no longer lists it.
abbrev connected_plugin : AuthenticationPlugin
connected_plugin = record key_plugin {
  mongo_connected = true;
  mongo_database_name = text "db";
  mongo_collection_name = text "keys";
}

abbrev other_doc : ApiKeyDoc
other_doc = record doc { lookup_key = sha256_hex (text "k2") }

abbrev database : Sources
database = record sources { mongo_find = λ db coll timeout. some (some other_doc ∷ []) }

abbrev refreshed_plugin : AuthenticationPlugin
refreshed_plugin = record connected_plugin {
  valid_api_keys = (sha256_hex (text "k2"), details other_doc) ∷ [];
}

refreshed : refresh database connected_plugin ≡ ok refreshed_plugin
unfolding refresh load_api_keys_from_mongodb load_docs insert ◌==◌
refreshed = refl

other_key : (other_doc.lookup_key == sha256_hex (text "k1")) ≡ false
unfolding ◌==◌
other_key = refl

key_header : sha256_hex (header (text "X-API-Key")) ≡ sha256_hex (text "k1")
key_header = ap sha256_hex header_key

unlisted : other_doc.lookup_key ≢ sha256_hex (header (text "X-API-Key"))
unlisted e =
    let same = (eq_iff other_doc.lookup_key (sha256_hex (text "k1"))).1 (e ∙ key_header) in
    let f = sym other_key ∙ same in absurd (cc)

refresh_revokes_example : handle crypto refreshed_plugin header ≢ passes (client (details doc))
unfolding ◌==◌
refresh_revokes_example =
    refresh_revokes crypto database connected_plugin refreshed_plugin (some other_doc ∷ []) header
      (client (details doc)) refl refl refreshed refl (unlisted, tt)
