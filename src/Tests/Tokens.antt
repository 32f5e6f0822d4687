-- ===== src/Tests/Tokens.antt =====
-- Plugins for tokens.
use corridor.Prelude.{
  ◌≡◌, ◌≢◌, refl, sym, ◌∙◌, ap, [], ◌∷◌, Option, none, some, ok, if◌then◌else◌, Bool-cases, inl,
  inr, some-injective,
}
use corridor.Prelude.Text.{
  Text, text, ◌==◌, eq_iff, has_prefix, to_lower, equal_fold, fields, fields_from,
}
use corridor.Prelude.Dict.{Dict, lookup, insert}
use corridor.Config.Yaml.{Value, str, field_at}
use corridor.Authentication.{
  rsa, Sources, load_public_key, AuthenticationPlugin, entry_of, entries, load_docs,
}
use corridor.Authentication.Settings.{
  apply_texts, apply_mongo, apply_keys, apply_public_key, apply_auth_config, defaults, check_jwt,
  use_mongo, init,
}
use corridor.Authentication.Handling.{
  hmac, Token, VerificationKey, passes, key_func, token_in, handle_jwt, handle, user_of,
}
use corridor.Authentication.Tokens.{
  method_of, IsHonest, Authentic, IsConfigured, handle-IsConfigured, handle_rsa_pss,
}
use corridor.Tests.Authentication.{crypto, sources, token, sign, verify}

abbrev jwt_settings : Dict Value
jwt_settings =
    (text "provider", str (text "jwt"))
    ∷ (text "jwt_secret", str (text "s3"))
    ∷ (text "jwt_algorithm", str (text "HS256"))
    ∷ []

abbrev jwt_plugin : AuthenticationPlugin
jwt_plugin = record defaults {
  provider = text "jwt";
  jwt_secret_key = some (text "s3");
  jwt_expected_algorithm = text "HS256";
}

jwt_plugin_made : init sources [] jwt_settings ≡ ok jwt_plugin
unfolding init apply_auth_config apply_texts apply_mongo apply_keys apply_public_key entries
    entry_of load_docs insert lookup field_at to_lower check_jwt use_mongo has_prefix ◌==◌
jwt_plugin_made = refl

-- A text is signed for a key when it is the key's signature.
abbrev IsSigned : Text → VerificationKey → Type 0
IsSigned t k = sign k ≡ t

abbrev Verified : Text → Option VerificationKey → Token → Type 0
Verified t o tok = (tok ≡ token) × ((k : VerificationKey) × (o ≡ some k) × IsSigned t k)

verify-Verified :
    (t : Text) (o : Option VerificationKey) (tok : Token) → verify t o ≡ some tok → Verified t o tok
verify-Verified t none tok e = absurd (cc)
verify-Verified t (some k) tok e = elim (Bool-cases (sign k == t)) [
  | inl right ↦ (sym (some-injective (rw right at e)), (k, refl, (eq_iff (sign k) t).0 right))
  | inr wrong ↦ let f = rw wrong at e in absurd (cc)
]

hs256_method : method_of (text "HS256") ≡ hmac
unfolding has_prefix
hs256_method = refl

crypto-IsHonest : IsHonest crypto IsSigned
crypto-IsHonest = record {
  verified = λ t key_of options tok e.
      let (same, (k, given, right)) = verify-Verified t (key_of token) tok e in
      (k, ap key_of same ∙ given, right);
  method = λ t key_of options tok alg e has.
      let (same, rest) = verify-Verified t (key_of token) tok e in
      let named : text "HS256" ≡ alg = some-injective (ap (λ x. x.alg) (sym same) ∙ has) in
      ap (λ x. x.method) same ∙ sym hs256_method ∙ ap method_of named;
}

abbrev bearer : Text → Text
bearer name = if name == text "Authorization" then text "bearer signed-s3" else []

jwt_passes : handle crypto jwt_plugin bearer ≡ passes (some (user_of crypto token))
unfolding handle handle_jwt token_in equal_fold to_lower fields fields_from key_func ◌==◌
jwt_passes = refl

handle-IsConfigured_example :
    (a : Authentic crypto IsSigned jwt_plugin
      (bearer (text "Authorization"))
      (some (user_of crypto token)))
    × IsConfigured jwt_plugin a.key
handle-IsConfigured_example =
    handle-IsConfigured crypto IsSigned sources [] jwt_settings jwt_plugin bearer
      (some (user_of crypto token)) crypto-IsHonest jwt_plugin_made refl jwt_passes

-- A file with a public key of RSA, and a plugin that is set up from it.
abbrev key_files : Sources
key_files = record sources {
  read_file = λ file. some file;
  pem_decode = λ bytes. some bytes;
  parse_pkix = λ block. some (rsa block);
}

abbrev pss_settings : Dict Value
pss_settings =
    (text "provider", str (text "jwt"))
    ∷ (text "jwt_public_key_file", str (text "k"))
    ∷ (text "jwt_algorithm", str (text "PS256"))
    ∷ []

abbrev pss_plugin : AuthenticationPlugin
pss_plugin = record defaults {
  provider = text "jwt";
  jwt_public_key = some (rsa (text "k"));
  jwt_expected_algorithm = text "PS256";
}

pss_plugin_test : init key_files [] pss_settings ≡ ok pss_plugin
unfolding init apply_auth_config apply_texts apply_mongo apply_keys apply_public_key entries
    entry_of load_docs insert lookup field_at to_lower check_jwt use_mongo has_prefix
    load_public_key ◌==◌
pss_plugin_test = refl

handle_rsa_pss_example :
    (check_jwt pss_plugin ≡ ok tt)
    × (handle crypto pss_plugin bearer ≢ passes (some (user_of crypto token)))
unfolding has_prefix
handle_rsa_pss_example =
    handle_rsa_pss crypto IsSigned pss_plugin bearer (some (user_of crypto token)) crypto-IsHonest
      refl refl refl
