-- ===== src/Authentication/Tokens.antt =====
-- Who passes with a token.
use corridor.Prelude.{
  ◌≡◌, ◌≢◌, ◌++◌, refl, sym, ◌∙◌, ap, [], Option, none, some, true, false, ok, arith, if◌then◌else◌,
  Bool-cases, inl, inr, ◌⊎◌,
}
use corridor.Prelude.Text.{Text, text, ◌==◌, eq_iff, has_prefix, has_prefix_iff, fields}
use corridor.Prelude.Dict.{Dict}
use corridor.Config.Yaml.{Value}
use corridor.Authentication.{PublicKey, AuthenticationPlugin, Sources}
use corridor.Authentication.Settings.{init, check_jwt, is_given, is_hmac, is_asymmetric}
use corridor.Authentication.Handling.{
  SigningMethod, hmac, rsa_pkcs1, ecdsa_method, ed25519_method, rsa_pss, other_method, Token,
  VerificationKey, secret_key, public_key, ParserOptions, Crypto, AuthenticatedUser, passes,
  key_for, is_expected, key_func, parser_options, token_in, user_of, accepted, parsed, handle_jwt,
  handle,
}
use corridor.Authentication.Usable.{IsUsable, init-IsUsable}

-- The method of an algorithm, by the first two letters of its name.
abbrev pub method_of : Text → SigningMethod
method_of alg =
    if has_prefix alg (text "HS")
    then hmac
    else if has_prefix alg (text "RS")
    then rsa_pkcs1
    else if has_prefix alg (text "ES")
    then ecdsa_method
    else if has_prefix alg (text "PS")
    then rsa_pss
    else if alg == text "EdDSA"
    then ed25519_method
    else other_method

-- The laws of the JWT library: it returns a token only if the key function gave a key for it and
-- the text is signed for that key; and a token's algorithm fixes its method.
pub record IsHonest (c : Crypto) (signed : Text → VerificationKey → Type 0) : Type 0 where
  pub verified :
      (t : Text) (key_of : Token → Option VerificationKey) (options : ParserOptions) (token : Token)
      → c.parse_with_claims t key_of options ≡ some token
      → (k : VerificationKey) × (key_of token ≡ some k) × signed t k
  pub method :
      (t : Text) (key_of : Token → Option VerificationKey) (options : ParserOptions) (token : Token)
      (alg : Text)
      → c.parse_with_claims t key_of options ≡ some token
      → token.alg ≡ some alg
      → token.method ≡ method_of alg

-- The key is one that the plugin was given.
abbrev pub IsConfigured : AuthenticationPlugin → VerificationKey → Type 0
IsConfigured p key =
    ((s : Text) × (p.jwt_secret_key ≡ some s) × (key ≡ secret_key s))
    ⊎ ((k : PublicKey) × (p.jwt_public_key ≡ some k) × (key ≡ public_key k))

-- The key that the method of an algorithm calls for.
method_key :
    (p : AuthenticationPlugin) (key : VerificationKey)
    → IsUsable p
    → key_for p (method_of p.jwt_expected_algorithm) ≡ some key
    → IsConfigured p key
method_key p key usable e = elim usable.key [
  | inl (symmetric, s, secret) ↦ let f = rw (symmetric, secret) at e in inl (s, secret, cc)
  | inr (not_symmetric, asymmetric, k, public) ↦
      let f = rw (not_symmetric, public) at e in
      elim (Bool-cases (has_prefix p.jwt_expected_algorithm (text "RS"))) [
        | inl rs ↦ let g = rw rs at f in inr (k, public, cc)
        | inr not_rs ↦ elim (Bool-cases (has_prefix p.jwt_expected_algorithm (text "ES"))) [
          | inl es ↦ let g = rw (not_rs, es) at f in inr (k, public, cc)
          | inr not_es ↦
              let ps : has_prefix p.jwt_expected_algorithm (text "PS") ≡ true = ground arith in
              let g = rw (not_rs, not_es, ps) at f in absurd (cc)
        ]
      ]
]

-- A token that the library returned for the words of a header, and the key it is signed for.
pub record Authentic (c : Crypto) (signed : Text → VerificationKey → Type 0)
    (p : AuthenticationPlugin) (header : Text) (u : Option AuthenticatedUser) : Type 0 where
  pub written : Text
  pub token : Token
  pub key : VerificationKey
  pub sent : token_in p.token_header_scheme (fields header) ≡ some written
  pub parsed_as : c.parse_with_claims written (key_func p) (parser_options p) ≡ some token
  pub key_given : key_func p token ≡ some key
  pub signature : signed written key
  pub user : u ≡ some (user_of c token)

passes-injective : {u v : Option AuthenticatedUser} → passes u ≡ passes v → u ≡ v
passes-injective e = cc

module _ (c : Crypto) (signed : Text → VerificationKey → Type 0) (honest : IsHonest c signed) where
  accepted-Authentic :
      (p : AuthenticationPlugin) (header t : Text) (o : Option Token) (u : Option AuthenticatedUser)
      → token_in p.token_header_scheme (fields header) ≡ some t
      → c.parse_with_claims t (key_func p) (parser_options p) ≡ o
      → accepted c o ≡ passes u
      → Authentic c signed p header u
  accepted-Authentic p header t none u sent asked e = absurd (cc)
  accepted-Authentic p header t (some token) u sent asked e =
      let (k, given, signature) = honest.verified t (key_func p) (parser_options p) token asked in
      elim (Bool-cases token.valid) [
        | inr invalid ↦ let f = rw invalid at e in absurd (cc)
        | inl valid ↦ record {
          written = t;
          token = token;
          key = k;
          sent = sent;
          parsed_as = asked;
          key_given = given;
          signature = signature;
          user = sym (passes-injective (rw valid at e));
        }
      ]

  parsed-Authentic :
      (p : AuthenticationPlugin) (header : Text) (o : Option Text) (u : Option AuthenticatedUser)
      → token_in p.token_header_scheme (fields header) ≡ o
      → parsed c p o ≡ passes u
      → Authentic c signed p header u
  parsed-Authentic p header none u sent e = absurd (cc)
  parsed-Authentic p header (some t) u sent e = elim (Bool-cases (t == [])) [
    | inl blank ↦ let f = rw blank at e in absurd (cc)
    | inr given ↦ accepted-Authentic p header t _ u sent refl (rw given at e)
  ]

  handle-Authentic :
      (p : AuthenticationPlugin) (header : Text → Text) (u : Option AuthenticatedUser)
      → p.provider ≡ text "jwt"
      → handle c p header ≡ passes u
      → Authentic c signed p (header p.token_header_name) u
  unfolding handle handle_jwt
  handle-Authentic p header u own e =
      let is_jwt = (eq_iff p.provider (text "jwt")).1 own in
      let f = rw is_jwt at e in
      elim (Bool-cases (header p.token_header_name == [])) [
        | inl blank ↦ let g = rw blank at f in absurd (cc)
        | inr given ↦ parsed-Authentic p (header p.token_header_name) _ u refl (rw given at f)
      ]

  -- A key that is given for the token of an algorithm is given for the expected one.
  given_method :
      (p : AuthenticationPlugin) (t : Text) (token : Token) (o : Option Text)
      (key : VerificationKey)
      → token.alg ≡ o
      → c.parse_with_claims t (key_func p) (parser_options p) ≡ some token
      → (if is_expected p o then key_for p token.method else none) ≡ some key
      → key_for p (method_of p.jwt_expected_algorithm) ≡ some key
  given_method p t token none key has asked e = absurd (cc)
  given_method p t token (some alg) key has asked e =
      elim (Bool-cases (alg == p.jwt_expected_algorithm)) [
        | inr other ↦ let f = rw other at e in absurd (cc)
        | inl expected ↦
            let f = rw expected at e in
            let same = honest.method t (key_func p) (parser_options p) token alg asked has in
            let is = (eq_iff alg p.jwt_expected_algorithm).0 expected in
            ap (λ a. key_for p (method_of a)) (sym is) ∙ ap (key_for p) (sym same) ∙ f
      ]

  -- The algorithm of a token for which the key function gives a key is the expected one.
  expected_method :
      (p : AuthenticationPlugin) (header : Text) (u : Option AuthenticatedUser)
      (a : Authentic c signed p header u)
      → key_for p (method_of p.jwt_expected_algorithm) ≡ some a.key
  unfolding key_func
  expected_method p header u a =
      given_method p a.written a.token a.token.alg a.key refl a.parsed_as a.key_given

starts_rsa_pss : (rest : Text) → method_of (text "PS" ++ rest) ≡ rsa_pss
unfolding has_prefix
starts_rsa_pss rest = refl

method_of_rsa_pss : (alg : Text) → has_prefix alg (text "PS") ≡ true → method_of alg ≡ rsa_pss
method_of_rsa_pss alg ps =
    let (rest, e) = (has_prefix_iff alg (text "PS")).0 ps in ap method_of e ∙ starts_rsa_pss rest

-- If the JWT library is honest, a request passes a plugin that was set up for tokens only with a
-- text in its header that is signed for a key of the plugin's own settings, and as the subject of
-- the token that the library returned for the text.
pub handle-IsConfigured :
    (c : Crypto) (signed : Text → VerificationKey → Type 0) (src : Sources)
    (config global_config : Dict Value) (p : AuthenticationPlugin) (header : Text → Text)
    (u : Option AuthenticatedUser)
    → IsHonest c signed
    → init src config global_config ≡ ok p
    → p.provider ≡ text "jwt"
    → handle c p header ≡ passes u
    → (a : Authentic c signed p (header p.token_header_name) u) × IsConfigured p a.key
handle-IsConfigured c signed src config global_config p header u honest made own done =
    let a = handle-Authentic c signed honest p header u own done in
    (
      a,
      method_key p a.key (init-IsUsable src config global_config p made own)
          (expected_method c signed honest p _ u a),
    )

-- The checks of the set-up accept such an algorithm with a public key.
check_jwt_accepts :
    (p : AuthenticationPlugin) (rest : Text)
    → p.jwt_expected_algorithm ≡ text "PS" ++ rest
    → is_given p.jwt_public_key ≡ true
    → check_jwt p ≡ ok tt
unfolding check_jwt has_prefix ◌==◌
check_jwt_accepts p rest e given =
    let named : (p.jwt_expected_algorithm == []) ≡ false = ap (λ a. a == []) e in
    let not_hmac : is_hmac p.jwt_expected_algorithm ≡ false = ap is_hmac e in
    let asymmetric : is_asymmetric p.jwt_expected_algorithm ≡ true = ap is_asymmetric e in
    rw (named, not_hmac, asymmetric, given) refl

-- If the JWT library is honest, a plugin for tokens with a public key and an algorithm of RSA-PSS
-- passes the checks of the set-up, and refuses every request all the same.
pub handle_rsa_pss :
    (c : Crypto) (signed : Text → VerificationKey → Type 0) (p : AuthenticationPlugin)
    (header : Text → Text) (u : Option AuthenticatedUser)
    → IsHonest c signed
    → p.provider ≡ text "jwt"
    → has_prefix p.jwt_expected_algorithm (text "PS") ≡ true
    → is_given p.jwt_public_key ≡ true
    → (check_jwt p ≡ ok tt) × (handle c p header ≢ passes u)
handle_rsa_pss c signed p header u honest own ps given =
    let (rest, e) = (has_prefix_iff p.jwt_expected_algorithm (text "PS")).0 ps in
    (
      check_jwt_accepts p rest e given,
      λ done.
          let a = handle-Authentic c signed honest p header u own done in
          let key = expected_method c signed honest p _ u a in
          let f = sym (ap (key_for p) (method_of_rsa_pss p.jwt_expected_algorithm ps)) ∙ key in
          absurd (cc),
    )
