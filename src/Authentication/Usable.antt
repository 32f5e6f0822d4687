-- ===== src/Authentication/Usable.antt =====
-- What the checks of `Init` leave to a plugin for tokens.
use corridor.Prelude.{
  ◌≡◌, refl, sym, ◌∙◌, ap, subst, [], Option, none, some, true, false, not, ◌&&◌, ok, arith,
  Bool-cases, inl, inr, ok-injective, refuse-eq-ok, ◌⊎◌,
}
use corridor.Prelude.Text.{Text, text, ◌==◌, eq_iff}
use corridor.Prelude.Dict.{Dict}
use corridor.Config.Yaml.{Value}
use corridor.Authentication.{PublicKey, AuthenticationPlugin, Sources}
use corridor.Authentication.Settings.{is_hmac, is_asymmetric, is_given, check_jwt, init}
use corridor.Authentication.Access.{use_mongo-Replaced, Initialized, init-Initialized}

-- What a plugin for tokens has after its checks.
pub record IsUsable (p : AuthenticationPlugin) : Type 0 where
  pub key :
      ((is_hmac p.jwt_expected_algorithm ≡ true) × (s : Text) × (p.jwt_secret_key ≡ some s))
      ⊎ ((is_hmac p.jwt_expected_algorithm ≡ false)
          × (is_asymmetric p.jwt_expected_algorithm ≡ true)
          × (k : PublicKey) × (p.jwt_public_key ≡ some k))

given_some {ℓ} : {A : Type ℓ} (o : Option A) → is_given o ≡ true → (a : A) × (o ≡ some a)
given_some none e = absurd (cc)
given_some (some a) e = (a, refl)

check_jwt-IsUsable : (p : AuthenticationPlugin) → check_jwt p ≡ ok tt → IsUsable p
unfolding check_jwt
check_jwt-IsUsable p done =
    let (_, e1) = refuse-eq-ok (p.jwt_expected_algorithm == []) _ _ done in
    let (secret, e2) =
      refuse-eq-ok (is_hmac p.jwt_expected_algorithm && not (is_given p.jwt_secret_key)) _ _ e1 in
    let (public, e3) =
      refuse-eq-ok (is_asymmetric p.jwt_expected_algorithm && not (is_given p.jwt_public_key)) _ _
        e2 in
    elim (Bool-cases (is_hmac p.jwt_expected_algorithm)) [
      | inl symmetric ↦ record {
        key = (let (s, e) = given_some p.jwt_secret_key (ground arith) in inl (symmetric, s, e));
      }
      | inr not_symmetric ↦ elim (Bool-cases (is_asymmetric p.jwt_expected_algorithm)) [
        | inl asymmetric ↦ record {
          key =
              (let (k, e) = given_some p.jwt_public_key (ground arith) in
                inr (not_symmetric, asymmetric, k, e));
        }
        | inr not_asymmetric ↦ let e = rw (not_symmetric, not_asymmetric) at e3 in absurd (cc)
      ]
    ]

init-own :
    (src : Sources) (config global_config : Dict Value) (p : AuthenticationPlugin)
    (i : Initialized src config global_config p)
    → p.provider ≡ text "jwt"
    → i.own ≡ p
init-own src config global_config p i own =
    elim (Bool-cases (i.own.provider == text "api-key" && i.own.use_mongodb)) [
      | inr skips ↦ ok-injective (rw skips at i.finished)
      | inl uses ↦
          let r = use_mongo-Replaced src i.own p (rw uses at i.finished) in
          let key = (eq_iff i.own.provider (text "api-key")).0 (ground arith) in
          let e = sym own ∙ r.provider ∙ key in absurd (cc)
    ]

-- After a set-up for tokens that succeeded the plugin has what its algorithm needs.
pub init-IsUsable :
    (src : Sources) (config global_config : Dict Value) (p : AuthenticationPlugin)
    → init src config global_config ≡ ok p
    → p.provider ≡ text "jwt"
    → IsUsable p
init-IsUsable src config global_config p made own =
    let i = init-Initialized src config global_config p made in
    let same = init-own src config global_config p i own in
    let is_jwt : (i.own.provider == text "jwt") ≡ true =
      (eq_iff i.own.provider (text "jwt")).1 (ap (λ q. q.provider) same ∙ own) in
    subst IsUsable same (check_jwt-IsUsable i.own (rw is_jwt at i.checked))
