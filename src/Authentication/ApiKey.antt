-- ===== src/Authentication/ApiKey.antt =====
-- Who passes with an API key.
use corridor.Prelude.{
  ◌≡◌, refl, sym, ◌∙◌, [], Option, none, some, true, false, ok, arith, Bool-cases, inl, inr,
}
use corridor.Prelude.Text.{Text, text, ◌==◌, eq_iff}
use corridor.Prelude.Dict.{Dict, lookup}
use corridor.Config.Yaml.{Value}
use corridor.Authentication.{HashedApiKeyDetails, AuthenticationPlugin, Sources}
use corridor.Authentication.Settings.{init}
use corridor.Authentication.Handling.{
  Crypto, AuthenticatedUser, passes, compared, handle_api_key, handle,
}
use corridor.Authentication.Access.{IsStored, init-IsStored}

passes-injective : {u v : Option AuthenticatedUser} → passes u ≡ passes v → u ≡ v
passes-injective e = cc

-- The user that a key's details stand for.
abbrev pub client : HashedApiKeyDetails → Option AuthenticatedUser
client d = some (record { id = d.client_id; claims = none })

-- A key whose details are found and whose hash compares.
pub record Accepted (c : Crypto) (p : AuthenticationPlugin) (key : Text)
    (u : Option AuthenticatedUser) : Type 0 where
  pub found_details : HashedApiKeyDetails
  pub found : lookup (c.sha256_hex key) p.valid_api_keys ≡ some found_details
  pub compares : c.bcrypt_compare found_details.bcrypt_hash key ≡ true
  pub user : u ≡ client found_details

compared-Accepted :
    (c : Crypto) (p : AuthenticationPlugin) (key : Text) (o : Option HashedApiKeyDetails)
    (u : Option AuthenticatedUser)
    → lookup (c.sha256_hex key) p.valid_api_keys ≡ o
    → compared c key o ≡ passes u
    → Accepted c p key u
compared-Accepted c p key none u found e = absurd (cc)
compared-Accepted c p key (some d) u found e =
    elim (Bool-cases (c.bcrypt_compare d.bcrypt_hash key)) [
      | inl right ↦ record {
        found_details = d;
        found = found;
        compares = right;
        user = sym (passes-injective (rw right at e));
      }
      | inr wrong ↦ let f = rw wrong at e in absurd (cc)
    ]

pub handle-api_key :
    (c : Crypto) (p : AuthenticationPlugin) (header : Text → Text)
    → p.provider ≡ text "api-key"
    → handle c p header ≡ handle_api_key c p header
unfolding handle
handle-api_key c p header e =
    let own = (eq_iff p.provider (text "api-key")).1 e in
    let other : (p.provider == text "jwt") ≡ false =
      ground (arith, eq_iff p.provider (text "jwt"), e) in
    rw (other, own) refl

pub handle-Accepted :
    (c : Crypto) (p : AuthenticationPlugin) (header : Text → Text) (u : Option AuthenticatedUser)
    → p.provider ≡ text "api-key"
    → handle c p header ≡ passes u
    → Accepted c p (header p.api_key_header_name) u
unfolding handle_api_key
handle-Accepted c p header u own done =
    let e = sym (handle-api_key c p header own) ∙ done in
    elim (Bool-cases (header p.api_key_header_name == [])) [
      | inl blank ↦ let f = rw blank at e in absurd (cc)
      | inr given ↦ compared-Accepted c p (header p.api_key_header_name) _ u refl (rw given at e)
    ]

-- A request passes a plugin that was set up for API keys only as the client of a document of the
-- plugin's sources, the list of the global settings or the database, whose lookup key is the
-- SHA-256 of the header's key and whose bcrypt hash compares with it.
pub handle-IsStored :
    (c : Crypto) (src : Sources) (config global_config : Dict Value) (p : AuthenticationPlugin)
    (header : Text → Text) (u : Option AuthenticatedUser)
    → init src config global_config ≡ ok p
    → p.provider ≡ text "api-key"
    → handle c p header ≡ passes u
    → (d : HashedApiKeyDetails) × IsStored src global_config p
        (c.sha256_hex (header p.api_key_header_name))
        d
      × (c.bcrypt_compare d.bcrypt_hash (header p.api_key_header_name) ≡ true)
      × (u ≡ client d)
handle-IsStored c src config global_config p header u made own done =
    let a = handle-Accepted c p header u own done in
    (
      a.found_details,
      init-IsStored src config global_config p (c.sha256_hex (header p.api_key_header_name))
          a.found_details made a.found,
      a.compares,
      a.user,
    )
