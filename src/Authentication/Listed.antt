-- ===== src/Authentication/Listed.antt =====
-- A set-up without MongoDB, whose keys are those of the configuration.
use corridor.Prelude.{
  ◌≡◌, refl, sym, ◌∙◌, ap, subst, List, [], ◌∷◌, ◌++◌, Option, none, some, true, false, ◌&&◌, ok,
  err, arith, Bool-cases, Option-cases, inl, inr, ok-injective, >>=-eq-ok, In,
}
use corridor.Prelude.Text.{Text, text, ◌==◌}
use corridor.Prelude.Dict.{Dict, lookup}
use corridor.Config.Yaml.{Value}
use corridor.Authentication.{
  HashedApiKeyDetails, ApiKeyDoc, AuthenticationPlugin, Sources, panics, is_short, load_docs,
  details, setting,
}
use corridor.Authentication.Settings.{
  global, route_specific, apply_texts, apply_mongo, apply_keys, apply_public_key, apply_auth_config,
  with_key, defaults, init,
}
use corridor.Authentication.Handling.{Crypto, passes, handle_api_key, handle}
use corridor.Authentication.Keys.{Lacks, load_docs_last, load_docs-panics}
use corridor.Authentication.Access.{
  listed_in, with_key-valid_api_keys, apply_auth_config_route, init-Initialized,
}
use corridor.Authentication.ApiKey.{client, handle-api_key}
use corridor.Keygen.{generate_api_key_hashes}

-- The settings name no database.
abbrev pub IsLocal : Dict Value → Type 0
IsLocal config = setting (text "mongodb_uri") config ≡ none

with_key-use_mongodb :
    (src : Sources) (o : Option Text) (p : AuthenticationPlugin)
    → (with_key src o p).use_mongodb ≡ p.use_mongodb
with_key-use_mongodb src none p = refl
with_key-use_mongodb src (some file) p = refl

-- The keys are those of the documents, and no database replaces them.
record LoadedFrom (docs : List (Option ApiKeyDoc)) (q : AuthenticationPlugin) : Type 0 where
  loaded : load_docs docs [] ≡ ok q.valid_api_keys
  no_mongo : q.use_mongodb ≡ false

global-LoadedFrom :
    (src : Sources) (config : Dict Value) (q : AuthenticationPlugin)
    → IsLocal config
    → apply_auth_config src global config defaults ≡ ok q
    → LoadedFrom (listed_in config) q
unfolding apply_auth_config apply_keys apply_mongo apply_texts apply_public_key
global-LoadedFrom src config q local done =
    let m = apply_mongo global config (apply_texts config defaults) in
    let (r, kept, e) = >>=-eq-ok (apply_keys global config m) _ done in
    let (keys, loaded, f) = >>=-eq-ok (load_docs (listed_in config) []) _ (rw local at kept) in
    let q_keys =
      ap (λ x. x.valid_api_keys) (sym (ok-injective e)) ∙ with_key-valid_api_keys src _ r in
    let q_mongo = ap (λ x. x.use_mongodb) (sym (ok-injective e)) ∙ with_key-use_mongodb src _ r in
    record {
      loaded = loaded ∙ ap (λ x. ok x.valid_api_keys) (ok-injective f) ∙ ap ok (sym q_keys);
      no_mongo = q_mongo ∙ ap (λ x. x.use_mongodb) (sym (ok-injective f));
    }

route-LoadedFrom :
    (src : Sources) (docs : List (Option ApiKeyDoc)) (config : Dict Value)
    (p q : AuthenticationPlugin)
    → IsLocal config
    → apply_auth_config src route_specific config p ≡ ok q
    → LoadedFrom docs p
    → LoadedFrom docs q
unfolding apply_auth_config apply_keys apply_mongo apply_texts apply_public_key
route-LoadedFrom src docs config p q local done from =
    let same = apply_auth_config_route src config p q done in
    let m = apply_mongo route_specific config (apply_texts config p) in
    let (r, kept, e) = >>=-eq-ok (apply_keys route_specific config m) _ done in
    let kept' = rw (from.no_mongo) at (rw local at kept) in
    record {
      loaded = from.loaded ∙ ap ok (sym same);
      no_mongo =
          ap (λ x. x.use_mongodb) (sym (ok-injective e))
          ∙ with_key-use_mongodb src _ r
          ∙ ap (λ x. x.use_mongodb) (sym (ok-injective kept'));
    }

init-LoadedFrom :
    (src : Sources) (config global_config : Dict Value) (q : AuthenticationPlugin)
    → IsLocal global_config
    → IsLocal config
    → init src config global_config ≡ ok q
    → LoadedFrom (listed_in global_config) q
init-LoadedFrom src config global_config q g_local r_local done =
    let i = init-Initialized src config global_config q done in
    let from =
      route-LoadedFrom src (listed_in global_config) config i.base i.own r_local i.from_route
        (global-LoadedFrom src global_config i.base g_local i.from_global) in
    let skips : (i.own.provider == text "api-key" && i.own.use_mongodb) ≡ false =
      rw (from.no_mongo) (ground arith) in
    subst (LoadedFrom (listed_in global_config)) (ok-injective (rw skips at i.finished)) from

-- What the key generator returns for a key.
record Generated (sha256_hex : Text → Text) (bcrypt_generate : Text → Option Text) (key : Text)
    (out : Text × Text) : Type 0 where
  nonempty : (key == []) ≡ false
  lookup_key : sha256_hex key ≡ out.0
  hash : bcrypt_generate key ≡ some out.1

generate_api_key_hashes-Generated :
    (sha256_hex : Text → Text) (bcrypt_generate : Text → Option Text) (key : Text)
    (out : Text × Text)
    → generate_api_key_hashes sha256_hex bcrypt_generate key ≡ ok out
    → Generated sha256_hex bcrypt_generate key out
unfolding generate_api_key_hashes
generate_api_key_hashes-Generated sha256_hex bcrypt_generate key out done =
    elim (Bool-cases (key == [])) [
      | inl blank ↦ let e = rw blank at done in absurd (cc)
      | inr given ↦ elim (Option-cases (bcrypt_generate key)) [
        | inl fails ↦ let e = rw (given, fails) at done in absurd (cc)
        | inr (hash, made) ↦
            let e = ok-injective (rw (given, made) at done) in
            record {
              nonempty = given;
              lookup_key = ap (λ r. r.0) e;
              hash = made ∙ ap (λ r. some r.1) e;
            }
      ]
    ]

handle_api_key_found :
    (c : Crypto) (p : AuthenticationPlugin) (header : Text → Text) (key : Text)
    (d : HashedApiKeyDetails)
    → header p.api_key_header_name ≡ key
    → (key == []) ≡ false
    → lookup (c.sha256_hex key) p.valid_api_keys ≡ some d
    → c.bcrypt_compare d.bcrypt_hash key ≡ true
    → handle_api_key c p header ≡ passes (client d)
unfolding handle_api_key
handle_api_key_found c p header key d sent given found compares =
    rw (sent, given, found) (rw compares refl)

-- A lookup key and a hash that the key generator makes of a key, listed for a client in the global
-- settings and not listed again after that, let the requests pass that bring the key, as that
-- client: in a plugin for API keys that was set up from settings that name no database, if bcrypt
-- compares a hash with the key that it was generated from.
pub handle-generate_api_key_hashes :
    (c : Crypto) (bcrypt_generate : Text → Option Text) (src : Sources)
    (config global_config : Dict Value) (p : AuthenticationPlugin) (header : Text → Text)
    (key : Text) (doc : ApiKeyDoc) (before after : List (Option ApiKeyDoc))
    → ((hash : Text) → bcrypt_generate key ≡ some hash → c.bcrypt_compare hash key ≡ true)
    → generate_api_key_hashes c.sha256_hex bcrypt_generate key
      ≡ ok (doc.lookup_key, doc.hashed_value)
    → listed_in global_config ≡ before ++ (some doc ∷ after)
    → Lacks doc.lookup_key after
    → IsLocal global_config
    → IsLocal config
    → init src config global_config ≡ ok p
    → p.provider ≡ text "api-key"
    → header p.api_key_header_name ≡ key
    → handle c p header ≡ passes (client (details doc))
handle-generate_api_key_hashes c bcrypt_generate src config global_config p header key doc before
      after compares generated in_list last g_local r_local made own sent =
    let g = generate_api_key_hashes-Generated c.sha256_hex bcrypt_generate key _ generated in
    let from = init-LoadedFrom src config global_config p g_local r_local made in
    let found =
      load_docs_last before after doc [] p.valid_api_keys
        (ap (λ docs. load_docs docs []) (sym in_list) ∙ from.loaded) last in
    handle-api_key c p header own
    ∙ handle_api_key_found c p header key (details doc) sent g.nonempty
        (ap (λ k. lookup k p.valid_api_keys) g.lookup_key ∙ found)
        (compares doc.hashed_value g.hash)

-- In settings that name no database a listed key whose lookup key is shorter than eight bytes makes
-- the set-up panic, where a log line takes its first eight bytes.
pub init-panics :
    (src : Sources) (config global_config : Dict Value) (doc : ApiKeyDoc)
    → IsLocal global_config
    → In (some doc) (listed_in global_config)
    → is_short doc.lookup_key ≡ true
    → init src config global_config ≡ err panics
unfolding init apply_auth_config apply_keys apply_mongo apply_texts
init-panics src config global_config doc local m short =
    let stops = load_docs-panics (listed_in global_config) [] doc m short in
    rw local (rw stops refl)
