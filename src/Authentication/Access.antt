-- ===== src/Authentication/Access.antt =====
-- Which keys `Init` leaves in the store.
use corridor.Prelude.{
  ◌≡◌, refl, sym, ◌∙◌, ap, subst, List, [], Option, none, some, Bool, true, false, not, ◌&&◌, ◌||◌,
  Result, ok, if◌then◌else◌, Bool-cases, inl, inr, ok-injective, >>=-eq-ok, ◌⊎◌,
}
use corridor.Prelude.Text.{Text, text, ◌==◌}
use corridor.Prelude.Dict.{Dict, lookup, lookup-nil}
use corridor.Config.Yaml.{Value, as_list}
use corridor.Authentication.{
  HashedApiKeyDetails, ApiKeyDoc, AuthenticationPlugin, Sources, InitError, load_docs, listed,
  setting,
}
use corridor.Authentication.Settings.{
  Scope, is_global, with_mongo, with_key, replace_keys, global, route_specific, apply_texts,
  apply_mongo, apply_keys, apply_public_key, apply_auth_config, defaults, connects, check_jwt,
  load_api_keys_from_mongodb, use_mongo, init,
}
use corridor.Authentication.Keys.{Source, load_docs-Source}

with_mongo-valid_api_keys :
    (scope : Scope) (config : Dict Value) (o : Option Text) (p : AuthenticationPlugin)
    → (with_mongo scope config o p).valid_api_keys ≡ p.valid_api_keys
with_mongo-valid_api_keys scope config (some uri) p = refl
with_mongo-valid_api_keys global config none p = refl
with_mongo-valid_api_keys route_specific config none p = refl

pub with_key-valid_api_keys :
    (src : Sources) (o : Option Text) (p : AuthenticationPlugin)
    → (with_key src o p).valid_api_keys ≡ p.valid_api_keys
with_key-valid_api_keys src none p = refl
with_key-valid_api_keys src (some file) p = refl

abbrev pub listed_in : Dict Value → List (Option ApiKeyDoc)
listed_in config = listed (as_list (lookup (text "api_keys") config))

-- What one application of settings does to the keys: nothing, or it adds those of its list.
record Applied (config : Dict Value) (p q : AuthenticationPlugin) : Type 0 where
  kept :
      (load_docs (listed_in config) p.valid_api_keys ≡ ok q.valid_api_keys)
      ⊎ (q.valid_api_keys ≡ p.valid_api_keys)

apply_keys-Applied :
    (scope : Scope) (config : Dict Value) (p q : AuthenticationPlugin)
    → apply_keys scope config p ≡ ok q
    → Applied config p q
unfolding apply_keys
apply_keys-Applied scope config p q done =
    elim (Bool-cases (not p.use_mongodb && is_global scope)) [
      | inl loads ↦
          let (keys, loaded, e) =
            >>=-eq-ok (load_docs (listed_in config) p.valid_api_keys) _ (rw loads at done) in
          record { kept = inl (loaded ∙ ap (λ r. ok r.valid_api_keys) (ok-injective e)) }
      | inr skips ↦ record {
        kept = inr (ap (λ r. r.valid_api_keys) (sym (ok-injective (rw skips at done))));
      }
    ]

apply_auth_config-Applied :
    (src : Sources) (scope : Scope) (config : Dict Value) (p q : AuthenticationPlugin)
    → apply_auth_config src scope config p ≡ ok q
    → Applied config p q
unfolding apply_auth_config apply_mongo apply_texts apply_public_key
apply_auth_config-Applied src scope config p q done =
    let m = apply_mongo scope config (apply_texts config p) in
    let (r, kept, e) = >>=-eq-ok (apply_keys scope config m) _ done in
    let last : q.valid_api_keys ≡ r.valid_api_keys =
      ap (λ x. x.valid_api_keys) (sym (ok-injective e)) ∙ with_key-valid_api_keys src _ r in
    let first =
      with_mongo-valid_api_keys scope config (setting (text "mongodb_uri") config)
        (apply_texts config p) in
    elim ((apply_keys-Applied scope config m r kept).kept) [
      | inl loaded ↦ record {
        kept = inl (ap (load_docs (listed_in config)) (sym first) ∙ loaded ∙ ap ok (sym last));
      }
      | inr same ↦ record { kept = inr (last ∙ same ∙ first) }
    ]

pub apply_auth_config_route :
    (src : Sources) (config : Dict Value) (p q : AuthenticationPlugin)
    → apply_auth_config src route_specific config p ≡ ok q
    → q.valid_api_keys ≡ p.valid_api_keys
unfolding apply_auth_config apply_mongo apply_texts apply_public_key apply_keys
apply_auth_config_route src config p q done =
    let m = apply_mongo route_specific config (apply_texts config p) in
    let (r, kept, e) = >>=-eq-ok (apply_keys route_specific config m) _ done in
    let skipped : ok m ≡ ok r = elim (Bool-cases m.use_mongodb) [
      | inl uses ↦ rw uses at kept
      | inr not_used ↦ rw not_used at kept
    ] in
    ap (λ x. x.valid_api_keys) (sym (ok-injective e))
    ∙ with_key-valid_api_keys src _ r
    ∙ ap (λ x. x.valid_api_keys) (sym (ok-injective skipped))
    ∙ with_mongo-valid_api_keys route_specific config (setting (text "mongodb_uri") config)
        (apply_texts config p)

-- What the database's documents are, for a plugin.
abbrev pub found_docs : Sources → AuthenticationPlugin → Option (List (Option ApiKeyDoc))
found_docs src p = src.mongo_find p.mongo_database_name p.mongo_collection_name p.mongo_timeout

-- The keys are those of before, or those of the database's documents.
pub record Replaced (src : Sources) (p q : AuthenticationPlugin) : Type 0 where
  pub provider : q.provider ≡ p.provider
  pub kept :
      (q.valid_api_keys ≡ p.valid_api_keys)
      ⊎ ((docs : List (Option ApiKeyDoc)) × (found_docs src q ≡ some docs)
          × (load_docs docs [] ≡ ok q.valid_api_keys))

unchanged-Replaced :
    (src : Sources) (p : AuthenticationPlugin) (out : Bool × AuthenticationPlugin)
    → ◌≡◌ {A = Result InitError (Bool × AuthenticationPlugin)} (ok (false, p)) (ok out)
    → Replaced src p out.1
unchanged-Replaced src p out done = record {
  provider = ap (λ r. r.1.provider) (sym (ok-injective done));
  kept = inl (ap (λ r. r.1.valid_api_keys) (sym (ok-injective done)));
}

replace_keys-Replaced :
    (src : Sources) (o : Option (List (Option ApiKeyDoc))) (p : AuthenticationPlugin)
    (out : Bool × AuthenticationPlugin)
    → found_docs src p ≡ o
    → replace_keys o p ≡ ok out
    → Replaced src p out.1
replace_keys-Replaced src none p out asked done = unchanged-Replaced src p out done
replace_keys-Replaced src (some docs) p out asked done =
    let (keys, loaded, e) = >>=-eq-ok (load_docs docs []) _ done in
    subst (λ r. Replaced src p r.1) (ok-injective e)
      (record { provider = refl; kept = inr (docs, asked, loaded) })

load_api_keys_from_mongodb-Replaced :
    (src : Sources) (p : AuthenticationPlugin) (out : Bool × AuthenticationPlugin)
    → load_api_keys_from_mongodb src p ≡ ok out
    → Replaced src p out.1
unfolding load_api_keys_from_mongodb
load_api_keys_from_mongodb-Replaced src p out done =
    elim (Bool-cases
      (not p.mongo_connected || (p.mongo_database_name == [] || p.mongo_collection_name == []))) [
        | inl unset ↦ unchanged-Replaced src p out (rw unset at done)
        | inr set ↦ replace_keys-Replaced src (found_docs src p) p out refl (rw set at done)
      ]

pub use_mongo-Replaced :
    (src : Sources) (p q : AuthenticationPlugin) → use_mongo src p ≡ ok q → Replaced src p q
unfolding use_mongo
use_mongo-Replaced src p q done = elim (Bool-cases (connects src p)) [
  | inl up ↦
      let (out, loaded, e) =
        >>=-eq-ok (load_api_keys_from_mongodb src (record p { mongo_connected = true })) _
          (rw up at done) in
      let r =
        load_api_keys_from_mongodb-Replaced src (record p { mongo_connected = true }) out loaded in
      subst (Replaced src p) (ok-injective e) (record { provider = r.provider; kept = r.kept })
  | inr down ↦
      subst (Replaced src p) (ok-injective (rw down at done))
        (record { provider = refl; kept = inl refl })
]

-- Where a key of the plugin can come from: the list of the global settings, or the database.
abbrev pub IsStored :
    Sources → Dict Value → AuthenticationPlugin → Text → HashedApiKeyDetails → Type 0
IsStored src global_config p key d =
    Source (listed_in global_config) key d
    ⊎ ((docs : List (Option ApiKeyDoc)) × (found_docs src p ≡ some docs) × Source docs key d)

empty-Source :
    (docs : List (Option ApiKeyDoc)) (keys : Dict HashedApiKeyDetails) (key : Text)
    (d : HashedApiKeyDetails)
    → load_docs docs [] ≡ ok keys
    → lookup key keys ≡ some d
    → Source docs key d
empty-Source docs keys key d loaded found =
    elim (load_docs-Source docs [] keys key d loaded found) [
      | inl before ↦ let missing = lookup-nil {V = HashedApiKeyDetails} key in absurd (cc)
      | inr s ↦ s
    ]

-- The parts of a set-up that succeeded.
pub record Initialized (src : Sources) (config global_config : Dict Value)
    (q : AuthenticationPlugin) : Type 0 where
  pub base : AuthenticationPlugin
  pub own : AuthenticationPlugin
  pub from_global : apply_auth_config src global global_config defaults ≡ ok base
  pub from_route : apply_auth_config src route_specific config base ≡ ok own
  pub checked : (if own.provider == text "jwt" then check_jwt own else ok tt) ≡ ok tt
  pub finished :
      (if own.provider == text "api-key" && own.use_mongodb then use_mongo src own else ok own)
      ≡ ok q

pub init-Initialized :
    (src : Sources) (config global_config : Dict Value) (q : AuthenticationPlugin)
    → init src config global_config ≡ ok q
    → Initialized src config global_config q
unfolding init
init-Initialized src config global_config q done =
    let (base, from_global, e1) =
      >>=-eq-ok (apply_auth_config src global global_config defaults) _ done in
    let (own, from_route, e2) = >>=-eq-ok (apply_auth_config src route_specific config base) _ e1 in
    let (u, checked, e3) =
      >>=-eq-ok (if own.provider == text "jwt" then check_jwt own else ok tt) _ e2 in
    record {
      base = base;
      own = own;
      from_global = from_global;
      from_route = from_route;
      checked = checked;
      finished = e3;
    }

own_keys :
    (src : Sources) (config global_config : Dict Value) (q : AuthenticationPlugin) (key : Text)
    (d : HashedApiKeyDetails) (i : Initialized src config global_config q)
    → lookup key i.own.valid_api_keys ≡ some d
    → Source (listed_in global_config) key d
own_keys src config global_config q key d i found =
    let same = apply_auth_config_route src config i.base i.own i.from_route in
    let in_base : lookup key i.base.valid_api_keys ≡ some d = ap (lookup key) (sym same) ∙ found in
    elim ((apply_auth_config-Applied src global global_config defaults i.base i.from_global).kept) [
      | inl loaded ↦
          empty-Source (listed_in global_config) i.base.valid_api_keys key d loaded in_base
      | inr none_loaded ↦
          let missing = lookup-nil {V = HashedApiKeyDetails} key in
          let e = ap (lookup key) none_loaded in absurd (cc)
    ]

-- After a set-up that succeeded each key of the plugin comes from one of its sources.
pub init-IsStored :
    (src : Sources) (config global_config : Dict Value) (q : AuthenticationPlugin) (key : Text)
    (d : HashedApiKeyDetails)
    → init src config global_config ≡ ok q
    → lookup key q.valid_api_keys ≡ some d
    → IsStored src global_config q key d
init-IsStored src config global_config q key d done found =
    let i = init-Initialized src config global_config q done in
    elim (Bool-cases (i.own.provider == text "api-key" && i.own.use_mongodb)) [
      | inr no_mongo ↦
          let e = ok-injective (rw no_mongo at i.finished) in
          inl (
            own_keys src config global_config q key d i
              (ap (λ r. lookup key r.valid_api_keys) e ∙ found))
      | inl mongo ↦ elim ((use_mongo-Replaced src i.own q (rw mongo at i.finished)).kept) [
        | inl same ↦
            inl (own_keys src config global_config q key d i (ap (lookup key) (sym same) ∙ found))
        | inr (docs, asked, loaded) ↦
            inr (docs, asked, empty-Source docs q.valid_api_keys key d loaded found)
      ]
    ]
