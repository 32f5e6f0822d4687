-- ===== src/Authentication/Refresh.antt =====
-- Keys that the database takes back.
use corridor.Prelude.{
  ◌≡◌, ◌≢◌, sym, ◌∙◌, ap, subst, some-injective, List, [], ◌∷◌, Option, none, some, Bool, false,
  not, ◌||◌, ok, inl, inr, ok-injective, >>=-eq-ok, In,
}
use corridor.Prelude.Text.{Text, text, ◌==◌}
use corridor.Prelude.Dict.{lookup-nil}
use corridor.Authentication.{ApiKeyDoc, AuthenticationPlugin, Sources, load_docs}
use corridor.Authentication.Settings.{load_api_keys_from_mongodb, replace_keys, refresh}
use corridor.Authentication.Handling.{Crypto, AuthenticatedUser, passes, handle}
use corridor.Authentication.Keys.{Lacks, load_docs-Source}
use corridor.Authentication.Access.{found_docs}
use corridor.Authentication.ApiKey.{handle-Accepted}

In-Lacks :
    (docs : List (Option ApiKeyDoc)) (doc : ApiKeyDoc)
    → In (some doc) docs
    → Lacks doc.lookup_key docs
    → ⊥
In-Lacks [] doc m lacks = elim m [ ]
In-Lacks (none ∷ docs) doc (inl e) lacks = absurd (cc)
In-Lacks (none ∷ docs) doc (inr m) lacks = In-Lacks docs doc m lacks
In-Lacks (some d ∷ docs) doc (inl e) (other, lacks) =
    other (ap (λ d. d.lookup_key) (sym (some-injective e)))
In-Lacks (some d ∷ docs) doc (inr m) (other, lacks) = In-Lacks docs doc m lacks

replace_keys-load_docs :
    (docs : List (Option ApiKeyDoc)) (p q : AuthenticationPlugin) (loaded : Bool)
    → replace_keys (some docs) p ≡ ok (loaded, q)
    → load_docs docs [] ≡ ok q.valid_api_keys
replace_keys-load_docs docs p q loaded done =
    let (keys, made, e) = >>=-eq-ok (load_docs docs []) _ done in
    made ∙ ap (λ r. ok r.1.valid_api_keys) (ok-injective e)

-- A refresh of a connected plugin takes the documents that the database returns.
refresh-load_docs :
    (src : Sources) (p q : AuthenticationPlugin) (docs : List (Option ApiKeyDoc))
    → (not p.mongo_connected || (p.mongo_database_name == [] || p.mongo_collection_name == []))
      ≡ false
    → found_docs src p ≡ some docs
    → refresh src p ≡ ok q
    → load_docs docs [] ≡ ok q.valid_api_keys
unfolding refresh load_api_keys_from_mongodb
refresh-load_docs src p q docs set found done =
    let ((loaded, r), made, e) = >>=-eq-ok (load_api_keys_from_mongodb src p) _ done in
    let f = rw (set, found) at made in
    replace_keys-load_docs docs p r loaded f ∙ ap (λ x. ok x.valid_api_keys) (ok-injective e)

-- After a refresh in which the database answers, a request is refused whose key's SHA-256 is the
-- lookup key of none of the documents of the answer, whatever was stored before: in a plugin for
-- API keys that is connected and has the names of a database and a collection.
pub refresh_revokes :
    (c : Crypto) (src : Sources) (p q : AuthenticationPlugin) (docs : List (Option ApiKeyDoc))
    (header : Text → Text) (u : Option AuthenticatedUser)
    → (not p.mongo_connected || (p.mongo_database_name == [] || p.mongo_collection_name == []))
      ≡ false
    → found_docs src p ≡ some docs
    → refresh src p ≡ ok q
    → q.provider ≡ text "api-key"
    → Lacks (c.sha256_hex (header q.api_key_header_name)) docs
    → handle c q header ≢ passes u
refresh_revokes c src p q docs header u set found done own lacks passed =
    let a = handle-Accepted c q header u own passed in
    let key = c.sha256_hex (header q.api_key_header_name) in
    let loaded = refresh-load_docs src p q docs set found done in
    elim (load_docs-Source docs [] q.valid_api_keys key a.found_details loaded a.found) [
      | inl before ↦ let e = sym (lookup-nil key) ∙ before in absurd (cc)
      | inr s ↦ In-Lacks docs s.doc s.present (subst (λ k. Lacks k docs) (sym s.named) lacks)
    ]
