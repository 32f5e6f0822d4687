-- ===== src/Caching/Keys.antt =====
-- Which requests share a key.
use corridor.Prelude.{ℕ, ◌≢◌, ◌≡◌, refl, sym, ◌∙◌, ap, [], ◌∷◌, ◌++◌, true, false, arith}
use corridor.Prelude.Text.{Text, text, to_upper, has_prefix, has_prefix_iff, contains}
use corridor.Caching.{Request, raw_key}

-- A request for a path: a GET whose URI starts with a slash, at a host without one.
pub record IsPlain (r : Request) : Type 0 where
  pub is_get : r.method ≡ text "GET"
  pub no_slash : contains r.host b'/' ≡ false
  pub rooted : has_prefix r.request_uri (text "/") ≡ true

-- A host and a path after it are told apart by the first slash.
host-injective :
    (a b : ℕ) (h h' u u' : Text)
    → a ≢ b
    → contains h b ≡ false
    → contains h' b ≡ false
    → h ++ (a ∷ b ∷ u) ≡ h' ++ (a ∷ b ∷ u')
    → (h ≡ h') × (u ≡ u')
unfolding contains
host-injective a b [] [] u u' ne n n' e = (refl, cc)
host-injective a b [] (c ∷ []) u u' ne n n' e = absurd (ne cc)
host-injective a b [] (c ∷ d ∷ h') u u' ne n n' e =
    let same : b ≡ d = cc in absurd (ground (arith, same))
host-injective a b (c ∷ []) [] u u' ne n n' e = absurd (ne cc)
host-injective a b (c ∷ d ∷ h) [] u u' ne n n' e =
    let same : d ≡ b = cc in absurd (ground (arith, same))
host-injective a b (c ∷ h) (d ∷ h') u u' ne n n' e =
    let tails : h ++ (a ∷ b ∷ u) ≡ h' ++ (a ∷ b ∷ u') = cc in
    let (hosts, uris) = host-injective a b h h' u u' ne (ground arith) (ground arith) tails in
    let heads : c ≡ d = cc in (cc, uris)

-- The key's text without the method.
abbrev after_method : Text → Text → Text
after_method host uri = host ++ (text ":" ++ uri)

raw_key_get :
    (r : Request)
    → r.method ≡ text "GET"
    → raw_key r ≡ text "GET:" ++ after_method r.host r.request_uri
unfolding to_upper
raw_key_get r get = ap (λ m. to_upper m ++ (text ":" ++ after_method r.host r.request_uri)) get

prefix-injective : (s t : Text) → text "GET:" ++ s ≡ text "GET:" ++ t → s ≡ t
prefix-injective s t e = cc

-- Two requests for paths that share the text of their keys are for the same host and URI.
pub raw_key-injective :
    (r r' : Request)
    → IsPlain r
    → IsPlain r'
    → raw_key r ≡ raw_key r'
    → (r.host ≡ r'.host) × (r.request_uri ≡ r'.request_uri)
raw_key-injective r r' plain plain' e =
    let (u, uri) = (has_prefix_iff r.request_uri (text "/")).0 plain.rooted in
    let (u', uri') = (has_prefix_iff r'.request_uri (text "/")).0 plain'.rooted in
    let same =
      prefix-injective _ _ (sym (raw_key_get r plain.is_get) ∙ e ∙ raw_key_get r' plain'.is_get) in
    let split = sym (ap (after_method r.host) uri) ∙ same ∙ ap (after_method r'.host) uri' in
    let (hosts, uris) =
      host-injective b':' b'/' r.host r'.host u u' (omega arith) plain.no_slash plain'.no_slash
        split in
    (hosts, uri ∙ ap (λ v. text "/" ++ v) uris ∙ sym uri')
