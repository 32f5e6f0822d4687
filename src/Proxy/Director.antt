-- ===== src/Proxy/Director.antt =====
-- app/proxy/proxy.go: the director of `ServeHTTP`. Names of header fields are in canonical form,
-- which `textproto.CanonicalMIMEHeaderKey`, the parameter `canonical`, gives a name.
use corridor.Prelude.{
  ◌≡◌, refl, sym, ◌∙◌, ap, List, [], ◌∷◌, Option, none, some, false, In, if◌then◌else◌, Bool-cases,
  inl, inr,
}
use corridor.Prelude.Text.{Text, text, ◌==◌, eq_iff, to_lower}
use corridor.Prelude.Dict.{Dict, lookup, insert, lookup-insert, lookup-insert_self}
use corridor.LoadBalancer.Target.{Url}
use corridor.Proxy.Joining.{single_joining_slash, join_query}

-- A request as it is sent to the target.
pub record Outgoing : Type 0 where
  pub url : Url
  pub host : Text
  pub header : Dict (List Text)

abbrev forwarded_proto : Text
forwarded_proto = text "x-forwarded-proto"

abbrev forwarded_host : Text
forwarded_host = text "x-forwarded-host"

abbrev pub agent_of : Option (List Text) → Dict (List Text) → Dict (List Text)
agent_of none header = insert (text "User-Agent") ([] ∷ []) header
agent_of (some vs) header = header

-- A `User-Agent` that is not there is set to the empty one.
abbrev pub disable_agent : Dict (List Text) → Dict (List Text)
disable_agent header = agent_of (lookup (text "User-Agent") header) header

module _ (canonical : Text → Text) (scheme host : Text) where
  -- The `switch` over a configured name, whose other cases do nothing.
  unfoldable pub set_header : Text → Dict (List Text) → Dict (List Text)
  set_header name header =
      if to_lower name == forwarded_proto
      then insert (canonical name) (scheme ∷ []) header
      else if to_lower name == forwarded_host
      then insert (canonical name) (host ∷ []) header
      else header

  unfoldable pub set_headers : List Text → Dict (List Text) → Dict (List Text)
  set_headers [] header = header
  set_headers (name ∷ names) header = set_headers names (set_header name header)

  -- `scheme` and `host` are the original request's `URL.Scheme` and `Host`.
  unfoldable pub direct : Url → List Text → Outgoing → Outgoing
  direct target proxy_headers req = record {
    url = record {
      scheme = target.scheme;
      host = target.host;
      path = single_joining_slash target.path req.url.path;
      raw_query = join_query target.raw_query req.url.raw_query;
    };
    host = target.host;
    header = set_headers proxy_headers (disable_agent req.header);
  }

  -- The configured names set a field to a value when they are spelled like it, and only then.
  record Sets (key low v : Text) : Type 0 where
    law :
        (name : Text) (header : Dict (List Text))
        → lookup key (set_header name header)
          ≡ (if to_lower name == low then some (v ∷ []) else lookup key header)

  set_headers-kept :
      (key low v : Text) (names : List Text) (header : Dict (List Text))
      → Sets key low v
      → lookup key header ≡ some (v ∷ [])
      → lookup key (set_headers names header) ≡ some (v ∷ [])
  unfolding set_headers
  set_headers-kept key low v [] header sets e = e
  set_headers-kept key low v (name ∷ names) header sets e =
      set_headers-kept key low v names (set_header name header) sets (
        sets.law name header ∙ elim (Bool-cases (to_lower name == low)) [
          | inl same ↦ rw same refl
          | inr other ↦ rw other e
        ])

  set_headers-found :
      (key low v name : Text) (names : List Text) (header : Dict (List Text))
      → Sets key low v
      → In name names
      → to_lower name ≡ low
      → lookup key (set_headers names header) ≡ some (v ∷ [])
  unfolding set_headers
  set_headers-found key low v name [] header sets m spelled = elim m [ ]
  set_headers-found key low v name (first ∷ names) header sets (inl e) spelled =
      let same = (eq_iff (to_lower first) low).1 (ap to_lower (sym e) ∙ spelled) in
      set_headers-kept key low v names (set_header first header) sets
        (sets.law first header ∙ rw same refl)
  set_headers-found key low v name (first ∷ names) header sets (inr m) spelled =
      set_headers-found key low v name names (set_header first header) sets m spelled

  -- A field that none of the two names is.
  set_header-other :
      (key name : Text) (header : Dict (List Text))
      → (canonical name == key) ≡ false
      → lookup key (set_header name header) ≡ lookup key header
  unfolding set_header
  set_header-other key name header other = elim (Bool-cases (to_lower name == forwarded_proto)) [
    | inl proto ↦ rw proto (lookup-insert (canonical name) key _ header ∙ rw other refl)
    | inr not_proto ↦ elim (Bool-cases (to_lower name == forwarded_host)) [
      | inl is_host ↦
          rw (not_proto, is_host) (lookup-insert (canonical name) key _ header ∙ rw other refl)
      | inr not_host ↦ rw (not_proto, not_host) refl
    ]
  ]

  -- What `canonical` makes of the two names, however they are spelled.
  pub record IsCanonical : Type 0 where
    pub of_proto :
        (name : Text) → to_lower name ≡ forwarded_proto → canonical name ≡ text "X-Forwarded-Proto"
    pub of_host :
        (name : Text) → to_lower name ≡ forwarded_host → canonical name ≡ text "X-Forwarded-Host"

  names_differ :
      (forwarded_proto == forwarded_host ≡ false)
      × (text "X-Forwarded-Proto" == text "X-Forwarded-Host" ≡ false)
      × (text "X-Forwarded-Host" == text "X-Forwarded-Proto" ≡ false)
  unfolding ◌==◌
  names_differ = (refl, refl, refl)

  proto-Sets : IsCanonical → Sets (text "X-Forwarded-Proto") forwarded_proto scheme
  unfolding set_header
  proto-Sets law = record {
    law = λ name header. elim (Bool-cases (to_lower name == forwarded_proto)) [
      | inl proto ↦
          let e = law.of_proto name ((eq_iff (to_lower name) forwarded_proto).0 proto) in
          rw (proto, e) (lookup-insert_self (text "X-Forwarded-Proto") _ header)
      | inr not_proto ↦ elim (Bool-cases (to_lower name == forwarded_host)) [
        | inr not_host ↦ rw (not_proto, not_host) refl
        | inl is_host ↦
            let e = law.of_host name ((eq_iff (to_lower name) forwarded_host).0 is_host) in
            let other = ap (λ k. k == text "X-Forwarded-Proto") e ∙ names_differ.2 in
            set_header-other (text "X-Forwarded-Proto") name header other ∙ rw not_proto refl
      ]
    ];
  }

  host-Sets : IsCanonical → Sets (text "X-Forwarded-Host") forwarded_host host
  unfolding set_header
  host-Sets law = record {
    law = λ name header. elim (Bool-cases (to_lower name == forwarded_proto)) [
      | inl proto ↦
          let spelled = (eq_iff (to_lower name) forwarded_proto).0 proto in
          let e = law.of_proto name spelled in
          let not_host = ap (λ t. t == forwarded_host) spelled ∙ names_differ.0 in
          let other = ap (λ k. k == text "X-Forwarded-Host") e ∙ names_differ.1 in
          set_header-other (text "X-Forwarded-Host") name header other ∙ rw not_host refl
      | inr not_proto ↦ elim (Bool-cases (to_lower name == forwarded_host)) [
        | inr not_host ↦ rw (not_proto, not_host) refl
        | inl is_host ↦
            let e = law.of_host name ((eq_iff (to_lower name) forwarded_host).0 is_host) in
            rw (not_proto, is_host, e) (lookup-insert_self (text "X-Forwarded-Host") _ header)
      ]
    ];
  }

  -- The fields of a request as the director leaves it: one that is configured has its value alone,
  -- whatever the client sent, and one that no configured name stands for is the client's. What
  -- `httputil.ReverseProxy` drops and appends around the director is not said.
  pub record IsDirected (proxy_headers : List Text) (sent own : Dict (List Text)) : Type 0 where
    pub host_set :
        (name : Text)
        → In name proxy_headers
        → to_lower name ≡ forwarded_host
        → lookup (text "X-Forwarded-Host") own ≡ some (host ∷ [])
    pub proto_set :
        (name : Text)
        → In name proxy_headers
        → to_lower name ≡ forwarded_proto
        → lookup (text "X-Forwarded-Proto") own ≡ some (scheme ∷ [])
    pub others_kept :
        (key : Text)
        → (text "User-Agent" == key) ≡ false
        → ((name : Text) → In name proxy_headers → (canonical name == key) ≡ false)
        → lookup key own ≡ lookup key sent

  set_headers-others :
      (key : Text) (names : List Text) (header : Dict (List Text))
      → ((name : Text) → In name names → (canonical name == key) ≡ false)
      → lookup key (set_headers names header) ≡ lookup key header
  unfolding set_headers
  set_headers-others key [] header others = refl
  set_headers-others key (name ∷ names) header others =
      set_headers-others key names (set_header name header) (λ n m. others n (inr m))
      ∙ set_header-other key name header (others name (inl refl))

  agent_of-other :
      (key : Text) (o : Option (List Text)) (header : Dict (List Text))
      → (text "User-Agent" == key) ≡ false
      → lookup key (agent_of o header) ≡ lookup key header
  agent_of-other key none header other =
      lookup-insert (text "User-Agent") key ([] ∷ []) header ∙ rw other refl
  agent_of-other key (some vs) header other = refl

  -- If the canonical forms of the two names are as documented, the director sets X-Forwarded-Host
  -- to the host of the client's request, if it is configured, and X-Forwarded-Proto to the
  -- scheme of the client's URL, whatever the request that it was given had in these fields; it
  -- leaves a field that no configured name stands for, but the User-Agent, as it was given it.
  pub direct-IsDirected :
      (target : Url) (proxy_headers : List Text) (req : Outgoing)
      → IsCanonical
      → IsDirected proxy_headers req.header (direct target proxy_headers req).header
  unfolding direct
  direct-IsDirected target proxy_headers req law = record {
    host_set = λ name m spelled.
        set_headers-found (text "X-Forwarded-Host") forwarded_host host name proxy_headers _
          (host-Sets law) m spelled;
    proto_set = λ name m spelled.
        set_headers-found (text "X-Forwarded-Proto") forwarded_proto scheme name proxy_headers _
          (proto-Sets law) m spelled;
    others_kept = λ key not_agent others.
        set_headers-others key proxy_headers (disable_agent req.header) others
        ∙ agent_of-other key (lookup (text "User-Agent") req.header) req.header not_agent;
  }
