-- ===== src/Caching/Transparent.antt =====
-- What clients see of the cache.
use corridor.Prelude.{
  ◌≤◌, ◌*◌, ◌≡◌, refl, sym, ◌∙◌, ap, subst, List, [], ◌∷◌, some, true, false, arith, length,
  if◌then◌else◌, Bool-cases, inl, inr, In,
}
use corridor.Prelude.Int.{ℤ, ◌+ℤ◌, ◌≤ℤ◌, ltb_ℤ}
use corridor.Prelude.Text.{Text, text, ◌==◌, eq_iff}
use corridor.Prelude.Dict.{lookup}
use corridor.Caching.{
  Request, Response, Header, CacheEntry, Store, CachingPlugin, Found, hit, stale, miss, Clock,
  raw_key, generate_cache_key, look_up, served, replay, relay, handle,
}
use corridor.Caching.Keys.{IsPlain, raw_key-injective}
use corridor.Caching.Recorded.{Event, answered, dropped, Keeps, run, lookup-Origin, judged-Hit}

-- The GET requests of the events are for paths, and none of their keys collides with a request's.
pub record Separated (sha256_hex : Text → Text) (es : List Event) (r : Request) : Type 0 where
  pub plain : IsPlain r
  pub plain_events :
      (r' : Request) (resp : Response) (at : ℤ)
      → In (answered r' resp at) es
      → r'.method ≡ text "GET"
      → IsPlain r'
  pub no_collision :
      (r' : Request) (resp : Response) (at : ℤ)
      → In (answered r' resp at) es
      → sha256_hex (raw_key r') ≡ sha256_hex (raw_key r)
      → raw_key r' ≡ raw_key r

-- The answer that an entry keeps, which is still fresh: one to a request for the same resource.
pub record Answer (p : CachingPlugin) (es : List Event) (r : Request) (now : ℤ) (entry : CacheEntry)
    : Type 0 where
  pub request : Request
  pub response : Response
  pub at : ℤ
  pub happened : In (answered request response at) es
  pub is_get : request.method ≡ text "GET"
  pub same_host : request.host ≡ r.host
  pub same_uri : request.request_uri ≡ r.request_uri
  pub keeps : Keeps p response at entry
  pub fresh : now ≤ℤ at +ℤ p.ttl

not_after : (a b : ℤ) → ltb_ℤ a b ≡ false → b ≤ℤ a
not_after a b e = ground arith

module _ (sha256_hex : Text → Text) (p : CachingPlugin) where
  -- Whatever sections have run in whatever order from the empty cache: an entry that a request
  -- hits keeps an answer of status 200 that the next handler gave to a GET request for the same
  -- host and URI, in one of these sections and no longer ago than the time to live. The
  -- requests are for paths, and the keys of the sections' requests do not collide with the request's.
  pub look_up-Answer :
      (es : List Event) (r : Request) (now later : ℤ) (entry : CacheEntry)
      → Separated sha256_hex es r
      → look_up now later (generate_cache_key sha256_hex r) (run sha256_hex p es []) ≡ hit entry
      → Answer p es r now entry
  unfolding look_up generate_cache_key
  look_up-Answer es r now later entry sep e =
      let h = judged-Hit sha256_hex p now later _ entry e in
      let o = lookup-Origin sha256_hex p es (sha256_hex (raw_key r)) entry h.found in
      let plain' = sep.plain_events o.request o.response o.at o.happened o.is_get in
      let raws = sep.no_collision o.request o.response o.at o.happened o.same_key in
      let (hosts, uris) = raw_key-injective o.request r plain' sep.plain raws in
      record {
        request = o.request;
        response = o.response;
        at = o.at;
        happened = o.happened;
        is_get = o.is_get;
        same_host = hosts;
        same_uri = uris;
        keeps = o.keeps;
        fresh = subst (λ t. now ≤ℤ t) o.keeps.expires (not_after entry.expires_at now h.fresh);
      }

  -- Every body that the cache holds after any sections is at most one megabyte, and its status
  -- is 200.
  pub lookup_bounded :
      (es : List Event) (key : Text) (entry : CacheEntry)
      → lookup key (run sha256_hex p es []) ≡ some entry
      → (length entry.body ≤ 1024 * 1024) × (entry.status_code ≡ 200)
  lookup_bounded es key entry found =
      let o = lookup-Origin sha256_hex p es key entry found in
      (
        subst (λ b. length b ≤ 1024 * 1024) (sym o.keeps.body) o.keeps.small,
        o.keeps.code ∙ o.keeps.ok_code,
      )

  -- What a run of the handler by itself does to the store.
  abbrev own_events : Request → ℤ → Response → Found → List Event
  own_events r at recorded (hit entry) = []
  own_events r at recorded stale =
      dropped (generate_cache_key sha256_hex r) ∷ answered r recorded at ∷ []
  own_events r at recorded miss = answered r recorded at ∷ []

  abbrev pub events_of : Clock → (Header → Request → Response) → Request → Store → List Event
  events_of clock next r st =
      if r.method == text "GET"
      then own_events r clock.stores (next [] r)
          (look_up clock.looks clock.looks_again (generate_cache_key sha256_hex r) st)
      else []

  served-run :
      (clock : Clock) (w : Header) (r : Request) (recorded : Response) (found : Found) (st : Store)
      → (r.method == text "GET") ≡ true
      → (served p clock (generate_cache_key sha256_hex r) w recorded found st).1
        ≡ run sha256_hex p (own_events r clock.stores recorded found) st
  unfolding run
  served-run clock w r recorded (hit entry) st get = refl
  served-run clock w r recorded stale st get = rw get refl
  served-run clock w r recorded miss st get = rw get refl

  -- A run of the handler by itself changes the store as the sections that it enters do, one after
  -- the other: none for a request that is no GET or that hits, else the removal of a stale entry
  -- if there is one, and the storing of the next handler's answer.
  pub handle-run :
      (clock : Clock) (next : Header → Request → Response) (w : Header) (r : Request) (st : Store)
      → (handle sha256_hex p clock next w r st).1 ≡ run sha256_hex p (events_of clock next r st) st
  unfolding handle run
  handle-run clock next w r st = elim (Bool-cases (r.method == text "GET")) [
    | inl get ↦
        let found = look_up clock.looks clock.looks_again (generate_cache_key sha256_hex r) st in
        rw get (served-run clock w r (next [] r) found st get)
    | inr other ↦ rw other refl
  ]

  -- The status and the body of two responses are the same.
  abbrev pub SameAnswer : Response → Response → Type 0
  SameAnswer a b = (a.code ≡ b.code) × (a.body ≡ b.body)

  -- The next handler gave the events' answers, and answers alike to GET requests alike.
  pub record Steady (next : Header → Request → Response) (es : List Event) (r : Request)
      : Type 0 where
    pub answers :
        (r' : Request) (resp : Response) (at : ℤ) → In (answered r' resp at) es → resp ≡ next [] r'
    pub alike :
        (r' : Request)
        → r'.method ≡ text "GET"
        → r'.host ≡ r.host
        → r'.request_uri ≡ r.request_uri
        → SameAnswer (next [] r') (next [] r)

  replay-SameAnswer :
      (es : List Event) (next : Header → Request → Response) (r : Request) (now : ℤ) (w : Header)
      (entry : CacheEntry)
      → Steady next es r
      → Answer p es r now entry
      → SameAnswer (replay entry w) (next [] r)
  unfolding replay
  replay-SameAnswer es next r now w entry steady a =
      let given = steady.answers a.request a.response a.at a.happened in
      let (codes, bodies) = steady.alike a.request a.is_get a.same_host a.same_uri in
      (
        a.keeps.code ∙ ap (λ x. x.code) given ∙ codes,
        a.keeps.body ∙ ap (λ x. x.body) given ∙ bodies,
      )

  served-SameAnswer :
      (es : List Event) (clock : Clock) (next : Header → Request → Response) (w : Header)
      (r : Request) (found : Found)
      → Separated sha256_hex es r
      → Steady next es r
      → look_up clock.looks clock.looks_again
          (generate_cache_key sha256_hex r)
          (run sha256_hex p es [])
        ≡ found
      → SameAnswer
          (served p clock
            (generate_cache_key sha256_hex r)
            w
            (next [] r)
            found
            (run sha256_hex p es [])).0
          (next [] r)
  unfolding relay
  served-SameAnswer es clock next w r (hit entry) sep steady e =
      replay-SameAnswer es next r clock.looks w entry steady
        (look_up-Answer es r clock.looks clock.looks_again entry sep e)
  served-SameAnswer es clock next w r stale sep steady e = (refl, refl)
  served-SameAnswer es clock next w r miss sep steady e = (refl, refl)

  -- If the next handler gave the answers of the sections so far, and gives every GET request for
  -- the same host and URI the same status and body, then a GET request for a path is answered with
  -- the status and the body that the next handler gives it, whatever sections have run. The requests
  -- are for paths, and the keys of the sections' requests do not collide with the request's.
  pub handle-transparent :
      (es : List Event) (clock : Clock) (next : Header → Request → Response) (w : Header)
      (r : Request)
      → Separated sha256_hex es r
      → Steady next es r
      → SameAnswer (handle sha256_hex p clock next w r (run sha256_hex p es [])).0 (next [] r)
  unfolding handle
  handle-transparent es clock next w r sep steady =
      let get = (eq_iff r.method (text "GET")).1 sep.plain.is_get in
      rw get (served-SameAnswer es clock next w r _ sep steady refl)
