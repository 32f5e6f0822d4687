-- ===== src/Caching/Recorded.antt =====
-- What the cache holds, over any interleaving of the sections that change it.
use corridor.Prelude.{
  ◌≤◌, ◌*◌, ◌≡◌, refl, sym, ◌∙◌, ap, List, [], ◌∷◌, Option, none, some, false, arith, ltb, eqb,
  length, if◌then◌else◌, Bool-cases, inl, inr, In, All, ltb→ge,
}
use corridor.Prelude.Int.{ℤ, ◌+ℤ◌}
use corridor.Prelude.Text.{Text, text, ◌==◌, eq_iff}
use corridor.Prelude.Dict.{lookup, delete, lookup-All, All-insert, All-delete}
use corridor.Caching.{
  Request, Response, CacheEntry, Store, CachingPlugin, hit, is_expired, generate_cache_key, judged,
  keep, cleanup, max_cache_body_size,
}

-- A section under the write lock: the end of a run of the handler with what the next handler
-- answered, the removal of a stale entry, and a tick of the clean-up.
pub data Event : Type 0 where
  answered : Request → Response → ℤ → Event
  dropped : Text → Event
  cleaned : (Text → ℤ) → Event

-- The entry keeps an answer as it was stored at a time.
pub record Keeps (p : CachingPlugin) (resp : Response) (at : ℤ) (entry : CacheEntry) : Type 0 where
  pub ok_code : resp.code ≡ 200
  pub small : length resp.body ≤ 1024 * 1024
  pub code : entry.status_code ≡ resp.code
  pub header : entry.header ≡ resp.header
  pub body : entry.body ≡ resp.body
  pub expires : entry.expires_at ≡ at +ℤ p.ttl

hit-injective : {a b : CacheEntry} → hit a ≡ hit b → a ≡ b
hit-injective e = cc

module _ (P : Text × CacheEntry → Type 0) where
  keep-All :
      (p : CachingPlugin) (at : ℤ) (key : Text) (resp : Response) (st : Store)
      → ((entry : CacheEntry) → Keeps p resp at entry → P (key, entry))
      → All P st
      → All P (keep p at key resp st)
  unfolding keep
  keep-All p at key resp st this every = elim (Bool-cases (eqb resp.code 200)) [
    | inr other ↦ rw other every
    | inl is_ok ↦ elim (Bool-cases (ltb max_cache_body_size (length resp.body))) [
      | inl large ↦ rw (is_ok, large) every
      | inr small ↦
          rw (is_ok, small)
            (All-insert P key _ st
              (this _ (record {
                ok_code = ground arith;
                small = ltb→ge _ _ small;
                code = refl;
                header = refl;
                body = refl;
                expires = refl;
              }))
              every)
    ]
  ]

  cleanup-All : (clock : Text → ℤ) (st : Store) → All P st → All P (cleanup clock st)
  unfolding cleanup
  cleanup-All clock [] every = tt
  cleanup-All clock ((key, entry) ∷ st) (here, every) =
      elim (Bool-cases (is_expired (clock key) entry)) [
        | inl old ↦ rw old (cleanup-All clock st every)
        | inr fresh ↦ rw fresh (here, cleanup-All clock st every)
      ]

module _ (sha256_hex : Text → Text) (p : CachingPlugin) where
  -- A section; the handler passes a request that is no GET on and leaves the store alone.
  abbrev pub step : Event → Store → Store
  step (answered r resp at) st =
      if r.method == text "GET" then keep p at (generate_cache_key sha256_hex r) resp st else st
  step (dropped key) st = delete key st
  step (cleaned clock) st = cleanup clock st

  unfoldable pub run : List Event → Store → Store
  run [] st = st
  run (e ∷ es) st = run es (step e st)

  -- An entry and the event that stored it.
  pub record Origin (es : List Event) (key : Text) (entry : CacheEntry) : Type 0 where
    pub request : Request
    pub response : Response
    pub at : ℤ
    pub happened : In (answered request response at) es
    pub is_get : request.method ≡ text "GET"
    pub same_key : generate_cache_key sha256_hex request ≡ key
    pub keeps : Keeps p response at entry

  abbrev HasOrigin : List Event → Text × CacheEntry → Type 0
  HasOrigin es (key, entry) = Origin es key entry

  step-HasOrigin :
      (es : List Event) (e : Event) (st : Store)
      → In e es
      → All (HasOrigin es) st
      → All (HasOrigin es) (step e st)
  step-HasOrigin es (dropped key) st m every = All-delete (HasOrigin es) key st every
  step-HasOrigin es (cleaned clock) st m every = cleanup-All (HasOrigin es) clock st every
  step-HasOrigin es (answered r resp at) st m every = elim (Bool-cases (r.method == text "GET")) [
    | inr other ↦ rw other every
    | inl get ↦ rw get (
        keep-All (HasOrigin es) p at (generate_cache_key sha256_hex r) resp st
          (λ entry kept. record {
            request = r;
            response = resp;
            at = at;
            happened = m;
            is_get = (eq_iff r.method (text "GET")).0 get;
            same_key = refl;
            keeps = kept;
          })
          every)
  ]

  run-HasOrigin :
      (all_es es : List Event) (st : Store)
      → ((e : Event) → In e es → In e all_es)
      → All (HasOrigin all_es) st
      → All (HasOrigin all_es) (run es st)
  unfolding run
  run-HasOrigin all_es [] st m every = every
  run-HasOrigin all_es (e ∷ es) st m every =
      run-HasOrigin all_es es (step e st) (λ d i. m d (inr i))
        (step-HasOrigin all_es e st (m e (inl refl)) every)

  pub lookup-Origin :
      (es : List Event) (key : Text) (entry : CacheEntry)
      → lookup key (run es []) ≡ some entry
      → Origin es key entry
  lookup-Origin es key entry found =
      lookup-All (HasOrigin es) key entry (run es []) (run-HasOrigin es es [] (λ e i. i) tt) found

  -- An entry that was hit, and that it is not expired.
  pub record Hit (now : ℤ) (o : Option CacheEntry) (entry : CacheEntry) : Type 0 where
    pub found : o ≡ some entry
    pub fresh : is_expired now entry ≡ false

  pub judged-Hit :
      (now later : ℤ) (o : Option CacheEntry) (entry : CacheEntry)
      → judged now later o ≡ hit entry
      → Hit now o entry
  judged-Hit now later none entry e = absurd (cc)
  judged-Hit now later (some it) entry e = elim (Bool-cases (is_expired now it)) [
    | inr fresh ↦
        let same : it ≡ entry = hit-injective (rw fresh at e) in
        record { found = ap some same; fresh = ap (is_expired now) (sym same) ∙ fresh }
    | inl old ↦ elim (Bool-cases (is_expired later it)) [
      | inl still ↦ let f = rw (old, still) at e in absurd (cc)
      | inr not_now ↦ let f = rw (old, not_now) at e in absurd (cc)
    ]
  ]
