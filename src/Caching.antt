-- ===== src/Caching.antt =====
-- app/plugins/caching.go: the response cache. SHA-256 in hex is a parameter. Times are nanoseconds,
-- integers without a bound; names of header fields are in their canonical form. A nil map of
-- settings is the empty one.
pub mod Keys
pub mod Recorded
pub mod Transparent
use corridor.Prelude.{
  ℕ, ◌*◌, List, [], ◌∷◌, ◌++◌, Option, none, some, Bool, true, false, not, ltb, eqb, length,
  if◌then◌else◌,
}
use corridor.Prelude.Int.{ℤ, pos, ◌+ℤ◌, ltb_ℤ, is_positive, duration, second}
use corridor.Prelude.Text.{Text, text, ◌==◌, to_upper}
use corridor.Prelude.Dict.{Dict, lookup, insert, delete}
use corridor.Config.Yaml.{Value, as_int}

-- What the plugin reads of a request, with the result of `URL.RequestURI`.
pub record Request : Type 0 where
  pub method : Text
  pub host : Text
  pub request_uri : Text

abbrev pub Header : Type 0
Header = Dict (List Text)

-- What a handler writes, or the recorder holds.
pub record Response : Type 0 where
  pub code : ℕ
  pub header : Header
  pub body : Text

pub record CacheEntry : Type 0 where
  pub status_code : ℕ
  pub header : Header
  pub body : Text
  pub expires_at : ℤ

abbrev pub Store : Type 0
Store = Dict CacheEntry

pub record CachingPlugin : Type 0 where
  pub ttl : ℤ

abbrev pub is_expired : ℤ → CacheEntry → Bool
is_expired now entry = ltb_ℤ entry.expires_at now

abbrev seconds_or : ℤ → Option ℤ → ℤ
seconds_or old none = old
seconds_or old (some n) = if is_positive n then duration second n else old

-- `Init`: the route's time to live, or the global one, or five minutes.
unfoldable pub init : Dict Value → Dict Value → CachingPlugin
init plugin_config global =
    let ttl =
      seconds_or (pos (5 * 60 * second)) (as_int (lookup (text "default_ttl_seconds") global)) in
    record { ttl = seconds_or ttl (as_int (lookup (text "ttl_seconds") plugin_config)) }

abbrev pub raw_key : Request → Text
raw_key r = to_upper r.method ++ (text ":" ++ (r.host ++ (text ":" ++ r.request_uri)))

unfoldable pub generate_cache_key : (Text → Text) → Request → Text
generate_cache_key sha256_hex r = sha256_hex (raw_key r)

abbrev pub status_header : Text
status_header = text "X-Corridor-Cache-Status"

abbrev max_cache_body_size : ℕ
max_cache_body_size = 1024 * 1024

abbrev values_of : Option (List Text) → List Text
values_of none = []
values_of (some vs) = vs

-- `Header.Add` for each value of a field.
unfoldable pub add_values : Text → List Text → Header → Header
add_values name [] header = header
add_values name (v ∷ vs) header =
    add_values name vs (insert name (values_of (lookup name header) ++ (v ∷ [])) header)

-- The loop over the header of an entry, and the one over the recorder's.
unfoldable pub copy_header : Header → Header → Header
copy_header [] w = w
copy_header ((name, vs) ∷ fields) w = copy_header fields (add_values name vs w)

unfoldable pub copy_recorded : Header → Header → Header
copy_recorded [] w = w
copy_recorded ((name, vs) ∷ fields) w =
    if name == status_header
    then copy_recorded fields w
    else copy_recorded fields (add_values name vs w)

-- The answer from the cache, onto a header as it stands.
unfoldable pub replay : CacheEntry → Header → Response
replay entry w = record {
  code = entry.status_code;
  header = insert status_header (text "HIT" ∷ []) (copy_header entry.header w);
  body = entry.body;
}

-- The answer of the next handler, copied from the recorder.
unfoldable pub relay : Response → Header → Response
relay recorded w = record {
  code = recorded.code;
  header = copy_recorded recorded.header (insert status_header (text "MISS" ∷ []) w);
  body = recorded.body;
}

pub data Found : Type 0 where
  hit : CacheEntry → Found
  stale miss : Found

-- The two tests of an entry, which each read the clock.
abbrev pub judged : ℤ → ℤ → Option CacheEntry → Found
judged now later none = miss
judged now later (some entry) =
    if not (is_expired now entry) then hit entry else if is_expired later entry then stale else miss

unfoldable pub look_up : ℤ → ℤ → Text → Store → Found
look_up now later key st = judged now later (lookup key st)

-- The end of the handler: a response of status 200 whose body is not too large is stored.
unfoldable pub keep : CachingPlugin → ℤ → Text → Response → Store → Store
keep p now key recorded st =
    if eqb recorded.code 200
    then if ltb max_cache_body_size (length recorded.body)
      then st
      else insert key
          (record {
            status_code = recorded.code;
            header = recorded.header;
            body = recorded.body;
            expires_at = now +ℤ p.ttl;
          })
          st
    else st

-- The times at which one run of the handler reads the clock.
pub record Clock : Type 0 where
  pub looks : ℤ
  pub looks_again : ℤ
  pub stores : ℤ

abbrev pub drop_stale : Text → Found → Store → Store
drop_stale key stale st = delete key st
drop_stale key _ st = st

abbrev pub served :
    CachingPlugin → Clock → Text → Header → Response → Found → Store → Response × Store
served p clock key w recorded (hit entry) st = (replay entry w, st)
served p clock key w recorded found st =
    (relay recorded w, keep p clock.stores key recorded (drop_stale key found st))

-- The handler of `Handle`, run by itself. `next` answers a request into a header.
unfoldable pub handle :
    (Text → Text)
    → CachingPlugin
    → Clock
    → (Header → Request → Response)
    → Header
    → Request
    → Store
    → Response × Store
handle sha256_hex p clock next w r st =
    let key = generate_cache_key sha256_hex r in
    if r.method == text "GET"
    then served p clock key w (next [] r) (look_up clock.looks clock.looks_again key st) st
    else (next w r, st)

-- A tick of `cleanupExpiredEntries`, which reads the clock at each entry.
unfoldable pub cleanup : (Text → ℤ) → Store → Store
cleanup clock [] = []
cleanup clock ((key, entry) ∷ st) =
    let rest = cleanup clock st in
    if is_expired (clock key) entry then rest else (key, entry) ∷ rest
