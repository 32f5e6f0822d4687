-- ===== src/Tests/Caching.antt =====
-- A cache of ten seconds for one page.
use corridor.Prelude.{◌+◌, subst, ◌*◌, ◌≡◌, refl, sym, ap, List, [], ◌∷◌, ◌++◌, some, inl, inr, In}
use corridor.Prelude.Int.{ℤ, pos, ◌+ℤ◌, duration}
use corridor.Prelude.Text.{Text, text, ◌==◌, to_upper, contains, has_prefix}
use corridor.Prelude.Dict.{lookup, insert, delete}
use corridor.Config.Yaml.{int}
use corridor.Caching.{
  Request, Response, Header, CacheEntry, CachingPlugin, Clock, init, hit, raw_key,
  generate_cache_key, look_up, keep, copy_header, add_values, replay, handle, cleanup,
  status_header,
}
use corridor.Caching.Keys.{IsPlain}
use corridor.Caching.Recorded.{Event, answered, dropped, cleaned, run}
use corridor.Caching.Transparent.{
  Separated, Answer, look_up-Answer, SameAnswer, Steady, handle-transparent,
}

abbrev plugin : CachingPlugin
plugin = record { ttl = pos (10 * 1000000000) }

init_test : init ((text "ttl_seconds", int (pos 10)) ∷ []) [] ≡ plugin
unfolding init lookup duration ◌==◌
init_test = refl

abbrev sha256_hex : Text → Text
sha256_hex s = text "#" ++ s

abbrev page : Request
page = record { method = text "GET"; host = text "a:80"; request_uri = text "/x?y" }

abbrev reply : Response
reply = record {
  code = 200;
  header =
      (text "Content-Type", text "text/html" ∷ text "b" ∷ [])
      ∷ (status_header, text "MISS" ∷ [])
      ∷ [];
  body = text "hello";
}

abbrev origin : Header → Request → Response
origin w r = reply

abbrev key : Text
key = sha256_hex (text "GET:a:80:/x?y")

abbrev entry : CacheEntry
entry = record {
  status_code = 200;
  header = reply.header;
  body = text "hello";
  expires_at = pos (10 * 1000000000 + 5);
}

-- A page is stored, and an entry that is not there is dropped.
abbrev events : List Event
events = answered page reply (pos 5) ∷ dropped (text "k") ∷ cleaned (λ k. pos 6) ∷ []

page_key : generate_cache_key sha256_hex page ≡ key
unfolding generate_cache_key to_upper
page_key = refl

held : lookup key (run sha256_hex plugin events []) ≡ some entry
unfolding run keep lookup insert delete cleanup generate_cache_key to_upper ◌==◌ ◌+ℤ◌
held = refl

abbrev clock : Clock
clock = record { looks = pos 7; looks_again = pos 8; stores = pos 9 }

page_hit :
    look_up (pos 7) (pos 8) (generate_cache_key sha256_hex page) (run sha256_hex plugin events [])
    ≡ hit entry
unfolding look_up run keep lookup insert delete cleanup generate_cache_key to_upper ◌==◌ ◌+ℤ◌
page_hit = refl

replayed :
    (handle sha256_hex plugin clock origin [] page (run sha256_hex plugin events [])).0 ≡ record {
      code = 200;
      header =
          (text "Content-Type", text "text/html" ∷ text "b" ∷ [])
          ∷ (status_header, text "HIT" ∷ [])
          ∷ [];
      body = text "hello";
    }
unfolding handle look_up replay copy_header add_values run keep lookup insert delete cleanup
    generate_cache_key to_upper ◌==◌ ◌+ℤ◌
replayed = refl

page-IsPlain : IsPlain page
unfolding contains has_prefix
page-IsPlain = record { is_get = refl; no_slash = refl; rooted = refl }

-- The one request of the events.
only_page :
    (r : Request) (resp : Response) (at : ℤ)
    → In (answered r resp at) events
    → (r ≡ page) × (resp ≡ reply)
only_page r resp at (inl e) = (cc, cc)
only_page r resp at (inr (inl e)) = absurd (cc)
only_page r resp at (inr (inr (inl e))) = absurd (cc)
only_page r resp at (inr (inr (inr m))) = elim m [ ]

page-Separated : Separated sha256_hex events page
page-Separated = record {
  plain = page-IsPlain;
  plain_events = λ r resp at m get. subst IsPlain (sym (only_page r resp at m).0) page-IsPlain;
  no_collision = λ r resp at m e. ap raw_key (only_page r resp at m).0;
}

look_up-Answer_example : Answer plugin events page (pos 7) entry
look_up-Answer_example =
    look_up-Answer sha256_hex plugin events page (pos 7) (pos 8) entry page-Separated page_hit

page-Steady : Steady sha256_hex plugin origin events page
page-Steady = record {
  answers = λ r resp at m. (only_page r resp at m).1;
  alike = λ r get hosts uris. (refl, refl);
}

handle-transparent_example :
    SameAnswer sha256_hex plugin
      (handle sha256_hex plugin clock origin [] page (run sha256_hex plugin events [])).0
      reply
handle-transparent_example =
    handle-transparent sha256_hex plugin events clock origin [] page page-Separated page-Steady
