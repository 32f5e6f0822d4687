-- ===== src/RequestId.antt =====
-- app/plugins/requestid.go: the plugin that gives each request an id. A header is a map from
-- canonical names to first values; `uuid.New().String()` is the parameter `new_id`.
use corridor.Prelude.{
  ◌≡◌, ◌≢◌, refl, ◌∙◌, ap, [], Option, none, some, false, arith, if◌then◌else◌, Bool-cases, inl,
  inr,
}
use corridor.Prelude.Text.{Text, text, ◌==◌, eq_iff}
use corridor.Prelude.Dict.{Dict, lookup, insert, lookup-insert_self}

-- The headers of a request and of its response.
pub record Exchange : Type 0 where
  pub request_header : Dict Text
  pub response_header : Dict Text

abbrev pub request_id_header : Text
request_id_header = text "X-Request-Id"

-- `Header.Get`, empty for a name that is missing.
abbrev pub value_or_empty : Option Text → Text
value_or_empty none = []
value_or_empty (some v) = v

abbrev pub get : Text → Dict Text → Text
get name header = value_or_empty (lookup name header)

-- What the handler of `Handle` passes on to the next one.
unfoldable pub identify : Text → Exchange → Exchange
identify new_id x =
    let request_id = get request_id_header x.request_header in
    if request_id == []
    then record {
      request_header = insert request_id_header new_id x.request_header;
      response_header = insert request_id_header new_id x.response_header;
    }
    else record x { response_header = insert request_id_header request_id x.response_header }

-- What an exchange is after the plugin.
pub record IsIdentified (id : Text) (x : Exchange) : Type 0 where
  pub in_request : get request_id_header x.request_header ≡ id
  pub in_response : get request_id_header x.response_header ≡ id

get-insert :
    (v : Text) (header : Dict Text) → get request_id_header (insert request_id_header v header) ≡ v
get-insert v header = ap value_or_empty (lookup-insert_self request_id_header v header)

identify-given :
    (new_id id : Text) (x : Exchange)
    → get request_id_header x.request_header ≡ id
    → id ≢ []
    → IsIdentified id (identify new_id x)
unfolding identify
identify-given new_id id x given some_id =
    let present : (get request_id_header x.request_header == []) ≡ false =
      ground (arith, eq_iff (get request_id_header x.request_header) []) in
    rw present (record { in_request = given; in_response = get-insert _ x.response_header ∙ given })

identify-new :
    (new_id : Text) (x : Exchange)
    → get request_id_header x.request_header ≡ []
    → IsIdentified new_id (identify new_id x)
unfolding identify
identify-new new_id x missing =
    let absent = (eq_iff (get request_id_header x.request_header) []).1 missing in
    rw absent (record {
      in_request = get-insert new_id x.request_header;
      in_response = get-insert new_id x.response_header;
    })

-- The id that a request keeps or is given.
abbrev pub id_for : Text → Exchange → Text
id_for new_id x =
    if get request_id_header x.request_header == []
    then new_id
    else get request_id_header x.request_header

-- If generated ids are not empty, the handlers after the plugin and the response see one id, which
-- is the client's if it sent one and the generated one otherwise; when the plugin runs again, with
-- whatever other id, both still have that id.
pub identify-IsIdentified :
    (new_id other_id : Text) (x : Exchange)
    → new_id ≢ []
    → IsIdentified (id_for new_id x) (identify new_id x)
      × IsIdentified (id_for new_id x) (identify other_id (identify new_id x))
identify-IsIdentified new_id other_id x fresh =
    elim (Bool-cases (get request_id_header x.request_header == [])) [
      | inl absent ↦
          let once = identify-new new_id x ((eq_iff _ []).0 absent) in
          rw absent (once, identify-given other_id new_id (identify new_id x) once.in_request fresh)
      | inr present ↦
          let id = get request_id_header x.request_header in
          let some_id : id ≢ [] = ground (arith, eq_iff id []) in
          let once = identify-given new_id id x refl some_id in
          rw present (once, identify-given other_id id (identify new_id x) once.in_request some_id)
    ]
