-- ===== src/Repository/Versions.antt =====
-- internal/repository/repository.go and version_registration.go: the versions of a service, and the
-- log of their registration.
use ai_pub.Base.{
  Bool, not, ◌&&◌, ◌||◌, String, List, [], ◌∷◌, ◌++◌, ◌==◌, ltb, nat_eq, text_lt, concat, is_one_of,
  find_row, rows_where, exists_row, sort_rows, if◌then◌else◌,
}
use ai_pub.Strings.{trim_space}
use ai_pub.Domain.{Service, ServiceVersion, ServiceVersionEvent}
use ai_pub.Database.{Db}
use ai_pub.Action.{M, not_found, pure, raise, query, query_row, insert, now_utc, ◌>>=◌, ◌>>◌}
use ai_pub.Repository.Release.{or_default, or_new_id}
use ai_pub.Repository.Inventory.{newest}

-- The JOIN with the projects.
unfoldable pub is_service_of : String → String → Db → Service → Bool
is_service_of project_slug service_slug d s =
    s.slug == service_slug
    && exists_row (λ p. p.id == s.project_id && p.slug == project_slug) d.projects

-- GetServiceByProjectSlugAndServiceSlug
unfoldable pub get_service_by_slugs : String → String → M Service
unfolding is_service_of
get_service_by_slugs project_slug service_slug =
    query_row (λ d. find_row (is_service_of project_slug service_slug d) d.services)

unfoldable pub has_key : String → String → ServiceVersion → Bool
has_key service_id key x = x.service_id == service_id && x.registration_idempotency_key == key

-- FindServiceVersionByIdempotency
unfoldable pub find_version_by_idempotency : String → String → M ServiceVersion
unfolding has_key
find_version_by_idempotency service_id key =
    if key == ""
    then raise not_found
    else query_row (λ d. find_row (has_key service_id key) d.versions)

unfoldable pub has_version : String → String → ServiceVersion → Bool
has_version service_id version x = x.service_id == service_id && x.version == version

-- FindServiceVersionByServiceAndVersion
unfoldable pub find_version_by_name : String → String → M ServiceVersion
unfolding has_version
find_version_by_name service_id version =
    query_row (λ d. find_row (has_version service_id version) d.versions)

-- The text that RegistrationRequestHash hashes; `digest` is SHA-256, in hex.
unfoldable pub request_text : String → String → String → String
request_text version commit_sha artifact_url = concat (
    trim_space version ∷ "\u{1f}" ∷ trim_space commit_sha ∷ "\u{1f}" ∷ trim_space artifact_url ∷ [])

unfoldable pub registration_request_hash : (String → String) → String → String → String → String
unfolding request_text
registration_request_hash digest version commit_sha artifact_url =
    digest (request_text version commit_sha artifact_url)

-- The constraints of `service_versions`: the primary key, the version of its service, the key of
-- its service where it is not NULL, and the CHECK on the source.
unfoldable pub version_allowed : ServiceVersion → Db → Bool
unfolding has_version has_key
version_allowed item d =
    not (exists_row (λ x. x.id == item.id) d.versions)
    && (not (exists_row (has_version item.service_id item.version) d.versions)
        && (not (
              not (item.registration_idempotency_key == "")
              && exists_row (has_key item.service_id item.registration_idempotency_key) d.versions)
            && is_one_of item.source ("manual" ∷ "ci" ∷ "api" ∷ [])))

-- CreateServiceVersion
unfoldable pub create_service_version : ServiceVersion → M ServiceVersion
unfolding version_allowed
create_service_version item = do
  id ← or_new_id item.id "ver"
  now ← now_utc
  let stored = record item {
    id = id;
    source = or_default item.source "manual";
    metadata = or_default item.metadata "{}";
    created_at = now;
  }
  insert (version_allowed stored) (λ d. record d { versions = d.versions ++ (stored ∷ []) })
  pure stored

-- ListServiceVersions
unfoldable pub list_service_versions : String → M (List ServiceVersion)
unfolding newest
list_service_versions service_id = query (λ d.
    sort_rows (λ x y. newest x.created_at x.id y.created_at y.id)
      (rows_where (λ x. x.service_id == service_id) d.versions))

-- The primary key of `service_version_events`, and the CHECK on the kind of the actor.
unfoldable pub version_event_allowed : ServiceVersionEvent → Db → Bool
version_event_allowed item d =
    not (exists_row (λ x. x.id == item.id) d.version_events)
    && is_one_of item.actor_type ("user" ∷ "api_key" ∷ "system" ∷ [])

-- CreateServiceVersionEvent
unfoldable pub create_service_version_event : ServiceVersionEvent → M ServiceVersionEvent
unfolding version_event_allowed
create_service_version_event item = do
  id ← or_new_id item.id "vevt"
  now ← now_utc
  let stored = record item { id = id; metadata = or_default item.metadata "{}"; created_at = now }
  insert (version_event_allowed stored)
      (λ d. record d { version_events = d.version_events ++ (stored ∷ []) })
  pure stored

-- ORDER BY created_at ASC, id ASC
earlier : ServiceVersionEvent → ServiceVersionEvent → Bool
earlier x y =
    ltb x.created_at y.created_at || (nat_eq x.created_at y.created_at && text_lt x.id y.id)

-- ListServiceVersionEvents
unfoldable pub list_service_version_events : String → M (List ServiceVersionEvent)
unfolding earlier
list_service_version_events version_id =
    query (λ d.
      sort_rows earlier (rows_where (λ x. x.service_version_id == version_id) d.version_events))
