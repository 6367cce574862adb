-- ===== src/Repository/Inventory.antt =====
-- internal/repository/repository.go: projects, services and environments. They are created, listed
-- and updated; `choose` keeps a text that an update leaves empty.
use ai_pub.Base.{
  ℕ, Bool, true, false, not, ◌&&◌, ◌||◌, String, List, [], ◌∷◌, ◌++◌, ◌==◌, ltb, nat_eq, text_lt,
  find_row, rows_where, exists_row, count_rows, update_rows, sort_rows, if◌then◌else◌,
}
use ai_pub.Domain.{ℤ, pos, Project, Service, Environment}
use ai_pub.Database.{Db}
use ai_pub.Action.{M, pure, query, query_row, insert, update, now_utc, ◌>>=◌, ◌>>◌}
use ai_pub.Repository.Release.{or_new_id}
use ai_pub.Repository.Lookup.{get_service, get_environment}

-- choose
unfoldable pub choose : String → String → String
choose value fallback = if value == "" then fallback else value

-- `x == 0`
unfoldable pub is_zero : ℤ → Bool
is_zero (pos ℕ.zero) = true
is_zero _ = false

-- ORDER BY created_at DESC, id DESC
unfoldable pub newest : ℕ → String → ℕ → String → Bool
newest at id at' id' = ltb at' at || (nat_eq at at' && text_lt id' id)

-- The constraints of `projects`: the primary key, and the unique slug.
unfoldable pub project_allowed : Project → Db → Bool
project_allowed item d =
    not (exists_row (λ x. x.id == item.id) d.projects)
    && not (exists_row (λ x. x.slug == item.slug) d.projects)

-- CreateProject
unfoldable pub create_project : Project → M Project
unfolding project_allowed
create_project p = do
  now ← now_utc
  id ← or_new_id p.id "proj"
  let stored = record p { id = id; enabled = true; created_at = now; updated_at = now }
  insert (project_allowed stored) (λ d. record d { projects = d.projects ++ (stored ∷ []) })
  pure stored

-- ListProjects
unfoldable pub list_projects : M (List Project)
unfolding newest
list_projects =
    query (λ d. sort_rows (λ x y. newest x.created_at x.id y.created_at y.id) d.projects)

-- GetProject
unfoldable pub get_project : String → M Project
get_project id = query_row (λ d. find_row (λ x. x.id == id) d.projects)

-- UpdateProject
unfoldable pub update_project : String → Project → M Project
unfolding choose
update_project id p = do
  existing ← get_project id
  now ← now_utc
  let stored = record existing {
    name = choose p.name existing.name;
    slug = choose p.slug existing.slug;
    description = p.description;
    enabled = p.enabled;
    updated_at = now;
  }
  update (λ d. not (exists_row (λ x. x.slug == stored.slug && not (x.id == id)) d.projects))
      (λ d. count_rows (λ x. x.id == id) d.projects)
      (λ d. record d {
        projects =
            update_rows (λ x. x.id == id)
              (λ x. record x {
                name = stored.name;
                slug = stored.slug;
                description = stored.description;
                enabled = stored.enabled;
                updated_at = stored.updated_at;
              })
              d.projects;
      })
  pure stored

-- The constraints of `services`: the primary key, and the slug within its project.
unfoldable pub service_allowed : Service → Db → Bool
service_allowed item d =
    not (exists_row (λ x. x.id == item.id) d.services)
    && not (exists_row (λ x. x.project_id == item.project_id && x.slug == item.slug) d.services)

-- CreateService
unfoldable pub create_service : Service → M Service
unfolding service_allowed
create_service item = do
  now ← now_utc
  id ← or_new_id item.id "svc"
  let stored = record item { id = id; enabled = true; created_at = now; updated_at = now }
  insert (service_allowed stored) (λ d. record d { services = d.services ++ (stored ∷ []) })
  pure stored

-- ListServices: of one project, or of all when it is empty.
unfoldable pub list_services : String → M (List Service)
unfolding newest
list_services project_id = query (λ d.
    sort_rows (λ x y. newest x.created_at x.id y.created_at y.id)
      (rows_where (λ x. project_id == "" || x.project_id == project_id) d.services))

-- UpdateService
unfoldable pub update_service : String → Service → M Service
unfolding choose
update_service id item = do
  existing ← get_service id
  now ← now_utc
  let stored = record existing {
    name = choose item.name existing.name;
    slug = choose item.slug existing.slug;
    description = item.description;
    enabled = item.enabled;
    updated_at = now;
  }
  update
      (λ d. not (
        exists_row
          (λ x. (x.project_id == stored.project_id && x.slug == stored.slug) && not (x.id == id))
          d.services))
      (λ d. count_rows (λ x. x.id == id) d.services)
      (λ d. record d {
        services =
            update_rows (λ x. x.id == id)
              (λ x. record x {
                name = stored.name;
                slug = stored.slug;
                description = stored.description;
                enabled = stored.enabled;
                updated_at = stored.updated_at;
              })
              d.services;
      })
  pure stored

-- The constraints of `environments`: the primary key, and the unique slug.
unfoldable pub environment_allowed : Environment → Db → Bool
environment_allowed item d =
    not (exists_row (λ x. x.id == item.id) d.environments)
    && not (exists_row (λ x. x.slug == item.slug) d.environments)

-- CreateEnvironment
unfoldable pub create_environment : Environment → M Environment
unfolding environment_allowed
create_environment item = do
  now ← now_utc
  id ← or_new_id item.id "env"
  let stored = record item { id = id; created_at = now; updated_at = now }
  insert (environment_allowed stored)
      (λ d. record d { environments = d.environments ++ (stored ∷ []) })
  pure stored

-- ListEnvironments
unfoldable pub list_environments : M (List Environment)
unfolding newest
list_environments =
    query (λ d. sort_rows (λ x y. newest x.created_at x.id y.created_at y.id) d.environments)

-- UpdateEnvironment
unfoldable pub update_environment : String → Environment → M Environment
unfolding choose
update_environment id item = do
  existing ← get_environment id
  now ← now_utc
  let stored = record existing {
    name = choose item.name existing.name;
    slug = choose item.slug existing.slug;
    is_production = item.is_production;
    release_frozen = item.release_frozen;
    updated_at = now;
  }
  update (λ d. not (exists_row (λ x. x.slug == stored.slug && not (x.id == id)) d.environments))
      (λ d. count_rows (λ x. x.id == id) d.environments)
      (λ d. record d {
        environments =
            update_rows (λ x. x.id == id)
              (λ x. record x {
                name = stored.name;
                slug = stored.slug;
                is_production = stored.is_production;
                release_frozen = stored.release_frozen;
                updated_at = stored.updated_at;
              })
              d.environments;
      })
  pure stored
