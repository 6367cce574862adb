-- ===== src/Repository/Events.antt =====
-- internal/repository/release.go: the event log of a release; internal/repository/deploy.go: the
-- versions that a release can be rolled back to.
use ai_pub.Base.{
  Bool, false, not, ◌&&◌, ◌||◌, String, List, [], ◌∷◌, ◌++◌, ◌==◌, ltb, nat_eq, text_lt, is_one_of,
  rows_where, exists_row, sort_rows, take, if◌then◌else◌,
}
use ai_pub.Domain.{ServiceVersion, ReleaseRequest, DeployStatus, ReleaseEvent}
use ai_pub.Database.{Db}
use ai_pub.Action.{M, pure, query, insert, now_utc, ◌>>=◌, ◌>>◌}
use ai_pub.Repository.Lookup.{get_release_request}
use ai_pub.Repository.Release.{or_default, or_new_id}

-- The primary key of `release_events`, and the CHECK on the kind of the actor.
event_allowed : ReleaseEvent → Db → Bool
event_allowed item d =
    not (exists_row (λ x. x.id == item.id) d.events)
    && is_one_of item.actor_type
        ("user" ∷ "ai_agent" ∷ "service_account" ∷ "system" ∷ "api_key" ∷ [])

-- CreateReleaseEvent
unfoldable pub create_release_event : ReleaseEvent → M ReleaseEvent
unfolding event_allowed
create_release_event item = do
  id ← or_new_id item.id "evt"
  now ← now_utc
  let stored = record item { id = id; metadata = or_default item.metadata "{}"; created_at = now }
  insert (event_allowed stored) (λ d. record d { events = d.events ++ (stored ∷ []) })
  pure stored

-- ListReleaseEvents: `event_seq` counts the insertions.
unfoldable pub list_release_events : String → M (List ReleaseEvent)
list_release_events release_id =
    query (λ d. rows_where (λ x. x.release_request_id == release_id) d.events)

is_success : DeployStatus → Bool
is_success DeployStatus.success = Bool.true
is_success _ = false

-- ORDER BY rr.updated_at DESC, rr.id DESC
newer : ReleaseRequest → ReleaseRequest → Bool
newer x y = ltb y.updated_at x.updated_at || (nat_eq x.updated_at y.updated_at && text_lt y.id x.id)

version_of : String → List ServiceVersion → List ServiceVersion
version_of id vs = rows_where (λ v. v.id == id) vs

-- The join: a row for each successful record of a release of the same service and environment.
candidate_rows : ReleaseRequest → Db → List ReleaseRequest → List ServiceVersion
unfolding is_success version_of
candidate_rows release d [] = []
candidate_rows release d (r ∷ rs) =
    let rest = candidate_rows release d rs in
    if (r.service_id == release.service_id && r.environment_id == release.environment_id)
      && (not (r.service_version_id == release.service_version_id)
          && exists_row (λ x. x.release_request_id == r.id && is_success x.status) d.deploys)
    then version_of r.service_version_id d.versions ++ rest
    else rest

-- RollbackCandidates. A release has one deploy record at most, so the join repeats no row.
unfoldable pub rollback_candidates : String → M (List ServiceVersion)
unfolding candidate_rows newer
rollback_candidates release_id = do
  release ← get_release_request release_id
  query (λ d. take 10 (candidate_rows release d (sort_rows newer d.releases)))
