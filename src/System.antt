-- ===== src/System.antt =====
-- The system as a whole: any number of request handlers and workers call the store
-- (internal/repository/repository.go, interface Store), in any order, while the clock moves and the
-- driver fails what it likes. A step is one call that changes releases, deploys or target logs; the
-- calls of internal/app, internal/httpapi and internal/worker are sequences of steps.
pub mod Reach
use ai_pub.Base.{◌≡◌, false, String, List, []}
use ai_pub.Domain.{ReleaseRequest, DeploymentTarget, is_unfinished}
use ai_pub.Database.{Db}
use ai_pub.Action.{Result, M, Env}
use ai_pub.Repository.Release.{
  create_release_request, set_release_rollback_of, reject_release, cancel_release,
}
use ai_pub.Repository.Confirm.{confirm_and_queue_release}
use ai_pub.Repository.Claim.{claim_next_deploy, heartbeat_deploy}
use ai_pub.Repository.Finish.{
  ServerResult, mark_target_running, mark_target_finished, mark_queued_targets_skipped,
  finish_deploy,
}
use ai_pub.Repository.Recover.{recover_expired_deploys}

-- The tables after a call.
abbrev pub after : {A : Type 0} → M A → Env → Db → Db
after m n d = (m n d).1

-- One call of the store. `edits` is everything that leaves releases, deploys and target logs alone:
-- the inventory, the users, the events.
pub data Step : Db → Db → Type 0 where
  edits : (d e : Db) → e.releases ≡ d.releases → e.deploys ≡ d.deploys → e.logs ≡ d.logs → Step d e
  creates :
      (n : Env) (item : ReleaseRequest) (d : Db) → Step d (after (create_release_request item) n d)
  relates :
      (n : Env) (id rollback_of_id : String) (d : Db)
      → Step d (after (set_release_rollback_of id rollback_of_id) n d)
  rejects :
      (n : Env) (id user_id reason : String) (d : Db)
      → Step d (after (reject_release id user_id reason) n d)
  cancels :
      (n : Env) (id user_id : String) (d : Db) → Step d (after (cancel_release id user_id) n d)
  confirms :
      (n : Env) (id user_id : String) (target : DeploymentTarget) (d : Db)
      → Step d (after (confirm_and_queue_release id user_id target) n d)
  claims :
      (n : Env) (worker_id : String) (d : Db) → Step d (after (claim_next_deploy worker_id) n d)
  beats :
      (n : Env) (id worker_id : String) (d : Db)
      → Step d (after (heartbeat_deploy id worker_id) n d)
  starts_target :
      (n : Env) (id ref_id : String) (d : Db) → Step d (after (mark_target_running id ref_id) n d)
  ends_target :
      (n : Env) (id ref_id : String) (result : ServerResult) (d : Db)
      → is_unfinished result.status ≡ false
      → Step d (after (mark_target_finished id ref_id result) n d)
  skips :
      (n : Env) (id text : String) (d : Db)
      → Step d (after (mark_queued_targets_skipped id text) n d)
  finishes : (n : Env) (id : String) (d : Db) → Step d (after (finish_deploy id) n d)
  recovers : (n : Env) (d : Db) → Step d (after recover_expired_deploys n d)

-- A database before the first release.
pub record IsFresh (d : Db) : Type 0 where
  pub no_releases : d.releases ≡ []
  pub no_deploys : d.deploys ≡ []
  pub no_logs : d.logs ≡ []

pub data Reached : Db → Type 0 where
  fresh : (d : Db) → IsFresh d → Reached d
  then_step : (d e : Db) → Reached d → Step d e → Reached e
