-- ===== src/Examples/Runs.antt =====
-- The theorems at the small installation, and what the operations answer there.
use ai_pub.Base.{
  ◌≡◌, refl, ap, ◌≤◌, true, false, some, Memᴰ, ◌==◌, ◌⊎◌, find_row, rows_where, exists_row,
  first_row, count_rows, update_rows, ◌&&◌, map, [], ◌∷◌,
}
use mathlib.Core.List.Memᴰ
use ai_pub.Domain.{
  ReleaseStatus, DeployStatus, ReleaseRequest, DeployTargetLog, is_pending_confirm,
  is_deploy_running,
}
use ai_pub.Database.{DeployRow}
use ai_pub.Action.{
  Env, ◌>>=◌, now_utc, transaction, exec, query_row, insert, fail_if, new_id, driver,
  idempotency_conflict, lease_lost,
}
use ai_pub.Action.Ends.{Outcome, faulty, calm, Ends}
use ai_pub.System.Reach.{Reached-IsCoupled, Reached-IsExclusive}
use ai_pub.Repository.Release.{create_release_request}
use ai_pub.Repository.Lookup.{get_release_request, get_service_version}
use ai_pub.Repository.Confirm.{
  confirm_and_queue_release, server_executions, expand_target_servers, get_servers_by_ids,
  execution_targets_from_servers,
}
use ai_pub.Repository.Coupling.{IsCoupled}
use ai_pub.Repository.Exclusion.{IsExclusive}
use ai_pub.Repository.Claim.{
  claimable, next_deploy, heartbeat_deploy, claim_next_deploy, resolve_deploy_snapshot,
  from_snapshot,
}
use ai_pub.Repository.Finish.{finish_tx, aggregate_deploy_status}
use ai_pub.Repository.Recover.{recover_expired_deploys}
use ai_pub.Repository.Leases.{
  standing, IsRecovered, IsWorkedBy, recover_expired_deploys-clears, heartbeat_deploy-exact,
}
use ai_pub.Repository.Outcome.{EndedBy, finish_tx-EndedBy}
use ai_pub.Repository.Queue.{next_deploy-oldest}
use ai_pub.App.Preflight.{is_pass, is_oci_digest, preflight}
use ai_pub.App.Preflight.Clear.{Clear, preflight-Clear}
use ai_pub.App.Release.{same_idempotent_create, with_defaults, create}
use ai_pub.App.Release.Idempotent.{create-repeats}
use ai_pub.App.Release.Decide.{actor_of, may_act, confirm, reject}
use ai_pub.App.Release.Decide.Allowed.{MayConfirm, confirm-MayConfirm}
use ai_pub.App.Release.Decide.Rejects.{reject-too_late}
use ai_pub.App.Release.Decide.{cancel}
use ai_pub.App.Release.Decide.Cancels.{cancel-unclaimable}
use ai_pub.Worker.{work_targets}
use ai_pub.Worker.Closes.{Covers, IsClosed, work_targets-IsClosed}
use ai_pub.Examples.{
  world, confirmed, confirmed-Reached, in_work, claimed_d1, shop_worker, shop_worker-WorksAside,
  claimed_state, claimed_state-Reached, waiting, in_queue, in_progress, queued_record, release_in,
  releases_service, outside, outside-OnlyReads, by_alice, subject, asking,
}

Reached-IsExclusive_example : IsExclusive claimed_state
Reached-IsExclusive_example = Reached-IsExclusive claimed_state claimed_state-Reached

Reached-IsCoupled_example : IsCoupled claimed_state
Reached-IsCoupled_example = Reached-IsCoupled claimed_state claimed_state-Reached

confirm-MayConfirm_example :
    Ends faulty waiting
      (confirm releases_service "rel1" by_alice)
      (λ _ e. (e ≡ waiting) ⊎ MayConfirm waiting "rel1" (actor_of by_alice))
      (λ _ e. (e ≡ waiting) ⊎ MayConfirm waiting "rel1" (actor_of by_alice))
confirm-MayConfirm_example =
    confirm-MayConfirm releases_service outside-OnlyReads "rel1" by_alice waiting

preflight-Clear_example :
    Ends faulty waiting
      (preflight outside subject)
      (λ r e. (e ≡ waiting) × (is_pass r.result ≡ true → Clear waiting subject r.confirm_mode))
      (λ _ e. e ≡ waiting)
preflight-Clear_example = preflight-Clear outside outside-OnlyReads subject waiting

-- The clock has passed the end of the lease.
abbrev later : Env
later = record world { clock = 9 }

recover_expired_deploys-clears_example :
    Outcome calm
      (λ _ e. IsRecovered 10 in_progress.deploys e.deploys)
      (λ _ _. ⊥)
      (recover_expired_deploys later in_progress)
recover_expired_deploys-clears_example = recover_expired_deploys-clears later in_progress refl

-- The recovery fails the one running record.
recovers_one :
    Outcome calm
      (λ _ e. map standing e.deploys ≡ ("d1", DeployStatus.failed) ∷ [])
      (λ _ _. ⊥)
      (recover_expired_deploys later in_progress)
unfolding recover_expired_deploys ◌>>=◌ now_utc transaction rows_where exec count_rows update_rows
recovers_one = (refl, refl)

finish_tx-EndedBy_example :
    Ends faulty in_progress
      (finish_tx "d1")
      (λ _ e.
        (e.logs ≡ in_progress.logs)
        × ((x : DeployRow) → Memᴰ x e.deploys → x.id ≡ "d1" → EndedBy in_progress.logs x))
      (λ _ _. Unit {0})
finish_tx-EndedBy_example = finish_tx-EndedBy "d1" in_progress

-- The confirmed release has been claimed: its record runs.
claimed_runs :
    count_rows (λ x. x.id == "deploy_a1" && is_deploy_running x.status) claimed_state.deploys ≡ 1
unfolding count_rows claim_next_deploy ◌>>=◌ transaction query_row first_row rows_where
    confirm_and_queue_release now_utc create_release_request insert exists_row fail_if
    server_executions expand_target_servers get_servers_by_ids find_row new_id exec
    execution_targets_from_servers get_release_request update_rows get_service_version
    resolve_deploy_snapshot from_snapshot
claimed_runs = refl

heartbeat_deploy-exact_example :
    Ends calm claimed_state
      (heartbeat_deploy "deploy_a1" "w1")
      (λ _ _. IsWorkedBy claimed_state.deploys "deploy_a1" "w1")
      (λ x _. (x ≡ lease_lost) × ¬ IsWorkedBy claimed_state.deploys "deploy_a1" "w1")
heartbeat_deploy-exact_example =
    heartbeat_deploy-exact "deploy_a1" "w1" claimed_state
      (Reached-IsCoupled claimed_state claimed_state-Reached)

-- The older of the two queued records is next.
next_in_queue : next_deploy in_queue ≡ some (queued_record "d1" 7)
unfolding next_deploy rows_where first_row exists_row
next_in_queue = refl

next_deploy-oldest_example :
    Memᴰ (queued_record "d1" 7) in_queue.deploys
    × (claimable in_queue (queued_record "d1" 7) ≡ true)
    × ((x : DeployRow)
        → Memᴰ x in_queue.deploys
        → claimable in_queue x ≡ true
        → (queued_record "d1" 7).created_at ≤ x.created_at)
next_deploy-oldest_example = next_deploy-oldest in_queue (queued_record "d1" 7) next_in_queue

found_key :
    find_row (λ x. x.idempotency_key == asking.idempotency_key) waiting.releases
    ≡ some (release_in ReleaseStatus.pending_confirm)
unfolding find_row
found_key = refl

create-repeats_example :
    Ends faulty waiting
      (create releases_service asking)
      (λ r e.
        (same_idempotent_create (release_in ReleaseStatus.pending_confirm) (with_defaults asking)
          ≡ true)
        × (r.0 ≡ release_in ReleaseStatus.pending_confirm)
        × (e ≡ waiting))
      (λ x e.
        (e ≡ waiting)
        × ((x ≡ driver)
            ⊎ ((x ≡ idempotency_conflict)
                × (same_idempotent_create
                      (release_in ReleaseStatus.pending_confirm)
                      (with_defaults asking)
                    ≡ false))))
create-repeats_example =
    create-repeats releases_service outside-OnlyReads asking
      (release_in ReleaseStatus.pending_confirm) waiting refl found_key

found_running :
    find_row (λ x. x.id == "rel1") in_progress.releases ≡ some (release_in ReleaseStatus.running)
unfolding find_row
found_running = refl

none_pending :
    (r : ReleaseRequest)
    → Memᴰ r in_progress.releases
    → r.id ≡ "rel1"
    → is_pending_confirm r.status ≡ false
none_pending r m e =
    ap (λ (x : ReleaseRequest). is_pending_confirm x.status) (Memᴰ.eq_of_singleton m)

alice_may : may_act (release_in ReleaseStatus.running) (actor_of by_alice) ≡ true
unfolding may_act actor_of
alice_may = refl

reject-too_late_example :
    Ends calm in_progress
      (reject "rel1" by_alice)
      (λ r e.
        (r ≡ release_in ReleaseStatus.running)
        × (e.releases ≡ in_progress.releases)
        × (e.deploys ≡ in_progress.deploys))
      (λ _ _. ⊥)
reject-too_late_example =
    reject-too_late "rel1" by_alice (release_in ReleaseStatus.running) in_progress found_running
      none_pending alice_may

-- A target that was skipped makes a deploy without success a failure, and with one partial.
aggregate_example :
    (aggregate_deploy_status 2 0 0 ≡ DeployStatus.success)
    × (aggregate_deploy_status 1 0 1 ≡ DeployStatus.partial)
    × (aggregate_deploy_status 0 0 1 ≡ DeployStatus.failed)
unfolding aggregate_deploy_status
aggregate_example = (refl, refl, refl)

digest_example :
    (is_oci_digest "repo@sha256:0123456789abcdef0123456789abcdef0123456789abcdef0123456789ABCDEF"
      ≡ true)
    × (is_oci_digest "repo@sha256:0123" ≡ false)
    × (is_oci_digest "@sha256:0123456789abcdef0123456789abcdef0123456789abcdef0123456789ABCDEF"
        ≡ false)
    × (is_oci_digest "repo:latest" ≡ false)
unfolding is_oci_digest
digest_example = (refl, refl, refl, refl)

one_target : Covers in_work.logs "d1" (claimed_d1.execution_targets)
one_target l m e u =
    Memᴰ.head (ap (λ (x : DeployTargetLog). x.target_ref_id) (Memᴰ.eq_of_singleton m))

work_targets-IsClosed_example :
    Ends faulty in_work
      (work_targets shop_worker claimed_d1)
      (λ _ e. IsClosed e.logs "d1")
      (λ _ _. Unit {0})
work_targets-IsClosed_example =
    work_targets-IsClosed shop_worker shop_worker-WorksAside claimed_d1 in_work one_target

cancel-unclaimable_example :
    Ends faulty confirmed
      (cancel "rel1" by_alice)
      (λ r e.
        r.status ≡ ReleaseStatus.cancelled
        → (x : DeployRow) → Memᴰ x e.deploys
        → x.release_request_id ≡ "rel1"
        → (x.status ≡ DeployStatus.cancelled) × (claimable e x ≡ false))
      (λ _ _. Unit {0})
cancel-unclaimable_example =
    cancel-unclaimable "rel1" by_alice confirmed (Reached-IsCoupled confirmed confirmed-Reached)
