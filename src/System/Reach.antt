-- ===== src/System/Reach.antt =====
-- The states that the system reaches.
use ai_pub.Base.{List, [], Memᴰ, ◌≤◌, arith, count_rows, count_rows-zero_of_mem, Bool}
use ai_pub.Domain.{DeployTargetLog}
use ai_pub.Database.{Db}
use ai_pub.Action.{Result, ok, err, Env, M}
use ai_pub.Action.Ends.{faulty, Outcome, Keeps}
use ai_pub.System.{after, Step, Reached}
use ai_pub.Repository.Coupling.{Coupled, IsCoupled}
use ai_pub.Repository.Coupling.Releases.{
  set_release_rollback_of-IsCoupled, reject_release-IsCoupled, cancel_release-IsCoupled,
  create_release_request-IsCoupled,
}
use ai_pub.Repository.Coupling.Confirm.{confirm_and_queue_release-IsCoupled}
use ai_pub.Repository.Coupling.Deploys.{
  claim_next_deploy-IsCoupled, heartbeat_deploy-IsCoupled, mark_target_running-IsCoupled,
  mark_target_finished-IsCoupled, mark_queued_targets_skipped-IsCoupled, finish_deploy-IsCoupled,
}
use ai_pub.Repository.Coupling.Recover.{recover_expired_deploys-IsCoupled}
use ai_pub.Repository.Exclusion.{Exclusive, IsExclusive}
use ai_pub.Repository.Exclusion.Reports.{
  set_release_rollback_of-IsExclusive, reject_release-IsExclusive, cancel_release-IsExclusive,
  create_release_request-IsExclusive, heartbeat_deploy-IsExclusive, mark_target_running-IsExclusive,
  mark_target_finished-IsExclusive, mark_queued_targets_skipped-IsExclusive,
  finish_deploy-IsExclusive, recover_expired_deploys-IsExclusive,
}
use ai_pub.Repository.Exclusion.Confirm.{confirm_and_queue_release-IsExclusive}
use ai_pub.Repository.Exclusion.Claim.{claim_next_deploy-IsExclusive}

module _ {A : Type 0} where
  kept :
      (P : Db → Type 0)
      → (r : Result A × Db × Env) → Outcome faulty (λ _ e. P e) (λ _ e. P e) r
      → P r.1
  kept P (ok a, d, n) (p, _) = p
  kept P (err e, d, n) (p, _) = p

module _ {P : Db → Type 0} {A : Type 0} where
  -- A call that keeps `P` leads to a state with `P`.
  after-Keeps : (m : M A) → Keeps P m → (n : Env) (d : Db) → P d → P (after m n d)
  after-Keeps m h n d p = kept P (m n d) ((h d p).at n tt)

-- Each step keeps the agreement of the two tables.
Step-IsCoupled : {d e : Db} → Step d e → IsCoupled d → IsCoupled e
Step-IsCoupled (Step.edits d e r x l) c = rw (x, r) c
Step-IsCoupled (Step.creates n item d) c =
    after-Keeps _ (create_release_request-IsCoupled item) n d c
Step-IsCoupled (Step.relates n id k d) c =
    after-Keeps _ (set_release_rollback_of-IsCoupled id k) n d c
Step-IsCoupled (Step.rejects n id u r d) c = after-Keeps _ (reject_release-IsCoupled id u r) n d c
Step-IsCoupled (Step.cancels n id u d) c = after-Keeps _ (cancel_release-IsCoupled id u) n d c
Step-IsCoupled (Step.confirms n id u t d) c =
    after-Keeps _ (confirm_and_queue_release-IsCoupled id u t) n d c
Step-IsCoupled (Step.claims n w d) c = after-Keeps _ (claim_next_deploy-IsCoupled w) n d c
Step-IsCoupled (Step.beats n id w d) c = after-Keeps _ (heartbeat_deploy-IsCoupled id w) n d c
Step-IsCoupled (Step.starts_target n id k d) c =
    after-Keeps _ (mark_target_running-IsCoupled id k) n d c
Step-IsCoupled (Step.ends_target n id k r d o) c =
    after-Keeps _ (mark_target_finished-IsCoupled id k r) n d c
Step-IsCoupled (Step.skips n id t d) c =
    after-Keeps _ (mark_queued_targets_skipped-IsCoupled id t) n d c
Step-IsCoupled (Step.finishes n id d) c = after-Keeps _ (finish_deploy-IsCoupled id) n d c
Step-IsCoupled (Step.recovers n d) c = after-Keeps _ recover_expired_deploys-IsCoupled n d c

-- Each step keeps the running deploys apart.
Step-IsExclusive : {d e : Db} → Step d e → IsExclusive d → IsExclusive e
Step-IsExclusive (Step.edits d e r x l) c = rw (x, l) c
Step-IsExclusive (Step.creates n item d) c =
    after-Keeps _ (create_release_request-IsExclusive item) n d c
Step-IsExclusive (Step.relates n id k d) c =
    after-Keeps _ (set_release_rollback_of-IsExclusive id k) n d c
Step-IsExclusive (Step.rejects n id u r d) c =
    after-Keeps _ (reject_release-IsExclusive id u r) n d c
Step-IsExclusive (Step.cancels n id u d) c = after-Keeps _ (cancel_release-IsExclusive id u) n d c
Step-IsExclusive (Step.confirms n id u t d) c =
    after-Keeps _ (confirm_and_queue_release-IsExclusive id u t) n d c
Step-IsExclusive (Step.claims n w d) c = after-Keeps _ (claim_next_deploy-IsExclusive w) n d c
Step-IsExclusive (Step.beats n id w d) c = after-Keeps _ (heartbeat_deploy-IsExclusive id w) n d c
Step-IsExclusive (Step.starts_target n id k d) c =
    after-Keeps _ (mark_target_running-IsExclusive id k) n d c
Step-IsExclusive (Step.ends_target n id k r d over) c =
    after-Keeps _ (mark_target_finished-IsExclusive id k r over) n d c
Step-IsExclusive (Step.skips n id t d) c =
    after-Keeps _ (mark_queued_targets_skipped-IsExclusive id t) n d c
Step-IsExclusive (Step.finishes n id d) c = after-Keeps _ (finish_deploy-IsExclusive id) n d c
Step-IsExclusive (Step.recovers n d) c = after-Keeps _ recover_expired_deploys-IsExclusive n d c

no_member : {A : Type 0} {x : A} → Memᴰ x [] → ⊥
no_member m = elim m [ ]

nothing_counted : {A : Type 0} (p : A → Bool) → count_rows p [] ≤ 1
nothing_counted p = rw (count_rows-zero_of_mem p [] (λ x m. absurd (no_member m))) (omega arith)

nothing-Coupled : Coupled [] []
nothing-Coupled = record {
  agree = λ x r m n e. absurd (no_member m);
  has_release = λ x m. absurd (no_member m);
  one_record = λ x y m n e. absurd (no_member m);
  one_release = λ x y m n e. absurd (no_member m);
  one_row = λ id. nothing_counted _;
  one_deploy_row = λ id. nothing_counted _;
}

nothing-Exclusive : (ls : List DeployTargetLog) → Exclusive [] ls
nothing-Exclusive ls = record { same = λ a b kind ref_id h k. absurd (no_member h.0.in_deploys) }

-- In every state that the system reaches, a deploy record and its release agree on the status, each
-- record has its release, and a release has one record.
pub Reached-IsCoupled : (d : Db) → Reached d → IsCoupled d
Reached-IsCoupled d (Reached.fresh _ f) = rw (f.no_deploys, f.no_releases) nothing-Coupled
Reached-IsCoupled e (Reached.then_step d _ r s) = Step-IsCoupled s (Reached-IsCoupled d r)

-- In every state that the system reaches, two running deploy records that have both not finished
-- the same target are the same record.
pub Reached-IsExclusive : (d : Db) → Reached d → IsExclusive d
Reached-IsExclusive d (Reached.fresh _ f) = rw f.no_deploys (nothing-Exclusive d.logs)
Reached-IsExclusive e (Reached.then_step d _ r s) = Step-IsExclusive s (Reached-IsExclusive d r)
