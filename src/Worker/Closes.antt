-- ===== src/Worker/Closes.antt =====
-- The target logs of a worker's deploy.
use ai_pub.Base.{
  ◌≡◌, refl, sym, ap, ◌∙◌, Bool, true, false, not, ◌&&◌, String, Option, none, some, List, [], ◌∷◌,
  map, Memᴰ, ◌==◌, arith, inl, inr, eq_iff, update_rows, mem-update_rows, Bool-cases, if◌then◌else◌,
}
use mathlib.Core.List.Memᴰ
use ai_pub.Domain.{
  DeployTargetLog, ExecutionTarget, Server, is_unfinished, is_target_failed, is_target_queued,
}
use ai_pub.Database.{Db}
use ai_pub.Action.{M, Result, ok, err}
use ai_pub.Action.Ends.{
  faulty, Ends, Ends-bind, Ends-pure, Ends-if, Ends-attempt, Ends-ignore, Ends-fail_if, then_now,
  then_exec, then_insert, then_new_id,
}
use ai_pub.Repository.Reads.{get_server-Keeps}
use ai_pub.Repository.Events.{create_release_event}
use ai_pub.Repository.Claim.{ClaimedDeploy}
use ai_pub.Repository.Finish.{
  ServerResult, is_log_of, mark_target_running, mark_target_finished, mark_queued_targets_skipped,
}
use ai_pub.App.Release.{Actor, record_event}
use ai_pub.Worker.{
  Request, Service, failed_result, with_gateway, on_server, with_executor, execute, run_targets,
  work_targets,
}

-- An executor leaves the target logs alone, and its result is final.
abbrev pub Reports : List DeployTargetLog → M ServerResult → Db → Type 0
Reports ls m d =
    Ends faulty d m (λ r e. (e.logs ≡ ls) × (is_unfinished r.status ≡ false)) (λ _ _. Unit {0})

-- What the worker's executors and its heartbeat do to the target logs: nothing.
pub record WorksAside (s : Service) : Type 0 where
  pub executor_reports :
      (kind : String) (run : Request → M ServerResult)
      → s.executors kind ≡ some run
      → (q : Request) (d : Db) → Reports d.logs (run q) d
  pub heartbeat_aside :
      (d : Db) → Ends faulty d s.check_heartbeat (λ _ e. e.logs ≡ d.logs) (λ _ _. Unit {0})

-- Each unfinished log of the record is of one of the targets.
abbrev pub Covers : List DeployTargetLog → String → List ExecutionTarget → Type 0
Covers ls id ts =
    (l : DeployTargetLog)
    → Memᴰ l ls
    → l.deploy_record_id ≡ id
    → is_unfinished l.status ≡ true
    → Memᴰ l.target_ref_id (map (λ (t : ExecutionTarget). t.ref_id) ts)

abbrev pub IsClosed : List DeployTargetLog → String → Type 0
IsClosed ls id =
    (l : DeployTargetLog) → Memᴰ l ls → l.deploy_record_id ≡ id → is_unfinished l.status ≡ false

-- An update that keeps a log's keys and opens none.
updated-Covers :
    (p : DeployTargetLog → Bool) (g : DeployTargetLog → DeployTargetLog) (ls : List DeployTargetLog)
    (id : String) (ts : List ExecutionTarget)
    → ((l : DeployTargetLog)
        → ((g l).deploy_record_id ≡ l.deploy_record_id) × ((g l).target_ref_id ≡ l.target_ref_id))
    → ((l : DeployTargetLog) → p l ≡ true → is_unfinished l.status ≡ true)
    → Covers ls id ts
    → Covers (update_rows p g ls) id ts
updated-Covers p g ls id ts keeps opened h y m e u =
    let (l, n, k) = mem-update_rows p g ls m in
    let record_same : (if p l then g l else l).deploy_record_id ≡ l.deploy_record_id =
      ground (arith, (keeps l).0) in
    let ref_same : (if p l then g l else l).target_ref_id ≡ l.target_ref_id =
      ground (arith, (keeps l).1) in
    let was_open : is_unfinished (if p l then g l else l).status ≡ true =
      ap (λ (z : DeployTargetLog). is_unfinished z.status) k ∙ u in
    let still : is_unfinished l.status ≡ true = ground (arith, opened l, was_open) in
    rw (sym ref_same ∙ ap (λ (z : DeployTargetLog). z.target_ref_id) k) at
      (h l n (sym record_same ∙ (ap (λ (z : DeployTargetLog). z.deploy_record_id) k ∙ e)) still)

-- The update that ends the logs of one target.
ended-Covers :
    (g : DeployTargetLog → DeployTargetLog) (ls : List DeployTargetLog) (id : String)
    (t : ExecutionTarget) (ts : List ExecutionTarget)
    → ((l : DeployTargetLog) → is_unfinished (g l).status ≡ false)
    → Covers ls id (t ∷ ts)
    → Covers (update_rows (is_log_of id t.ref_id) g ls) id ts
ended-Covers g ls id t ts over h y m e u =
    let (l, n, k) = mem-update_rows (is_log_of id t.ref_id) g ls m in
    let was_open : is_unfinished (if is_log_of id t.ref_id l then g l else l).status ≡ true =
      ap (λ (z : DeployTargetLog). is_unfinished z.status) k ∙ u in
    elim (Bool-cases (is_log_of id t.ref_id l)) [
      | inl hit ↦ absurd (ground (arith, hit, was_open, over l))
      | inr missed ↦
          let same : l ≡ y = keep_row _ (g l) l y missed k in
          let record_here =
            (eq_iff l.deploy_record_id id).1
              (ap (λ (z : DeployTargetLog). z.deploy_record_id) same ∙ e) in
          elim (Memᴰ.cases_cons (
            h l n (ap (λ (z : DeployTargetLog). z.deploy_record_id) same ∙ e)
              (ap (λ (z : DeployTargetLog). is_unfinished z.status) same ∙ u))) [
                | inl q ↦
                    absurd
                      (ground (arith, missed, record_here, (eq_iff l.target_ref_id t.ref_id).1 q))
                | inr q ↦ rw (ap (λ (z : DeployTargetLog). z.target_ref_id) same) at q
              ]
    ]
  where
    keep_row : (b : Bool) (v l y : DeployTargetLog) → b ≡ false → (if b then v else l) ≡ y → l ≡ y
    keep_row true v l y h k = absurd (ground (arith, h))
    keep_row false v l y h k = k

-- Executing a target leaves the target logs alone.
module _ (s : Service) (w : WorksAside s) (c : ClaimedDeploy) (t : ExecutionTarget) (d : Db) where
  module _ (run : Request → M ServerResult)
      (reports : (q : Request) (e : Db) → Reports e.logs (run q) e) where
    with_gateway-Reports :
        (server : Server) (r : Result Server) → Reports d.logs (with_gateway run c t server r) d
    unfolding with_gateway failed_result
    with_gateway-Reports server (ok gateway) = reports _ d
    with_gateway-Reports server (err e) = Ends-pure _ (refl, refl)

    on_server-Reports : (o : Option Server) → Reports d.logs (on_server run c t o) d
    unfolding on_server failed_result
    on_server-Reports none =
        Ends-if (c.target.executor_type == "ssh") _ _ (λ _. Ends-pure _ (refl, refl))
          (λ _. reports _ d)
    on_server-Reports (some server) =
        Ends-if (c.target.executor_type == "ssh" && not (server.gateway_id == "")) _ _
          (λ _.
            Ends-bind _ _
              (Ends-attempt {Q = λ _ e. e ≡ d} _ (get_server-Keeps server.gateway_id d refl))
              λ r e q. rw q (with_gateway-Reports server r))
          (λ _. reports _ d)

  with_executor-Reports :
      (o : Option (Request → M ServerResult))
      → s.executors c.target.executor_type ≡ o
      → Reports d.logs (with_executor c t o) d
  unfolding with_executor failed_result
  with_executor-Reports none p = Ends-pure _ (refl, refl)
  with_executor-Reports (some run) p = on_server-Reports run (w.executor_reports _ run p) _

  execute-Reports : Reports d.logs (execute s c t) d
  unfolding execute
  execute-Reports = with_executor-Reports _ refl

-- The event log is a table of its own.
record_event-logs :
    (release_id record_id kind : String) (actor : Actor) (text metadata : String) (d : Db)
    → Ends faulty d
        (record_event release_id record_id kind actor text metadata)
        (λ _ e. e.logs ≡ d.logs)
        (λ _ _. Unit {0})
unfolding record_event create_release_event
record_event-logs release_id record_id kind actor text metadata d = Ends-ignore _ (
    then_new_id _ _ λ id. then_now _ λ t.
      then_insert {E = λ _ e. e.logs ≡ d.logs} _ _ _ (λ _. refl) (λ _. refl)
        (λ _. Ends-pure _ refl))

module _ (id : String) (t : ExecutionTarget) (ts : List ExecutionTarget) where
  mark_target_running-Covers :
      (d : Db)
      → Covers d.logs id (t ∷ ts)
      → Ends faulty d
          (mark_target_running id t.ref_id)
          (λ _ e. Covers e.logs id (t ∷ ts))
          (λ _ _. Unit {0})
  unfolding mark_target_running
  mark_target_running-Covers d h = then_now _ λ now.
      then_exec _ _ _ (λ _. tt)
        (Ends-fail_if _ _ (λ _. tt)
          (λ _.
            updated-Covers (λ l. is_log_of id t.ref_id l && is_target_queued l.status) _ d.logs id
              (t ∷ ts) (λ l. (refl, refl)) (λ l p. ground (arith, p)) h))

  mark_target_finished-Covers :
      (result : ServerResult) (d : Db)
      → is_unfinished result.status ≡ false
      → Covers d.logs id (t ∷ ts)
      → Ends faulty d
          (mark_target_finished id t.ref_id result)
          (λ _ e. Covers e.logs id ts)
          (λ _ _. Unit {0})
  unfolding mark_target_finished
  mark_target_finished-Covers result d over h =
      then_now _
        λ now. then_exec _ _ _ (λ _. tt) (Ends-pure _ (ended-Covers _ d.logs id t ts (λ l. over) h))

run_targets-Covers :
    (s : Service)
    → WorksAside s
    → (c : ClaimedDeploy) (ts : List ExecutionTarget) (d : Db) → Covers d.logs c.claimed.id ts
    → Ends faulty d
        (run_targets s c ts)
        (λ failed e. failed ≡ false → Covers e.logs c.claimed.id [])
        (λ _ _. Unit {0})
unfolding run_targets
run_targets-Covers s w c [] d h = Ends-pure _ (λ _. h)
run_targets-Covers s w c (t ∷ ts) d h =
    Ends-bind _ _ (mark_target_running-Covers c.claimed.id t ts d h) λ _ d1 h1.
      Ends-bind _ _ (execute-Reports s w c t d1) λ result d2 q2.
        Ends-bind _ _ (w.heartbeat_aside d2) λ _ d3 q3.
          Ends-bind _ _
            (mark_target_finished-Covers c.claimed.id t ts result d3 q2.1
              (rw (sym (q3 ∙ q2.0)) at h1))
            λ _ d4 h4. Ends-bind _ _ (record_event-logs _ _ _ _ _ _ d4) λ _ d5 q5.
              Ends-if (is_target_failed result.status) _ _
                (λ _. Ends-pure true (λ e. absurd (ground (arith, e))))
                (λ _. run_targets-Covers s w c ts d5 (rw (sym q5) at h4))

skipped_row :
    (id : String) (v l y : DeployTargetLog)
    → v.deploy_record_id ≡ l.deploy_record_id
    → is_unfinished v.status ≡ false
    → (if l.deploy_record_id == id && is_unfinished l.status then v else l) ≡ y
    → y.deploy_record_id ≡ id
    → is_unfinished y.status ≡ false
skipped_row id v l y same over k e =
    let record_same : (if l.deploy_record_id == id && is_unfinished l.status
          then v
          else l).deploy_record_id
        ≡ l.deploy_record_id =
      ground (arith, same) in
    let named =
      (eq_iff l.deploy_record_id id).1
        (sym record_same ∙ (ap (λ (z : DeployTargetLog). z.deploy_record_id) k ∙ e)) in
    ap (λ (z : DeployTargetLog). is_unfinished z.status) (sym k) ∙ ground (arith, named, over)

skipped-IsClosed :
    (id text : String) (d : Db)
    → Ends faulty d
        (mark_queued_targets_skipped id text)
        (λ _ e. IsClosed e.logs id)
        (λ _ _. Unit {0})
unfolding mark_queued_targets_skipped
skipped-IsClosed id text d = then_now _ λ now.
    then_exec _ _ _ (λ _. tt)
      (Ends-pure _ λ y m e.
        let (l, n, k) =
          mem-update_rows (λ l. l.deploy_record_id == id && is_unfinished l.status) _ d.logs m in
        skipped_row id _ l y refl refl k e)

Covers-IsClosed : (ls : List DeployTargetLog) (id : String) → Covers ls id [] → IsClosed ls id
Covers-IsClosed ls id h l m e = elim (Bool-cases (is_unfinished l.status)) [
  | inl u ↦ elim (h l m e u) [ ]
  | inr u ↦ u
]

-- When the loop of a worker over the targets of its deploy returns, and those left out after a
-- failure are marked, no target log of the deploy is unfinished, whether a target failed or not:
-- each unfinished log was of one of the targets, the executors' results are final, and the
-- executors and the heartbeat leave the target logs alone.
pub work_targets-IsClosed :
    (s : Service)
    → WorksAside s
    → (c : ClaimedDeploy) (d : Db) → Covers d.logs c.claimed.id c.execution_targets
    → Ends faulty d (work_targets s c) (λ _ e. IsClosed e.logs c.claimed.id) (λ _ _. Unit {0})
unfolding work_targets
work_targets-IsClosed s w c d h =
    Ends-bind _ _ (run_targets-Covers s w c c.execution_targets d h) λ failed e q.
      Ends-if failed _ _ (λ _. skipped-IsClosed _ _ e)
        (λ f. Ends-pure _ (Covers-IsClosed e.logs c.claimed.id (q f)))
