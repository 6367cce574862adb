-- ===== src/Repository/Targets/Replaced.antt =====
-- internal/repository/repository.go: UpdateDeploymentTarget, and the configuration of the targets.
use ai_pub.Base.{
  ℕ, inl, inr, ◌≡◌, refl, sym, ap, ◌∙◌, Bool, true, false, String, Option, none, some, List, ◌==◌,
  arith, eq_iff, update_rows, delete_rows, mem-update_rows, mem-delete_rows_of, Bool-cases,
  if◌then◌else◌, subst,
}
use ai_pub.Domain.{DeploymentTarget, SshDeploymentTarget, K8sDeploymentTarget}
use ai_pub.Database.{Db, TargetRow}
use ai_pub.Action.{pure, ◌>>◌}
use ai_pub.Action.Ends.{
  faulty, Ends, Ends-bind, Ends-pure, Ends-if, Ends-transaction, Ends-weaken, Ends-fail_if,
  then_exec, then_update, then_now, then_fail_if,
}
use ai_pub.Repository.Reads.{get_deployment_target-Keeps}
use ai_pub.Repository.Targets.{
  insert_ssh, insert_k8s, is_missing, check_given_k8s, check_complete, merged_target,
  replace_target, update_deployment_target,
}
use ai_pub.Repository.Targets.Configured.{
  HasSsh, HasK8s, SshStored, K8sStored, IsConfigured, insert_ssh-SshStored, insert_k8s-K8sStored,
  check_k8s-reads,
}

module _ (id : String) (item : DeploymentTarget)
    (ssh_there : (item.executor_type == "ssh") ≡ true → is_missing item.ssh ≡ false)
    (k8s_there : (item.executor_type == "k8s") ≡ true → is_missing item.k8s ≡ false) where
  abbrev is_it : TargetRow → Bool
  is_it x = x.id == id

  abbrev renew : ℕ → TargetRow → TargetRow
  renew now x = record x {
    executor_type = item.executor_type;
    artifact_type = item.artifact_type;
    timeout_seconds = item.timeout_seconds;
    enabled = item.enabled;
    updated_at = now;
  }

  kept_ssh :
      (ls : List SshDeploymentTarget) (k : String)
      → (k == id) ≡ false
      → HasSsh ls k
      → HasSsh (delete_rows (λ x. x.deployment_target_id == id) ls) k
  kept_ssh ls k other h =
      (h.0, mem-delete_rows_of _ ls h.1 (ap (λ (s : String). s == id) h.2 ∙ other), h.2)

  kept_k8s :
      (ls : List K8sDeploymentTarget) (k : String)
      → (k == id) ≡ false
      → HasK8s ls k
      → HasK8s (delete_rows (λ x. x.deployment_target_id == id) ls) k
  kept_k8s ls k other h =
      (h.0, mem-delete_rows_of _ ls h.1 (ap (λ (s : String). s == id) h.2 ∙ other), h.2)

  -- The tables after the transaction, row by row.
  replaced-IsConfigured :
      (d e : Db)
      → IsConfigured d
      → e.targets ≡ update_rows is_it (renew item.updated_at) d.targets
      → ((k : String) → (k == id) ≡ false → HasSsh d.ssh_targets k → HasSsh e.ssh_targets k)
      → ((k : String) → (k == id) ≡ false → HasK8s d.k8s_targets k → HasK8s e.k8s_targets k)
      → ((item.executor_type == "ssh") ≡ true → HasSsh e.ssh_targets id)
      → ((item.executor_type == "k8s") ≡ true → HasK8s e.k8s_targets id)
      → IsConfigured e
  replaced-IsConfigured d e h rows ssh_kept k8s_kept ssh_own k8s_own = record {
    with_ssh = λ y m kind.
        let (x, n, q) = mem-update_rows is_it (renew item.updated_at) d.targets (rw rows at m) in
        elim (Bool-cases (x.id == id)) [
          | inl t ↦
              let p : renew item.updated_at x ≡ y = rw t at q in
              subst (HasSsh e.ssh_targets)
                (sym ((eq_iff x.id id).0 t) ∙ ap (λ (r : TargetRow). r.id) p)
                (ssh_own (ap (λ (r : TargetRow). r.executor_type == "ssh") p ∙ kind))
          | inr t ↦
              let p : x ≡ y = rw t at q in
              subst (HasSsh e.ssh_targets) (ap (λ (r : TargetRow). r.id) p) (
                ssh_kept x.id t
                  (h.with_ssh x n (ap (λ (r : TargetRow). r.executor_type == "ssh") p ∙ kind)))
        ];
    with_k8s = λ y m kind.
        let (x, n, q) = mem-update_rows is_it (renew item.updated_at) d.targets (rw rows at m) in
        elim (Bool-cases (x.id == id)) [
          | inl t ↦
              let p : renew item.updated_at x ≡ y = rw t at q in
              subst (HasK8s e.k8s_targets)
                (sym ((eq_iff x.id id).0 t) ∙ ap (λ (r : TargetRow). r.id) p)
                (k8s_own (ap (λ (r : TargetRow). r.executor_type == "k8s") p ∙ kind))
          | inr t ↦
              let p : x ≡ y = rw t at q in
              subst (HasK8s e.k8s_targets) (ap (λ (r : TargetRow). r.id) p) (
                k8s_kept x.id t
                  (h.with_k8s x n (ap (λ (r : TargetRow). r.executor_type == "k8s") p ∙ kind)))
        ];
  }

  insert_configs :
      (d : Db)
      → Ends faulty d
          ((if item.executor_type == "ssh" then insert_ssh id item.ssh else pure tt)
            >> (if item.executor_type == "k8s" then insert_k8s id item.k8s else pure tt))
          (λ _ e.
            (e.targets ≡ d.targets)
            × ((k : String) → HasSsh d.ssh_targets k → HasSsh e.ssh_targets k)
            × ((k : String) → HasK8s d.k8s_targets k → HasK8s e.k8s_targets k)
            × ((item.executor_type == "ssh") ≡ true → HasSsh e.ssh_targets id)
            × ((item.executor_type == "k8s") ≡ true → HasK8s e.k8s_targets id))
          (λ _ _. Unit {0})
  insert_configs d =
      Ends-bind _ _
        (Ends-if {Q = λ _ e. SshStored (item.executor_type == "ssh") id d e}
          (item.executor_type == "ssh") _ _
          (λ _. insert_ssh-SshStored id item.ssh (item.executor_type == "ssh") d ssh_there)
          (λ t. Ends-pure _ (refl, refl, λ k x. x, λ p. absurd (ground (arith, t, p)))))
        λ _ e p.
          Ends-weaken
            (Ends-if {Q = λ _ e'. K8sStored (item.executor_type == "k8s") id e e'}
              (item.executor_type == "k8s") _ _
              (λ _. insert_k8s-K8sStored id item.k8s (item.executor_type == "k8s") e k8s_there)
              (λ t. Ends-pure _ (refl, refl, λ k x. x, λ p. absurd (ground (arith, t, p)))))
            (λ _ e' q. (
              q.0 ∙ p.0,
              λ k x. rw q.1 (p.2 k x),
              λ k x. q.2 k (rw p.1 x),
              λ s. rw q.1 (p.3 s),
              q.3,
            ))
            (λ _ _ x. x)

  replace_target-IsConfigured :
      (d : Db)
      → IsConfigured d
      → Ends faulty d (replace_target id item) (λ _ e. IsConfigured e) (λ _ _. Unit {0})
  unfolding replace_target
  replace_target-IsConfigured d h =
      then_update _ _ _ _ (λ _. tt) (λ _. tt)
        λ _.
          then_exec _ _ _ (λ _. tt)
            (then_exec _ _ _ (λ _. tt)
              (Ends-weaken (insert_configs _)
                (λ _ e q.
                  replaced-IsConfigured d e h q.0 (λ k o x. q.1 k (kept_ssh d.ssh_targets k o x))
                    (λ k o x. q.2 k (kept_k8s d.k8s_targets k o x)) q.3 q.4)
                (λ _ _ x. x)))

module _ (d : Db) where
  check_given_k8s-reads :
      (id : String) (given kept : Option K8sDeploymentTarget)
      → Ends faulty d (check_given_k8s id given kept) (λ _ e. e ≡ d) (λ _ e. e ≡ d)
  unfolding check_given_k8s
  check_given_k8s-reads id none kept = Ends-pure _ refl
  check_given_k8s-reads id (some k8s) kept =
      Ends-bind _ _ (check_k8s-reads d id k8s) λ _ e p. Ends-pure _ p

  check_complete-reads :
      (executor_type artifact_type : String) (ssh : Option SshDeploymentTarget)
      (k8s : Option K8sDeploymentTarget)
      → Ends faulty d
          (check_complete executor_type artifact_type ssh k8s)
          (λ _ e.
            (e ≡ d)
            × ((executor_type == "ssh") ≡ true → is_missing ssh ≡ false)
            × ((executor_type == "k8s") ≡ true → is_missing k8s ≡ false))
          (λ _ e. e ≡ d)
  unfolding check_complete
  check_complete-reads executor_type artifact_type ssh k8s =
      then_fail_if _ _ _ (λ _. refl)
        λ _.
          then_fail_if _ _ _ (λ _. refl)
            λ has_k8s.
              Ends-fail_if _ _ (λ _. refl)
                λ has_ssh. (refl, λ t. ground (arith, has_ssh, t), λ t. ground (arith, has_k8s, t))

-- UpdateDeploymentTarget keeps every target with its configuration, whether it returns or fails.
pub update_deployment_target-IsConfigured :
    (id : String) (item : DeploymentTarget) (d : Db)
    → IsConfigured d
    → Ends faulty d
        (update_deployment_target id item)
        (λ _ e. IsConfigured e)
        (λ _ e. IsConfigured e)
unfolding update_deployment_target merged_target
update_deployment_target-IsConfigured id item d h =
    Ends-bind _ _
      (Ends-weaken (get_deployment_target-Keeps {P = λ e. e ≡ d} id d refl) (λ _ _ q. q)
        (λ _ _ q. rw q h))
      λ existing e p. rw p (
        Ends-bind _ _
          (Ends-weaken (check_given_k8s-reads d id item.k8s existing.k8s) (λ _ _ q. q)
            (λ _ _ q. rw q h))
          λ k8s e q. rw q (
            Ends-bind _ _
              (Ends-weaken (check_complete-reads d _ _ _ k8s) (λ _ _ r. r) (λ _ _ r. rw r h))
              λ _ e r. rw r.0 (
                then_now _ λ now.
                  Ends-bind _ _
                    (Ends-transaction _
                      (Ends-weaken
                        (replace_target-IsConfigured id (merged_target id existing item k8s now) r.1
                          r.2 d h)
                        (λ _ _ x. x) (λ _ _ _. h))
                      (λ _. h))
                    λ _ e s. Ends-pure _ s)))
