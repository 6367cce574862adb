-- ===== src/Repository/Targets/Configured.antt =====
-- internal/repository/repository.go: CreateDeploymentTarget, and the configuration of the targets.
use ai_pub.Base.{
  ◌≡◌, refl, ◌∙◌, Bool, true, false, String, Option, none, some, List, [], ◌∷◌, ◌++◌, Memᴰ, ◌==◌,
  inl, inr, mem-snoc, if◌then◌else◌,
}
use mathlib.Core.List.Memᴰ
use ai_pub.Domain.{DeploymentTarget, SshDeploymentTarget, K8sDeploymentTarget}
use ai_pub.Database.{Db, TargetRow}
use ai_pub.Action.{pure}
use ai_pub.Action.Ends.{
  faulty, Ends, Ends-bind, Ends-pure, Ends-raise, Ends-transaction, Ends-weaken, Ends-insert,
  then_query_row, then_insert, then_now, then_fail_if,
}
use ai_pub.Repository.Lookup.{get_k8s_cluster}
use ai_pub.Repository.Reads.{then_or_new_id}
use ai_pub.Repository.Targets.{
  insert_ssh, insert_k8s, is_missing, check_k8s, ssh_given, new_target, store_target, require_ssh,
  require_k8s, target_row, create_deployment_target,
}

-- A row of the table is the configuration of that target.
abbrev pub HasSsh : List SshDeploymentTarget → String → Type 0
HasSsh ls id = (s : SshDeploymentTarget) × Memᴰ s ls × (s.deployment_target_id ≡ id)

abbrev pub HasK8s : List K8sDeploymentTarget → String → Type 0
HasK8s ls id = (s : K8sDeploymentTarget) × Memᴰ s ls × (s.deployment_target_id ≡ id)

-- Every target has the configuration that its executor needs.
pub record IsConfigured (d : Db) : Type 0 where
  pub with_ssh :
      (x : TargetRow)
      → Memᴰ x d.targets
      → (x.executor_type == "ssh") ≡ true
      → HasSsh d.ssh_targets x.id
  pub with_k8s :
      (x : TargetRow)
      → Memᴰ x d.targets
      → (x.executor_type == "k8s") ≡ true
      → HasK8s d.k8s_targets x.id

-- What the optional insert of a configuration does to the tables.
abbrev pub SshStored : Bool → String → Db → Db → Type 0
SshStored needed id d e =
    (e.targets ≡ d.targets)
    × (e.k8s_targets ≡ d.k8s_targets)
    × ((k : String) → HasSsh d.ssh_targets k → HasSsh e.ssh_targets k)
    × (needed ≡ true → HasSsh e.ssh_targets id)

abbrev pub K8sStored : Bool → String → Db → Db → Type 0
K8sStored needed id d e =
    (e.targets ≡ d.targets)
    × (e.ssh_targets ≡ d.ssh_targets)
    × ((k : String) → HasK8s d.k8s_targets k → HasK8s e.k8s_targets k)
    × (needed ≡ true → HasK8s e.k8s_targets id)

pub insert_ssh-SshStored :
    (id : String) (given : Option SshDeploymentTarget) (needed : Bool) (d : Db)
    → (needed ≡ true → is_missing given ≡ false)
    → Ends faulty d (insert_ssh id given) (λ _ e. SshStored needed id d e) (λ _ _. Unit {0})
unfolding insert_ssh is_missing
insert_ssh-SshStored id none needed d there =
    Ends-pure _ (refl, refl, λ k h. h, λ p. absurd (cc (there p)))
insert_ssh-SshStored id (some ssh) needed d there =
    Ends-insert _ _
      (λ _. (
        refl,
        refl,
        λ k h. (h.0, Memᴰ.append_left (record ssh { deployment_target_id = id } ∷ []) h.1, h.2),
        λ _. (
          record ssh { deployment_target_id = id },
          Memᴰ.append_right d.ssh_targets (Memᴰ.head refl),
          refl,
        ),
      ))
      (λ _. tt) (λ _. tt)

pub insert_k8s-K8sStored :
    (id : String) (given : Option K8sDeploymentTarget) (needed : Bool) (d : Db)
    → (needed ≡ true → is_missing given ≡ false)
    → Ends faulty d (insert_k8s id given) (λ _ e. K8sStored needed id d e) (λ _ _. Unit {0})
unfolding insert_k8s is_missing
insert_k8s-K8sStored id none needed d there =
    Ends-pure _ (refl, refl, λ k h. h, λ p. absurd (cc (there p)))
insert_k8s-K8sStored id (some k8s) needed d there =
    Ends-insert _ _
      (λ _. (
        refl,
        refl,
        λ k h. (h.0, Memᴰ.append_left (record k8s { deployment_target_id = id } ∷ []) h.1, h.2),
        λ _. (
          record k8s { deployment_target_id = id },
          Memᴰ.append_right d.k8s_targets (Memᴰ.head refl),
          refl,
        ),
      ))
      (λ _. tt) (λ _. tt)

module _ (item : DeploymentTarget)
    (ssh_there : (item.executor_type == "ssh") ≡ true → is_missing item.ssh ≡ false)
    (k8s_there : (item.executor_type == "k8s") ≡ true → is_missing item.k8s ≡ false) where
  stored-IsConfigured :
      (d e e' : Db)
      → IsConfigured d
      → e.targets ≡ d.targets ++ (target_row item ∷ [])
      → ((k : String) → HasSsh d.ssh_targets k → HasSsh e.ssh_targets k)
      → ((k : String) → HasK8s d.k8s_targets k → HasK8s e'.k8s_targets k)
      → ((item.executor_type == "ssh") ≡ true → HasSsh e.ssh_targets item.id)
      → K8sStored (item.executor_type == "k8s") item.id e e'
      → IsConfigured e'
  unfolding target_row
  stored-IsConfigured d e e' h rows keeps keeps' own q = record {
    with_ssh = λ x m kind. elim (mem-snoc d.targets (rw (q.0 ∙ rows) at m)) [
      | inl n ↦ rw q.1 (keeps x.id (h.with_ssh x n kind))
      | inr p ↦ rw (q.1, p) (own (rw p at kind))
    ];
    with_k8s = λ x m kind. elim (mem-snoc d.targets (rw (q.0 ∙ rows) at m)) [
      | inl n ↦ keeps' x.id (h.with_k8s x n kind)
      | inr p ↦ rw p (q.3 (rw p at kind))
    ];
  }

  store_target-IsConfigured :
      (d : Db)
      → IsConfigured d
      → Ends faulty d (store_target item) (λ _ e. IsConfigured e) (λ _ _. Unit {0})
  unfolding store_target
  store_target-IsConfigured d h =
      then_insert _ _ _ (λ _. tt) (λ _. tt)
        λ _.
          Ends-bind _ _
            (insert_ssh-SshStored item.id item.ssh (item.executor_type == "ssh") _ ssh_there)
            λ _ e p.
              Ends-weaken
                (insert_k8s-K8sStored item.id item.k8s (item.executor_type == "k8s") e k8s_there)
                (λ _ e' q. stored-IsConfigured d e e' h p.0 p.2 (λ k n. q.2 k (rw p.1 n)) p.3 q)
                (λ _ _ x. x)

module _ (d : Db) where
  choose_ssh :
      (b : Bool) (id : String) (given : Option SshDeploymentTarget)
      → Ends faulty d
          (if b then require_ssh id given else pure given)
          (λ s e. (e ≡ d) × (b ≡ true → is_missing s ≡ false))
          (λ _ e. e ≡ d)
  unfolding require_ssh is_missing
  choose_ssh false id given = Ends-pure _ (refl, λ p. absurd (cc))
  choose_ssh true id none = Ends-raise _ refl
  choose_ssh true id (some ssh) = Ends-pure _ (refl, λ _. refl)

  pub check_k8s-reads :
      (id : String) (k8s : K8sDeploymentTarget)
      → Ends faulty d (check_k8s id k8s) (λ _ e. e ≡ d) (λ _ e. e ≡ d)
  unfolding check_k8s get_k8s_cluster
  check_k8s-reads id k8s =
      then_fail_if _ _ _ (λ _. refl)
        λ _. then_query_row _ _ (λ _. refl) (λ _. refl) λ _ _. Ends-pure _ refl

  choose_k8s :
      (b : Bool) (id artifact_type : String) (given : Option K8sDeploymentTarget)
      → Ends faulty d
          (if b then require_k8s id artifact_type given else pure given)
          (λ s e. (e ≡ d) × (b ≡ true → is_missing s ≡ false))
          (λ _ e. e ≡ d)
  unfolding require_k8s is_missing
  choose_k8s false id artifact_type given = Ends-pure _ (refl, λ p. absurd (cc))
  choose_k8s true id artifact_type none = Ends-raise _ refl
  choose_k8s true id artifact_type (some k8s) =
      then_fail_if _ _ _ (λ _. refl)
        λ _. Ends-bind _ _ (check_k8s-reads id k8s) λ _ e p. Ends-pure _ (p, λ _. refl)

-- CreateDeploymentTarget keeps every target with its configuration, whether it returns or fails.
pub create_deployment_target-IsConfigured :
    (item : DeploymentTarget) (d : Db)
    → IsConfigured d
    → Ends faulty d (create_deployment_target item) (λ _ e. IsConfigured e) (λ _ e. IsConfigured e)
unfolding create_deployment_target new_target
create_deployment_target-IsConfigured item d h = then_now _ λ now.
    then_or_new_id item.id "target" _ λ id.
      Ends-bind _ _
        (Ends-weaken (choose_ssh d (item.executor_type == "ssh") id (ssh_given item item.ssh))
          (λ _ _ q. q) (λ _ _ q. rw q h))
        λ ssh e q. rw q.0 (
          Ends-bind _ _
            (Ends-weaken (choose_k8s d (item.executor_type == "k8s") id _ item.k8s) (λ _ _ r. r)
              (λ _ _ r. rw r h))
            λ k8s e r. rw r.0 (
              Ends-bind _ _
                (Ends-transaction _
                  (Ends-weaken
                    (store_target-IsConfigured (new_target item id now ssh k8s) q.1 r.1 d h)
                    (λ _ _ x. x) (λ _ _ _. h))
                  (λ _. h))
                λ _ e s. Ends-pure _ s))
