-- ===== src/App/Preflight/Blocks.antt =====
-- The steps of a preflight, and whether they block.
use ai_pub.Base.{
  ◌≡◌, refl, ◌∙◌, Bool, true, false, not, ◌||◌, String, Option, none, some, arith, ◌==◌, find_row,
  Bool-cases, inl, inr,
}
use ai_pub.Domain.{
  DeploymentTarget, K8sDeploymentTarget, SshDeploymentTarget, K8sCluster, Credential,
}
use ai_pub.Database.{Db, TargetRow}
use ai_pub.Action.{M, Result, ok, err}
use ai_pub.Action.Ends.{
  faulty, Ends, Ends-bind, Ends-pure, Ends-raise, Ends-if, Ends-weaken, Ends-attempt, Keeps,
  Keeps-query_row, then_query_row,
}
use ai_pub.Repository.Lookup.{
  get_deployment_target, attach_deployment_target_config, attach_ssh, attach_k8s,
}
use ai_pub.Repository.Reads.{get_k8s_cluster-Keeps, get_credential-Keeps}
use ai_pub.App.Preflight.{
  Outside, PreflightResult, is_pass, add_block, block_if, is_blank, check_names, report_check,
  check_k8s_deployment, check_credential, check_cluster, check_k8s_config, preflight_k8s_target,
}

-- The checker of a deployment changes no table.
abbrev pub OnlyReads : Outside → Type 0
OnlyReads out =
    (check : K8sDeploymentTarget → M (String × String))
    → out.k8s_preflight ≡ some check
    → (t : K8sDeploymentTarget) (d : Db) → Keeps (λ e. e ≡ d) (check t)

-- A later result that passes only if an earlier one does, in the same mode of confirmation.
pub record Follows (r r' : PreflightResult) : Type 0 where
  pub passes : is_pass r'.result ≡ true → is_pass r.result ≡ true
  pub same_mode : r'.confirm_mode ≡ r.confirm_mode

Follows-refl : (r : PreflightResult) → Follows r r
Follows-refl r = record { passes = λ p. p; same_mode = refl }

pub Follows-trans : {r s t : PreflightResult} → Follows r s → Follows s t → Follows r t
Follows-trans a b = record {
  passes = λ p. a.passes (b.passes p);
  same_mode = b.same_mode ∙ a.same_mode;
}

add_block-Follows : (c m : String) (r : PreflightResult) → Follows r (add_block c m r)
unfolding add_block is_pass
add_block-Follows c m r = record { passes = λ p. ground arith; same_mode = refl }

pub block_if-Follows :
    (b : Bool) (c m : String) (r : PreflightResult) → Follows r (block_if b c m r)
unfolding block_if
block_if-Follows true c m r = add_block-Follows c m r
block_if-Follows false c m r = Follows-refl r

check_names-Follows : (t : K8sDeploymentTarget) (r : PreflightResult) → Follows r (check_names t r)
unfolding check_names
check_names-Follows t r = Follows-trans (block_if-Follows (is_blank t.namespace) _ _ r) (
    Follows-trans (block_if-Follows (is_blank t.deployment_name) _ _ _)
      (block_if-Follows (is_blank t.container_name) _ _ _))

-- A check that was made did not hold, where the result passes.
pub block_if-open :
    (b : Bool) (c m : String) (r : PreflightResult)
    → is_pass (block_if b c m r).result ≡ true
    → b ≡ false
unfolding block_if add_block is_pass
block_if-open true c m r p = ground arith
block_if-open false c m r p = refl

-- Reading the Kubernetes side of a target leaves the tables, and follows the result so far.
module _ (out : Outside) (reads : OnlyReads out) (d : Db) where
  abbrev Checks : PreflightResult → M PreflightResult → Type 0
  Checks r m = Ends faulty d m (λ r' e. (e ≡ d) × Follows r r') (λ _ e. e ≡ d)

  report_check-Follows :
      (r : PreflightResult) (a : Result (String × String)) → Follows r (report_check r a)
  unfolding report_check
  report_check-Follows r (err e) = add_block-Follows _ _ r
  report_check-Follows r (ok (c, m)) = elim (Bool-cases (c == "")) [
    | inl t ↦ rw t (Follows-refl r)
    | inr t ↦ rw t (add_block-Follows c m r)
  ]

  check_k8s_deployment-Checks :
      (o : Option (K8sDeploymentTarget → M (String × String)))
      → out.k8s_preflight ≡ o
      → (t : K8sDeploymentTarget) (r : PreflightResult) → Checks r (check_k8s_deployment o t r)
  unfolding check_k8s_deployment
  check_k8s_deployment-Checks none p t r = Ends-pure r (refl, Follows-refl r)
  check_k8s_deployment-Checks (some check) p t r =
      Ends-if (is_pass r.result) _ _
        (λ _.
          Ends-bind _ _ (Ends-attempt {Q = λ _ e. e ≡ d} _ (reads check p t d d refl))
            λ a e q. Ends-pure _ (q, report_check-Follows r a))
        (λ _. Ends-pure r (refl, Follows-refl r))

  check_credential-Checks :
      (t : K8sDeploymentTarget) (r : PreflightResult) (c : Result Credential)
      → Checks r (check_credential out t r c)
  unfolding check_credential
  check_credential-Checks t r (err e) = Ends-pure _ (refl, add_block-Follows _ _ r)
  check_credential-Checks t r (ok c) =
      Ends-weaken (check_k8s_deployment-Checks out.k8s_preflight refl t _)
        (λ r' e q. (
          q.0,
          Follows-trans (block_if-Follows (not c.enabled || not (c.type == "kubeconfig")) _ _ r)
              q.1,
        ))
        (λ _ _ q. q)

  check_cluster-Checks :
      (t : K8sDeploymentTarget) (r : PreflightResult) (c : Result K8sCluster)
      → Checks r (check_cluster out t r c)
  unfolding check_cluster
  check_cluster-Checks t r (err e) = Ends-pure _ (refl, add_block-Follows _ _ r)
  check_cluster-Checks t r (ok c) =
      Ends-bind _ _
        (Ends-attempt {Q = λ _ e. e ≡ d} _ (get_credential-Keeps c.credential_ref d refl))
        λ found e q. rw q (
          Ends-weaken (check_credential-Checks t _ found)
            (λ r' e' k. (k.0, Follows-trans (block_if-Follows (not c.enabled) _ _ r) k.1))
            (λ _ _ k. k))

  check_k8s_config-Checks :
      (o : Option K8sDeploymentTarget) (r : PreflightResult) → Checks r (check_k8s_config out o r)
  unfolding check_k8s_config
  check_k8s_config-Checks none r = Ends-pure _ (refl, add_block-Follows _ _ r)
  check_k8s_config-Checks (some t) r =
      Ends-bind _ _ (Ends-attempt {Q = λ _ e. e ≡ d} _ (get_k8s_cluster-Keeps t.cluster_id d refl))
        λ found e q. rw q (
          Ends-weaken (check_cluster-Checks t _ found)
            (λ r' e' k. (k.0, Follows-trans (check_names-Follows t r) k.1)) (λ _ _ k. k))

  pub preflight_k8s_target-Checks :
      (target : DeploymentTarget) (r : PreflightResult)
      → Checks r (preflight_k8s_target out target r)
  unfolding preflight_k8s_target
  preflight_k8s_target-Checks target r =
      Ends-if (target.executor_type == "k8s") _ _
        (λ _.
          Ends-weaken (check_k8s_config-Checks target.k8s _)
            (λ r' e k. (
              k.0,
              Follows-trans (block_if-Follows (not (target.artifact_type == "oci_image")) _ _ r)
                  k.1,
            ))
            (λ _ _ k. k))
        (λ _. Ends-pure r (refl, Follows-refl r))

-- The target that was loaded is that of its row.
pub record LoadedFrom (d : Db) (id : String) (target : DeploymentTarget) : Type 0 where
  pub row : TargetRow
  pub is_found : find_row (λ x. x.id == id) d.targets ≡ some row
  pub same_service : target.service_id ≡ row.service_id
  pub same_environment : target.environment_id ≡ row.environment_id
  pub same_artifact : target.artifact_type ≡ row.artifact_type

attach_ssh-keeps :
    (d : Db) (id : String) (t : DeploymentTarget) (r : Result SshDeploymentTarget)
    → LoadedFrom d id t
    → Ends faulty d (attach_ssh t r) (λ u e. (e ≡ d) × LoadedFrom d id u) (λ _ e. e ≡ d)
unfolding attach_ssh
attach_ssh-keeps d id t (ok s) h = Ends-pure _ (
  refl,
  record {
    row = h.row;
    is_found = h.is_found;
    same_service = h.same_service;
    same_environment = h.same_environment;
    same_artifact = h.same_artifact;
  },
)
attach_ssh-keeps d id t (err x) h =
    Ends-if (t.executor_type == "ssh") _ _ (λ _. Ends-raise x refl) (λ _. Ends-pure t (refl, h))

attach_k8s-keeps :
    (d : Db) (id : String) (t : DeploymentTarget) (r : Result K8sDeploymentTarget)
    → LoadedFrom d id t
    → Ends faulty d (attach_k8s t r) (λ u e. (e ≡ d) × LoadedFrom d id u) (λ _ e. e ≡ d)
unfolding attach_k8s
attach_k8s-keeps d id t (ok s) h = Ends-pure _ (
  refl,
  record {
    row = h.row;
    is_found = h.is_found;
    same_service = h.same_service;
    same_environment = h.same_environment;
    same_artifact = h.same_artifact;
  },
)
attach_k8s-keeps d id t (err x) h =
    Ends-if (t.executor_type == "k8s") _ _ (λ _. Ends-raise x refl) (λ _. Ends-pure t (refl, h))

pub get_deployment_target-LoadedFrom :
    (id : String) (d : Db)
    → Ends faulty d (get_deployment_target id) (λ t e. (e ≡ d) × LoadedFrom d id t) (λ _ e. e ≡ d)
unfolding get_deployment_target attach_deployment_target_config
get_deployment_target-LoadedFrom id d =
    then_query_row _ _ (λ _. refl) (λ _. refl)
      λ row found.
        Ends-bind _ _ (Ends-attempt {Q = λ _ e. e ≡ d} _ (Keeps-query_row _ d refl)) λ ssh e q.
          rw q (
            Ends-bind _ _
              (attach_ssh-keeps d id _ ssh (record {
                row = row;
                is_found = found;
                same_service = refl;
                same_environment = refl;
                same_artifact = refl;
              }))
              λ t e' k. rw k.0 (
                Ends-bind _ _ (Ends-attempt {Q = λ _ e. e ≡ d} _ (Keeps-query_row _ d refl))
                  λ k8s e'' j. rw j (attach_k8s-keeps d id t k8s k.1)))
