-- ===== src/Repository/Targets/Loads.antt =====
-- internal/repository/repository.go: the loading of a stored target.
use ai_pub.Base.{
  ◌≡◌, refl, Bool, true, false, String, Option, none, some, Memᴰ, subst, ◌==◌, ◌⊎◌, inl, inr, arith,
  eq_iff, find_row, find_row-none, mem-find_row, Bool-cases, ◌∙◌,
}
use ai_pub.Domain.{DeploymentTarget, SshDeploymentTarget, K8sDeploymentTarget}
use ai_pub.Database.{Db, TargetRow}
use ai_pub.Action.{Result, ok, err, not_found}
use ai_pub.Action.Ends.{
  calm, Ends, Ends-bind, Ends-pure, Ends-if, Ends-attempt, Ends-query_row, then_query_row,
  Ends-weaken,
}
use ai_pub.Repository.Lookup.{
  attach_ssh, attach_k8s, attach_deployment_target_config, scan_deployment_target,
  get_deployment_target,
}
use ai_pub.Repository.Targets.Configured.{HasSsh, HasK8s, IsConfigured}

-- A look-up either finds a row of that kind, or finds none and need not.
abbrev Looked : {A : Type 0} → (A → Type 0) → Bool → Result A → Type 0
Looked {A} Own needed r = ((a : A) × (r ≡ ok a) × Own a) ⊎ ((r ≡ err not_found) × (needed ≡ false))

-- A stored configuration of that target.
abbrev pub OwnSsh : Db → String → SshDeploymentTarget → Type 0
OwnSsh d id s = Memᴰ s d.ssh_targets × (s.deployment_target_id ≡ id)

abbrev pub OwnK8s : Db → String → K8sDeploymentTarget → Type 0
OwnK8s d id s = Memᴰ s d.k8s_targets × (s.deployment_target_id ≡ id)

-- What was loaded is a stored configuration of the target.
abbrev pub Loaded : {A : Type 0} → (A → Type 0) → Option A → Type 0
Loaded {A} Own o = (a : A) × (o ≡ some a) × Own a

module _ (d : Db) (item : DeploymentTarget)
    (has_ssh : (item.executor_type == "ssh") ≡ true → HasSsh d.ssh_targets item.id)
    (has_k8s : (item.executor_type == "k8s") ≡ true → HasK8s d.k8s_targets item.id) where
  no_ssh :
      find_row (λ x. x.deployment_target_id == item.id) d.ssh_targets ≡ none
      → (item.executor_type == "ssh") ≡ false
  no_ssh p = elim (Bool-cases (item.executor_type == "ssh")) [
    | inr e ↦ e
    | inl e ↦
        let s = has_ssh e in
        absurd (
          ground (
            arith,
            find_row-none _ d.ssh_targets p s.1,
            (eq_iff s.0.deployment_target_id item.id).1 s.2,
          ))
  ]

  no_k8s :
      find_row (λ x. x.deployment_target_id == item.id) d.k8s_targets ≡ none
      → (item.executor_type == "k8s") ≡ false
  no_k8s p = elim (Bool-cases (item.executor_type == "k8s")) [
    | inr e ↦ e
    | inl e ↦
        let s = has_k8s e in
        absurd (
          ground (
            arith,
            find_row-none _ d.k8s_targets p s.1,
            (eq_iff s.0.deployment_target_id item.id).1 s.2,
          ))
  ]

  own_ssh :
      (s : SshDeploymentTarget)
      → find_row (λ x. x.deployment_target_id == item.id) d.ssh_targets ≡ some s
      → OwnSsh d item.id s
  own_ssh s p =
      let (m, t) =
        mem-find_row (λ (x : SshDeploymentTarget). x.deployment_target_id == item.id) d.ssh_targets
          p in
      (m, (eq_iff s.deployment_target_id item.id).0 t)

  own_k8s :
      (s : K8sDeploymentTarget)
      → find_row (λ x. x.deployment_target_id == item.id) d.k8s_targets ≡ some s
      → OwnK8s d item.id s
  own_k8s s p =
      let (m, t) =
        mem-find_row (λ (x : K8sDeploymentTarget). x.deployment_target_id == item.id) d.k8s_targets
          p in
      (m, (eq_iff s.deployment_target_id item.id).0 t)

  attach_ssh-loads :
      (r : Result SshDeploymentTarget)
      → Looked (OwnSsh d item.id) (item.executor_type == "ssh") r
      → Ends calm d
          (attach_ssh item r)
          (λ t e.
            (e ≡ d)
            × (t.id ≡ item.id)
            × (t.executor_type ≡ item.executor_type)
            × ((item.executor_type == "ssh") ≡ true → Loaded (OwnSsh d item.id) t.ssh))
          (λ _ _. ⊥)
  unfolding attach_ssh
  attach_ssh-loads r (inl (s, p, own)) = rw p (Ends-pure _ (refl, refl, refl, λ _. (s, refl, own)))
  attach_ssh-loads r (inr (p, other)) = rw p (
      Ends-if (item.executor_type == "ssh") _ _ (λ t. absurd (ground (arith, t, other)))
        (λ f. Ends-pure _ (refl, refl, refl, λ t. absurd (ground (arith, t, f)))))

  attach_k8s-loads :
      (t : DeploymentTarget) (r : Result K8sDeploymentTarget)
      → t.executor_type ≡ item.executor_type
      → Looked (OwnK8s d item.id) (item.executor_type == "k8s") r
      → Ends calm d
          (attach_k8s t r)
          (λ u e.
            (e ≡ d)
            × (u.id ≡ t.id)
            × (u.executor_type ≡ t.executor_type)
            × (u.ssh ≡ t.ssh)
            × ((item.executor_type == "k8s") ≡ true → Loaded (OwnK8s d item.id) u.k8s))
          (λ _ _. ⊥)
  unfolding attach_k8s
  attach_k8s-loads t r same (inl (s, p, own)) =
      rw p (Ends-pure _ (refl, refl, refl, refl, λ _. (s, refl, own)))
  attach_k8s-loads t r same (inr (p, other)) = rw p (
      Ends-if (t.executor_type == "k8s") _ _ (λ e. absurd (ground (arith, e, other, same)))
        (λ f. Ends-pure _ (refl, refl, refl, refl, λ e. absurd (ground (arith, e, other)))))

  attach-loads :
      Ends calm d
        (attach_deployment_target_config item)
        (λ t e.
          (e ≡ d)
          × (t.id ≡ item.id)
          × (t.executor_type ≡ item.executor_type)
          × ((item.executor_type == "ssh") ≡ true → Loaded (OwnSsh d item.id) t.ssh)
          × ((item.executor_type == "k8s") ≡ true → Loaded (OwnK8s d item.id) t.k8s))
        (λ _ _. ⊥)
  unfolding attach_deployment_target_config
  attach-loads =
      Ends-bind _ _
        (Ends-attempt
          {Q = λ r e. (e ≡ d) × Looked (OwnSsh d item.id) (item.executor_type == "ssh") r} _
          (Ends-query_row _ (λ a f. (refl, inl (a, refl, own_ssh a f)))
            (λ p. (refl, inr (refl, no_ssh p))) (λ f. absurd f)))
        λ r e q. rw q.0 (
          Ends-bind _ _ (attach_ssh-loads r q.1) λ t e p. rw p.0 (
            Ends-bind _ _
              (Ends-attempt
                {Q = λ r e. (e ≡ d) × Looked (OwnK8s d item.id) (item.executor_type == "k8s") r} _
                (Ends-query_row _ (λ a f. (refl, inl (a, refl, own_k8s a f)))
                  (λ p. (refl, inr (refl, no_k8s p))) (λ f. absurd f)))
              λ r e s. rw s.0 (
                Ends-weaken (attach_k8s-loads t r p.2 s.1)
                  (λ u e v. (v.0, v.1 ∙ p.1, v.2 ∙ p.2, λ k. rw v.3 (p.3 k), v.4)) (λ _ _ x. x))))

-- Where every target has its configuration and the driver fails no statement, a target whose row is
-- stored is loaded: a target for SSH with a stored SSH configuration of that target, one for
-- Kubernetes with a stored Kubernetes configuration of that target. Nothing changes.
pub get_deployment_target-loads :
    (id : String) (row : TargetRow) (d : Db)
    → IsConfigured d
    → find_row (λ x. x.id == id) d.targets ≡ some row
    → Ends calm d
        (get_deployment_target id)
        (λ t e.
          (e ≡ d)
          × (t.id ≡ id)
          × (t.executor_type ≡ row.executor_type)
          × ((row.executor_type == "ssh") ≡ true → Loaded (OwnSsh d id) t.ssh)
          × ((row.executor_type == "k8s") ≡ true → Loaded (OwnK8s d id) t.k8s))
        (λ _ _. ⊥)
unfolding get_deployment_target scan_deployment_target
get_deployment_target-loads id row d h there =
    let (m, t) = mem-find_row _ d.targets there in
    then_query_row _ _ (λ f. f) (λ p. absurd (cc (p, there)))
      λ r p.
        let same : r ≡ row = cc (p, there) in
        rw same (
          Ends-weaken
            (attach-loads d (scan_deployment_target row) (h.with_ssh row m) (h.with_k8s row m))
            (λ u e q.
              let named : row.id ≡ id = (eq_iff row.id id).0 t in
              (
                q.0,
                q.1 ∙ named,
                q.2,
                subst (λ k. (row.executor_type == "ssh") ≡ true → Loaded (OwnSsh d k) u.ssh) named
                    q.3,
                subst (λ k. (row.executor_type == "k8s") ≡ true → Loaded (OwnK8s d k) u.k8s) named
                    q.4,
              ))
            (λ _ _ x. x))
