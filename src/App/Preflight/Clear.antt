-- ===== src/App/Preflight/Clear.antt =====
-- A preflight that does not block.
use ai_pub.Base.{
  ◌≡◌, refl, sym, ◌∙◌, Bool, true, false, not, ◌&&◌, ◌||◌, String, some, arith, ◌==◌, eq_iff,
  eq_of_==, ltb, find_row, count_rows, ℕ,
}
use ai_pub.Domain.{
  Environment, ReleaseRequest, ServiceVersion, DeploymentTarget, is_release_running,
}
use ai_pub.Database.{Db, TargetRow}
use ai_pub.Action.Ends.{faulty, Ends, Ends-bind, Ends-pure, then_query, then_query_row}
use ai_pub.Repository.Lookup.{get_environment, get_service_version, count_running_releases}
use ai_pub.App.Preflight.{
  Outside, PreflightInput, PreflightResult, ConfirmMode, mode_of, is_pass, add_block, block_if,
  is_oci_digest, check_subject, check_artifact, start_result, close_result, preflight,
}
use ai_pub.App.Preflight.Blocks.{
  OnlyReads, Follows, Follows-trans, LoadedFrom, block_if-Follows, block_if-open,
  preflight_k8s_target-Checks, get_deployment_target-LoadedFrom,
}

-- What the preflight of `input` found: the environment, the version and the target are there, belong
-- together and allow a release now.
pub record Clear (d : Db) (input : PreflightInput) (mode : ConfirmMode) : Type 0 where
  pub env : Environment
  pub version : ServiceVersion
  pub target : TargetRow
  pub env_found : find_row (λ x. x.id == input.environment_id) d.environments ≡ some env
  pub version_found : find_row (λ x. x.id == input.service_version_id) d.versions ≡ some version
  pub target_found : find_row (λ x. x.id == input.deployment_target_id) d.targets ≡ some target
  pub thawed : env.release_frozen ≡ false
  pub of_service : version.service_id ≡ input.service_id
  pub to_service : target.service_id ≡ input.service_id
  pub to_environment : target.environment_id ≡ input.environment_id
  pub immutable : target.artifact_type ≡ "oci_image" → is_oci_digest version.artifact_url ≡ true
  pub idle :
      count_rows
        (λ x.
          x.service_id == input.service_id
          && (x.environment_id == input.environment_id && is_release_running x.status))
        d.releases
      ≡ 0
  pub as_environment : mode ≡ mode_of env.is_production

not-false : {b : Bool} → not b ≡ false → b ≡ true
not-false h = ground arith

both-false : {a b : Bool} → (not a || not b) ≡ false → (a ≡ true) × (b ≡ true)
both-false h = (ground arith, ground arith)

record SubjectOpen (input : PreflightInput) (version : ServiceVersion) (target : DeploymentTarget)
    (r r' : PreflightResult) : Type 0 where
  follows : Follows r r'
  version_of : is_pass r'.result ≡ true → version.service_id ≡ input.service_id
  target_to : is_pass r'.result ≡ true → target.service_id ≡ input.service_id
  target_in : is_pass r'.result ≡ true → target.environment_id ≡ input.environment_id

check_subject-SubjectOpen :
    (out : Outside) (input : PreflightInput) (v : ServiceVersion) (t : DeploymentTarget)
    (r : PreflightResult)
    → SubjectOpen input v t r (check_subject out input v t r)
unfolding check_subject
check_subject-SubjectOpen out input v t r =
    let f1 = block_if-Follows (not (v.service_id == input.service_id)) _ _ r in
    let f2 =
      block_if-Follows
        (not (t.service_id == input.service_id) || not (t.environment_id == input.environment_id)) _
        _ _ in
    let f3 = block_if-Follows _ _ _ _ in
    record {
      follows = Follows-trans f1 (Follows-trans f2 f3);
      version_of = λ p. eq_of_== _ _ (not-false (block_if-open _ _ _ r (f2.passes (f3.passes p))));
      target_to = λ p. eq_of_== _ _ (both-false (block_if-open _ _ _ _ (f3.passes p))).0;
      target_in = λ p. eq_of_== _ _ (both-false (block_if-open _ _ _ _ (f3.passes p))).1;
    }

record ArtifactOpen (target : DeploymentTarget) (version : ServiceVersion) (r r' : PreflightResult)
    : Type 0 where
  follows : Follows r r'
  immutable :
      is_pass r'.result ≡ true
      → target.artifact_type ≡ "oci_image"
      → is_oci_digest version.artifact_url ≡ true

check_artifact-ArtifactOpen :
    (t : DeploymentTarget) (v : ServiceVersion) (r : PreflightResult)
    → ArtifactOpen t v r (check_artifact t v r)
unfolding check_artifact block_if add_block is_pass
check_artifact-ArtifactOpen t v r = record {
  follows = record { passes = λ p. ground arith; same_mode = ground arith };
  immutable = λ p e. ground (arith, eq_iff t.artifact_type "oci_image");
}

close_result-Follows : (r : PreflightResult) → Follows r (close_result r)
unfolding close_result is_pass
close_result-Follows r = record { passes = λ p. ground arith; same_mode = ground arith }

nothing_runs : {n : ℕ} → ltb 0 n ≡ false → n ≡ 0
nothing_runs h = ground arith

abbrev runs_beside : PreflightInput → ReleaseRequest → Bool
runs_beside input x =
    x.service_id == input.service_id
    && (x.environment_id == input.environment_id && is_release_running x.status)

-- The checks after one another, from the environment's start to the closing item.
assembled :
    (out : Outside) (input : PreflightInput) (d : Db) (env : Environment) (v : ServiceVersion)
    (t : DeploymentTarget) (k8s : PreflightResult) (c1 m1 c2 m2 : String)
    → find_row (λ x. x.id == input.environment_id) d.environments ≡ some env
    → find_row (λ x. x.id == input.service_version_id) d.versions ≡ some v
    → LoadedFrom d input.deployment_target_id t
    → Follows (check_subject out input v t (start_result env)) k8s
    → is_pass
        (close_result (
          block_if
            (ltb 0 (count_rows (runs_beside input) d.releases))
            c2
            m2
            (block_if env.release_frozen c1 m1 (check_artifact t v k8s)))).result
      ≡ true
    → Clear d input
        (close_result (
          block_if
            (ltb 0 (count_rows (runs_beside input) d.releases))
            c2
            m2
            (block_if env.release_frozen c1 m1 (check_artifact t v k8s)))).confirm_mode
unfolding start_result
assembled out input d env v t k8s c1 m1 c2 m2 env_found version_found loaded checked p =
    let subject = check_subject-SubjectOpen out input v t (start_result env) in
    let artifact = check_artifact-ArtifactOpen t v k8s in
    let frozen = block_if-Follows env.release_frozen c1 m1 (check_artifact t v k8s) in
    let busy =
      block_if-Follows (ltb 0 (count_rows (runs_beside input) d.releases)) c2 m2
        (block_if env.release_frozen c1 m1 (check_artifact t v k8s)) in
    let closed = close_result-Follows (
      block_if (ltb 0 (count_rows (runs_beside input) d.releases)) c2 m2
        (block_if env.release_frozen c1 m1 (check_artifact t v k8s))) in
    let p1 = closed.passes p in
    let p2 = busy.passes p1 in
    let p3 = frozen.passes p2 in
    let p4 = checked.passes (artifact.follows.passes p3) in
    record {
      env = env;
      version = v;
      target = loaded.row;
      env_found = env_found;
      version_found = version_found;
      target_found = loaded.is_found;
      thawed = block_if-open env.release_frozen c1 m1 (check_artifact t v k8s) p2;
      of_service = subject.version_of p4;
      to_service = sym loaded.same_service ∙ subject.target_to p4;
      to_environment = sym loaded.same_environment ∙ subject.target_in p4;
      immutable = λ e. artifact.immutable p3 (loaded.same_artifact ∙ e);
      idle =
          nothing_runs
            (block_if-open _ c2 m2 (block_if env.release_frozen c1 m1 (check_artifact t v k8s)) p1);
      as_environment =
          (Follows-trans subject.follows (
            Follows-trans checked (
              Follows-trans artifact.follows
                (Follows-trans frozen (Follows-trans busy closed))))).same_mode;
    }

-- The preflight changes no table; where its verdict is not to block, the environment, the version
-- and the target exist and belong together, the environment is not frozen, an OCI target has an
-- immutable digest, nothing of the service runs in the environment, and the mode of confirmation is
-- the environment's. The checker of a Kubernetes deployment only reads.
pub preflight-Clear :
    (out : Outside)
    → OnlyReads out
    → (input : PreflightInput) (d : Db)
    → Ends faulty d
        (preflight out input)
        (λ r e. (e ≡ d) × (is_pass r.result ≡ true → Clear d input r.confirm_mode))
        (λ _ e. e ≡ d)
unfolding preflight get_environment get_service_version count_running_releases
preflight-Clear out reads input d =
    then_query_row _ _ (λ _. refl) (λ _. refl)
      λ env env_found.
        then_query_row _ _ (λ _. refl) (λ _. refl)
          λ version version_found.
            Ends-bind _ _ (get_deployment_target-LoadedFrom input.deployment_target_id d)
              λ target e loaded. rw loaded.0 (
                Ends-bind _ _ (preflight_k8s_target-Checks out reads d target _) λ k8s e' checked.
                  rw checked.0 (
                    then_query _ _ (λ _. refl)
                      (Ends-pure _ (
                        refl,
                        λ p.
                            assembled out input d env version target k8s _ _ _ _ env_found
                              version_found loaded.1 checked.1 p,
                      ))))
