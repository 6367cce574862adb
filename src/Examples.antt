-- ===== src/Examples.antt =====
-- A small installation, on which the theorems are applied and the operations run.
pub mod Runs
pub mod Inventory
pub mod Sessions
pub mod Scripts
use ai_pub.Base.{
  ◌≡◌, refl, sym, ap, ◌∙◌, subst, ℕ, Bool, true, false, String, Option, none, some, List, [], ◌∷◌,
  find_row, Memᴰ,
}
use ai_pub.Domain.{
  ℤ, ReleaseStatus, DeployStatus, TargetStatus, Project, Service, ServiceVersion, Environment,
  Server, SshDeploymentTarget, User, ReleaseRequest, DeployTargetLog, other, is_pending_confirm,
  K8sDeploymentTarget, DeploymentTarget,
}
use ai_pub.Database.{Db, DeployRow, TargetRow}
use ai_pub.Action.{M, Env, Err, pure, driver, idempotency_conflict, lease_lost}
use ai_pub.Action.Ends.{faulty, calm, Ends, Ends-pure, Keeps}
use ai_pub.Repository.Release.{create_release_request}
use ai_pub.Repository.Lookup.{get_deployment_target}
use ai_pub.Repository.Confirm.{confirm_and_queue_release}
use ai_pub.Repository.Claim.{ClaimedDeploy, claim_next_deploy}
use ai_pub.Repository.Finish.{ServerResult}
use ai_pub.Worker
use ai_pub.Worker.{Request}
use ai_pub.Worker.Closes.{Reports, WorksAside}
use ai_pub.System.{after, Step, IsFresh, Reached}
use ai_pub.App.Preflight.{Outside, PreflightInput}
use ai_pub.App.Preflight.Blocks.{OnlyReads}
use ai_pub.App.Release.{Actor, ReleaseService, CreateReleaseInput}
use ai_pub.App.Release.Decide.{ActionInput}

abbrev pub web : Project
web = record {
  id = "p1";
  name = "web";
  slug = "web";
  description = "";
  enabled = true;
  created_at = 1;
  updated_at = 1;
}

abbrev pub shop : Service
shop = record {
  id = "svc1";
  project_id = "p1";
  name = "shop";
  slug = "shop";
  description = "";
  enabled = true;
  created_at = 1;
  updated_at = 1;
}

abbrev pub shop_v2 : ServiceVersion
shop_v2 = record {
  id = "v2";
  service_id = "svc1";
  version = "2.0.0";
  commit_sha = "";
  artifact_url = "";
  source = "ci";
  metadata = "{}";
  created_by_type = "user";
  created_by_id = "u1";
  registration_idempotency_key = "";
  registration_request_hash = "";
  created_at = 1;
}

abbrev pub staging : Environment
staging = record {
  id = "env1";
  name = "staging";
  slug = "staging";
  is_production = false;
  release_frozen = false;
  created_at = 1;
  updated_at = 1;
}

abbrev pub host : Server
host = record {
  id = "srv1";
  name = "host";
  host = "10.0.0.1";
  port = ℤ.pos 22;
  username = "deploy";
  auth_type = "private_key";
  credential_ref = "";
  role = "application";
  gateway_id = "";
  enabled = true;
  last_check_status = "";
  last_check_at = none;
  created_at = 1;
  updated_at = 1;
}

abbrev pub shop_target : TargetRow
shop_target = record {
  id = "t1";
  service_id = "svc1";
  environment_id = "env1";
  executor_type = "ssh";
  artifact_type = "version_only";
  timeout_seconds = ℤ.pos 600;
  enabled = true;
  created_at = 1;
  updated_at = 1;
}

abbrev pub shop_ssh : SshDeploymentTarget
shop_ssh = record {
  deployment_target_id = "t1";
  target_type = "server";
  target_ref_id = "srv1";
  script_path = "/deploy.sh";
  working_dir = "/";
  env_vars = "";
}

abbrev pub alice : User
alice = record {
  id = "u1";
  username = "alice";
  display_name = "Alice";
  role = "employee";
  enabled = true;
  password_hash = "";
  session_version = 1;
  created_at = 1;
  updated_at = 1;
}

abbrev pub inventory : Db
inventory = record {
  projects = web ∷ [];
  services = shop ∷ [];
  versions = shop_v2 ∷ [];
  environments = staging ∷ [];
  servers = host ∷ [];
  groups = [];
  group_members = [];
  targets = shop_target ∷ [];
  ssh_targets = shop_ssh ∷ [];
  k8s_targets = [];
  clusters = [];
  users = alice ∷ [];
  api_keys = [];
  credentials = [];
  releases = [];
  deploys = [];
  logs = [];
  states = [];
  events = [];
  version_events = [];
}

abbrev pub asked : ReleaseRequest
asked = record {
  id = "rel1";
  project_id = "p1";
  service_id = "svc1";
  environment_id = "env1";
  service_version_id = "v2";
  deployment_target_id = "t1";
  status = ReleaseStatus.pending_confirm;
  source = "web";
  idempotency_key = "key-1";
  created_by_type = "user";
  created_by_id = "u1";
  authorized_by_user_id = "";
  confirmed_by_user_id = "";
  confirmed_at = none;
  rejected_by_user_id = "";
  rejected_reason = "";
  rollback_of_id = "";
  summary_status = none;
  summary_message = "";
  metadata = "{}";
  created_at = 5;
  updated_at = 5;
}

-- The clock stands at 5 and ticks; nothing fails.
abbrev pub world : Env
world = record {
  clock = 5;
  elapsed = 1 ∷ [];
  faults = [];
  entropy = "a1" ∷ "a2" ∷ "a3" ∷ "a4" ∷ [];
}

abbrev pub loaded_target : DeploymentTarget
loaded_target = record {
  id = "t1";
  service_id = "svc1";
  environment_id = "env1";
  executor_type = "ssh";
  artifact_type = "version_only";
  timeout_seconds = ℤ.pos 600;
  enabled = true;
  ssh = some shop_ssh;
  k8s = none;
  target_type = "";
  target_ref_id = "";
  script_path = "";
  working_dir = "";
  env_vars = "";
  created_at = 1;
  updated_at = 1;
}

-- A release is created, then confirmed, then claimed.
abbrev pub created : Db
created = after (create_release_request asked) world inventory

abbrev pub confirmed : Db
confirmed = after (confirm_and_queue_release "rel1" "u1" loaded_target) world created

abbrev pub claimed_state : Db
claimed_state = after (claim_next_deploy "w1") world confirmed

pub confirmed-Reached : Reached confirmed
confirmed-Reached =
    Reached.then_step created _
      (Reached.then_step inventory _
        (Reached.fresh inventory (record { no_releases = refl; no_deploys = refl; no_logs = refl }))
        (Step.creates world asked inventory))
      (Step.confirms world "rel1" "u1" loaded_target created)

pub claimed_state-Reached : Reached claimed_state
claimed_state-Reached =
    Reached.then_step confirmed _ confirmed-Reached (Step.claims world "w1" confirmed)

-- The tables with a release in a given status, and a record for it.
abbrev pub release_in : ReleaseStatus → ReleaseRequest
release_in s = record asked { status = s }

abbrev pub queued_record : String → ℕ → DeployRow
queued_record id t = record {
  id = id;
  release_request_id = "rel1";
  status = DeployStatus.queued;
  executor_type = "ssh";
  target_snapshot = other;
  total_targets = 1;
  success_targets = 0;
  failed_targets = 0;
  skipped_targets = 0;
  worker_id = "";
  created_at = t;
  updated_at = t;
  lease_expires_at = none;
  heartbeat_at = none;
  started_at = none;
  finished_at = none;
  error_summary = "";
}

abbrev pub target_log : String → String → TargetStatus → DeployTargetLog
target_log id record_id s = record {
  id = id;
  deploy_record_id = record_id;
  target_type = "server";
  target_ref_id = "srv1";
  target_name = "host";
  status = s;
  exit_code = none;
  started_at = none;
  finished_at = none;
  duration_ms = 0;
  log_output = "";
  error_code = "";
  error_message = "";
}

abbrev pub waiting : Db
waiting = record inventory { releases = release_in ReleaseStatus.pending_confirm ∷ [] }

abbrev pub in_queue : Db
in_queue = record inventory {
  releases = release_in ReleaseStatus.queued ∷ [];
  deploys = queued_record "d2" 9 ∷ queued_record "d1" 7 ∷ [];
  logs = target_log "l1" "d1" TargetStatus.queued ∷ target_log "l2" "d2" TargetStatus.queued ∷ [];
}

abbrev pub in_progress : Db
in_progress = record inventory {
  releases = release_in ReleaseStatus.running ∷ [];
  deploys =
      record (queued_record "d1" 7) {
        status = DeployStatus.running;
        worker_id = "w1";
        lease_expires_at = some 8;
      }
      ∷ [];
  logs = target_log "l1" "d1" TargetStatus.success ∷ [];
}

-- A checker that finds nothing wrong.
abbrev pub checks_nothing : K8sDeploymentTarget → M (String × String)
checks_nothing t = pure ("", "")

abbrev pub outside : Outside
outside = record { json_keys = λ raw. none; k8s_preflight = some checks_nothing }

abbrev Reads : Option (K8sDeploymentTarget → M (String × String)) → Type 0
Reads none = Unit
Reads (some check) = (t : K8sDeploymentTarget) (d : Db) → Keeps (λ e. e ≡ d) (check t)

pub outside-OnlyReads : OnlyReads outside
outside-OnlyReads check p = subst Reads p (λ t d e q. Ends-pure _ q)

abbrev pub releases_service : ReleaseService
releases_service = record { outside = outside; notifier = none; quote = λ s. s }

abbrev pub by_alice : ActionInput
by_alice = record {
  user_id = "u1";
  reason = "no";
  api_key_id = "";
  actor = record { type = ""; id = ""; api_key_id = "" };
}

abbrev pub subject : PreflightInput
subject = record {
  service_id = "svc1";
  environment_id = "env1";
  service_version_id = "v2";
  deployment_target_id = "t1";
}

abbrev pub asking : CreateReleaseInput
asking = record {
  subject = subject;
  source = "";
  idempotency_key = "key-1";
  created_by_type = "";
  created_by_id = "u1";
  authorized_by_user_id = "";
  api_key_id = "";
  metadata = "";
}

-- A worker whose executor succeeds, and a deploy that it has claimed.
abbrev pub succeeds : Request → M ServerResult
succeeds q = pure (record {
  status = TargetStatus.success;
  exit_code = some (ℤ.pos 0);
  duration_ms = 3;
  log_output = "done";
  error_code = "";
  error_message = "";
})

abbrev pub shop_worker : Worker.Service
shop_worker = record {
  executors = λ kind. some succeeds;
  check_heartbeat = pure tt;
  notifications = none;
  worker_id = "w1";
}

abbrev Final : Option (Request → M ServerResult) → Type 0
Final none = Unit
Final (some run) = (q : Request) (d : Db) → Reports d.logs (run q) d

pub shop_worker-WorksAside : WorksAside shop_worker
shop_worker-WorksAside = record {
  executor_reports = λ kind run p. subst Final p (λ q d. Ends-pure _ (refl, refl));
  heartbeat_aside = λ d. Ends-pure tt refl;
}

abbrev pub in_work : Db
in_work = record in_progress { logs = target_log "l1" "d1" TargetStatus.queued ∷ [] }

abbrev pub claimed_d1 : ClaimedDeploy
claimed_d1 = record {
  release = release_in ReleaseStatus.running;
  claimed = record {
    id = "d1";
    release_request_id = "rel1";
    status = DeployStatus.running;
    executor_type = "ssh";
    target_snapshot = other;
    total_targets = 1;
    success_targets = 0;
    failed_targets = 0;
    skipped_targets = 0;
    worker_id = "w1";
    created_at = 7;
    updated_at = 7;
  };
  target = loaded_target;
  version = shop_v2;
  servers = host ∷ [];
  execution_targets = record { type = "server"; ref_id = "srv1"; name = "host" } ∷ [];
}
