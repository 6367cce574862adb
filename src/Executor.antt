-- ===== src/Executor.antt =====
-- internal/executor/executor.go: the command that a target's script is run with, and the mock
-- executor.
pub mod Shell
pub mod Variables
use Prim.Native.String.{◌++◌ as append}
use ai_pub.Base.{
  ℕ, Bool, true, false, not, ◌&&◌, String, Option, none, some, List, [], ◌∷◌, ◌==◌, text_lt, concat,
  sort_rows, if◌then◌else◌,
}
use ai_pub.Strings.{join, has_prefix, contains, replace_all}
use ai_pub.Domain.{ℤ, TargetStatus, pos, DeploymentTarget, SshDeploymentTarget}
use ai_pub.Repository.Finish.{ServerResult}
use ai_pub.Worker.{Request}

-- shellQuote
unfoldable pub shell_quote : String → String
shell_quote value = concat ("'" ∷ replace_all value "'" "'\\''" ∷ "'" ∷ [])

shell_quotes : List String → List String
unfolding shell_quote
shell_quotes [] = []
shell_quotes (s ∷ rest) = shell_quote s ∷ shell_quotes rest

-- shellQuoteJoin
unfoldable pub shell_quote_join : List String → String
unfolding shell_quotes
shell_quote_join values = join " " (shell_quotes values)

-- sanitize
unfoldable pub sanitize : String → String → String
sanitize value secret = if secret == "" then value else replace_all value secret "[redacted]"

-- sanitizeAll
unfoldable pub sanitize_all : String → List String → String
unfolding sanitize
sanitize_all value [] = value
sanitize_all value (secret ∷ rest) = sanitize_all (sanitize value secret) rest

given_ssh : DeploymentTarget → Option SshDeploymentTarget → SshDeploymentTarget
given_ssh target (some ssh) = ssh
given_ssh target none = record {
  deployment_target_id = "";
  target_type = target.target_type;
  target_ref_id = target.target_ref_id;
  script_path = target.script_path;
  working_dir = target.working_dir;
  env_vars = target.env_vars;
}

-- sshTarget
unfoldable pub ssh_target : DeploymentTarget → SshDeploymentTarget
unfolding given_ssh
ssh_target target = given_ssh target target.ssh

-- A `map[string]string`: its entries, each key once.
pub record Variable : Type 0 where
  pub name : String
  pub value : String

unfoldable pub put : String → String → List Variable → List Variable
put name value [] = record { name = name; value = value } ∷ []
put name value (x ∷ rest) =
    let after = put name value rest in
    if x.name == name then record { name = name; value = value } ∷ rest else x ∷ after

unfoldable pub lookup : String → List Variable → Option String
lookup name [] = none
lookup name (x ∷ rest) =
    let after = lookup name rest in if x.name == name then some x.value else after

-- `env[name]`
unfoldable pub value_of : String → List Variable → String
unfolding lookup
value_of name env = elim (lookup name env) [ none ↦ "" | some value ↦ value ]

-- What a JSON value is to targetEnv: a text, a number or a truth value as fmt.Sprint prints it, or
-- another, which is passed over.
pub data JsonValue : Type 0 where
  text printed : String → JsonValue
  ignored : JsonValue

pub record JsonField : Type 0 where
  pub name : String
  pub value : JsonValue

put_value : String → JsonValue → List Variable → List Variable
unfolding put
put_value name (text s) env = put name s env
put_value name (printed s) env = put name s env
put_value name ignored env = env

fields_env : List JsonField → List Variable
unfolding put_value
fields_env [] = []
fields_env (f ∷ rest) = put_value f.name f.value (fields_env rest)

-- `decode` is json.Unmarshal into a map; `none` is its error.
module _ (decode : String → Option (List JsonField)) where
  -- targetEnv
  unfoldable pub target_env : String → List Variable
  unfolding fields_env
  target_env raw =
      if raw == "" then [] else elim (decode raw) [ none ↦ [] | some fields ↦ fields_env fields ]

  -- executionEnv
  unfoldable pub execution_env : Request → List Variable
  unfolding target_env ssh_target put
  execution_env req =
      let target = target_env (ssh_target req.target).env_vars in
      let with_release = put "AI_PUB_RELEASE_ID" req.release.id target in
      let with_deploy = put "AI_PUB_DEPLOY_ID" req.claimed.id with_release in
      let with_server = put "AI_PUB_SERVER_ID" req.server.id with_deploy in
      let with_service = put "AI_PUB_SERVICE_ID" req.release.service_id with_server in
      let with_environment = put "AI_PUB_ENVIRONMENT_ID" req.release.environment_id with_service in
      let with_id =
        put "AI_PUB_SERVICE_VERSION_ID" req.release.service_version_id with_environment in
      let with_version = put "AI_PUB_VERSION" req.version.version with_id in
      let with_commit = put "AI_PUB_COMMIT_SHA" req.version.commit_sha with_version in
      put "AI_PUB_ARTIFACT_URL" req.version.artifact_url with_commit

  assignments : List Variable → List String
  unfolding shell_quote
  assignments [] = []
  assignments (x ∷ rest) = concat (x.name ∷ "=" ∷ shell_quote x.value ∷ []) ∷ assignments rest

  -- remoteEnvPrefix
  unfoldable pub remote_env_prefix : Request → String
  unfolding execution_env assignments
  remote_env_prefix req =
      append (join " " (assignments (sort_rows (λ x y. text_lt x.name y.name) (execution_env req))))
        " "

  -- The command of `SSH.Execute`.
  unfoldable pub remote_command : Request → String
  unfolding ssh_target remote_env_prefix shell_quote
  remote_command req =
      let ssh = ssh_target req.target in
      let command = append (remote_env_prefix req) ssh.script_path in
      if ssh.working_dir == ""
      then command
      else concat ("cd " ∷ shell_quote ssh.working_dir ∷ " && " ∷ command ∷ [])

  -- mockShouldFail
  unfoldable pub mock_should_fail : Request → Bool
  unfolding execution_env value_of ssh_target
  mock_should_fail req =
      let server = value_of "MOCK_FAIL_SERVER_ID" (execution_env req) in
      if server == ""
      then contains (ssh_target req.target).env_vars "MOCK_FAIL"
      else server == req.server.id

  -- Mock.Execute, with whether the context was done and how long it took
  unfoldable pub mock_execute : Bool → ℕ → Request → ServerResult
  unfolding mock_should_fail
  mock_execute cancelled duration_ms req =
      if cancelled
      then record {
        status = TargetStatus.failed;
        exit_code = some (pos 1);
        duration_ms = duration_ms;
        log_output = "mock execution cancelled";
        error_code = "internal_error";
        error_message = "mock execution cancelled";
      }
      else if mock_should_fail req
      then record {
        status = TargetStatus.failed;
        exit_code = some (pos 1);
        duration_ms = duration_ms;
        log_output = append "mock deployment failed on " req.server.name;
        error_code = "exit_non_zero";
        error_message = "mock deployment failed";
      }
      else record {
        status = TargetStatus.success;
        exit_code = some (pos 0);
        duration_ms = duration_ms;
        log_output = concat (
            "mock deployment succeeded on "
            ∷ req.server.name
            ∷ " version "
            ∷ (if req.version.version == ""
                then req.release.service_version_id
                else req.version.version)
            ∷ []);
        error_code = "";
        error_message = "";
      }

-- gatewayProxyEnv
unfoldable pub gateway_proxy_env : List String → List String
gateway_proxy_env [] = []
gateway_proxy_env (s ∷ rest) =
    let after = gateway_proxy_env rest in
    if has_prefix s "AI_PUB_SSH_GATEWAY_ASKPASS_PASSWORD=" then after else s ∷ after

-- gatewayProcessEnv
unfoldable pub gateway_process_env : List String → List String
gateway_process_env [] = []
gateway_process_env (s ∷ rest) =
    let after = gateway_process_env rest in
    if has_prefix s "AI_PUB_SSH_GATEWAY_ASKPASS_PASSWORD=" then s ∷ after else after
