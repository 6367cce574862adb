-- ===== src/App/Versions.antt =====
-- internal/app/version_registration.go: RegisterVersion, by which a CI system announces a version.
pub mod Registered
pub mod Repeats
use ai_pub.Base.{Bool, true, false, not, String, List, [], ◌∷◌, ◌==◌, if◌then◌else◌}
use ai_pub.Domain.{Service, ServiceVersion, ServiceVersionEvent}
use ai_pub.Action.{
  M, Result, ok, err, is_not_found, service_not_found, service_disabled, version_conflict,
  idempotency_conflict, pure, raise, fail_if, attempt, ignore, ◌>>=◌, ◌>>◌,
}
use ai_pub.Repository.Versions.{
  get_service_by_slugs, find_version_by_idempotency, find_version_by_name,
  registration_request_hash, create_service_version, create_service_version_event,
}

pub record VersionRegistrationInput : Type 0 where
  pub project_key : String
  pub service_key : String
  pub version : String
  pub commit_sha : String
  pub artifact_url : String
  pub metadata : String
  pub idempotency_key : String
  pub api_key_id : String

pub record VersionRegistrationResult : Type 0 where
  pub version : ServiceVersion
  pub created : Bool

registered_event : ServiceVersion → VersionRegistrationInput → Bool → ServiceVersionEvent
registered_event version input created = record {
  id = "";
  service_version_id = version.id;
  event_type = "version_registered";
  actor_type = "api_key";
  actor_id = input.api_key_id;
  api_key_id = input.api_key_id;
  registration_idempotency_key = input.idempotency_key;
  message = if created then "外部 CI 登记版本" else "外部 CI 版本登记命中幂等/同版本，返回已有版本";
  metadata = version.metadata;
  created_at = 0;
}

-- recordVersionRegisteredEvent
unfoldable pub record_version_registered_event :
    ServiceVersion → VersionRegistrationInput → Bool → M (Unit {0})
unfolding registered_event
record_version_registered_event version input created =
    ignore (create_service_version_event (registered_event version input created))

unfoldable pub found_service : Result Service → M Service
found_service (ok service) = pure service
found_service (err e) = if is_not_found e then raise service_not_found else raise e

-- `digest` is SHA-256, in hex.
module _ (digest : String → String) where
  unfoldable pub request_hash : VersionRegistrationInput → String
  request_hash input =
      registration_request_hash digest input.version input.commit_sha input.artifact_url

  -- The answer with a version that is there.
  unfoldable pub answer_registered :
      VersionRegistrationInput → ServiceVersion → M VersionRegistrationResult
  answer_registered input existing = do
    record_version_registered_event existing input false
    pure (record { version = existing; created = false })

  -- The version that a first registration creates.
  unfoldable pub new_version : VersionRegistrationInput → Service → ServiceVersion
  unfolding request_hash
  new_version input service = record {
    id = "";
    service_id = service.id;
    version = input.version;
    commit_sha = input.commit_sha;
    artifact_url = input.artifact_url;
    source = "ci";
    metadata = input.metadata;
    created_by_type = "api_key";
    created_by_id = input.api_key_id;
    registration_idempotency_key = input.idempotency_key;
    registration_request_hash = request_hash input;
    created_at = 0;
  }

  unfoldable pub register_new : VersionRegistrationInput → Service → M VersionRegistrationResult
  unfolding new_version
  register_new input service = do
    created ← create_service_version (new_version input service)
    record_version_registered_event created input true
    pure (record { version = created; created = true })

  -- After the look-up by the version.
  unfoldable pub register_named :
      VersionRegistrationInput → Service → Result ServiceVersion → M VersionRegistrationResult
  unfolding request_hash answer_registered register_new
  register_named input service (ok existing) =
      if existing.registration_request_hash == request_hash input
      then answer_registered input existing
      else raise version_conflict
  register_named input service (err e) =
      if is_not_found e then register_new input service else raise e

  unfoldable pub register_by_name : VersionRegistrationInput → Service → M VersionRegistrationResult
  unfolding register_named
  register_by_name input service =
      attempt (find_version_by_name service.id input.version) >>= register_named input service

  -- After the look-up by the key.
  unfoldable pub register_keyed :
      VersionRegistrationInput → Service → Result ServiceVersion → M VersionRegistrationResult
  unfolding request_hash answer_registered register_by_name
  register_keyed input service (ok existing) = do
    fail_if (not (existing.registration_request_hash == request_hash input)) idempotency_conflict
    answer_registered input existing
  register_keyed input service (err e) =
      if is_not_found e then register_by_name input service else raise e

  -- RegisterVersion
  unfoldable pub register_version : VersionRegistrationInput → M VersionRegistrationResult
  unfolding found_service register_keyed register_by_name
  register_version input = do
    read ← attempt (get_service_by_slugs input.project_key input.service_key)
    service ← found_service read
    fail_if (not service.enabled) service_disabled
    if input.idempotency_key == ""
        then register_by_name input service
        else (attempt (find_version_by_idempotency service.id input.idempotency_key)
            >>= register_keyed input service)
