-- ===== src/Errors/Tables.antt =====
-- The tables of app/core/exceptions.py and app/core/error_sanitize.py. A class is its name.
use node_nexus_api.Prelude.{ℕ, String, [], ◌∷◌}
use node_nexus_api.Dict.{Dict}

-- The base class of each class of app/core/exceptions.py.
unfoldable pub bases : Dict String
bases =
    ("DomainError", "Exception")
    ∷ ("NodeNotFoundError", "DomainError")
    ∷ ("NodeNameConflictError", "DomainError")
    ∷ ("ConnectionFailedError", "DomainError")
    ∷ ("CredentialDecryptionError", "DomainError")
    ∷ ("CommandNotFoundError", "DomainError")
    ∷ ("ScriptNotFoundError", "DomainError")
    ∷ ("TemplateRenderError", "DomainError")
    ∷ ("AuthenticationError", "DomainError")
    ∷ ("APIKeyNotFoundError", "DomainError")
    ∷ ("APIKeyRevokedError", "DomainError")
    ∷ ("APIKeyExpiredError", "DomainError")
    ∷ ("TagNotFoundError", "DomainError")
    ∷ ("DockerError", "DomainError")
    ∷ ("ContainerNotFoundError", "DockerError")
    ∷ ("NetworkNotFoundError", "DockerError")
    ∷ ("VolumeNotFoundError", "DockerError")
    ∷ ("ImageNotFoundError", "DockerError")
    ∷ ("DockerDaemonError", "DockerError")
    ∷ ("DockerValidationError", "DockerError")
    ∷ ("RequestTimeoutError", "DomainError")
    ∷ ("UnsupportedConfigFormatError", "DomainError")
    ∷ ("ScheduleValidationError", "DomainError")
    ∷ ("ScheduleNotFoundError", "DomainError")
    ∷ ("SchedulerOwnershipError", "DomainError")
    ∷ ("SchedulePersistenceError", "DomainError")
    ∷ ("ScheduledScriptExecutionError", "DomainError")
    ∷ ("ExecutionNotFoundError", "DomainError")
    ∷ ("AuditWriteError", "DomainError")
    ∷ ("AuditStatsUnavailableError", "DomainError")
    ∷ ("AuditReadError", "DomainError")
    ∷ ("CommitFailedError", "DomainError")
    ∷ ("FavoriteNotFoundError", "DomainError")
    ∷ ("InvalidCredentialsError", "DomainError")
    ∷ ("UserNotFoundError", "DomainError")
    ∷ ("UserAlreadyExistsError", "DomainError")
    ∷ ("TokenExpiredError", "DomainError")
    ∷ ("InvalidTokenError", "DomainError")
    ∷ ("InsufficientPermissionsError", "DomainError")
    ∷ ("HostKeyFetchError", "DomainError")
    ∷ ("ComposeProjectNotFoundError", "DomainError")
    ∷ ("ComposeProjectAlreadyExistsError", "DomainError")
    ∷ ("PackNotFoundError", "DomainError")
    ∷ ("PackConflictError", "DomainError")
    ∷ ("RegistryNotFoundError", "DomainError")
    ∷ ("RegistryConflictError", "DomainError")
    ∷ []

-- `DOMAIN_ERROR_STATUS`
unfoldable pub domain_error_status : Dict ℕ
domain_error_status =
    ("NodeNotFoundError", 404)
    ∷ ("NodeNameConflictError", 409)
    ∷ ("CommandNotFoundError", 404)
    ∷ ("ScriptNotFoundError", 404)
    ∷ ("APIKeyNotFoundError", 404)
    ∷ ("APIKeyRevokedError", 401)
    ∷ ("APIKeyExpiredError", 401)
    ∷ ("AuthenticationError", 401)
    ∷ ("TagNotFoundError", 404)
    ∷ ("ConnectionFailedError", 503)
    ∷ ("HostKeyFetchError", 503)
    ∷ ("CredentialDecryptionError", 503)
    ∷ ("TemplateRenderError", 422)
    ∷ ("ContainerNotFoundError", 404)
    ∷ ("NetworkNotFoundError", 404)
    ∷ ("VolumeNotFoundError", 404)
    ∷ ("ImageNotFoundError", 404)
    ∷ ("DockerDaemonError", 503)
    ∷ ("DockerValidationError", 422)
    ∷ ("DockerError", 502)
    ∷ ("RequestTimeoutError", 504)
    ∷ ("UnsupportedConfigFormatError", 422)
    ∷ ("ScheduleValidationError", 422)
    ∷ ("ScheduleNotFoundError", 404)
    ∷ ("SchedulerOwnershipError", 503)
    ∷ ("SchedulePersistenceError", 503)
    ∷ ("AuditWriteError", 503)
    ∷ ("AuditStatsUnavailableError", 501)
    ∷ ("AuditReadError", 500)
    ∷ ("CommitFailedError", 503)
    ∷ ("ExecutionNotFoundError", 404)
    ∷ ("ScheduledScriptExecutionError", 422)
    ∷ ("FavoriteNotFoundError", 404)
    ∷ ("InvalidCredentialsError", 401)
    ∷ ("UserNotFoundError", 404)
    ∷ ("UserAlreadyExistsError", 409)
    ∷ ("TokenExpiredError", 401)
    ∷ ("InvalidTokenError", 401)
    ∷ ("InsufficientPermissionsError", 403)
    ∷ ("ComposeProjectNotFoundError", 404)
    ∷ ("ComposeProjectAlreadyExistsError", 409)
    ∷ ("PackNotFoundError", 404)
    ∷ ("PackConflictError", 409)
    ∷ ("RegistryNotFoundError", 404)
    ∷ ("RegistryConflictError", 409)
    ∷ ("DomainError", 422)
    ∷ []

-- `PUBLIC_ERROR_MESSAGES`
unfoldable pub public_error_messages : Dict String
public_error_messages =
    ("ConnectionFailedError", "Remote connection failed")
    ∷ ("HostKeyFetchError", "SSH host key verification failed")
    ∷ ("CredentialDecryptionError", "Credential processing failed")
    ∷ ("ContainerNotFoundError", "Docker container not found")
    ∷ ("NetworkNotFoundError", "Docker network not found")
    ∷ ("VolumeNotFoundError", "Docker volume not found")
    ∷ ("ImageNotFoundError", "Docker image not found")
    ∷ ("DockerDaemonError", "Docker daemon unavailable")
    ∷ ("DockerError", "Docker operation failed")
    ∷ []
