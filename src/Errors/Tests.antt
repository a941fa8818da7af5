-- ===== src/Errors/Tests.antt =====
-- Responses to some errors.
use node_nexus_api.Prelude.{none, ◌≡◌, refl, arith}
use node_nexus_api.Dict.{get}
use node_nexus_api.Errors.Tables.{bases, domain_error_status, public_error_messages}
use node_nexus_api.Errors.{
  mro, status_walk, status_for_domain_error, domain, unexpected, sanitize_bulk_error,
  domain_error_handler,
}
use node_nexus_api.Errors.Responses.{server_error_hides}

runs : Unit {0}
unfolding mro status_walk status_for_domain_error sanitize_bulk_error domain_error_handler get bases
    domain_error_status public_error_messages
runs = tt

-- A subclass with its own entry is not answered with the status of its base.
validation-status : status_for_domain_error "DockerValidationError" ≡ 422
unfolding runs
validation-status = refl

daemon-status : (domain_error_handler none "/" "DockerDaemonError" "secret").status ≡ 503
unfolding runs
daemon-status = refl

not_found-message : sanitize_bulk_error (domain "NodeNotFoundError" "no node 1") ≡ "no node 1"
unfolding runs
not_found-message = refl

server_error_hides_example :
    (domain_error_handler none "/" "DockerDaemonError" "other"
      ≡ domain_error_handler none "/" "DockerDaemonError" "secret")
    × (sanitize_bulk_error (domain "DockerDaemonError" "other")
        ≡ sanitize_bulk_error (domain "DockerDaemonError" "secret"))
    × (sanitize_bulk_error (unexpected "DockerDaemonError" "other")
        ≡ sanitize_bulk_error (unexpected "DockerDaemonError" "secret"))
server_error_hides_example =
    server_error_hides none "/" "DockerDaemonError" "secret" "other" (unfold runs in omega arith)
