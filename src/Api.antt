-- ===== src/Api.antt =====
-- engine/views.py and graph/views.py: the requests of the API. What a field of a serializer makes of
-- the body of a request is a matter of Django REST framework: a handler takes the validated data, or
-- `none` where they were refused. Handlers take the tenant that the middleware found.
pub mod Workflows
pub mod Runs
pub mod Entities
pub mod Triggers
pub mod Newest
pub mod Refused
pub mod Hidden
mod Examples
use nutanix_hack.Prelude.{ℕ, String}
use nutanix_hack.Service.Exec.{ApprovalError}

-- A reply, by its status. An exception that gets out of a handler is a `server_error`.
pub data Response (A : Type 0) : Type 0 where
  okay created : A → Response A
  no_content bad_request not_found server_error : Response A
  conflict : ApprovalError → Response A

unfoldable pub status_code : {A : Type 0} → Response A → ℕ
status_code (okay a) = 200
status_code (created a) = 201
status_code no_content = 204
status_code bad_request = 400
status_code not_found = 404
status_code (conflict e) = 409
status_code server_error = 500
