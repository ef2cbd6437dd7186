-- ===== src/Tenancy.antt =====
-- core/tenancy.py and core/middleware.py: the tenant that a block of code runs as.
pub mod Isolation
mod Examples
use text.Mathlib.Text.{starts_with}
use nutanix_hack.Prelude.{
  ℕ, Bool, true, false, not, ◌&&◌, ◌||◌, String, Option, none, some, List, [], ◌∷◌, ◌++◌, contains,
  str_eq, is_empty, if◌then◌else◌,
}
use nutanix_hack.Prelude.Texts.{is_text, split}
use nutanix_hack.Service.Exec.{Exec, Result, ok, err, no_tenant_context}

-- The context variable: not set, `_UNSCOPED`, or a tenant. Tenants are named by their slugs.
pub data Scope : Type 0 where
  unset unscoped_scope : Scope
  tenant : String → Scope

-- A thread: its context variable, the slugs of the tenants, and the rest of the database.
pub record Thread (S : Type 0) : Type 0 where
  pub scope : Scope
  pub tenants : List String
  pub db : S

module _ {S A : Type 0} where
  abbrev pub back_to : Scope → Result A × Thread S → Result A × Thread S
  back_to scope (answer, w) = (answer, record w { scope = scope })

  -- `set`, the block, and `reset` in the `finally`.
  unfoldable pub in_scope : Scope → Exec (Thread S) A → Exec (Thread S) A
  in_scope scope block w = back_to w.scope (block (record w { scope = scope }))

  unfoldable pub tenant_context : String → Exec (Thread S) A → Exec (Thread S) A
  tenant_context slug block = in_scope (tenant slug) block

  unfoldable pub unscoped : Exec (Thread S) A → Exec (Thread S) A
  unscoped block = in_scope unscoped_scope block

module _ {R : Type 0} where
  unfoldable pub of_tenant : (R → String) → String → List R → List R
  of_tenant owner slug [] = []
  of_tenant owner slug (row ∷ rows) =
      let rest = of_tenant owner slug rows in if str_eq (owner row) slug then row ∷ rest else rest

  abbrev pub rows_in : Scope → (R → String) → List R → Result (List R)
  rows_in unscoped_scope owner rows = ok rows
  rows_in unset owner rows = err no_tenant_context
  rows_in (tenant slug) owner rows = ok (of_tenant owner slug rows)

-- `TenantScopedManager.get_queryset`, of a table of the database.
unfoldable pub get_queryset :
    {S R : Type 0} → (S → List R) → (R → String) → Exec (Thread S) (List R)
get_queryset table owner w = (rows_in w.scope owner (table w.db), w)

abbrev header_default : String
header_default = "default"

abbrev exempt_prefixes : List String
exempt_prefixes = "/healthz" ∷ "/admin" ∷ "/static" ∷ []

-- What the middleware reads of a request.
pub record Request : Type 0 where
  pub path : String
  pub tenant_header : Option String
  pub host : String

any_prefix : String → List String → Bool
any_prefix path [] = false
any_prefix path (p ∷ ps) = starts_with path p || any_prefix path ps

unfoldable pub is_exempt : Request → Bool
unfolding any_prefix
is_exempt r = any_prefix r.path exempt_prefixes

abbrev first_part : List String → String
first_part [] = ""
first_part (p ∷ ps) = p

abbrev subdomain : List String → Option String
subdomain (a ∷ b ∷ c ∷ ps) = if contains ("www" ∷ "localhost" ∷ []) a then none else some a
subdomain _ = none

unfoldable pub from_host : Request → Option String
from_host r = subdomain (split b'.' (first_part (split b':' r.host)))

-- `a or b`
abbrev or_text : Option String → String → String
or_text none otherwise = otherwise
or_text (some s) otherwise = if is_text s then s else otherwise

unfoldable pub slug_of : Request → String
slug_of r = or_text r.tenant_header (or_text (from_host r) header_default)

-- The tenant of a request: an unknown slug falls back to the default, which is created if need be.
unfoldable pub tenant_for : Request → List String → String
tenant_for r tenants = if contains tenants (slug_of r) then slug_of r else header_default

unfoldable pub with_tenant : String → List String → List String
with_tenant slug tenants = if contains tenants slug then tenants else tenants ++ slug ∷ []

-- `default_tenant` of engine/service.py.
unfoldable pub default_tenant : {S : Type 0} → Exec (Thread S) String
default_tenant w = (ok header_default, record w { tenants = with_tenant header_default w.tenants })

-- `TenantMiddleware.__call__`
unfoldable pub call : {S A : Type 0} → Exec (Thread S) A → Request → Exec (Thread S) A
call get_response r w =
    if is_exempt r
    then get_response w
    else tenant_context (tenant_for r w.tenants) get_response
        (record w { tenants = with_tenant (tenant_for r w.tenants) w.tenants })
