-- ===== src/Tenancy/Examples.antt =====
-- Two tenants with rows of their own: tests and instances.
use nutanix_hack.Prelude.{◌≡◌, refl, String, none, List, [], ◌∷◌}
use nutanix_hack.Prelude.Texts.{split}
use nutanix_hack.Service.Exec.{ok, err, no_tenant_context}
use nutanix_hack.Tenancy.{
  Scope, unset, Thread, Request, get_queryset, tenant_context, in_scope, is_exempt, slug_of,
  from_host, tenant_for, call, of_tenant,
}
use nutanix_hack.Tenancy.Isolation.{Isolated, call-Isolated}

abbrev rows : List (String × String)
rows = ("acme", "a") ∷ ("globex", "b") ∷ []

abbrev thread : Scope → Thread (List (String × String))
thread scope = record { scope = scope; tenants = "acme" ∷ "globex" ∷ []; db = rows }

abbrev request : String → Request
request host = record { path = "/api/runs/"; tenant_header = none; host = host }

no_context :
    get_queryset (λ db. db) (λ row. row.0) (thread unset) ≡ (err no_tenant_context, thread unset)
unfolding get_queryset
no_context = refl

by_host : slug_of (request "acme.cascade.local:8000") ≡ "acme"
unfolding slug_of from_host split
by_host = refl

nested :
    tenant_context "acme"
      (tenant_context "globex" (get_queryset (λ db. db) (λ row. row.0)))
      (thread unset)
    ≡ (ok (("globex", "b") ∷ []), thread unset)
unfolding tenant_context in_scope get_queryset of_tenant
nested = refl

call-Isolated_example :
    (answer : List (String × String)) × (w' : Thread (List (String × String))) × (call
        (get_queryset (λ db. db) (λ row. row.0))
        (request "acme.cascade.local")
        (thread unset)
      ≡ (ok answer, w'))
    × Isolated
        (λ row. row.0)
        (tenant_for (request "acme.cascade.local") ("acme" ∷ "globex" ∷ []))
        (thread unset)
        w'
        answer
unfolding is_exempt
call-Isolated_example =
    call-Isolated (λ db. db) (λ row. row.0) (request "acme.cascade.local") (thread unset) refl
