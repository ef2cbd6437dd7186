-- ===== src/Tenancy/Isolation.antt =====
-- What a request can read through the scoped manager of core/tenancy.py.
use nutanix_hack.Prelude.{
  ◌≡◌, refl, true, false, String, List, [], ◌∷◌, arith, All, contains, contains-append, str_eq,
  eq_iff, eq_refl, Bool-cases, inl, inr,
}
use nutanix_hack.Service.Exec.{ok}
use nutanix_hack.Tenancy.{
  Thread, Request, in_scope, tenant_context, get_queryset, of_tenant, is_exempt, tenant_for,
  with_tenant, call,
}

module _ {R : Type 0} where
  of_tenant-own :
      (owner : R → String) (slug : String) (rows : List R)
      → All (λ row. owner row ≡ slug) (of_tenant owner slug rows)
  unfolding of_tenant
  of_tenant-own owner slug [] = tt
  of_tenant-own owner slug (row ∷ rows) = elim (Bool-cases (str_eq (owner row) slug)) [
    | inl e ↦ rw e ((eq_iff (owner row) slug).0 e, of_tenant-own owner slug rows)
    | inr e ↦ rw e (of_tenant-own owner slug rows)
  ]

with_tenant-contains :
    (slug : String) (tenants : List String) → contains (with_tenant slug tenants) slug ≡ true
unfolding with_tenant
with_tenant-contains slug tenants =
    ground (arith, contains-append tenants (slug ∷ []) slug, eq_refl slug)

-- A request that reads a table: the rows of its tenant, which exists, and the thread's own scope back.
pub record Isolated {S R : Type 0} (owner : R → String) (slug : String) (w w' : Thread S)
    (rows : List R) : Type 0 where
  pub own : All (λ row. owner row ≡ slug) rows
  pub exists : contains w'.tenants slug ≡ true
  pub restored : w'.scope ≡ w.scope

-- A request that is not exempt and reads a table through the scoped manager answers rows of the
-- tenant of the request only, that tenant exists afterwards, and the context variable of the thread
-- is as before.
pub call-Isolated :
    {S R : Type 0} (table : S → List R) (owner : R → String) (r : Request) (w : Thread S)
    → is_exempt r ≡ false
    → (rows : List R) × (w' : Thread S) × (call (get_queryset table owner) r w ≡ (ok rows, w'))
      × Isolated owner (tenant_for r w.tenants) w w' rows
unfolding call get_queryset tenant_context in_scope
call-Isolated table owner r w h = (
  of_tenant owner (tenant_for r w.tenants) (table w.db),
  record w { tenants = with_tenant (tenant_for r w.tenants) w.tenants },
  rw (h, call) refl,
  record {
    own = of_tenant-own owner (tenant_for r w.tenants) (table w.db);
    exists = with_tenant-contains (tenant_for r w.tenants) w.tenants;
    restored = refl;
  },
)
