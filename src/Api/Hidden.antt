-- ===== src/Api/Hidden.antt =====
-- A run of another tenant, asked for over the API.
use nutanix_hack.Prelude.{
  ℕ, ◌≡◌, refl, false, String, Option, none, some, str_eq, Option-cases, inl, inr,
}
use nutanix_hack.Prelude.Dict
use nutanix_hack.Queue.{Env}
use nutanix_hack.Api.{not_found}
use nutanix_hack.Api.Runs.{
  RunHeader, Site, Query, Decision, is_visible, get_object, decide, approve, run_events,
  run_approvals,
}

hidden :
    (tenant : String) (query : Query) (rid : String) (site : Site) (header : RunHeader)
    → Dict.get site.headers rid ≡ some header
    → str_eq header.tenant tenant ≡ false
    → get_object tenant query rid site ≡ none
unfolding get_object is_visible
hidden tenant query rid site header there other =
    elim (Option-cases (Dict.get site.store.runs rid)) [
      | inl e ↦ rw (there, e) refl
      | inr (run, e) ↦ rw (there, e, other) refl
    ]

-- If a run belongs to another tenant than the request, its events and pending approvals are
-- answered with 404, and so is a decision on it, which changes nothing.
pub foreign_run-Hidden :
    (env : Env) (now : ℕ) (tenant : String) (query : Query) (rid : String)
    (payload : Option Decision) (site : Site) (header : RunHeader)
    → Dict.get site.headers rid ≡ some header
    → str_eq header.tenant tenant ≡ false
    → (approve env now tenant query rid payload site ≡ (not_found, site))
      × (run_events tenant query rid site ≡ not_found)
      × (run_approvals tenant query rid site ≡ not_found)
unfolding approve run_events run_approvals decide
foreign_run-Hidden env now tenant query rid payload site header there other =
    let none_found = hidden tenant query rid site header there other in
    (rw (none_found, decide) refl, rw none_found refl, rw none_found refl)
