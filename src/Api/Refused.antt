-- ===== src/Api/Refused.antt =====
-- A decision on an approval that is answered with 409 has written nothing.
use nutanix_hack.Prelude.{
  ℕ, ◌≡◌, refl, ap, ◌∙◌, Bool, true, false, String, Option, none, some, str_eq, Bool-cases,
  Option-cases, inl, inr,
}
use nutanix_hack.Prelude.Dict
use nutanix_hack.Spec.{Spec, Step, steps_by_id}
use nutanix_hack.Queue.{Env}
use nutanix_hack.Replay.State.{Context}
use nutanix_hack.Service.Exec.{
  Result, ok, err, Error, ApprovalError, approval_error, contention, does_not_exist,
  integrity_error, plugin_error, type_error, not_json, no_tenant_context, «continue», ◌>>=◌, raise,
  atomic, atomic_rolls_back,
}
use nutanix_hack.Service.Store.{Run, Store, Db, get_run}
use nutanix_hack.Service.Log.{load_context}
use nutanix_hack.Service.Approval.{decide_step, resolve_step, resolve_approval}
use nutanix_hack.Api.{conflict}
use nutanix_hack.Api.Runs.{
  RunHeader, Site, Query, Decision, get_object, reply_decided, decide, approve,
}

-- It writes nothing.
record ReadsOnly {A : Type 0} (m : Db A) : Type 0 where
  pub at : (s : Store) → (m s).1 ≡ s

-- Where it raises an ApprovalError, it has written nothing.
pub record Refuses {A : Type 0} (m : Db A) : Type 0 where
  pub at : (s : Store) (e : ApprovalError) → (m s).0 ≡ err (approval_error e) → (m s).1 ≡ s

-- It raises no ApprovalError.
record Accepts {A : Type 0} (m : Db A) : Type 0 where
  pub at : (s : Store) (e : ApprovalError) → (m s).0 ≡ err (approval_error e) → ⊥

module _ {A B : Type 0} where
  unread_or_back :
      (r : Result A × Store) (f : A → Db B) (s : Store) (e : ApprovalError)
      → r.1 ≡ s
      → ((a : A) → Refuses (f a))
      → («continue» r f).0 ≡ err (approval_error e)
      → («continue» r f).1 ≡ s
  unread_or_back (ok a, t) f s e same k h = (k a).at t e h ∙ same
  unread_or_back (err x, t) f s e same k h = same

  Refuses-read :
      (m : Db A) (f : A → Db B) → ReadsOnly m → ((a : A) → Refuses (f a)) → Refuses (m >>= f)
  unfolding ◌>>=◌
  Refuses-read m f reads k = record { at = λ s e h. unread_or_back (m s) f s e (reads.at s) k h }

  back_to_start :
      (r : Result A × Store) (f : A → Db B) (s : Store) (e : ApprovalError)
      → (r.0 ≡ err (approval_error e) → r.1 ≡ s)
      → ((a : A) → Accepts (f a))
      → («continue» r f).0 ≡ err (approval_error e)
      → («continue» r f).1 ≡ s
  back_to_start (ok a, t) f s e back k h = absurd ((k a).at t e h)
  back_to_start (err x, t) f s e back k h = back (cc h)

  Refuses-accept :
      (m : Db A) (f : A → Db B) → Refuses m → ((a : A) → Accepts (f a)) → Refuses (m >>= f)
  unfolding ◌>>=◌
  Refuses-accept m f back k = record { at = λ s e h. back_to_start (m s) f s e (back.at s e) k h }

Refuses-atomic : {A : Type 0} (m : Db A) → Refuses (atomic m)
Refuses-atomic m = record { at = λ s e h. atomic_rolls_back m s (approval_error e) h }

Refuses-raise : {A : Type 0} (x : Error) → Refuses {A = A} (raise x)
unfolding ◌>>=◌
Refuses-raise x = record { at = λ s e h. refl }

get_run-ReadsOnly : (rid : String) → ReadsOnly (get_run rid)
unfolding get_run ◌>>=◌
get_run-ReadsOnly rid = record {
  at = λ s. elim (Option-cases (Dict.get s.runs rid)) [
    | inl e ↦ rw e refl
    | inr (run, e) ↦ rw e refl
  ];
}

load_context-Accepts : (rid : String) → Accepts (load_context rid)
unfolding load_context get_run ◌>>=◌
load_context-Accepts rid = record {
  at = λ s e h. elim (Option-cases (Dict.get s.runs rid)) [
    | inl x ↦ cc (rw x at h)
    | inr (run, x) ↦ cc (rw x at h)
  ];
}

decide_step-Refuses :
    (env : Env) (now : ℕ) (rid : String) (spec : Spec) (step : Step) (sid : String) (grant : Bool)
    (actor comment : String)
    → Refuses (decide_step env now rid spec step sid grant actor comment)
unfolding decide_step
decide_step-Refuses env now rid spec step sid grant actor comment = Refuses-atomic _

resolve_step-Refuses :
    (env : Env) (now : ℕ) (rid : String) (spec : Spec) (step : Option Step) (sid : String)
    (grant : Bool) (actor comment : String)
    → Refuses (resolve_step env now rid spec step sid grant actor comment)
unfolding resolve_step
resolve_step-Refuses env now rid spec none sid grant actor comment = Refuses-raise _
resolve_step-Refuses env now rid spec (some step) sid grant actor comment =
    Refuses-accept (decide_step env now rid spec step sid grant actor comment) _
      (decide_step-Refuses env now rid spec step sid grant actor comment)
      (λ _. load_context-Accepts rid)

found_step-Refuses :
    (env : Env) (now : ℕ) (rid sid : String) (grant : Bool) (actor comment : String)
    → Refuses (
        get_run rid >>= λ run.
        resolve_step env now rid run.spec (steps_by_id run.spec sid) sid grant actor comment)
found_step-Refuses env now rid sid grant actor comment =
    Refuses-read (get_run rid) _ (get_run-ReadsOnly rid)
      (λ run. resolve_step-Refuses env now rid run.spec _ sid grant actor comment)

pub resolve_approval-Refuses :
    (env : Env) (now : ℕ) (rid sid decision actor comment : String)
    → Refuses (resolve_approval env now rid sid decision actor comment)
unfolding resolve_approval
resolve_approval-Refuses env now rid sid decision actor comment =
    elim (Bool-cases (str_eq decision "approve")) [
      | inl e ↦ rw e (found_step-Refuses env now rid sid true actor comment)
      | inr e ↦ elim (Bool-cases (str_eq decision "deny")) [
        | inl f ↦ rw (e, f) (found_step-Refuses env now rid sid false actor comment)
        | inr f ↦ rw (e, f) (Refuses-raise _)
      ]
    ]

conflicting :
    (header : RunHeader) (rid : String) (r : Result Context × Store) (e : ApprovalError)
    → reply_decided header rid r ≡ conflict e
    → r.0 ≡ err (approval_error e)
conflicting header rid (ok c, store) e h = elim (Option-cases (Dict.get store.runs rid)) [
  | inl x ↦ cc (rw x at h)
  | inr (run, x) ↦ cc (rw x at h)
]
conflicting header rid (err (approval_error x), store) e h = cc h
conflicting header rid (err contention, store) e h = cc h
conflicting header rid (err does_not_exist, store) e h = cc h
conflicting header rid (err integrity_error, store) e h = cc h
conflicting header rid (err nutanix_hack.Service.Exec.data_error, store) e h = cc h
conflicting header rid (err plugin_error, store) e h = cc h
conflicting header rid (err type_error, store) e h = cc h
conflicting header rid (err not_json, store) e h = cc h
conflicting header rid (err no_tenant_context, store) e h = cc h

decide_refused :
    (env : Env) (now : ℕ) (rid : String) (found : Option (RunHeader × Run))
    (payload : Option Decision) (site : Site) {e : ApprovalError}
    → (decide env now rid found payload site).0 ≡ conflict e
    → (decide env now rid found payload site).1 ≡ site
unfolding decide
decide_refused env now rid none payload site h = cc h
decide_refused env now rid (some found) none site h = cc h
decide_refused env now rid (some (header, run)) (some d) site {e} h =
    let m = resolve_approval env now rid d.step_id d.decision d.actor d.comment in
    let back =
      (resolve_approval-Refuses env now rid d.step_id d.decision d.actor d.comment).at site.store e
        (conflicting header rid (m site.store) e h) in
    ap (λ store. record site { store = store }) back

-- If a decision on an approval is answered with 409, nothing was written: the tables are as before,
-- whichever guard refused it.
pub conflict-unchanged :
    (env : Env) (now : ℕ) (tenant : String) (query : Query) (rid : String)
    (payload : Option Decision) (site : Site) {e : ApprovalError}
    → (approve env now tenant query rid payload site).0 ≡ conflict e
    → (approve env now tenant query rid payload site).1 ≡ site
unfolding approve
conflict-unchanged env now tenant query rid payload site h =
    decide_refused env now rid (get_object tenant query rid site) payload site h
