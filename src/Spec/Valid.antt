-- ===== src/Spec/Valid.antt =====
-- What `validate_spec` of engine/spec.py guarantees of the definition that the engine then reads.
use Prim.Native.String.{String}
use nutanix_hack.Prelude.{
  ℕ, suc, ◌≡◌, refl, sym, subst, true, false, Option, none, some, List, [], ◌∷◌, arith, contains,
  Distinct, All, eq_iff, eq_refl, map, Bool-cases, Option-cases, inl, inr,
}
use nutanix_hack.Json.{Value, Fields, Items, null, bool, num, str, arr, obj, nil, cons, get_field}
use nutanix_hack.Spec.{Spec, Step, needs_of, step_ids}
use nutanix_hack.Spec.Validate.{
  SpecError, duplicate_id, ◌then_check◌, known_step_types, check_step, check_steps, id_of, ids_of,
  check_dangling, needs_known, needs_items, is_blank,
}
use nutanix_hack.Spec.Cycle.{validate_spec, validate_steps, is_name, detect_cycle, edges_of}
use nutanix_hack.Spec.Cycle.{Edges, ids_in}
use nutanix_hack.Spec.Cycle.Acyclic.{Placed, detect_cycle-Placed}
use nutanix_hack.Spec.Needed.{edges_in, texts_if-read_needs, ids_in-edges_in}
use nutanix_hack.Spec.Read.{read_steps, read_spec}
use nutanix_hack.Spec.StepRead.{AreKnown, StepRead, step_read, passed_both}

-- Each step has a type of the engine's, and needs steps that are there.
abbrev pub AreRunnable : List String → List Step → Type 0
AreRunnable ids steps =
    All (λ s. (contains known_step_types s.type ≡ true) × AreKnown ids (needs_of s)) steps

record StepsRead (seen : List String) (xs : Items) : Type 0 where
  pub steps : List Step
  pub read : read_steps xs ≡ some steps
  pub named : map (λ s. s.id) steps ≡ ids_of xs
  pub runnable : AreRunnable seen steps
  pub needed : edges_of xs ≡ edges_in steps

not_seen :
    (seen : List String) (sid : String) (e : SpecError) (fs : Fields)
    → check_step seen sid fs ≡ none
    → contains seen sid ≡ false
unfolding check_step
not_seen seen sid e fs h = elim (Bool-cases (contains seen sid)) [
  | inl s ↦ cc (rw s at h)
  | inr s ↦ s
]

fresh :
    (index : ℕ) (seen : List String) (xs : Items) (k : String)
    → check_steps index seen xs ≡ none
    → contains seen k ≡ true
    → contains (ids_of xs) k ≡ false
unfolding check_steps ids_of
fresh index seen nil k h c = refl
fresh index seen (cons (obj fs) xs) k h c = elim (Option-cases (id_of fs)) [
  | inl e ↦ cc (rw (e, check_steps) at h)
  | inr (sid, e) ↦
      let (here, later) =
        passed_both (check_step seen sid fs) (check_steps (suc index) (sid ∷ seen) xs)
          (rw (e, check_steps) at h) in
      let new = not_seen seen sid (duplicate_id sid) fs here in
      let rest = fresh (suc index) (sid ∷ seen) xs k later (ground (arith, c)) in
      rw (e, ids_of) (ground (arith, rest, new, c, eq_iff sid k))
]
fresh index seen (cons null xs) k h c = cc h
fresh index seen (cons (bool b) xs) k h c = cc h
fresh index seen (cons (num n) xs) k h c = cc h
fresh index seen (cons (str s) xs) k h c = cc h
fresh index seen (cons (arr ys) xs) k h c = cc h

ids_of-Distinct :
    (index : ℕ) (seen : List String) (xs : Items)
    → check_steps index seen xs ≡ none
    → Distinct (ids_of xs)
unfolding check_steps ids_of
ids_of-Distinct index seen nil h = tt
ids_of-Distinct index seen (cons (obj fs) xs) h = elim (Option-cases (id_of fs)) [
  | inl e ↦ cc (rw (e, check_steps) at h)
  | inr (sid, e) ↦
      let (here, later) =
        passed_both (check_step seen sid fs) (check_steps (suc index) (sid ∷ seen) xs)
          (rw (e, check_steps) at h) in
      rw (e, ids_of)
        (
          fresh (suc index) (sid ∷ seen) xs sid later (rw (eq_refl sid) refl),
          ids_of-Distinct (suc index) (sid ∷ seen) xs later,
        )
]
ids_of-Distinct index seen (cons null xs) h = cc h
ids_of-Distinct index seen (cons (bool b) xs) h = cc h
ids_of-Distinct index seen (cons (num n) xs) h = cc h
ids_of-Distinct index seen (cons (str s) xs) h = cc h
ids_of-Distinct index seen (cons (arr ys) xs) h = cc h

add_step :
    (seen : List String) (sid : String) (fs : Fields) (xs : Items)
    → id_of fs ≡ some sid
    → StepRead sid seen fs
    → StepsRead seen xs
    → StepsRead seen (cons (obj fs) xs)
unfolding read_steps ids_of edges_of needs_of
add_step seen sid fs xs e first rest = record {
  steps = first.step ∷ rest.steps;
  read = rw (e, read_steps, first.read, rest.read) refl;
  named = rw (e, ids_of, first.named, rest.named) refl;
  runnable = ((first.typed, first.needs), rest.runnable);
  needed =
      rw
        (
          e,
          edges_of,
          texts_if-read_needs (get_field fs "needs") first.step.needs first.needed,
          first.named,
          rest.needed,
        )
        refl;
}

steps_read :
    (index : ℕ) (before seen : List String) (xs : Items)
    → check_steps index before xs ≡ none
    → check_dangling seen xs ≡ none
    → StepsRead seen xs
unfolding check_steps check_dangling read_steps ids_of edges_of
steps_read index before seen nil h k = record {
  steps = [];
  read = refl;
  named = refl;
  runnable = tt;
  needed = refl;
}
steps_read index before seen (cons (obj fs) xs) h k = elim (Option-cases (id_of fs)) [
  | inl e ↦ cc (rw (e, check_steps) at h)
  | inr (sid, e) ↦
      let (here, later) =
        passed_both (check_step before sid fs) (check_steps (suc index) (sid ∷ before) xs)
          (rw (e, check_steps) at h) in
      let (needed, others) =
        passed_both (needs_known sid seen (needs_items (get_field fs "needs")))
          (check_dangling seen xs) (rw (e, check_dangling) at k) in
      add_step seen sid fs xs e (step_read before seen sid fs here needed)
        (steps_read (suc index) (sid ∷ before) seen xs later others)
]
steps_read index before seen (cons null xs) h k = cc h
steps_read index before seen (cons (bool b) xs) h k = cc h
steps_read index before seen (cons (num n) xs) h k = cc h
steps_read index before seen (cons (str s) xs) h k = cc h
steps_read index before seen (cons (arr ys) xs) h k = cc h

valid_steps :
    (o : Option Value)
    → validate_steps o ≡ none
    → (xs : Items) × (o ≡ some (arr xs))
      × (check_steps 0 [] xs ≡ none)
      × (check_dangling (ids_of xs) xs ≡ none)
      × (detect_cycle (edges_of xs) ≡ none)
valid_steps (some (arr nil)) h = cc h
valid_steps (some (arr (cons x xs))) h =
    let ys = cons x xs in
    let (shapes, rest) =
      passed_both (check_steps 0 [] ys)
        (check_dangling (ids_of ys) ys then_check detect_cycle (edges_of ys)) h in
    let (known, acyclic) =
      passed_both (check_dangling (ids_of ys) ys) (detect_cycle (edges_of ys)) rest in
    (ys, refl, shapes, known, acyclic)
valid_steps none h = cc h
valid_steps (some null) h = cc h
valid_steps (some (bool b)) h = cc h
valid_steps (some (num n)) h = cc h
valid_steps (some (str s)) h = cc h
valid_steps (some (obj fs)) h = cc h

valid_name : (o : Option Value) {name : String} → is_name o ≡ some name → o ≡ some (str name)
valid_name (some (str s)) h = elim (Bool-cases (is_blank s)) [
  | inl e ↦ cc (rw e at h)
  | inr e ↦ cc (rw e at h)
]
valid_name none h = cc h
valid_name (some null) h = cc h
valid_name (some (bool b)) h = cc h
valid_name (some (num n)) h = cc h
valid_name (some (arr xs)) h = cc h
valid_name (some (obj fs)) h = cc h

-- The engine reads the value as a definition with ids that differ, steps that it can run and needs
-- without a cycle: the ids can be put in a list in which each comes before what its step needs.
pub record IsDefinition (v : Value) : Type 0 where
  pub spec : Spec
  pub read : read_spec v ≡ some spec
  pub distinct : Distinct (step_ids spec)
  pub runnable : AreRunnable (step_ids spec) spec.steps
  pub acyclic : Placed (edges_in spec.steps) [] (step_ids spec)

reads-IsDefinition :
    (fs : Fields) (name : String) (xs : Items)
    → get_field fs "name" ≡ some (str name)
    → get_field fs "steps" ≡ some (arr xs)
    → Distinct (ids_of xs)
    → StepsRead (ids_of xs) xs
    → detect_cycle (edges_of xs) ≡ none
    → IsDefinition (obj fs)
unfolding read_spec step_ids
reads-IsDefinition fs name xs n s d r h = record {
  spec = record { name = name; steps = r.steps };
  read = rw (n, read_spec, s, r.read) refl;
  distinct = subst Distinct (sym r.named) d;
  runnable = subst (λ ids. AreRunnable ids r.steps) (sym r.named) r.runnable;
  acyclic = subst (Placed (edges_in r.steps) []) (ids_in-edges_in r.steps) (
      subst (λ (es : Edges). Placed es [] (ids_in es)) r.needed
        (detect_cycle-Placed (edges_of xs) h));
}

-- If validate_spec passes a value, then the engine reads the value as a definition whose ids
-- differ, each step of which has a known type and needs only steps that are there, and whose needs
-- have no cycle: the ids can be put in a list in which each comes before all that its step needs.
pub validate_spec-IsDefinition : (v : Value) → validate_spec v ≡ none → IsDefinition v
unfolding validate_spec
validate_spec-IsDefinition (obj fs) h = elim (Option-cases (is_name (get_field fs "name"))) [
  | inl e ↦ cc (rw e at h)
  | inr (name, e) ↦
      let (xs, steps, shapes, known, acyclic) = valid_steps (get_field fs "steps") (rw e at h) in
      reads-IsDefinition fs name xs (valid_name (get_field fs "name") e) steps
        (ids_of-Distinct 0 [] xs shapes) (steps_read 0 [] (ids_of xs) xs shapes known) acyclic
]
validate_spec-IsDefinition null h = cc h
validate_spec-IsDefinition (bool b) h = cc h
validate_spec-IsDefinition (num n) h = cc h
validate_spec-IsDefinition (str s) h = cc h
validate_spec-IsDefinition (arr xs) h = cc h
