-- ===== src/Spec/Order/Starts.antt =====
-- Where each need is an id, the two dicts of `topological_order` can be built, for the ids alone.
use nutanix_hack.Prelude.{
  ◌≡◌, ◌≢◌, refl, true, String, Option, none, some, List, [], ◌∷◌, ◌++◌, arith, contains, Distinct,
  str_eq, eq_iff, eq_refl, Bool-cases, Option-cases, inl, inr,
}
use nutanix_hack.Prelude.Int.{ℤ, pos}
use nutanix_hack.Prelude.Dict
use nutanix_hack.Prelude.Dict.{Dict}
use nutanix_hack.Spec.Cycle.{Edges, ids_in, needs_in}
use nutanix_hack.Spec.Cycle.Reports.{AllAreIds}
use nutanix_hack.Spec.Order.{Waits, no_waits, count_needs, count_all, add_one, is_zero, roots}
use nutanix_hack.Spec.Order.Open.{set-known}
use nutanix_hack.Spec.Order.Needs.{keys}

-- Each need has its list of dependents.
abbrev HasKeys : List String → Dict (List String) → Type 0
HasKeys ks d = (k : String) → contains ks k ≡ true → Dict.get d k ≢ none

set-HasKeys :
    (ks : List String) (d : Dict (List String)) (dep : String) (v : List String)
    → HasKeys ks d
    → HasKeys ks (Dict.set d dep v)
set-HasKeys ks d dep v h k m e = elim (Bool-cases (str_eq dep k)) [
  | inl same ↦ cc (rw (Dict.get-set d dep k v, same) at e)
  | inr apart ↦ h k m (rw (Dict.get-set d dep k v, apart) at e)
]

-- What the counting of needs comes to, and what it keeps.
pub record Counts (edges : Edges) (answer : Option Waits) : Type 0 where
  pub waits : Waits
  pub answered : answer ≡ some waits
  pub has : HasKeys (ids_in edges) waits.dependents
  pub known :
      (k : String) (v : ℤ) → Dict.get waits.indegree k ≡ some v → contains (ids_in edges) k ≡ true

count_needs-Counts :
    (edges : Edges) (sid : String) (needs : List String) (w : Waits)
    → contains (ids_in edges) sid ≡ true
    → ((n : String) → contains needs n ≡ true → contains (ids_in edges) n ≡ true)
    → HasKeys (ids_in edges) w.dependents
    → ((k : String) (v : ℤ) → Dict.get w.indegree k ≡ some v → contains (ids_in edges) k ≡ true)
    → Counts edges (count_needs sid needs w)
unfolding count_needs
count_needs-Counts edges sid [] w m ids h k = record {
  waits = w;
  answered = refl;
  has = h;
  known = k;
}
count_needs-Counts edges sid (dep ∷ needs) w m ids h k =
    elim (Option-cases (Dict.get w.dependents dep)) [
      | inl e ↦ absurd (h dep (ids dep (rw (eq_refl dep) refl)) e)
      | inr (children, e) ↦
          rw (e, count_needs)
            (count_needs-Counts edges sid needs _ m (λ n i. ids n (ground (arith, i)))
              (set-HasKeys (ids_in edges) w.dependents dep (children ++ sid ∷ []) h)
              (set-known edges w.indegree sid (add_one (Dict.get w.indegree sid)) m k))
    ]

-- The needs of each of `part` are ids.
abbrev PartIds : Edges → Edges → Type 0
PartIds edges [] = Unit {0}
PartIds edges ((sid, needs) ∷ part) =
    (contains (ids_in edges) sid ≡ true)
    × ((n : String) → contains needs n ≡ true → contains (ids_in edges) n ≡ true)
    × PartIds edges part

pub count_all-Counts :
    (edges part : Edges) (w : Waits)
    → PartIds edges part
    → HasKeys (ids_in edges) w.dependents
    → ((k : String) (v : ℤ) → Dict.get w.indegree k ≡ some v → contains (ids_in edges) k ≡ true)
    → Counts edges (count_all part w)
unfolding count_all
count_all-Counts edges [] w p h k = record { waits = w; answered = refl; has = h; known = k }
count_all-Counts edges ((sid, needs) ∷ part) w p h k =
    let (here, ids, rest) = p in
    let one = count_needs-Counts edges sid needs w here ids h k in
    rw (one.answered, count_all) (count_all-Counts edges part one.waits rest one.has one.known)

get-ids_in :
    (edges : Edges) (k : String) (needs : List String)
    → Dict.get edges k ≡ some needs
    → contains (ids_in edges) k ≡ true
unfolding Dict.get
get-ids_in [] k needs h = cc h
get-ids_in ((sid, ns) ∷ edges) k needs h = elim (Bool-cases (str_eq sid k)) [
  | inl e ↦ rw e refl
  | inr e ↦ rw e (get-ids_in edges k needs (rw (e, Dict.get) at h))
]

-- An id that is there has its needs.
pub get_id :
    (edges : Edges) (k : String)
    → contains (ids_in edges) k ≡ true
    → (needs : List String) × (Dict.get edges k ≡ some needs)
unfolding Dict.get
get_id [] k h = cc h
get_id ((sid, ns) ∷ edges) k h = elim (Bool-cases (str_eq sid k)) [
  | inl e ↦ (ns, rw e refl)
  | inr e ↦ let (needs, there) = get_id edges k (rw e at h) in (needs, rw e there)
]

pub needs-AreIds :
    (edges : Edges) (sid : String) (needs : List String)
    → AllAreIds edges
    → Dict.get edges sid ≡ some needs
    → (n : String) → contains needs n ≡ true
    → contains (ids_in edges) n ≡ true
needs-AreIds edges sid needs all e n m = all sid n (rw (e, needs_in) m)

contains-some :
    (edges : Edges) (k : String) (needs : List String)
    → Dict.get edges k ≡ some needs
    → contains (keys edges) k ≡ true
unfolding Dict.get
contains-some [] k needs h = cc h
contains-some ((sid, ns) ∷ edges) k needs h = elim (Bool-cases (str_eq sid k)) [
  | inl e ↦ rw e refl
  | inr e ↦ rw e (contains-some edges k needs (rw (e, Dict.get) at h))
]

pub AllAreIds-PartIds :
    (edges part : Edges)
    → AllAreIds edges
    → Distinct (keys part)
    → ((s : String) (needs : List String)
        → Dict.get part s ≡ some needs
        → Dict.get edges s ≡ some needs)
    → PartIds edges part
unfolding Dict.get
AllAreIds-PartIds edges [] all d h = tt
AllAreIds-PartIds edges ((sid, needs) ∷ part) all d h =
    let there = h sid needs (rw (eq_refl sid) refl) in
    (
      get-ids_in edges sid needs there,
      needs-AreIds edges sid needs all there,
      AllAreIds-PartIds edges part all d.1 (λ s ns e. elim (Bool-cases (str_eq sid s)) [
        | inl same ↦
            let id : sid ≡ s = (eq_iff sid s).0 same in
            let no = contains-some part s ns e in absurd (cc (d.0, id, no))
        | inr apart ↦ h s ns (rw apart e)
      ]),
    )

pub no_waits-HasKeys : (edges : Edges) → HasKeys (ids_in edges) (no_waits edges).dependents
unfolding no_waits Dict.get
no_waits-HasKeys [] k m e = cc m
no_waits-HasKeys ((sid, needs) ∷ edges) k m e = elim (Bool-cases (str_eq sid k)) [
  | inl same ↦ cc (rw (same, Dict.get) at e)
  | inr apart ↦ no_waits-HasKeys edges k (rw apart at m) (rw (apart, Dict.get) at e)
]

pub no_waits-known :
    (edges : Edges) (k : String) (v : ℤ)
    → Dict.get (no_waits edges).indegree k ≡ some v
    → contains (ids_in edges) k ≡ true
unfolding no_waits Dict.get
no_waits-known [] k v e = cc e
no_waits-known ((sid, needs) ∷ edges) k v e = elim (Bool-cases (str_eq sid k)) [
  | inl same ↦ rw same refl
  | inr apart ↦ rw apart (no_waits-known edges k v (rw (apart, Dict.get) at e))
]

pub roots-get :
    (d : Dict ℤ) (k : String) → Dict.get d k ≡ some (pos 0) → contains (roots d) k ≡ true
unfolding roots Dict.get
roots-get [] k h = cc h
roots-get ((i, v) ∷ d) k h = elim (Bool-cases (str_eq i k)) [
  | inl e ↦ let zero_v : v ≡ pos 0 = cc (rw (e, Dict.get) at h) in rw (zero_v, e) refl
  | inr e ↦
      let rest = roots-get d k (rw (e, Dict.get) at h) in
      elim (Bool-cases (is_zero v)) [ inl z ↦ rw (z, e) rest | inr z ↦ rw z rest ]
]
