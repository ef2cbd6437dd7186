-- ===== src/Dispatch/Drained.antt =====
-- `dispatch_one` of graph/dispatcher.py as a whole, and the rounds of `dispatch_pending`.
use nutanix_hack.Prelude.{
  ℕ, zero, suc, ◌≤◌, ◌<◌, ◌≡◌, refl, ap, sym, subst, ◌∙◌, true, not, String, Option, none, some,
  List, ◌∷◌, arith, every,
}
use nutanix_hack.Service.Exec.{Exec, Result, ok, err, Keeps, atomic_ok, bind_ok, pure, ◌>>=◌, ◌>>◌}
use nutanix_hack.Graph.{Graph, EntityChange, mark_processed}
use nutanix_hack.Dispatch.{
  World, Round, Trigger, Dispatched, on_store, is_open, next_change, triggers_of, fire_triggers,
  mark_done, dispatch_change, dispatch_one, or_break, dispatch_pending,
}
use nutanix_hack.Dispatch.Logged.{fire_triggers-Keeps}
use nutanix_hack.Dispatch.Next.{
  open_changes, IsNext, next_change-none, next_change-IsNext, open_changes-mark_less,
}

-- Starting runs leaves the graph alone.
fire_triggers-graph :
    (r : Round) (change : EntityChange) (ts : List Trigger) (g : Graph)
    → Keeps (λ w. w.graph ≡ g) (fire_triggers r change ts)
unfolding on_store
fire_triggers-graph r change ts g =
    fire_triggers-Keeps (λ w. w.graph ≡ g) r (λ now rid spec input. record { at = λ w h. h }) change
      ts

-- A round that found `change`: what it leaves.
pub record Settles (r : Round) (w w' : World) (change : EntityChange) : Type 0 where
  pub next : IsNext r.locked w.graph.changes change
  pub graph : w'.graph ≡ mark_processed change r.now w.graph

-- What a transaction with the graph `g` keeps of it, where it returns.
same_graph_after :
    {A : Type 0} (g : Graph) (m : Exec World A) (w w' : World) (a : A)
    → Keeps (λ v. v.graph ≡ g) m
    → w.graph ≡ g
    → m w ≡ (ok a, w')
    → w'.graph ≡ g
same_graph_after g m w w' a k h e = sym (ap (λ x. x.1.graph) e) ∙ k.at w h

-- The end of a round, once the triggers have had their turns.
abbrev ending : Round → EntityChange → List (String × String) → Exec World (Option Dispatched)
ending r change started = mark_done r change >> pure (some (change, started))

change_settled :
    (r : Round) (w w' : World) (found : Option EntityChange) (x : Dispatched)
    → next_change r.locked w.graph.changes ≡ found
    → dispatch_change r found w ≡ (ok (some x), w')
    → Settles r w w' x.0
unfolding dispatch_change mark_done ◌>>=◌
change_settled r w w' none x e h = cc (ap (λ (y : Result (Option Dispatched) × World). y.0) h)
change_settled r w w' (some change) x e h =
    let fired =
      bind_ok (fire_triggers r change (triggers_of change w.triggers)) (ending r change) w w'
        (some x) h in
    let same : fired.middle.graph ≡ w.graph =
      same_graph_after w.graph _ w fired.middle fired.answer
        (fire_triggers-graph r change _ w.graph) refl fired.first in
    let answers : ok (some (change, fired.answer)) ≡ ok (some x) =
      ap (λ (y : Result (Option Dispatched) × World). y.0) fired.rest in
    let marked : mark_processed change r.now fired.middle.graph ≡ w'.graph =
      ap (λ (y : Result (Option Dispatched) × World). y.1.graph) fired.rest in
    subst (Settles r w w') (cc answers) (record {
      next = next_change-IsNext r.locked w.graph.changes change e;
      graph = sym marked ∙ ap (mark_processed change r.now) same;
    })

change_none :
    (r : Round) (w w' : World) (found : Option EntityChange)
    → dispatch_change r found w ≡ (ok none, w')
    → (found ≡ none) × (w' ≡ w)
unfolding dispatch_change mark_done ◌>>=◌
change_none r w w' none h = (refl, sym (ap (λ (y : Result (Option Dispatched) × World). y.1) h))
change_none r w w' (some change) h =
    let fired =
      bind_ok (fire_triggers r change (triggers_of change w.triggers)) (ending r change) w w' none
        h in
    cc (ap (λ (y : Result (Option Dispatched) × World). y.0) fired.rest)

-- If dispatch_one answers with a change, that change was in the outbox, unprocessed and not locked,
-- no such row had a smaller id, and the graph is as before but that it is marked as processed.
pub dispatch_one-some :
    (r : Round) (w w' : World) (x : Dispatched)
    → dispatch_one r w ≡ (ok (some x), w')
    → Settles r w w' x.0
unfolding dispatch_one ◌>>=◌
dispatch_one-some r w w' x h =
    change_settled r w w' (next_change r.locked w.graph.changes) x refl
      (atomic_ok _ w w' (some x) h)

pub dispatch_one-none :
    (r : Round) (w w' : World)
    → dispatch_one r w ≡ (ok none, w')
    → (next_change r.locked w.graph.changes ≡ none) × (w' ≡ w)
unfolding dispatch_one ◌>>=◌
dispatch_one-none r w w' h =
    change_none r w w' (next_change r.locked w.graph.changes) (atomic_ok _ w w' none h)

settled_less :
    (r : Round) (w w' : World) (change : EntityChange)
    → Settles r w w' change
    → open_changes r.locked w'.graph.changes < open_changes r.locked w.graph.changes
unfolding mark_processed
settled_less r w w' change h = rw h.graph (
    open_changes-mark_less r.locked change r.now w.graph.changes h.next.is_there h.next.is_open_row)

-- The loop from the result of a round on, with two amounts of fuel left.
or_break_same :
    (r : Round) (n m : ℕ) (w : World) (y : Result (Option Dispatched) × World)
    → dispatch_one r w ≡ y
    → ((w' : World)
        → open_changes r.locked w'.graph.changes < open_changes r.locked w.graph.changes
        → dispatch_pending m r w' ≡ dispatch_pending n r w')
    → (dispatch_one r >>= λ one. or_break one (dispatch_pending m r)) w
      ≡ (dispatch_one r >>= λ one. or_break one (dispatch_pending n r)) w
unfolding or_break ◌>>=◌
or_break_same r n m w (err x, w') e same = rw e refl
or_break_same r n m w (ok none, w') e same = rw e refl
or_break_same r n m w (ok (some x), w') e same =
    rw (e, same w' (settled_less r w w' x.0 (dispatch_one-some r w w' x e))) refl

-- With more rounds than the outbox has unprocessed rows that are not locked, dispatch_pending does
-- and answers the same as with any larger number of rounds: without a limit its loop ends.
pub dispatch_pending_enough :
    (n m : ℕ) (r : Round) (w : World)
    → open_changes r.locked w.graph.changes < n
    → n ≤ m
    → dispatch_pending m r w ≡ dispatch_pending n r w
unfolding dispatch_pending
dispatch_pending_enough zero m r w h le = let no : ⊥ = omega arith in absurd no
dispatch_pending_enough (suc n) zero r w h le = let no : ⊥ = omega arith in absurd no
dispatch_pending_enough (suc n) (suc m) r w h le =
    or_break_same r n m w (dispatch_one r w) refl
      (λ w' less. dispatch_pending_enough n m r w' (omega (arith, less, h)) (omega (arith, le)))

drain_rest :
    (n : ℕ) (r : Round) (w v w' : World) (o : Option Dispatched) (xs : List Dispatched)
    → dispatch_one r w ≡ (ok o, v)
    → or_break o (dispatch_pending n r) v ≡ (ok xs, w')
    → ((u : World) (ys : List Dispatched)
        → open_changes r.locked v.graph.changes < open_changes r.locked w.graph.changes
        → dispatch_pending n r v ≡ (ok ys, u)
        → every (λ c. not (is_open r.locked c)) u.graph.changes ≡ true)
    → every (λ c. not (is_open r.locked c)) w'.graph.changes ≡ true
unfolding or_break ◌>>=◌
drain_rest n r w v w' none xs first rest drained =
    let (nothing, same) = dispatch_one-none r w v first in
    let ends : w ≡ w' = sym same ∙ ap (λ (y : Result (List Dispatched) × World). y.1) rest in
    subst (λ (u : World). every (λ c. not (is_open r.locked c)) u.graph.changes ≡ true) ends
      (next_change-none r.locked w.graph.changes nothing)
drain_rest n r w v w' (some x) xs first rest drained =
    let two = bind_ok (dispatch_pending n r) (λ ys. pure (x ∷ ys)) v w' xs rest in
    let ends : two.middle ≡ w' = ap (λ (y : Result (List Dispatched) × World). y.1) two.rest in
    subst (λ (u : World). every (λ c. not (is_open r.locked c)) u.graph.changes ≡ true) ends
      (drained two.middle two.answer (settled_less r w v x.0 (dispatch_one-some r w v x first))
        two.first)

-- If dispatch_pending has more rounds than there are unprocessed rows that are not locked, and
-- returns, then each row that is left is processed or locked.
pub dispatch_pending_drains :
    (n : ℕ) (r : Round) (w w' : World) (xs : List Dispatched)
    → dispatch_pending n r w ≡ (ok xs, w')
    → open_changes r.locked w.graph.changes < n
    → every (λ c. not (is_open r.locked c)) w'.graph.changes ≡ true
unfolding dispatch_pending
dispatch_pending_drains zero r w w' xs e h = let no : ⊥ = omega arith in absurd no
dispatch_pending_drains (suc n) r w w' xs e h =
    let two = bind_ok (dispatch_one r) (λ one. or_break one (dispatch_pending n r)) w w' xs e in
    drain_rest n r w two.middle w' two.answer xs two.first two.rest
      (λ u ys less done. dispatch_pending_drains n r two.middle u ys done (omega (arith, less, h)))
