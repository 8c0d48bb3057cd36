-- ===== src/Toolbelt/Plan/Ready.antt =====
-- The reconciliation: each task is placed once, by its state and its dependencies.
use mx_loom.Common.{
  ◌≡◌, refl, sym, subst, ap, ◌∙◌, Bool, true, false, not, ◌&&◌, ◌||◌, List, [], ◌∷◌, ◌++◌, map,
  arith, Bool-cases, inl, inr, if◌then◌else◌,
}
use mathlib.Core.List.{append-nil, append_assoc, Perm, perm_middle}
use mathlib.Core.List.Perm
use mathlib.Core.Path.{fun_ext}
use mx_loom.Text.{Text, eq_text, is_empty}
use mx_loom.Toolbelt.Plan.{
  ResumedTask, PlanReconciliation, is_terminal_state, is_in_flight_state, is_succeeded,
  succeeded_ids, has, every, place, place_all, nothing_placed, reconcile,
}

-- What each of the four lists should hold, in the order of the tasks.
abbrev pub ids_where : (ResumedTask → Bool) → List ResumedTask → List Text
ids_where p [] = []
ids_where p (t ∷ ts) = if p t then t.task_id ∷ ids_where p ts else ids_where p ts

abbrev pub terminal : ResumedTask → Bool
terminal t = is_terminal_state t.state_value

abbrev pub flying : ResumedTask → Bool
flying t = is_in_flight_state t.state_value

abbrev pub actionable : ResumedTask → Bool
actionable t = not (terminal t) && not (flying t)

-- Every dependency is a non-empty id of a task that succeeded.
abbrev pub succeeds : List ResumedTask → Text → Bool
succeeds [] dep = false
succeeds (t ∷ ts) dep =
    (is_succeeded t.state_value && not (is_empty t.task_id) && eq_text dep t.task_id)
    || succeeds ts dep

abbrev pub all_of : (Text → Bool) → List Text → Bool
all_of p [] = true
all_of p (d ∷ ds) = p d && all_of p ds

abbrev pub satisfied : List ResumedTask → ResumedTask → Bool
satisfied tasks t = all_of (succeeds tasks) t.depends_on

abbrev pub sorted_by :
    (ResumedTask → Bool) → PlanReconciliation → List ResumedTask → PlanReconciliation
sorted_by sat r ts = record {
  done = r.done ++ ids_where terminal ts;
  in_flight = r.in_flight ++ ids_where (λ t. not (terminal t) && flying t) ts;
  ready = r.ready ++ ids_where (λ t. actionable t && sat t) ts;
  blocked = r.blocked ++ ids_where (λ t. actionable t && not (sat t)) ts;
}

has-succeeds : (dep : Text) (ts : List ResumedTask) → has dep (succeeded_ids ts) ≡ succeeds ts dep
unfolding succeeded_ids
has-succeeds dep [] = refl
has-succeeds dep (t ∷ ts) = ground (arith, has-succeeds dep ts)

every-all_of :
    (deps : List Text) (tasks : List ResumedTask)
    → every deps (succeeded_ids tasks) ≡ all_of (succeeds tasks) deps
every-all_of [] tasks = refl
every-all_of (d ∷ ds) tasks = ground (arith, has-succeeds d tasks, every-all_of ds tasks)

abbrev by_ids : List Text → ResumedTask → Bool
by_ids ids t = every t.depends_on ids

place-sorted :
    (ids : List Text) (r : PlanReconciliation) (t : ResumedTask) (ts : List ResumedTask)
    → sorted_by (by_ids ids) (place ids r t) ts ≡ sorted_by (by_ids ids) r (t ∷ ts)
unfolding place
place-sorted ids r t ts = ground (
  arith,
  append_assoc r.done (t.task_id ∷ []) (ids_where terminal ts),
  append_assoc r.in_flight (t.task_id ∷ []) (ids_where (λ u. not (terminal u) && flying u) ts),
  append_assoc r.ready (t.task_id ∷ []) (ids_where (λ u. actionable u && by_ids ids u) ts),
  append_assoc r.blocked (t.task_id ∷ []) (ids_where (λ u. actionable u && not (by_ids ids u)) ts),
)

place_all-sorted :
    (ids : List Text) (r : PlanReconciliation) (ts : List ResumedTask)
    → place_all ids r ts ≡ sorted_by (by_ids ids) r ts
unfolding place_all
place_all-sorted ids r [] = simp append-nil
place_all-sorted ids r (t ∷ ts) = place_all-sorted ids (place ids r t) ts ∙ place-sorted ids r t ts

satisfied-by_ids :
    (tasks : List ResumedTask) (t : ResumedTask)
    → by_ids (succeeded_ids tasks) t ≡ satisfied tasks t
satisfied-by_ids tasks t = every-all_of t.depends_on tasks

perm_second : (a b c : List Text) (x : Text) → Perm (a ++ (b ++ (x ∷ c))) (x ∷ (a ++ (b ++ c)))
perm_second a b c x = rw (← append_assoc a b (x ∷ c), ← append_assoc a b c) (perm_middle (a ++ b) c)

perm_third :
    (a b c d : List Text) (x : Text)
    → Perm (a ++ (b ++ (c ++ (x ∷ d)))) (x ∷ (a ++ (b ++ (c ++ d))))
perm_third a b c d x =
    rw (← append_assoc b c (x ∷ d), ← append_assoc b c d) (perm_second a (b ++ c) d x)

-- The ids of the tasks in the four lists are those of all tasks.
placed-Perm :
    (sat : ResumedTask → Bool) (ts : List ResumedTask)
    → Perm
        (ids_where terminal ts
          ++ (ids_where (λ t. not (terminal t) && flying t) ts
              ++ (ids_where (λ t. actionable t && sat t) ts
                  ++ ids_where (λ t. actionable t && not (sat t)) ts)))
        (map (λ t. t.task_id) ts)
placed-Perm sat [] = Perm.refl []
placed-Perm sat (t ∷ ts) = elim (Bool-cases (terminal t)) [
  | inl ends ↦ rw ends (Perm.cons _ (placed-Perm sat ts))
  | inr goes ↦ elim (Bool-cases (flying t)) [
    | inl flies ↦ rw (goes, flies) (Perm.trans (perm_middle _ _) (Perm.cons _ (placed-Perm sat ts)))
    | inr rests ↦ elim (Bool-cases (sat t)) [
      | inl met ↦
          rw (goes, rests, met)
            (Perm.trans
              (perm_second (ids_where terminal ts)
                (ids_where (λ u. not (terminal u) && flying u) ts)
                (ids_where (λ u. actionable u && sat u) ts
                  ++ ids_where (λ u. actionable u && not (sat u)) ts)
                _)
              (Perm.cons _ (placed-Perm sat ts)))
      | inr unmet ↦
          rw (goes, rests, unmet)
            (Perm.trans
              (perm_third (ids_where terminal ts) (ids_where (λ u. not (terminal u) && flying u) ts)
                (ids_where (λ u. actionable u && sat u) ts)
                (ids_where (λ u. actionable u && not (sat u)) ts) _)
              (Perm.cons _ (placed-Perm sat ts)))
    ]
  ]
]

-- A task is done exactly if it succeeded or failed, in flight exactly if it is assigned or executing,
-- and of the others ready exactly if every dependency is the id of a task that succeeded; each list
-- keeps the order of the tasks, and together they hold the id of every task once for each task.
pub reconcile-sorted :
    (tasks : List ResumedTask)
    → (reconcile tasks ≡ sorted_by (satisfied tasks) nothing_placed tasks)
      × Perm
          ((reconcile tasks).done
            ++ ((reconcile tasks).in_flight
                ++ ((reconcile tasks).ready ++ (reconcile tasks).blocked)))
          (map (λ t. t.task_id) tasks)
unfolding reconcile
reconcile-sorted tasks =
    let same =
      place_all-sorted (succeeded_ids tasks) nothing_placed tasks
      ∙ ap (λ sat. sorted_by sat nothing_placed tasks) (fun_ext (satisfied-by_ids tasks)) in
    (
      same,
      subst
          (λ (r : PlanReconciliation).
            Perm (r.done ++ (r.in_flight ++ (r.ready ++ r.blocked)))
              (map (λ (t : ResumedTask). t.task_id) tasks))
          (sym same) (placed-Perm (satisfied tasks) tasks),
    )
