-- ===== src/Toolbelt/Watch/Again.antt =====
-- A poll that brings the same rows again is silent.
use mx_loom.Common.{
  ◌≡◌, refl, sym, ap, ◌∙◌, subst, Bool, true, false, not, ◌||◌, ◌&&◌, Option, some, List, [], ◌∷◌,
  ◌++◌, if◌then◌else◌, any, All, and_split,
}
use mx_loom.Text.{Text, eq_text, eq_text_refl, is_empty}
use mx_loom.Json.{Value}
use mx_loom.Toolbelt.Plan.{TaskCursor, project_resumed_task, advance_cursor}
use mx_loom.Toolbelt.Plan.Cursor.{advance_cursor-max}
use mx_loom.Toolbelt.Watch.{
  Printer, Watcher, WatchEvent, Effect, lookup, is_signature, poll_row, poll_rows, absorb, run,
  watch_tasks,
}
use mx_loom.Toolbelt.Watch.News.{Tidy, is_known, seen_after, all_seen}
use mx_loom.Toolbelt.Watch.Rows.{poll_rows-Passed}
use mx_loom.Toolbelt.Watch.Queue.{watcher-InOrder}

abbrev row_id : Value → Text
row_id row = (project_resumed_task row).task_id

-- No other row has the id of this one, unless it has none.
abbrev pub alone : Value → List Value → Bool
alone row rows = is_empty (row_id row) || not (any (λ r. eq_text (row_id row) (row_id r)) rows)

abbrev pub once_each : List Value → Bool
once_each [] = true
once_each (row ∷ rows) = alone row rows && once_each rows

if_true : {A : Type 0} (b : Bool) (x y : A) → b ≡ true → (if b then x else y) ≡ x
if_true b x y h = rw h

if_cases :
    {A : Type 0} (P : A → Type 0) (b : Bool) (x y : A)
    → (b ≡ true → P x)
    → (b ≡ false → P y)
    → P (if b then x else y)
if_cases P true x y p q = p refl
if_cases P false x y p q = q refl

known_entry :
    (e : Bool) (id signature : Text) (seen : List (Text × Text))
    → (e || is_signature (if eq_text id id then some signature else lookup id seen) signature)
      ≡ true
known_entry true id signature seen = refl
known_entry false id signature seen = rw (eq_text_refl id, eq_text_refl signature)

other_entry :
    (e b : Bool) (s : Text) (old : Option Text) (signature : Text)
    → (e || not b) ≡ true
    → (e || is_signature old signature) ≡ true
    → (e || is_signature (if b then some s else old) signature) ≡ true
other_entry true b s old signature h k = refl
other_entry false true s old signature h k = absurd cc
other_entry false false s old signature h k = k

alone_split :
    (e b c : Bool) → (e || not (b || c)) ≡ true → ((e || not b) ≡ true) × ((e || not c) ≡ true)
alone_split true b c h = (refl, refl)
alone_split false true c h = absurd cc
alone_split false false c h = (refl, h)

module _ (printer : Printer) where
  abbrev Known : List (Text × Text) → Value → Type 0
  Known seen row = is_known printer seen row ≡ true

  seen_after-Known :
      (seen : List (Text × Text)) (row : Value) → Known (seen_after printer seen row) row
  unfolding lookup
  seen_after-Known seen row =
      if_cases (λ s. Known s row) (is_known printer seen row) seen _ (λ h. h)
        (λ h. known_entry _ _ _ seen)

  -- A row that is known stays so after a row with another id.
  stays-Known :
      (seen : List (Text × Text)) (row other : Value)
      → (is_empty (row_id row) || not (eq_text (row_id row) (row_id other))) ≡ true
      → Known seen row
      → Known (seen_after printer seen other) row
  unfolding lookup
  stays-Known seen row other a k =
      if_cases (λ s. Known s row) (is_known printer seen other) seen _ (λ h. k)
        (λ h. other_entry _ _ _ _ _ a k)

  all_seen-Known :
      (seen : List (Text × Text)) (row : Value) (rows : List Value)
      → alone row rows ≡ true
      → Known seen row
      → Known (all_seen printer seen rows) row
  unfolding all_seen
  all_seen-Known seen row [] a k = k
  all_seen-Known seen row (other ∷ rows) a k =
      let (a2, a1) = alone_split _ _ _ a in
      all_seen-Known (seen_after printer seen other) row rows a1 (stays-Known seen row other a2 k)

  batch-Known :
      (seen : List (Text × Text)) (rows : List Value)
      → once_each rows ≡ true
      → All (Known (all_seen printer seen rows)) rows
  unfolding all_seen
  batch-Known seen [] o = tt
  batch-Known seen (row ∷ rows) o =
      let (a, o') = and_split (alone row rows) (once_each rows) o in
      (
        all_seen-Known (seen_after printer seen row) row rows a (seen_after-Known seen row),
        batch-Known (seen_after printer seen row) rows o',
      )

  silent_row :
      (cursor : TaskCursor) (w : Watcher) (row : Value)
      → Known w.seen row
      → poll_row printer cursor w row ≡ (w, [])
  unfolding poll_row
  silent_row cursor w row k = if_true _ _ _ k

  silent_rows :
      (cursor : TaskCursor) (w : Watcher) (rows : List Value)
      → All (Known w.seen) rows
      → poll_rows printer cursor w rows ≡ (w, [])
  unfolding poll_rows poll_row
  silent_rows cursor w [] k = refl
  silent_rows cursor w (row ∷ rows) (k, ks) =
      ap
        (λ r. ((poll_rows printer cursor r.0 rows).0, r.1 ++ (poll_rows printer cursor r.0 rows).1))
        (silent_row cursor w row k)
      ∙ silent_rows cursor w rows ks

  -- The watcher after a batch, where it runs.
  abbrev after_batch : Watcher → List Value → Watcher × List Effect
  after_batch w rows =
      let next = advance_cursor (some w.cursor) rows in
      let r = poll_rows printer next w rows in (record r.0 { cursor = next }, r.1)

  absorb_running :
      (w : Watcher) (rows : List Value)
      → w.stopped ≡ false
      → absorb printer w rows ≡ after_batch w rows
  unfolding absorb
  absorb_running w rows h = rw h

  again :
      (w : Watcher) (rows : List Value)
      → w.stopped ≡ false
      → Tidy w
      → once_each rows ≡ true
      → absorb printer (after_batch w rows).0 rows ≡ ((after_batch w rows).0, [])
  again w rows h t o =
      let next = advance_cursor (some w.cursor) rows in
      let w1 = (after_batch w rows).0 in
      let (t1, s1, e1, i1, q1) =
        poll_rows-Passed printer next w.seen w.initial_rev w rows h refl refl t in
      let known : All (Known w1.seen) rows =
        subst (λ seen. All (Known seen) rows) (sym e1) (batch-Known w.seen rows o) in
      let (_, _, _, _, settled) = advance_cursor-max w.cursor rows in
      absorb_running w1 rows (s1 ∙ h)
      ∙ ap (λ r. (record r.0 { cursor = advance_cursor (some next) rows }, r.1))
          (silent_rows (advance_cursor (some next) rows) w1 rows known)
      ∙ ap (λ c. (record w1 { cursor = c }, [])) settled

  absorb-again :
      (w : Watcher) (rows : List Value)
      → w.stopped ≡ false
      → Tidy w
      → once_each rows ≡ true
      → absorb printer (absorb printer w rows).0 rows ≡ ((absorb printer w rows).0, [])
  absorb-again w rows h t o = rw (absorb_running w rows h, again w rows h t o)

-- However a watcher came to be as it is: if it runs and no two rows have one id, a poll that brings
-- the rows of the poll before once more emits nothing and leaves the watcher as it is.
pub same_rows_silent :
    (printer : Printer) (room method : Option Text) (cursor : Option TaskCursor)
    (events : List WatchEvent) (rows : List Value)
    → (run printer (watch_tasks room method cursor) events).0.stopped ≡ false
    → once_each rows ≡ true
    → absorb printer
        (absorb printer (run printer (watch_tasks room method cursor) events).0 rows).0
        rows
      ≡ ((absorb printer (run printer (watch_tasks room method cursor) events).0 rows).0, [])
same_rows_silent printer room method cursor events rows h o =
    absorb-again printer (run printer (watch_tasks room method cursor) events).0 rows h
      (watcher-InOrder printer room method cursor events).0 o
