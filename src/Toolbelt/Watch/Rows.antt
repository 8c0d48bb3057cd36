-- ===== src/Toolbelt/Watch/Rows.antt =====
-- The loop over the rows of a batch: what each row hands out, or leaves in the buffer.
use mx_loom.Common.{
  subst, ◌≡◌, refl, sym, ap, ◌∙◌, ℕ, Bool, true, false, Option, List, [], ◌∷◌, ◌++◌, if◌then◌else◌,
}
use mathlib.Core.List.{append_assoc, append-nil}
use mx_loom.Text.{Text}
use mx_loom.Json.{Value}
use mx_loom.Json.Number.{WireNumber}
use mx_loom.Toolbelt.Plan.{TaskCursor}
use mx_loom.Toolbelt.Watch.{Printer, TaskDelta, Watcher, Effect, emit_to, emit, poll_row, poll_rows}
use mx_loom.Toolbelt.Watch.News.{
  Unblocked, Released, Tidy, deliveries, deliveries-append, seen_after, all_seen, row_news, fresh,
}

-- A watcher that runs on: it is tidy, its rows are seen as `seen` says, and what it handed out with
-- what is left in the buffer is what was in the buffer with the news behind.
abbrev pub Passed : Watcher → List (Text × Text) → Watcher × List Effect → List TaskDelta → Type 0
Passed w seen r news =
    Tidy r.0
    × (r.0.stopped ≡ w.stopped)
    × (r.0.seen ≡ seen)
    × (r.0.initial_rev ≡ w.initial_rev)
    × (deliveries r.1 ++ r.0.buffer ≡ w.buffer ++ news)

pub Released-running : (b : Bool) (ws : List ℕ) → b ≡ false → Released b ws
Released-running false ws h = elim ws [ [] ↦ tt | c ∷ cs ↦ tt ]
Released-running true ws h = absurd cc

emit_to-Passed :
    (waiters : List ℕ) (buffer : List TaskDelta) (w : Watcher) (delta : TaskDelta)
    → w.stopped ≡ false
    → Unblocked waiters buffer
    → Passed
        (record w { waiters = waiters; buffer = buffer })
        w.seen
        (emit_to waiters (record w { waiters = waiters; buffer = buffer }) delta)
        (delta ∷ [])
emit_to-Passed [] buffer w delta h t =
    ((tt, Released-running w.stopped [] h), refl, refl, refl, refl)
emit_to-Passed (c ∷ []) [] w delta h t =
    ((tt, Released-running w.stopped [] h), refl, refl, refl, refl)
emit_to-Passed (c ∷ b ∷ cs) [] w delta h t =
    ((tt, Released-running w.stopped (b ∷ cs) h), refl, refl, refl, refl)
emit_to-Passed (c ∷ cs) (d ∷ ds) w delta h t = absurd t

emit-Passed :
    (w : Watcher) (delta : TaskDelta)
    → w.stopped ≡ false
    → Tidy w
    → Passed w w.seen (emit w delta) (delta ∷ [])
unfolding emit
emit-Passed w delta h t = emit_to-Passed w.waiters w.buffer w delta h t.0

still-Passed : (w : Watcher) → Tidy w → Passed w w.seen (w, []) []
still-Passed w t = (t, refl, refl, refl, sym (append-nil w.buffer))

-- The three ways of a row, by its two tests.
row-Passed :
    (known old : Bool) (w : Watcher) (entry : Text × Text) (delta : TaskDelta)
    → w.stopped ≡ false
    → Tidy w
    → Passed w
        (if known then w.seen else entry ∷ w.seen)
        (if known
          then (w, [])
          else if old
          then (record w { seen = entry ∷ w.seen }, [])
          else emit (record w { seen = entry ∷ w.seen }) delta)
        (if known then [] else if old then [] else delta ∷ [])
row-Passed true old w entry delta h t = still-Passed w t
row-Passed false true w entry delta h t = (t, refl, refl, refl, sym (append-nil w.buffer))
row-Passed false false w entry delta h t =
    emit-Passed (record w { seen = entry ∷ w.seen }) delta h t

poll_row-Passed :
    (printer : Printer) (cursor : TaskCursor) (w : Watcher) (row : Value)
    → w.stopped ≡ false
    → Tidy w
    → Passed w
        (seen_after printer w.seen row)
        (poll_row printer cursor w row)
        (row_news printer cursor w.initial_rev w.seen row)
unfolding poll_row
poll_row-Passed printer cursor w row h t = row-Passed _ _ w _ _ h t

-- One stretch after another.
pub joined_order :
    (w : Watcher) (r1 r2 : Watcher × List Effect) (news more : List TaskDelta)
    → deliveries r1.1 ++ r1.0.buffer ≡ w.buffer ++ news
    → deliveries r2.1 ++ r2.0.buffer ≡ r1.0.buffer ++ more
    → deliveries (r1.1 ++ r2.1) ++ r2.0.buffer ≡ w.buffer ++ (news ++ more)
joined_order w r1 r2 news more q q2 =
    let joined : deliveries r1.1 ++ (r1.0.buffer ++ more) ≡ w.buffer ++ (news ++ more) =
      sym (append_assoc (deliveries r1.1) r1.0.buffer more)
      ∙ ap (λ l. l ++ more) q
      ∙ append_assoc w.buffer news more in
    rw (deliveries-append r1.1 r2.1, append_assoc, q2, joined)

then-Passed :
    (w : Watcher) (seen later : List (Text × Text)) (r1 r2 : Watcher × List Effect)
    (news more : List TaskDelta)
    → Passed w seen r1 news
    → Passed r1.0 later r2 more
    → Passed w later (r2.0, r1.1 ++ r2.1) (news ++ more)
then-Passed w seen later r1 r2 news more (t, s, e, i, q) (t2, s2, e2, i2, q2) =
    (t2, s2 ∙ s, e2, i2 ∙ i, joined_order w r1 r2 news more q q2)

-- The same at what the watcher has seen and where it began, named.
poll_row_from-Passed :
    (printer : Printer) (cursor : TaskCursor) (seen : List (Text × Text))
    (initial : Option WireNumber) (w : Watcher) (row : Value)
    → w.stopped ≡ false
    → w.seen ≡ seen
    → w.initial_rev ≡ initial
    → Tidy w
    → Passed w
        (seen_after printer seen row)
        (poll_row printer cursor w row)
        (row_news printer cursor initial seen row)
poll_row_from-Passed printer cursor seen initial w row h e i t =
    subst
      (λ m.
        Passed w (seen_after printer seen row) (poll_row printer cursor w row)
          (row_news printer cursor m seen row))
      i
      (subst
        (λ s.
          Passed w (seen_after printer s row) (poll_row printer cursor w row)
            (row_news printer cursor w.initial_rev s row))
        e (poll_row-Passed printer cursor w row h t))

pub poll_rows-Passed :
    (printer : Printer) (cursor : TaskCursor) (seen : List (Text × Text))
    (initial : Option WireNumber) (w : Watcher) (rows : List Value)
    → w.stopped ≡ false
    → w.seen ≡ seen
    → w.initial_rev ≡ initial
    → Tidy w
    → Passed w
        (all_seen printer seen rows)
        (poll_rows printer cursor w rows)
        (fresh printer cursor initial seen rows)
unfolding poll_rows fresh all_seen
poll_rows-Passed printer cursor seen initial w [] h e i t =
    (t, refl, e, refl, sym (append-nil w.buffer))
poll_rows-Passed printer cursor seen initial w (row ∷ rows) h e i t =
    let (t1, s1, e1, i1, q1) = poll_row_from-Passed printer cursor seen initial w row h e i t in
    then-Passed w (seen_after printer seen row)
      (all_seen printer (seen_after printer seen row) rows) (poll_row printer cursor w row)
      (poll_rows printer cursor (poll_row printer cursor w row).0 rows)
      (row_news printer cursor initial seen row)
      (fresh printer cursor initial (seen_after printer seen row) rows) (t1, s1, e1, i1, q1)
      (poll_rows-Passed printer cursor (seen_after printer seen row) initial
        (poll_row printer cursor w row).0 rows (s1 ∙ h) e1 (i1 ∙ i) t1)
