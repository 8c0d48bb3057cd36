-- ===== src/Toolbelt/Watch/Queue.antt =====
-- Between the poll and the consumers of a watcher: nothing is lost, doubled or put out of order.
use mx_loom.Common.{
  if_both, ◌≡◌, refl, sym, ap, ℕ, Bool, true, false, Option, none, some, List, [], ◌∷◌, ◌++◌,
  if◌then◌else◌,
}
use mathlib.Core.List.{append-nil}
use mx_loom.Text.{Text}
use mx_loom.Json.{Value}
use mx_loom.Toolbelt.Transport.{Outcome, resolved, rejected}
use mx_loom.Toolbelt.Plan.{TaskCursor, read_task_rows, advance_cursor}
use mx_loom.Toolbelt.Watch.{
  Printer, TaskDelta, Phase, idle, awaiting_watch, awaiting_list, Watcher, WatchEvent, ticked,
  settled, asked, halted, Effect, ended, absorb, at_rest, fetch, on_tick, on_settled, next, end_all,
  stop, step, run, watch_tasks,
}
use mx_loom.Toolbelt.Watch.News.{
  Unblocked, Released, Tidy, deliveries, batch, polled, news_of, all_news,
}
use mx_loom.Toolbelt.Watch.Rows.{Released-running, joined_order, poll_rows-Passed}

-- A step keeps a watcher tidy and hands out in order.
abbrev InOrder : Watcher → Watcher × List Effect → List TaskDelta → Type 0
InOrder w r news = Tidy r.0 × (deliveries r.1 ++ r.0.buffer ≡ w.buffer ++ news)

unchanged-InOrder :
    (w w' : Watcher) (effects : List Effect)
    → Tidy w'
    → w'.buffer ≡ w.buffer
    → deliveries effects ≡ []
    → InOrder w (w', effects) []
unchanged-InOrder w w' effects t b d = (t, rw (b, d, append-nil))

unless-InOrder :
    (b : Bool) (w : Watcher) (r : Watcher × List Effect) (news : List TaskDelta)
    → Tidy w
    → (b ≡ false → InOrder w (at_rest r) news)
    → InOrder w (at_rest (if b then (w, []) else r)) (if b then [] else news)
unless-InOrder true w r news t k = (t, sym (append-nil w.buffer))
unless-InOrder false w r news t k = k refl

absorb-InOrder :
    (printer : Printer) (w : Watcher) (rows : List Value)
    → Tidy w
    → InOrder w (at_rest (absorb printer w rows)) (if w.stopped then [] else batch printer w rows)
unfolding absorb
absorb-InOrder printer w rows t = unless-InOrder w.stopped w _ _ t (λ h.
    let (t1, s1, e1, i1, q1) =
      poll_rows-Passed printer (advance_cursor (some w.cursor) rows) w.seen w.initial_rev w rows h
        refl refl t in
    (t1, q1))

fetch-InOrder : (w : Watcher) (method : Option Text) → Tidy w → InOrder w (fetch method w) []
fetch-InOrder w none t = (t, sym (append-nil w.buffer))
fetch-InOrder w (some m) t = (t, sym (append-nil w.buffer))

on_tick-InOrder : (w : Watcher) (phase : Phase) → Tidy w → InOrder w (on_tick w phase) []
unfolding on_tick
on_tick-InOrder w idle t =
    if_both (λ r. InOrder w r []) w.stopped (w, []) (fetch w.watch_method w)
      (t, sym (append-nil w.buffer)) (fetch-InOrder w w.watch_method t)
on_tick-InOrder w awaiting_watch t = (t, sym (append-nil w.buffer))
on_tick-InOrder w awaiting_list t = (t, sym (append-nil w.buffer))

-- What a settled call is worth.
abbrev settled_news : Printer → Watcher → Phase → Outcome Value → List TaskDelta
settled_news printer w phase (resolved v) = polled printer w phase (read_task_rows v)
settled_news printer w phase (rejected err) = []

on_settled-InOrder :
    (printer : Printer) (w : Watcher) (phase : Phase) (outcome : Outcome Value)
    → Tidy w
    → InOrder w (on_settled printer w phase outcome) (settled_news printer w phase outcome)
unfolding on_settled
on_settled-InOrder printer w idle (resolved v) t = (t, sym (append-nil w.buffer))
on_settled-InOrder printer w idle (rejected err) t = (t, sym (append-nil w.buffer))
on_settled-InOrder printer w awaiting_watch (resolved v) t =
    absorb-InOrder printer w (read_task_rows v) t
on_settled-InOrder printer w awaiting_list (resolved v) t =
    absorb-InOrder printer w (read_task_rows v) t
on_settled-InOrder printer w awaiting_watch (rejected err) t = (t, sym (append-nil w.buffer))
on_settled-InOrder printer w awaiting_list (rejected err) t = (t, sym (append-nil w.buffer))

Unblocked-empty : (waiters : List ℕ) → Unblocked waiters []
Unblocked-empty [] = tt
Unblocked-empty (c ∷ cs) = tt

Unblocked-shorter :
    (waiters : List ℕ) (d : TaskDelta) (ds : List TaskDelta)
    → Unblocked waiters (d ∷ ds)
    → Unblocked waiters ds
Unblocked-shorter [] d ds t = tt
Unblocked-shorter (c ∷ cs) d ds t = absurd t

park-InOrder :
    (stopped : Bool) (w : Watcher) (consumer : ℕ)
    → Released stopped w.waiters
    → InOrder
        (record w { buffer = []; stopped = stopped })
        (if stopped then (record w { buffer = []; stopped = stopped }, ended consumer ∷ []) else (
          record w { buffer = []; stopped = stopped; waiters = w.waiters ++ (consumer ∷ []) },
          [],
        ))
        []
park-InOrder true w consumer t = ((Unblocked-empty w.waiters, t), refl)
park-InOrder false w consumer t = (
  (
    Unblocked-empty (w.waiters ++ (consumer ∷ [])),
    Released-running false (w.waiters ++ (consumer ∷ [])) refl,
  ),
  refl,
)

next-InOrder :
    (w : Watcher) (consumer : ℕ) (buffer : List TaskDelta)
    → Tidy (record w { buffer = buffer })
    → InOrder
        (record w { buffer = buffer })
        (next (record w { buffer = buffer }) consumer buffer)
        []
unfolding next
next-InOrder w consumer [] t = park-InOrder w.stopped w consumer t.1
next-InOrder w consumer (d ∷ ds) t =
    ((Unblocked-shorter w.waiters d ds t.0, t.1), ap (λ l. d ∷ l) (sym (append-nil ds)))

deliveries-end_all : (waiters : List ℕ) → deliveries (end_all waiters) ≡ []
deliveries-end_all [] = refl
deliveries-end_all (c ∷ cs) = deliveries-end_all cs

stop-InOrder : (w : Watcher) → Tidy w → InOrder w (stop w) []
unfolding stop
stop-InOrder w t =
    if_both (λ r. InOrder w r []) w.stopped (w, [])
      (record w { stopped = true; waiters = [] }, end_all w.waiters) (t, sym (append-nil w.buffer))
      ((tt, tt), rw (deliveries-end_all w.waiters, append-nil))

step-InOrder :
    (printer : Printer) (w : Watcher) (event : WatchEvent)
    → Tidy w
    → InOrder w (step printer w event) (news_of printer w event)
unfolding step
step-InOrder printer w ticked t = on_tick-InOrder w w.phase t
step-InOrder printer w (settled (resolved v)) t =
    on_settled-InOrder printer w w.phase (resolved v) t
step-InOrder printer w (settled (rejected e)) t =
    on_settled-InOrder printer w w.phase (rejected e) t
step-InOrder printer w (asked consumer) t = next-InOrder w consumer w.buffer t
step-InOrder printer w halted t = stop-InOrder w t

run-InOrder :
    (printer : Printer) (w : Watcher) (events : List WatchEvent)
    → Tidy w
    → InOrder w (run printer w events) (all_news printer w events)
unfolding run all_news
run-InOrder printer w [] t = (t, sym (append-nil w.buffer))
run-InOrder printer w (event ∷ events) t =
    let (t1, q1) = step-InOrder printer w event t in
    let (t2, q2) = run-InOrder printer (step printer w event).0 events t1 in
    (
      t2,
      joined_order w (step printer w event) (run printer (step printer w event).0 events) _ _ q1 q2,
    )

-- Whatever happens to a watcher, in whatever order: the deltas that were handed out, in order, with
-- those that are in the buffer behind are the news of the polls, in order, none lost and none twice;
-- never do a delta and a consumer both wait, and after a stop no consumer waits.
pub watcher-InOrder :
    (printer : Printer) (room method : Option Text) (cursor : Option TaskCursor)
    (events : List WatchEvent)
    → Tidy (run printer (watch_tasks room method cursor) events).0
      × (deliveries (run printer (watch_tasks room method cursor) events).1
            ++ (run printer (watch_tasks room method cursor) events).0.buffer
          ≡ all_news printer (watch_tasks room method cursor) events)
unfolding watch_tasks
watcher-InOrder printer room method cursor events =
    run-InOrder printer (watch_tasks room method cursor) events (tt, tt)
