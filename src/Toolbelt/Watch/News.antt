-- ===== src/Toolbelt/Watch/News.antt =====
-- What the polls of a watcher are worth, apart from who takes it: the deltas that are news.
use mx_loom.Common.{
  ◌≡◌, refl, ap, ℕ, Bool, true, not, ◌||◌, ◌&&◌, Option, some, List, [], ◌∷◌, ◌++◌, is_some,
  if◌then◌else◌,
}
use mx_loom.Text.{Text, is_empty}
use mx_loom.Json.{Value}
use mx_loom.Json.Number.{WireNumber}
use mx_loom.Toolbelt.Transport.{resolved}
use mx_loom.Toolbelt.Plan.{
  TaskCursor, project_resumed_task, read_task_rev, read_task_rows, advance_cursor,
}
use mx_loom.Toolbelt.Watch.{
  Printer, TaskDelta, Phase, idle, Watcher, WatchEvent, settled, Effect, called, reported,
  delivered, ended, task_signature, lookup, is_signature, predates, step,
}

-- Never a consumer that waits and a delta that waits.
abbrev pub Unblocked : List ℕ → List TaskDelta → Type 0
Unblocked [] buffer = Unit
Unblocked (c ∷ cs) [] = Unit
Unblocked (c ∷ cs) (d ∷ ds) = ⊥

-- No consumer waits after the stop.
abbrev pub Released : Bool → List ℕ → Type 0
Released true (c ∷ cs) = ⊥
Released stopped waiters = Unit

abbrev pub Tidy : Watcher → Type 0
Tidy w = Unblocked w.waiters w.buffer × Released w.stopped w.waiters

abbrev pub deliveries : List Effect → List TaskDelta
deliveries [] = []
deliveries (delivered consumer delta ∷ effects) = delta ∷ deliveries effects
deliveries (_ ∷ effects) = deliveries effects

pub deliveries-append :
    (es fs : List Effect) → deliveries (es ++ fs) ≡ deliveries es ++ deliveries fs
deliveries-append [] fs = refl
deliveries-append (delivered c d ∷ es) fs = ap (λ t. d ∷ t) (deliveries-append es fs)
deliveries-append (called m p ∷ es) fs = deliveries-append es fs
deliveries-append (reported c ∷ es) fs = deliveries-append es fs
deliveries-append (ended c ∷ es) fs = deliveries-append es fs

-- What one row adds to what was seen, and the delta that it is worth, by what was seen before.
abbrev pub is_known : Printer → List (Text × Text) → Value → Bool
is_known printer seen row =
    let task = project_resumed_task row in
    is_empty task.task_id
    || is_signature (lookup task.task_id seen) (task_signature printer task (read_task_rev row))

abbrev pub is_old : Option WireNumber → List (Text × Text) → Value → Bool
is_old initial seen row =
    not (is_some (lookup (project_resumed_task row).task_id seen))
    && predates (read_task_rev row) initial

abbrev pub seen_after : Printer → List (Text × Text) → Value → List (Text × Text)
seen_after printer seen row =
    let task = project_resumed_task row in
    if is_known printer seen row
    then seen
    else (task.task_id, task_signature printer task (read_task_rev row)) ∷ seen

abbrev pub row_news :
    Printer → TaskCursor → Option WireNumber → List (Text × Text) → Value → List TaskDelta
row_news printer cursor initial seen row =
    if is_known printer seen row
    then []
    else if is_old initial seen row
    then []
    else record { task = project_resumed_task row; cursor = cursor } ∷ []

unfoldable pub fresh :
    Printer → TaskCursor → Option WireNumber → List (Text × Text) → List Value → List TaskDelta
fresh printer cursor initial seen [] = []
fresh printer cursor initial seen (row ∷ rows) =
    row_news printer cursor initial seen row
    ++ fresh printer cursor initial (seen_after printer seen row) rows

unfoldable pub all_seen : Printer → List (Text × Text) → List Value → List (Text × Text)
all_seen printer seen [] = seen
all_seen printer seen (row ∷ rows) = all_seen printer (seen_after printer seen row) rows

-- The deltas that a settled call is worth, and those that all calls of a run are.
abbrev pub batch : Printer → Watcher → List Value → List TaskDelta
batch printer w rows = fresh printer (advance_cursor (some w.cursor) rows) w.initial_rev w.seen rows

abbrev pub polled : Printer → Watcher → Phase → List Value → List TaskDelta
polled printer w idle rows = []
polled printer w phase rows = if w.stopped then [] else batch printer w rows

abbrev pub news_of : Printer → Watcher → WatchEvent → List TaskDelta
news_of printer w (settled (resolved v)) = polled printer w w.phase (read_task_rows v)
news_of printer w event = []

unfoldable pub all_news : Printer → Watcher → List WatchEvent → List TaskDelta
all_news printer w [] = []
all_news printer w (event ∷ events) =
    news_of printer w event ++ all_news printer (step printer w event).0 events
