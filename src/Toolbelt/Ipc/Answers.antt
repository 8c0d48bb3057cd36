-- ===== src/Toolbelt/Ipc/Answers.antt =====
-- A response goes to the call whose id it carries.
use mx_loom.Common.{◌<◌, ◌^◌, List, All}
use mx_loom.Toolbelt.Ipc.Table.{Ticket}

-- The counters are of 32 bits.
abbrev pub Counters : List Ticket → Type 0
Counters ts = All (λ (t : Ticket). t.key < 2 ^ 32) ts
