-- ===== src/Toolbelt/Client/Laws.antt =====
-- What one call of the client dispatches, and what it returns.
use mx_loom.Common.{Bool, true, false, ◌≡◌, ◌⊎◌, true, false, Option, none, some, ◌∷◌, ◌++◌, All}
use mx_loom.Text.{Text}
use mx_loom.Json.{Value}
use mx_loom.Toolbelt.Transport.{
  not_running, invalid_args, Thrown, transport_error, Outcome, resolved, rejected,
}
use mx_loom.Toolbelt.Guards.{redact_secrets}
use mx_loom.Toolbelt.Guards.Laws.{no_secret}
use mx_loom.Toolbelt.Retry.{RetryPolicy, is_retryable, RetryEvent, attempted, waited}
use mx_loom.Toolbelt.Client.{Which, MxClient, Calls, World, Result}

-- A failure after which a call may be sent again.
abbrev pub MayRepeat : Option RetryPolicy → Thrown → Type 0
MayRepeat none err = err ≡ transport_error not_running
MayRepeat (some policy) err = (is_retryable policy err ≡ true) ⊎ (err ≡ transport_error not_running)

abbrev pub Repeated : Option RetryPolicy → RetryEvent Which Value → Type 0
Repeated retry (attempted t (resolved v)) = ⊥
Repeated retry (attempted t (rejected err)) = MayRepeat retry err
Repeated retry (waited err n d) = Unit

abbrev pub Noted : Which → Outcome Value → MxClient → Type 0
Noted which (resolved v) c = c.active ≡ some which
Noted which (rejected err) c = Unit

-- What a caller is shown of the daemon's answer.
abbrev pub Shown : Outcome Value → Outcome Value → Type 0
Shown (resolved v) out = (out ≡ resolved (redact_secrets v)) × (no_secret (redact_secrets v) ≡ true)
Shown (rejected err) out = out ≡ rejected err

-- A call that ended: its outcome is that of the last attempt, each attempt before it failed in a way
-- that may be repeated, and a success is what the client sticks to.
abbrev pub Dispatched : Option RetryPolicy → Calls → Result → Type 0
Dispatched retry log none = ⊥
Dispatched retry log (some (out, c, log')) =
    (which : Which) × (more : Calls) × (log' ≡ attempted which out ∷ (more ++ log))
    × All (Repeated retry) more
    × (c.retry ≡ retry)
    × Noted which out c

module _ (world : World) (method : Text) (params : Value) where
  -- A call as its caller sees it: the outcome of the last attempt, where a success is redacted.
  abbrev pub Answers : Option RetryPolicy → Calls → Result → Type 0
  Answers retry log none = ⊥
  Answers retry log (some (out, c, log')) =
      (which : Which) × (raw : Outcome Value) × (more : Calls) × (log'
        ≡ attempted which raw ∷ (more ++ log))
      × All (Repeated retry) more
      × Noted which raw c
      × Shown raw out

  -- By whether the guard lets the parameters pass: what a call ends in.
  abbrev pub CallEnds : Bool → MxClient → Calls → Result → Type 0
  CallEnds false c log r = r ≡ some (rejected (transport_error invalid_args), c, log)
  CallEnds true c log r = Answers c.retry log r
