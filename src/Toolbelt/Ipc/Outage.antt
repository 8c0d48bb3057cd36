-- ===== src/Toolbelt/Ipc/Outage.antt =====
-- An outage settles every call that was written.
use mx_loom.Common.{
  ℕ, ◌≡◌, refl, ap, ◌∙◌, arith, false, ◌==◌, Option, none, some, List, [], ◌∷◌, ◌++◌, if◌then◌else◌,
  Bool-cases, inl, inr, get_or, subst, ◌&&◌, not,
}
use mathlib.Core.List.{append-nil}
use mx_loom.Toolbelt.Transport.{
  TransportErrorCode, rejected, transport_error, connect_failed, closed,
}
use mx_loom.Toolbelt.Framing.{Utf8}
use mx_loom.Toolbelt.Descriptor.{JsonCodec}
use mx_loom.Toolbelt.Ipc.Table.{
  Ticket, IpcClient, IpcEffect, IpcEvent, errored, requested, connected, refused, started, received,
  torn_down, elsewhere, timed_out, write_failed, written, hung_up, closing, mem, without, settle,
  finish, then_do, fail_entries, fail_all, calls_of, settled, opening, sent, ending, tearing,
  uncaught, drop_call,
}
use mx_loom.Toolbelt.Ipc.Handle.{end_socket, close}
use mx_loom.Toolbelt.Ipc.Steps.{step}
use mx_loom.Toolbelt.Ipc.Open.{mem-without_same, mem-without_other}

-- The code with which an event fails every call that was written, if it does.
abbrev pub outage : IpcEvent → Option TransportErrorCode
outage errored = some connect_failed
outage hung_up = some closed
outage closing = some closed
outage _ = none

-- The calls settle with the code, in order, those that had not settled before.
abbrev pub rejections : TransportErrorCode → List ℕ → List ℕ → List IpcEffect
rejections code [] ms = []
rejections code (n ∷ ns) ms =
    let rest = rejections code ns (without n ms) in
    if mem n ms then settled n (rejected (transport_error code)) ∷ rest else rest

abbrev pub without_all : List ℕ → List ℕ → List ℕ
without_all [] ms = ms
without_all (n ∷ ns) ms = without_all ns (without n ms)

-- The effects that settle a call.
abbrev pub settlements : List IpcEffect → List IpcEffect
settlements [] = []
settlements (settled n o ∷ es) = settled n o ∷ settlements es
settlements (_ ∷ es) = settlements es

without_absent : (n : ℕ) (ms : List ℕ) → mem n ms ≡ false → without n ms ≡ ms
without_absent n [] h = refl
without_absent n (m ∷ ms) h = grind (arith, without_absent n ms)

mem-without_all :
    (n : ℕ) (ns ms : List ℕ) → mem n (without_all ns ms) ≡ (mem n ms && not (mem n ns))
mem-without_all n [] ms = grind arith
mem-without_all n (k ∷ ns) ms = elim (Bool-cases (n == k)) [
  | inl e ↦ grind (arith, mem-without_all n ns (without k ms), mem-without_same n ms)
  | inr e ↦ rw (mem-without_all n ns (without k ms), mem-without_other n k ms e, e)
]

module _ (code : TransportErrorCode) where
  settled_open :
      (n : ℕ) (s : IpcClient)
      → (settle n (rejected (transport_error code)) s).0.open_calls ≡ without n s.open_calls
  unfolding settle
  settled_open n s = elim (Bool-cases (mem n s.open_calls)) [
    | inl h ↦ rw h
    | inr h ↦ rw (h, without_absent n s.open_calls h)
  ]

  entries_open :
      (ts : List Ticket) (s : IpcClient)
      → (fail_entries code ts s).0.open_calls ≡ without_all (calls_of ts) s.open_calls
  unfolding fail_entries
  entries_open [] s = refl
  entries_open (t ∷ ts) s =
      entries_open ts (finish t.call (rejected (transport_error code)) s).0
      ∙ ap (without_all (calls_of ts))
          (settled_open t.call (record s { timers = drop_call t.call s.timers }))

  entries_effects :
      (ts : List Ticket) (s : IpcClient)
      → (fail_entries code ts s).1 ≡ rejections code (calls_of ts) s.open_calls
  unfolding fail_entries settle
  entries_effects [] s = refl
  entries_effects (t ∷ ts) s =
      let later = entries_effects ts (finish t.call (rejected (transport_error code)) s).0 in
      elim (Bool-cases (mem t.call s.open_calls)) [
        | inl h ↦ rw (later, h)
        | inr h ↦ rw (later, h, without_absent t.call s.open_calls h)
      ]

  settlements-rejections :
      (ns ms : List ℕ) → settlements (rejections code ns ms) ≡ rejections code ns ms
  settlements-rejections [] ms = refl
  settlements-rejections (n ∷ ns) ms =
      let later = settlements-rejections ns (without n ms) in
      elim (Bool-cases (mem n ms)) [ inl h ↦ rw (h, later) | inr h ↦ rw (h, later) ]

settlements-append :
    (es fs : List IpcEffect) → settlements (es ++ fs) ≡ settlements es ++ settlements fs
settlements-append [] fs = refl
settlements-append (settled n o ∷ es) fs = ap (λ l. settled n o ∷ l) (settlements-append es fs)
settlements-append (opening c ∷ es) fs = settlements-append es fs
settlements-append (sent c bytes ∷ es) fs = settlements-append es fs
settlements-append (ending c ∷ es) fs = settlements-append es fs
settlements-append (tearing c ∷ es) fs = settlements-append es fs
settlements-append (uncaught ∷ es) fs = settlements-append es fs

-- A part of a step that leaves the calls alone.
Idle : IpcClient → IpcClient × List IpcEffect → Type 0
Idle s (s', effects) =
    (s'.pending ≡ s.pending) × (s'.open_calls ≡ s.open_calls) × (settlements effects ≡ [])

end_socket-Idle : (c : Option ℕ) (s : IpcClient) → Idle s (end_socket c s)
unfolding Idle
end_socket-Idle none s = (refl, refl, refl)
end_socket-Idle (some c) s = elim (Bool-cases (mem c s.destroyed)) [
  | inl h ↦ rw h (refl, refl, refl)
  | inr h ↦ rw h (refl, refl, refl)
]

module _ (code : TransportErrorCode) (s : IpcClient) (n : ℕ) where
  -- What an outage does to the calls.
  abbrev Fails : IpcClient × List IpcEffect → Type 0
  Fails r =
      (r.0.pending ≡ [])
      × (mem n r.0.open_calls ≡ (mem n s.open_calls && not (mem n (calls_of s.pending))))
      × (settlements r.1 ≡ rejections code (calls_of s.pending) s.open_calls)

  then-Fails :
      (r : IpcClient × List IpcEffect) (next : IpcClient → IpcClient × List IpcEffect)
      → Fails r
      → ((s' : IpcClient) → Idle s' (next s'))
      → Fails (then_do r next)
  unfolding Idle
  then-Fails r next (p, q, e) idle =
      let (p', q', e') = idle r.0 in
      (p' ∙ p, ap (mem n) q' ∙ q, settlements-append r.1 (next r.0).1 ∙ rw (e, e', append-nil))

  entries_settle :
      settlements (fail_entries code s.pending s).1
      ≡ rejections code (calls_of s.pending) s.open_calls
  entries_settle =
      ap settlements (entries_effects code s.pending s)
      ∙ settlements-rejections code (calls_of s.pending) s.open_calls

  fail_all-Fails : Fails (fail_all code s)
  unfolding fail_all
  fail_all-Fails = (
    refl,
    rw (entries_open code s.pending s, mem-without_all n (calls_of s.pending) s.open_calls),
    rw append-nil entries_settle,
  )

-- What follows an outage, a reset of `socket` or the end of a connection, leaves the calls alone.
close-Fails : (s : IpcClient) (n : ℕ) → Fails closed s n (close s)
unfolding close Idle
close-Fails s n =
    then-Fails closed s n (fail_all closed s)
      (λ s'. end_socket s'.socket (record s' { socket = none })) (fail_all-Fails closed s n)
      (λ s'. end_socket-Idle s'.socket (record s' { socket = none }))

same_code : {c d : TransportErrorCode} → some c ≡ some d → c ≡ d
same_code {c = c} e = ap (λ o. get_or o c) e

module _ (utf8 : Utf8) (codec : JsonCodec) where
  -- When the socket errs or hangs up, or the client is closed: no entry is left, the calls that were
  -- written are not open any more, the others are as they were, and each open call that was written is
  -- rejected with the event's code, in the order of the entries.
  pub outage_settles :
      (s : IpcClient) (event : IpcEvent) (code : TransportErrorCode) (n : ℕ)
      → outage event ≡ some code
      → let (s', effects) = step utf8 codec s event in
        (s'.pending ≡ [])
        × (mem n s'.open_calls ≡ (mem n s.open_calls && not (mem n (calls_of s.pending))))
        × (settlements effects ≡ rejections code (calls_of s.pending) s.open_calls)
  unfolding step
  outage_settles s errored code n e =
      subst (λ c. Fails c s n (fail_all connect_failed s)) (same_code e)
        (fail_all-Fails connect_failed s n)
  outage_settles s hung_up code n e =
      subst (λ c. Fails c s n (fail_all closed (record s { socket = none }))) (same_code e)
        (fail_all-Fails closed (record s { socket = none }) n)
  outage_settles s closing code n e =
      subst (λ c. Fails c s n (close s)) (same_code e) (close-Fails s n)
  outage_settles s (requested m v) code n e = absurd cc
  outage_settles s connected code n e = absurd cc
  outage_settles s (refused a) code n e = absurd cc
  outage_settles s (started m) code n e = absurd cc
  outage_settles s (received b) code n e = absurd cc
  outage_settles s (torn_down c) code n e = absurd cc
  outage_settles s (timed_out m) code n e = absurd cc
  outage_settles s (write_failed m) code n e = absurd cc
  outage_settles s (written m) code n e = absurd cc
  outage_settles s elsewhere code n e = absurd cc
