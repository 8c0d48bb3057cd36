-- ===== src/Toolbelt/Session/Beats.antt =====
-- What the heartbeat of a resumed session sends while its tasks are read.
use mx_loom.Common.{
  ℕ, zero, suc, map, ◌≤◌, ◌≡◌, refl, ap, sym, subst, ◌∙◌, arith, Bool, true, false, Option, none,
  some, List, [], ◌∷◌, ◌++◌, length, ◌⊎◌, inl, inr,
}
use mx_loom.Text.{Text, codes, eq_text}
use mx_loom.Toolbelt.Transport.{Sent, resolved, rejected}
use mx_loom.Toolbelt.Heartbeat
use mx_loom.Toolbelt.Heartbeat.{Heartbeat}
use mx_loom.Toolbelt.Descriptor.{SessionDescriptor}
use mx_loom.Toolbelt.Session.Params.{AgentState, build_register_params}
use mx_loom.Toolbelt.Session.Frugal.{made}
use mx_loom.Toolbelt.Session.Steps.{
  active, idle, asked, client_ending, opened, open_failed, close_resolved, close_rejected,
  MxSession, SessionEffect, config_of, register_method, step, run,
}
use mx_loom.Toolbelt.Session.Resume.{ResumeOptions, resume_options, Beat, due, over, event_of, log}

-- Some more of one call.
abbrev pub again : ℕ → Sent → List Sent → List Sent
again zero call sent = sent
again (suc k) call sent = call ∷ again k call sent

again-once :
    (k : ℕ) (call : Sent) (sent : List Sent) → again k call (call ∷ sent) ≡ again (suc k) call sent
again-once zero call sent = refl
again-once (suc k) call sent = ap (λ l. call ∷ l) (again-once k call sent)

log-append :
    (es fs : List SessionEffect) (sent : List Sent) → log (es ++ fs) sent ≡ log fs (log es sent)
unfolding log
log-append [] fs sent = refl
log-append (asked a m p t ∷ es) fs sent =
    log-append es fs (record { method = m; params = p } ∷ sent)
log-append (client_ending ∷ es) fs sent = log-append es fs sent
log-append (opened ∷ es) fs sent = log-append es fs sent
log-append (open_failed err ∷ es) fs sent = log-append es fs sent
log-append (close_resolved ∷ es) fs sent = log-append es fs sent
log-append (close_rejected ∷ es) fs sent = log-append es fs sent

module _ (o : ResumeOptions) (d : SessionDescriptor) (fresh : Text) (agent : AgentState) where
  abbrev pub resumed : Option Heartbeat → MxSession
  resumed h = made (config_of (resume_options o d) fresh) active (some agent) h idle

  abbrev pub registration_call : Sent
  registration_call = record {
    method = register_method;
    params = build_register_params (resume_options o d);
  }

  -- The session is as before but for its heartbeat, and nothing was sent but the registration again.
  abbrev pub Beaten : ℕ → List Sent → MxSession × List SessionEffect → Type 0
  Beaten bound sent r =
      (r.0.state ≡ active)
      × (r.0.agent ≡ some agent)
      × (r.0.config ≡ config_of (resume_options o d) fresh)
      × (k : ℕ) × (k ≤ bound)
      × (log r.1 sent ≡ again k registration_call sent)

  abbrev OneBeat : Heartbeat → Beat → List Sent → Type 0
  OneBeat h b sent =
      let r = step (resumed (some h)) (event_of b) in
      (h' : Heartbeat) × (r.0 ≡ resumed (some h'))
      × ((log r.1 sent ≡ sent) ⊎ (log r.1 sent ≡ registration_call ∷ sent))

  one_beat :
      (stopped in_flight : Bool) (b : Beat) (sent : List Sent)
      → OneBeat (record { stopped = stopped; in_flight = in_flight }) b sent
  unfolding step Heartbeat.step Heartbeat.fire Heartbeat.settle log config_of resume_options
      register_method eq_text codes
  one_beat true flight due sent = (_, refl, inl refl)
  one_beat false true due sent = (_, refl, inl refl)
  one_beat false false due sent = (_, refl, inr refl)
  one_beat stopped false (over v) sent = (_, refl, inl refl)
  one_beat true true (over v) sent = (_, refl, inl refl)
  one_beat false true (over (resolved v)) sent = (_, refl, inl refl)
  one_beat false true (over (rejected err)) sent = (_, refl, inl refl)

  pub beats-Beaten :
      (beats : List Beat) (h : Heartbeat) (sent : List Sent)
      → Beaten (length beats) sent (run (resumed (some h)) (map event_of beats))
  unfolding run log
  beats-Beaten [] h sent = (refl, refl, refl, 0, omega arith, refl)
  beats-Beaten (b ∷ beats) h sent =
      let r = step (resumed (some h)) (event_of b) in
      let (h', same, sends) = one_beat h.stopped h.in_flight b sent in
      let later = run r.0 (map event_of beats) in
      let (p, q, c, k, bound, l) =
        subst (λ s. Beaten (length beats) (log r.1 sent) (run s (map event_of beats))) (sym same)
          (beats-Beaten beats h' (log r.1 sent)) in
      let whole = log-append r.1 later.1 sent ∙ l in
      elim sends [
        | inl e ↦ (p, q, c, k, omega (arith, bound), whole ∙ ap (again k registration_call) e)
        | inr e ↦ (
          p,
          q,
          c,
          suc k,
          omega (arith, bound),
          whole ∙ ap (again k registration_call) e ∙ again-once k registration_call sent,
        )
      ]

  -- Without a heartbeat nothing happens.
  pub still-Beaten :
      (beats : List Beat) (sent : List Sent)
      → Beaten 0 sent (run (resumed none) (map event_of beats))
  unfolding run log step
  still-Beaten [] sent = (refl, refl, refl, 0, omega arith, refl)
  still-Beaten (due ∷ beats) sent = still-Beaten beats sent
  still-Beaten (over v ∷ beats) sent = still-Beaten beats sent
