-- ===== src/Toolbelt/Session/Once.antt =====
-- What a session does at most once in its life.
use mx_loom.Common.{◌+◌, ◌≤◌, ◌≡◌, arith, true, List, [], ◌∷◌, ◌∙◌, subst}
use mx_loom.Text.{Text}
use mx_loom.Toolbelt.Session.Steps.{MxSession, SessionEvent, step, run}
use mx_loom.Toolbelt.Session.Frugal.{
  count, count-append, ends_client, deregisters, registers, opens, coherent, end_credit, spend,
  Frugal, step-Frugal, unmoved-Frugal,
}

pub run-Frugal :
    (s : MxSession) (events : List SessionEvent)
    → coherent s.state s.awaits ≡ true
    → Frugal s (run s events)
unfolding run
run-Frugal s [] coh = unmoved-Frugal s.config s.state s.awaits coh s.agent s.heartbeat
run-Frugal s (event ∷ events) coh =
    let r = step s event in
    let later = (run r.0 events).1 in
    let (coh', p, q, o, t, e) =
      step-Frugal s.config s.agent s.heartbeat s.state s.awaits event coh in
    let (coh2, p2, q2, o2, t2, e2) = run-Frugal r.0 events coh' in
    let ends =
      subst
        (λ k.
          count ends_client later
            + spend k.owns_client (end_credit (run r.0 events).0.state (run r.0 events).0.awaits)
          ≤ spend k.owns_client (end_credit r.0.state r.0.awaits))
        e p2 in
    (
      coh2,
      omega (arith, p, ends, count-append ends_client r.1 later),
      omega (arith, q, q2, count-append deregisters r.1 later),
      omega (arith, o, o2, count-append opens r.1 later),
      omega (arith, t, t2, count-append registers r.1 later),
      e2 ∙ e,
    )
