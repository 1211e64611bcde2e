-- ===== src/Service/Transition/Spared.antt =====
-- internal/service/recovery.go, events.go: a transition that fails leaves nothing behind.
use alertloop.Domain.Action.{EventAction}
use alertloop.Base.{ℕ, zero, suc, Bool, true, false, ◌≡◌, refl}
use alertloop.Domain.Errors.{Result, ok, err, state_changed, invalid_transition}
use alertloop.Domain.Event.{Event, EventState, state_eq}
use alertloop.Store.Session.{M, Session, pure}
use alertloop.Store.Session.Spares.{
  Spares, is_err, any_result, as_value, pure-Spares, raise-Spares, if-Spares, now-Spares,
  bind-Spares, then-Spares, try-Spares,
}
use alertloop.Store.Spared.{transition_event-Spares, get_event-Spares}
use alertloop.Service.Transition.{
  RecoveryNotifier, max_transition_tries, transition, round, after_try, change, lift, apply,
}

round-Spares :
    (again : M (Event × Bool)) (rec : RecoveryNotifier) (e : Event) (at : ℕ)
    (to : Result EventState)
    → Spares is_err again
    → Spares is_err (round again rec e at to)
unfolding round
round-Spares again rec e at (err x) u = raise-Spares is_err x
round-Spares again rec e at (ok to) u =
    if-Spares is_err (state_eq to e.state) _ _ (pure-Spares is_err (e, false)) (
      bind-Spares _ _ (as_value is_err) is_err
        (try-Spares is_err _ (transition_event-Spares e.id (change rec e at to))) (λ x q. refl)
        second other)
  where
    second : (r : Result Event) → is_err r ≡ true → Spares is_err (after_try again r)
    second (ok f) p = cc
    second (err state_changed) p = unfold after_try in u
    second (err x) p = unfold after_try in raise-Spares is_err x

    other :
        (r : Result Event)
        → is_err r ≡ false
        → (t : Session) → is_err (after_try again r t).0 ≡ false
    other (ok f) p t = unfold after_try in unfold pure in refl
    other (err x) p t = cc

pub transition-Spares :
    (tries : ℕ) (rec : RecoveryNotifier) (e : Event) (at : ℕ) (to : EventState → Result EventState)
    → Spares is_err (transition tries rec e at to)
unfolding transition
transition-Spares zero rec e at to = raise-Spares is_err invalid_transition
transition-Spares (suc tries) rec e at to = round-Spares _ rec e at (to e.state) (
    then-Spares _ _ is_err (get_event-Spares e.id)
      (λ fresh. transition-Spares tries rec fresh at to))

lift-Spares : {A : Type 0} (r : Result A) → Spares any_result (lift r)
unfolding lift
lift-Spares (ok a) = pure-Spares any_result a
lift-Spares (err x) = raise-Spares any_result x

pub apply-Spares :
    (rec : RecoveryNotifier) (id : ℕ) (action : EventAction) → Spares is_err (apply rec id action)
unfolding apply
apply-Spares rec id action = then-Spares _ _ is_err (get_event-Spares id) (λ e.
    then-Spares _ _ is_err (lift-Spares _) (λ _. then-Spares _ _ is_err now-Spares (λ at.
      bind-Spares _ _ is_err is_err (transition-Spares max_transition_tries rec e at _) (λ x q. q)
        (λ r p. cc) (λ r p t. fine_pure r.0 t))))
  where
    fine_pure : (e : Event) (t : Session) → is_err (pure e t).0 ≡ false
    fine_pure e t = unfold pure in refl
