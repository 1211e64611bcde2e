-- ===== src/Service/Transition/Applied.antt =====
-- What the transition loop does: at most one change, of the state that it last read.
use alertloop.Store.Rows.{event_by_id}
use alertloop.Store.Transition.Effect.{changed, transition_event-ok, transition_event-err}
use alertloop.Base.{
  ℕ, zero, suc, Bool, true, false, ◌≡◌, refl, ap, ◌∙◌, if◌then◌else◌, find-Has, ◌<◌, ◌==◌, arith,
}
use alertloop.Domain.Errors.{Result, ok, err, state_changed}
use alertloop.Domain.Event.{Event, EventState, state_eq}
use alertloop.Store.Schema.{Db}
use alertloop.Store.Session.{M, Session, pure, raise, ◌>>=◌, try, autocommit, read}
use alertloop.Store.Session.Laws.{>>=-ok, same_result, ok-injective}
use alertloop.Store.Events.{get_event, found}
use alertloop.Store.Transition.{transition_event}
use alertloop.Service.Transition.{RecoveryNotifier, change, after_try, transition, round}

module _ (rec : RecoveryNotifier) (at : ℕ) (next : EventState → Result EventState) where
  -- The change that a round asks of the store.
  abbrev pub asked : Event → EventState → M Event
  asked e to = transition_event e.id (change rec e at to)

  -- Rounds in which another request came first: each changes nothing, and reads the event again
  -- for the next one.
  pub data Overtaken : ℕ → Event → Session → Event → Session → Type 0 where
    at_once : (e : Event) (s : Session) → Overtaken zero e s e s
    again :
        {n : ℕ} {e fresh seen : Event} {s turn : Session} (to : EventState)
        → next e.state ≡ ok to
        → (asked e to s).0 ≡ err state_changed
        → (asked e to s).1.db ≡ s.others 0 s.db
        → (get_event e.id (asked e to s).1).0 ≡ ok fresh
        → fresh.id ≡ e.id
        → Overtaken n fresh (get_event e.id (asked e to s).1).1 seen turn
        → Overtaken (suc n) e s seen turn

  -- A change of the event `e` that a call in the session `s` has committed: in the round that
  -- follows the lost ones, of the event as that round sees it.
  pub record Applied (tries : ℕ) (e : Event) (s : Session) (updated : Event) (after : Db)
      : Type 0 where
    pub seen : Event
    pub turn : Session
    pub lost : ℕ
    pub to : EventState
    pub few : lost < tries
    pub same_event : seen.id ≡ e.id
    pub overtaken : Overtaken lost e s seen turn
    pub allowed : next seen.state ≡ ok to
    pub moves : state_eq to seen.state ≡ false
    pub committed : (asked seen to turn).0 ≡ ok updated
    pub stored : after ≡ changed turn.uuids seen.id (change rec seen at to) (turn.others 0 turn.db)

  get_event-id : (id : ℕ) (s : Session) (e : Event) → (get_event id s).0 ≡ ok e → e.id ≡ id
  unfolding get_event autocommit read found event_by_id
  get_event-id id s e h =
      ground (arith, find-Has (λ (x : Event). x.id == id) (s.others 0 s.db).events e)

  module _ (tries : ℕ) (updated e : Event) (s : Session) (retry : M (Event × Bool))
      (later : (to : EventState)
        → next e.state ≡ ok to
        → (asked e to s).0 ≡ err state_changed
        → (retry (asked e to s).1).0 ≡ ok (updated, true)
        → Applied (suc tries) e s updated (retry (asked e to s).1).1.db) where
    after_try-Applied :
        (to : EventState) (r : Result Event)
        → next e.state ≡ ok to
        → state_eq to e.state ≡ false
        → (asked e to s).0 ≡ r
        → (after_try retry r (asked e to s).1).0 ≡ ok (updated, true)
        → Applied (suc tries) e s updated (after_try retry r (asked e to s).1).1.db
    unfolding after_try pure raise
    after_try-Applied to (ok u) n m p h =
        let same : u ≡ updated = ap (λ t. t.0) (ok-injective h) in
        let (_, _, _, stored) = transition_event-ok e.id (change rec e at to) s u p in
        record {
          seen = e;
          turn = s;
          lost = 0;
          to = to;
          few = omega arith;
          same_event = refl;
          overtaken = at_once e s;
          allowed = n;
          moves = m;
          committed = p ∙ ap ok same;
          stored = stored;
        }
    after_try-Applied to (err state_changed) n m p h = later to n p h
    after_try-Applied to (err _) n m p h = cc

    round-Applied :
        (r : Result EventState)
        → next e.state ≡ r
        → (round retry rec e at r s).0 ≡ ok (updated, true)
        → Applied (suc tries) e s updated (round retry rec e at r s).1.db
    unfolding round raise
    round-Applied (err x) n h = cc
    round-Applied (ok to) n h =
        elim (state_eq to e.state)
            as (λ b.
              state_eq to e.state ≡ b
              → ((if b then pure (e, false) else (try (asked e to) >>= after_try retry)) s).0
                ≡ ok (updated, true)
              → Applied (suc tries) e s updated
                  ((if b then pure (e, false) else (try (asked e to) >>= after_try retry))
                    s).1.db) [
                      | true ↦ λ same k. unfold pure in cc k
                      | false ↦ λ moves k.
                          unfold ◌>>=◌ try in after_try-Applied to (asked e to s).0 n moves refl k
                    ]
          refl h

  -- A transition that reports a change has committed exactly one: it lost fewer rounds than it may
  -- try, each to another request and without a change of its own, and then moved the event, as it
  -- had last read it, to another state that `next` gives, which made the tables what the pure
  -- change makes of those that the round found.
  pub transition-Applied :
      (tries : ℕ) (e : Event) (s : Session) (updated : Event)
      → (transition tries rec e at next s).0 ≡ ok (updated, true)
      → Applied tries e s updated (transition tries rec e at next s).1.db
  unfolding transition raise
  transition-Applied zero e s updated h = cc
  transition-Applied (suc tries) e s updated h =
      let read_again = λ (fresh : Event). transition tries rec fresh at next in
      round-Applied tries updated e s (get_event e.id >>= read_again)
        (λ to n lost k.
          let t = (asked e to s).1 in
          let (fresh, read, p) = >>=-ok (get_event e.id) read_again t (updated, true) k in
          let rest =
            transition-Applied tries fresh (get_event e.id t).1 updated (same_result p k) in
          let same = get_event-id e.id t fresh read in
          record {
            seen = rest.seen;
            turn = rest.turn;
            lost = suc rest.lost;
            to = rest.to;
            few = omega (arith, rest.few);
            same_event = rest.same_event ∙ same;
            overtaken =
                again to n lost
                  (transition_event-err e.id (change rec e at to) s state_changed lost) read same
                  rest.overtaken;
            allowed = rest.allowed;
            moves = rest.moves;
            committed = rest.committed;
            stored = ap (λ q. q.1.db) p ∙ rest.stored;
          })
        (next e.state) refl h
