-- ===== src/Events/Timer.antt =====
-- What the timer of a publisher does with its periodic events.
use opensomeip.Base.{
  ℕ, not, if◌then◌else◌, ◌≤◌, ◌<◌, ◌≡◌, refl, sym, ap, ◌∙◌, arith, Bool, Bool-cases, inl, inr, true,
  false, ◌==◌, List, [], ◌∷◌, Option, Option-cases, none, some, some_inj,
}
use opensomeip.Base.Map.{find, none-ne-some}
use opensomeip.Sd.Service.{Endpoint, Sent}
use opensomeip.Events.Publisher.{
  EventConfig, EventPublisher, periodic, is_due, new_publisher, initialize, shutdown,
  register_event, unregister_event, update_event_config, publish_event, handle_subscription,
  handle_unsubscription, on_connection_lost, locking, publish_locked, publish_due, publish_each,
  publish_cyclic_events, timer_tick,
}

-- One call of a publisher, or a round of its timer that ends.
pub data Step (p : EventPublisher) : EventPublisher → Type 0 where
  initializes : (starts : Bool) → Step p (initialize starts p).1
  shuts : Step p (shutdown p)
  registers : (config : EventConfig) → Step p (register_event config p).1
  unregisters : (event_id : ℕ) → Step p (unregister_event event_id p).1
  updates : (event_id : ℕ) (config : EventConfig) → Step p (update_event_config event_id config p).1
  publishes :
      {done : Bool} {p' : EventPublisher} {sents : List Sent} (now event_id : ℕ)
      (event_data : List ℕ)
      → publish_event false now event_id event_data p ≡ some (done, p', sents)
      → Step p p'
  subscribes :
      (eventgroup_id client_id : ℕ) → Step p (handle_subscription eventgroup_id client_id p)
  unsubscribes :
      (eventgroup_id client_id : ℕ) → Step p (handle_unsubscription eventgroup_id client_id p).1
  loses : (endpoint : Endpoint) → Step p (on_connection_lost endpoint p)
  ticks :
      {p' : EventPublisher} {sents : List Sent} (now : ℕ)
      → timer_tick now p ≡ some (p', sents)
      → Step p p'

pub data Reach (p : EventPublisher) : EventPublisher → Type 0 where
  here : Reach p p
  next : {p' p'' : EventPublisher} → Reach p p' → Step p' p'' → Reach p p''

differ : false ≡ true → ⊥
differ e = cc

abbrev times_of : EventPublisher × List Sent → List (ℕ × ℕ)
times_of (p, sents) = p.last_publish_times

abbrev result_times : Bool × EventPublisher × List Sent → List (ℕ × ℕ)
result_times (done, p, sents) = p.last_publish_times

-- A running publisher comes as far as the mutex.
pub publish_event-running :
    (held : Bool) (now event_id : ℕ) (event_data : List ℕ) (p : EventPublisher)
    → p.running ≡ true
    → publish_event held now event_id event_data p
      ≡ locking held (some (publish_locked now event_id event_data p))
unfolding publish_event
publish_event-running held now event_id event_data p on =
    ap
      (λ (b : Bool).
        if not b
        then some (false, p, [])
        else locking held (some (publish_locked now event_id event_data p)))
      on

publish_due-due :
    (now : ℕ) (config : EventConfig) (p : EventPublisher)
    → p.running ≡ true
    → is_due now p.last_publish_times config ≡ true
    → publish_due now config p ≡ none
unfolding publish_due
publish_due-due now config p on due =
    rw (publish_due, due, publish_event-running true now config.event_id [] p on) refl

publish_due-early :
    (now : ℕ) (config : EventConfig) (p : EventPublisher)
    → is_due now p.last_publish_times config ≡ false
    → publish_due now config p ≡ some (p, [])
unfolding publish_due
publish_due-early now config p early = rw (publish_due, early) refl

abbrev unmoved : EventPublisher → EventPublisher × List Sent
unmoved p = (p, [])

-- A loop that ends has come to no event that is due.
publish_each-silent :
    (now : ℕ) (events : List (ℕ × EventConfig)) (p : EventPublisher)
    (result : EventPublisher × List Sent)
    → p.running ≡ true
    → publish_each now events p ≡ some result
    → result ≡ unmoved p
unfolding publish_each
publish_each-silent now [] p result on e = sym (some_inj e)
publish_each-silent now ((id, config) ∷ rest) p result on e =
    elim (Bool-cases (is_due now p.last_publish_times config)) [
      | inl due ↦
          absurd (none-ne-some (rw (publish_each, publish_due-due now config p on due) at e))
      | inr early ↦ elim (Option-cases (publish_each now rest p)) [
        | inl blocked ↦
            absurd
              (none-ne-some (rw (publish_each, publish_due-early now config p early, blocked) at e))
        | inr (left, held) ↦
            sym (some_inj (rw (publish_each, publish_due-early now config p early, held) at e))
            ∙ publish_each-silent now rest p left on held
      ]
    ]

publish_each-due :
    (now id : ℕ) (config : EventConfig) (events : List (ℕ × EventConfig)) (p : EventPublisher)
    → p.running ≡ true
    → find id events ≡ some config
    → is_due now p.last_publish_times config ≡ true
    → publish_each now events p ≡ none
unfolding publish_each find
publish_each-due now id config [] p on held due = absurd (none-ne-some held)
publish_each-due now id config ((j, c) ∷ rest) p on held due =
    elim (Bool-cases (is_due now p.last_publish_times c)) [
      | inl first ↦ rw (publish_each, publish_due-due now c p on first) refl
      | inr early ↦ elim (Bool-cases (j == id)) [
        | inl same ↦ absurd (
            differ
              (sym early ∙ ap (is_due now p.last_publish_times) (some_inj (rw same at held)) ∙ due))
        | inr other ↦
            rw
              (
                publish_each,
                publish_due-early now c p early,
                publish_each-due now id config rest p on (rw other at held) due,
              )
              refl
      ]
    ]

timer_tick-silent :
    (now : ℕ) (p : EventPublisher) (result : EventPublisher × List Sent)
    → timer_tick now p ≡ some result
    → result ≡ unmoved p
unfolding timer_tick publish_cyclic_events
timer_tick-silent now p result e = elim (Bool-cases p.running) [
  | inr off ↦ sym (some_inj (sym (ap body off) ∙ e))
  | inl on ↦ publish_each-silent now p.registered_events p result on (sym (ap body on) ∙ e)
]
  where
    body : Bool → Option (EventPublisher × List Sent)
    body b = if not b then some (unmoved p) else publish_each now p.registered_events p

timer_tick-times :
    (now : ℕ) (p p' : EventPublisher) (sents : List Sent)
    → p.last_publish_times ≡ []
    → timer_tick now p ≡ some (p', sents)
    → p'.last_publish_times ≡ []
timer_tick-times now p p' sents w e = ap times_of (timer_tick-silent now p (p', sents) e) ∙ w

initialize-times :
    (starts : Bool) (p : EventPublisher)
    → (initialize starts p).1.last_publish_times ≡ p.last_publish_times
unfolding initialize
initialize-times starts p = ground arith

shutdown-times : (p : EventPublisher) → (shutdown p).last_publish_times ≡ p.last_publish_times
unfolding shutdown
shutdown-times p = ground arith

register_event-times :
    (config : EventConfig) (p : EventPublisher)
    → (register_event config p).1.last_publish_times ≡ p.last_publish_times
unfolding register_event
register_event-times config p = ground arith

unregister_event-times :
    (event_id : ℕ) (p : EventPublisher)
    → (unregister_event event_id p).1.last_publish_times ≡ p.last_publish_times
unfolding unregister_event
unregister_event-times event_id p = ground arith

update_event_config-times :
    (event_id : ℕ) (config : EventConfig) (p : EventPublisher)
    → (update_event_config event_id config p).1.last_publish_times ≡ p.last_publish_times
unfolding update_event_config
update_event_config-times event_id config p = ground arith

publish_locked-times :
    (now event_id : ℕ) (event_data : List ℕ) (p : EventPublisher)
    → (publish_locked now event_id event_data p).1.last_publish_times ≡ p.last_publish_times
unfolding publish_locked
publish_locked-times now event_id event_data p = ground arith

publish_event-times :
    (held done : Bool) (now event_id : ℕ) (event_data : List ℕ) (p p' : EventPublisher)
    (sents : List Sent)
    → publish_event held now event_id event_data p ≡ some (done, p', sents)
    → p'.last_publish_times ≡ p.last_publish_times
unfolding publish_event
publish_event-times held done now event_id event_data p p' sents e = elim (Bool-cases p.running) [
  | inr off ↦ ap result_times (sym (some_inj (rw off at e)))
  | inl on ↦ locked held (sym (publish_event-running held now event_id event_data p on) ∙ e)
]
  where
    locked :
        (held : Bool)
        → locking held (some (publish_locked now event_id event_data p)) ≡ some (done, p', sents)
        → p'.last_publish_times ≡ p.last_publish_times
    locked true e' = absurd (none-ne-some e')
    locked false e' =
        ap result_times (sym (some_inj e')) ∙ publish_locked-times now event_id event_data p

handle_unsubscription-times :
    (eventgroup_id client_id : ℕ) (p : EventPublisher)
    → (handle_unsubscription eventgroup_id client_id p).1.last_publish_times ≡ p.last_publish_times
unfolding handle_unsubscription
handle_unsubscription-times eventgroup_id client_id p = ground arith

Step-times :
    (p p' : EventPublisher) → p.last_publish_times ≡ [] → Step p p' → p'.last_publish_times ≡ []
unfolding handle_subscription on_connection_lost
Step-times p p' w (initializes starts) = initialize-times starts p ∙ w
Step-times p p' w shuts = shutdown-times p ∙ w
Step-times p p' w (registers config) = register_event-times config p ∙ w
Step-times p p' w (unregisters event_id) = unregister_event-times event_id p ∙ w
Step-times p p' w (updates event_id config) = update_event_config-times event_id config p ∙ w
Step-times p p' w (publishes {done} {sents} now event_id event_data e) =
    publish_event-times false done now event_id event_data p p' sents e ∙ w
Step-times p p' w (subscribes eventgroup_id client_id) = w
Step-times p p' w (unsubscribes eventgroup_id client_id) =
    handle_unsubscription-times eventgroup_id client_id p ∙ w
Step-times p p' w (loses endpoint) = w
Step-times p p' w (ticks {sents} now e) = timer_tick-times now p p' sents w e

Reach-times :
    (service_id : ℕ) (p : EventPublisher)
    → Reach (new_publisher service_id) p
    → p.last_publish_times ≡ []
Reach-times service_id p here = refl
Reach-times service_id p (next {p' = p'} r step) =
    Step-times p' p (Reach-times service_id p' r) step

timer_tick-blocks :
    (now : ℕ) (p : EventPublisher)
    → p.running ≡ true
    → publish_each now p.registered_events p ≡ none
    → timer_tick now p ≡ none
unfolding timer_tick publish_cyclic_events
timer_tick-blocks now p on blocked =
    ap (λ (b : Bool). if not b then some (unmoved p) else publish_each now p.registered_events p) on
    ∙ blocked

due_at :
    (now : ℕ) (times : List (ℕ × ℕ)) (config : EventConfig)
    → times ≡ []
    → config.notification_type ≡ periodic
    → 0 < config.cycle_time
    → config.cycle_time ≤ now
    → is_due now times config ≡ true
unfolding find
due_at now times config e f low high = rw (f, e, find) (ground (arith, low, high))

-- Whatever a new publisher has gone through, a round of its timer that ends has sent nothing and leaves
-- the publisher as it was; and while it is running with a periodic event registered, whose cycle is
-- above 0 and not above the time of the clock, no round ends: the thread waits for a mutex that it holds.
pub timer_tick_blocks :
    (service_id now : ℕ) (p : EventPublisher)
    → Reach (new_publisher service_id) p
    → ((p' : EventPublisher) (sents : List Sent)
        → timer_tick now p ≡ some (p', sents)
        → (p' ≡ p) × (sents ≡ []))
      × ((id : ℕ) (config : EventConfig)
          → p.running ≡ true
          → find id p.registered_events ≡ some config
          → config.notification_type ≡ periodic
          → 0 < config.cycle_time
          → config.cycle_time ≤ now
          → timer_tick now p ≡ none)
timer_tick_blocks service_id now p r = (
  λ p' sents e.
      let same = timer_tick-silent now p (p', sents) e in
      (
        ap (λ (r : EventPublisher × List Sent). r.0) same,
        ap (λ (r : EventPublisher × List Sent). r.1) same,
      ),
  λ id config on held kind low high. timer_tick-blocks now p on (
      publish_each-due now id config p.registered_events p on held
        (due_at now p.last_publish_times config (Reach-times service_id p r) kind low high)),
)
