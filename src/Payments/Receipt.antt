-- ===== src/Payments/Receipt.antt =====
-- An event is handled once (apps/api/src/modules/payments/payments.service.ts).
use kartit.Prelude.{
  ℕ, ◌≡◌, refl, ◌≢◌, Bool, true, none, [], ◌∷◌, arith, ◌==◌, Option-cases, Bool-cases, inl, inr,
}
use kartit.Prelude.Table.{Table, modify, insert, find_where}
use kartit.Result.{Result-cases}
use kartit.Store.{}
use kartit.Orders.{Ctx}
use kartit.Payments.{
  StripeEvent, WebhookEvent, Inbox, dispatch, new_event, mark_processed, mark_failure, handle_event,
  is_event, receive,
}

-- The event ids that are on record.
abbrev pub IsReceived : ℕ → Table WebhookEvent → Type 0
IsReceived event_id t = find_where (is_event event_id) t ≢ none

IsReceived-insert :
    (k : ℕ) (e : WebhookEvent) (t : Table WebhookEvent) → IsReceived e.event_id (insert k e t)
unfolding find_where
IsReceived-insert k e [] = λ h. ground arith
IsReceived-insert k e ((j, x) ∷ t) = λ h. elim (Bool-cases (x.event_id == e.event_id)) [
  | inl f ↦ ground arith
  | inr f ↦ IsReceived-insert k e t (ground arith)
]

pub IsReceived-modify :
    (event_id k : ℕ) (f : WebhookEvent → WebhookEvent) (t : Table WebhookEvent)
    → ((x : WebhookEvent) → (f x).event_id ≡ x.event_id)
    → IsReceived event_id t
    → IsReceived event_id (modify k f t)
unfolding find_where modify
IsReceived-modify event_id k f [] same h = h
IsReceived-modify event_id k f ((j, x) ∷ t) same h = λ n.
    elim (Bool-cases (x.event_id == event_id)) [
      | inl e ↦ ground (arith, same x)
      | inr e ↦
          IsReceived-modify event_id k f t same (λ m. h (ground arith)) (ground (arith, same x))
    ]

pub receive-IsReceived :
    (ctx : Ctx) (queue_up : Bool) (id : ℕ) (event : StripeEvent) (s : Inbox)
    → IsReceived event.event_id (receive ctx queue_up id event s).1.events
unfolding receive handle_event
receive-IsReceived ctx queue_up id event s =
    elim (Option-cases (find_where (is_event event.event_id) s.events)) [
      | inr (row, e) ↦ rw (e, receive) (λ h. ground arith)
      | inl e ↦
          let new = IsReceived-insert id (new_event event) s.events in
          elim (Result-cases (dispatch ctx event.type s.db)) [
            | inl (db', f) ↦
                rw (e, receive, f, handle_event)
                  (IsReceived-modify event.event_id id (mark_processed ctx.now) _ (λ x. refl) new)
            | inr (why, f) ↦
                rw (e, receive, f, handle_event)
                  (IsReceived-modify event.event_id id (mark_failure ctx.now) _ (λ x. refl) new)
          ]
    ]

-- Once an event has been received, receiving it again, at any time and in any form, answers that it is a duplicate and changes nothing, whether or not its handler had succeeded.
pub receive-again :
    (ctx later : Ctx) (queue_up queue_again : Bool) (id other : ℕ) (event again : StripeEvent)
    (s : Inbox)
    → again.event_id ≡ event.event_id
    → let s' = (receive ctx queue_up id event s).1 in
      receive later queue_again other again s' ≡ (true, s')
unfolding receive
receive-again ctx later queue_up queue_again id other event again s same =
    let s' = (receive ctx queue_up id event s).1 in
    elim (Option-cases (find_where (is_event again.event_id) s'.events)) [
      | inl e ↦ absurd (receive-IsReceived ctx queue_up id event s (rw same at e))
      | inr (row, e) ↦ rw (e, receive) refl
    ]
