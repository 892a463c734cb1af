-- ===== src/Routes/Inline.antt =====
-- The inline backend of app/routers/webhooks.py: a request leaves a background task, and the task
-- processes the event (app/services/processor.py) with no further attempt.
use webhook_ingestion_servic.Prelude.{
  ◌≡◌, refl, ◌∙◌, String, false, Option, none, some, List, [], ◌∷◌, ◌++◌, arith,
}
use webhook_ingestion_servic.Events.{Uuid, Event}
use webhook_ingestion_servic.Runtime.{Runtime, World, Outcome, Call, perform}
use webhook_ingestion_servic.Runtime.Rules.{Frame, Keeps, frame_rules}
use webhook_ingestion_servic.Crud.{
  one_or_none, insert_event, create_event, get_event_by_delivery_id,
}
use webhook_ingestion_servic.Queue.Topology.{is_queue_enabled}
use webhook_ingestion_servic.Security.Signature.{verify_webhook_signature_effect}
use webhook_ingestion_servic.Routes.{
  WebhookIn, HttpRequest, WebhookAccepted, schedule, find_duplicate, receive_webhook,
}
use webhook_ingestion_servic.Routes.Accounts.{
  Accounts, Adds, receive_webhook-Accounts, verified_obs,
}

record SameBackground (w v : World) : Type 0 where
  background_eq : v.background ≡ w.background

same_background : {w v : World} → v.background ≡ w.background → SameBackground w v
same_background p = record { background_eq = p }

SameBackground-frame : Frame SameBackground
SameBackground-frame = record {
  here = λ w. record { background_eq = refl };
  chain = λ p q. record { background_eq = q.background_eq ∙ p.background_eq };
  metrics = λ w f. record { background_eq = refl };
}

module _ (rt : Runtime) where
  perform-SameBackground : (c : Call) → Keeps SameBackground (perform rt c)
  unfolding perform
  perform-SameBackground c = record { at = λ w. record { background_eq = ground arith } }

  insert_event-SameBackground : (e : Event) → Keeps SameBackground (insert_event rt e)
  unfolding insert_event perform
  insert_event-SameBackground e = record { at = λ w. record { background_eq = ground arith } }

  one_or_none-SameBackground : (l : List Event) → Keeps SameBackground (one_or_none l)
  unfolding one_or_none
  one_or_none-SameBackground [] = search (frame_rules, SameBackground-frame)
  one_or_none-SameBackground (e ∷ []) = search (frame_rules, SameBackground-frame)
  one_or_none-SameBackground (e ∷ f ∷ l) = search (frame_rules, SameBackground-frame)

  find_duplicate-SameBackground : (o : Option String) → Keeps SameBackground (find_duplicate rt o)
  unfolding find_duplicate get_event_by_delivery_id
  find_duplicate-SameBackground none = search (frame_rules, SameBackground-frame)
  find_duplicate-SameBackground (some s) =
      search (frame_rules, SameBackground-frame, perform-SameBackground, one_or_none-SameBackground)
        depth 10

  create_event-SameBackground :
      (o : Option String) (d : WebhookIn) (request : HttpRequest)
      → Keeps SameBackground (create_event rt o request.request_id d.source d.event_type d.payload)
  unfolding create_event
  create_event-SameBackground o d request =
      search
        (frame_rules, SameBackground-frame, perform-SameBackground, insert_event-SameBackground)
        depth 10

  module _ (off : is_queue_enabled rt ≡ false) where
    -- Where the queue is off: an acceptance has added the task of its event; nothing else was added.
    abbrev pub Defers : World → Outcome WebhookAccepted × World → Type 0
    Defers = Accounts (λ w. w.background) (λ i l. l ++ (i ∷ []))

    schedule-Adds :
        (i : Uuid) (w : World)
        → Adds (λ v. v.background) (λ j l. l ++ (j ∷ [])) i w (schedule rt i w)
    unfolding schedule
    schedule-Adds i w = rw off refl

    pub receive_webhook-Defers :
        (d : WebhookIn) (request : HttpRequest) (w : World)
        → Defers w (receive_webhook rt d request w)
    receive_webhook-Defers d request w =
        let timestamp = request.header rt.settings.webhook_timestamp_header in
        let signature = request.header rt.settings.webhook_signature_header in
        receive_webhook-Accounts (λ v. v.background) (λ i l. l ++ (i ∷ [])) rt d request
          (λ u f. refl) schedule-Adds w
          (λ u.
            verified_obs (λ v. v.background) (λ i l. l ++ (i ∷ [])) rt u _ (λ f. refl)
              (verify_webhook_signature_effect rt request.body timestamp signature u))
          (λ o u. ((find_duplicate-SameBackground o).at u).background_eq)
          (λ o u. ((create_event-SameBackground o d request).at u).background_eq)
