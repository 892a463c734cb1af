-- ===== src/Routes/Accounts.antt =====
-- What a request to `receive_webhook` of app/routers/webhooks.py adds to something that only the
-- scheduling of an event adds to, such as what was published or the background tasks.
use webhook_ingestion_servic.Prelude.{◌≡◌, refl, ap, ◌∙◌, ◌⊎◌, inl, inr, Option, none, some, String}
use webhook_ingestion_servic.Events.{Uuid, Event}
use webhook_ingestion_servic.Metrics.{
  Metrics, record_webhook_intake, record_duplicate, record_signature_failure,
}
use webhook_ingestion_servic.Runtime.{
  Runtime, World, Action, Outcome, ok, raise, continue, record_metric, pure, http, ◌>>=◌, ◌>>◌,
}
use webhook_ingestion_servic.Crud.{create_event}
use webhook_ingestion_servic.Security.{verify_webhook_signature}
use webhook_ingestion_servic.Security.Signature.{Refuses}
use webhook_ingestion_servic.Routes.{
  WebhookIn, HttpRequest, WebhookAccepted, accepted, duplicate, schedule, find_duplicate,
  accept_new, answer_duplicate, accept, receive_webhook,
}

module _ {O : Type 0} (obs : World → O) (news : Uuid → O → O) where
  -- An acceptance has added the news of its event; a duplicate and an exception nothing.
  abbrev pub Accounts : World → Outcome WebhookAccepted × World → Type 0
  Accounts w (ok a, v) =
      ((a.status ≡ duplicate) × (obs v ≡ obs w))
      ⊎ ((a.status ≡ accepted) × (obs v ≡ news a.event_id (obs w)))
  Accounts w (raise x, v) = obs v ≡ obs w

  -- What scheduling an event adds.
  abbrev pub Adds : Uuid → World → Outcome (Unit {0}) × World → Type 0
  Adds i w (ok done, v) = obs v ≡ news i (obs w)
  Adds i w (raise x, v) = obs v ≡ obs w

  Accounts-shift :
      (w v : World) (p : Outcome WebhookAccepted × World)
      → obs v ≡ obs w
      → Accounts v p
      → Accounts w p
  Accounts-shift w v (ok a, u) same (inl (s, h)) = inl (s, h ∙ same)
  Accounts-shift w v (ok a, u) same (inr (s, h)) = inr (s, h ∙ ap (news a.event_id) same)
  Accounts-shift w v (raise x, u) same h = h ∙ same

  Accounts-bind :
      {A : Type 0} (m : Action A) (f : A → Action WebhookAccepted) (w : World)
      → obs (m w).1 ≡ obs w
      → ((a : A) (u : World) → Accounts u (f a u))
      → Accounts w ((m >>= f) w)
  Accounts-bind {A} m f w quiet later = step (m w) quiet
    where
      step : (p : Outcome A × World) → obs p.1 ≡ obs w → Accounts w (continue f p.0 p.1)
      step (ok a, u) same = Accounts-shift w u (f a u) same (later a u)
      step (raise x, u) same = same

  module _ (rt : Runtime) (d : WebhookIn) (request : HttpRequest)
      (metrics : (u : World) (f : Metrics → Metrics)
        → obs (record u { metrics = f u.metrics }) ≡ obs u)
      (schedules : (i : Uuid) (u : World) → Adds i u (schedule rt i u)) where
    scheduled :
        (e : Event) (w : World) (p : Outcome (Unit {0}) × World)
        → Adds e.id w p
        → Accounts w (
            continue
              (λ _. do
                record_metric (record_webhook_intake d.source "accepted")
                pure (record { status = accepted; event_id = e.id; delivery_id = e.delivery_id }))
              p.0
              p.1)
    scheduled e w (ok done, v) h =
        inr (refl, metrics v (record_webhook_intake d.source "accepted") ∙ h)
    scheduled e w (raise x, v) h = h

    module _ (delivery_id : Option String)
        (creates : (u : World)
          → obs (create_event rt delivery_id request.request_id d.source d.event_type d.payload u).1
            ≡ obs u) where
      accept-Accounts :
          (o : Option Event) (w : World) → Accounts w (accept rt d request delivery_id o w)
      unfolding accept accept_new answer_duplicate
      accept-Accounts none w =
          Accounts-bind
            (create_event rt delivery_id request.request_id d.source d.event_type d.payload) _ w
            (creates w) (λ e u. scheduled e u (schedule rt e.id u) (schedules e.id u))
      accept-Accounts (some e) w = inl (
        refl,
        metrics (record w { metrics = record_duplicate w.metrics })
              (record_webhook_intake d.source "duplicate")
            ∙ metrics w record_duplicate,
      )

    pub receive_webhook-Accounts :
        (w : World)
        → ((u : World)
            → obs
                (verify_webhook_signature rt request.body
                  (request.header rt.settings.webhook_timestamp_header)
                  (request.header rt.settings.webhook_signature_header)
                  u).1
              ≡ obs u)
        → ((o : Option String) (u : World) → obs (find_duplicate rt o u).1 ≡ obs u)
        → ((o : Option String) (u : World)
            → obs (create_event rt o request.request_id d.source d.event_type d.payload u).1
              ≡ obs u)
        → Accounts w (receive_webhook rt d request w)
    unfolding receive_webhook
    receive_webhook-Accounts w verifies finds creates =
        let delivery_id = request.header rt.settings.webhook_id_header in
        Accounts-bind
          (verify_webhook_signature rt request.body
            (request.header rt.settings.webhook_timestamp_header)
            (request.header rt.settings.webhook_signature_header))
          _ w (verifies w)
          λ _ u.
            Accounts-bind (find_duplicate rt delivery_id) _ u (finds delivery_id u)
              λ o v. accept-Accounts delivery_id (creates delivery_id) o v

  pub accepted_news :
      (w v : World) (a : WebhookAccepted)
      → a.status ≡ accepted
      → Accounts w (ok a, v)
      → obs v ≡ news a.event_id (obs w)
  accepted_news w v a is (inl (again, same)) = cc
  accepted_news w v a is (inr (once, added)) = added

  -- The signature check changes the metrics at most.
  pub verified_obs :
      (rt : Runtime) (w : World) (p : Outcome (Unit {0}) × World)
      → ((f : Metrics → Metrics) → obs (record w { metrics = f w.metrics }) ≡ obs w)
      → Refuses rt w p
      → obs p.1 ≡ obs w
  verified_obs rt w (ok done, v) metrics h = ap obs h
  verified_obs rt w (raise (http status text), v) metrics (is, h) =
      ap obs h ∙ metrics record_signature_failure
  verified_obs rt w (raise x, v) metrics h = ap obs h
