-- ===== src/Routes/Redelivery.antt =====
-- A delivery that is sent again to `receive_webhook` of app/routers/webhooks.py.
use webhook_ingestion_servic.Prelude.{
  ◌≡◌, ◌≢◌, refl, subst, ap, ◌∙◌, inl, inr, String, false, some, [], ◌∷◌, ◌++◌, select,
  select-append, str_eq, eq_iff, arith,
}
use webhook_ingestion_servic.Events.{Uuid, Event, pending}
use webhook_ingestion_servic.Runtime.{Runtime, World, Outcome, ok, raise, http, perform, db_execute}
use webhook_ingestion_servic.Runtime.Rules.{log}
use webhook_ingestion_servic.Security.{verify_webhook_signature}
use webhook_ingestion_servic.Crud.{with_delivery, get_event_by_delivery_id, one_or_none}
use webhook_ingestion_servic.Crud.Unique.{IsUnique}
use webhook_ingestion_servic.Routes.{
  WebhookIn, HttpRequest, WebhookAccepted, duplicate, find_duplicate, answer_duplicate, accept,
  receive_webhook,
}
use webhook_ingestion_servic.Routes.Intake.{Stores, Receives, receive_webhook-Receives}

module _ (rt : Runtime) (delivery : String) where
  -- The request names the delivery, passes the signature check in `u`, and the lookup query works.
  pub record IsServed (request : HttpRequest) (u : World) : Type 0 where
    pub named : request.header rt.settings.webhook_id_header ≡ some delivery
    pub signed :
        verify_webhook_signature rt request.body
          (request.header rt.settings.webhook_timestamp_header)
          (request.header rt.settings.webhook_signature_header)
          u
        ≡ (ok tt, u)
    pub reads : rt.fails u.history db_execute ≡ false

  -- Answered as a duplicate of the event `id`; nothing is written, and the broker is told nothing.
  pub record IgnoresDuplicate (id : Uuid) (u : World) (p : Outcome WebhookAccepted × World)
      : Type 0 where
    pub answer : WebhookAccepted
    pub answers : p.0 ≡ ok answer
    pub is_duplicate : answer.status ≡ duplicate
    pub same_event : answer.event_id ≡ id
    pub kept : p.1.events ≡ u.events
    pub silent : log p.1.history ≡ log u.history

  pub known-IgnoresDuplicate :
      (d : WebhookIn) (request : HttpRequest) (e : Event) (u : World)
      → delivery ≢ ""
      → select (with_delivery delivery) u.events ≡ e ∷ []
      → IsServed request u
      → IgnoresDuplicate e.id u (receive_webhook rt d request u)
  unfolding receive_webhook find_duplicate get_event_by_delivery_id perform one_or_none accept
      answer_duplicate
  known-IgnoresDuplicate d request e u given known s =
      let nonempty : str_eq delivery "" ≡ false = ground (arith, eq_iff delivery "") in
      rw (s.named, s.signed, nonempty, s.reads, known)
        (record {
          answer = record { status = duplicate; event_id = e.id; delivery_id = e.delivery_id };
          answers = refl;
          is_duplicate = refl;
          same_event = refl;
          kept = refl;
          silent = refl;
        })

  select_held :
      (r : Event)
      → r.delivery_id ≡ some delivery
      → select (with_delivery delivery) (r ∷ []) ≡ r ∷ []
  unfolding select
  select_held r h = rw h (ground (arith, eq_iff delivery delivery))

  pub Stores-known :
      (d : WebhookIn) (request : HttpRequest) (w v : World) (s : Stores rt d request delivery w v)
      → select (with_delivery delivery) v.events ≡ s.row ∷ []
  Stores-known d request w v s =
      rw (s.added, select-append, s.unknown) (select_held s.row s.is_new.has_delivery)

  module _ (d d' : WebhookIn) (request request' : HttpRequest) (w u : World) where
    abbrev Loses : Outcome WebhookAccepted × World → Type 0
    Loses (raise (http s text), v) =
        s ≡ 503
        → u.events ≡ v.events
        → (e : Event) × (v.events ≡ w.events ++ (e ∷ []))
          × (e.processing_status ≡ pending)
          × IgnoresDuplicate e.id u (receive_webhook rt d' request' u)
    Loses _ = Unit

    loses :
        (p : Outcome WebhookAccepted × World)
        → delivery ≢ ""
        → IsServed request' u
        → Receives rt d request delivery w p
        → Loses p
    loses (ok a, v) given s h = tt
    loses (raise (http k text), v) given s (inl (other, kept)) =
        λ unavailable same. absurd (ground (arith, other, unavailable))
    loses (raise (http k text), v) given s (inr r) = λ unavailable same. (
      r.row,
      r.added,
      r.is_new.is_pending,
      known-IgnoresDuplicate d' request' r.row u given
          (ap (select (with_delivery delivery)) same ∙ Stores-known d request w v r) s,
    )
    loses (raise x, v) given s h = tt

  -- A request that is refused with 503 has left a pending row behind. When the sender repeats it, and
  -- the rows are the same and the signature check passes, it is answered as a duplicate of that row:
  -- nothing is written and nothing is enqueued.
  pub receive_webhook_unavailable_then_duplicate :
      (d d' : WebhookIn) (request request' : HttpRequest) (w v u : World) (text : String)
      → delivery ≢ ""
      → IsUnique w.events
      → request.header rt.settings.webhook_id_header ≡ some delivery
      → receive_webhook rt d request w ≡ (raise (http 503 text), v)
      → u.events ≡ v.events
      → IsServed request' u
      → (e : Event) × (v.events ≡ w.events ++ (e ∷ []))
        × (e.processing_status ≡ pending)
        × IgnoresDuplicate e.id u (receive_webhook rt d' request' u)
  receive_webhook_unavailable_then_duplicate d d' request request' w v u text given unique named e
        same s =
      subst (Loses d d' request request' w u) e
        (loses d d' request request' w u (receive_webhook rt d request w) given s
          (receive_webhook-Receives rt d request delivery w named given unique))
        refl same
