-- ===== src/Payment/App/Shown.antt =====
-- What GET /invoices/{id} answers.
use tugas_akhir.Common.{
  String, ◌≡◌, ◌⊎◌, refl, ap, ◌∙◌, Option, none, some, Outcome, ok, throw, inl, inr, pure, continue,
}
use tugas_akhir.Payment.Json.{Json, Text, Failure}
use tugas_akhir.Payment.Entity.{Invoice, Zod, invoice_json, id_params_schema}
use tugas_akhir.Payment.Platform.{Platform, Faithful}
use tugas_akhir.Payment.Invoice.{key, get_invoice}
use tugas_akhir.Payment.Invoice.Reads.{Stored, GetPost, get_invoice_post}
use tugas_akhir.Payment.App.{
  WebhookQueue, Response, respond, invoice, message, on_error, recover, found_response, get_route,
}

module _ {S : Type 0} (p : Platform S) (z : Zod) (contents : S → String → Option Text)
    (env : Faithful p contents) (queue : WebhookQueue S) (rejected : Response) where
  -- The answer for an id in a world.
  abbrev pub ShowAnswer : String → S → Response → Type 0
  ShowAnswer id s r =
      ((r ≡ respond 404 (message "Invoice not found")) × (contents s (key id) ≡ none))
      ⊎ ((inv : Invoice) × (r ≡ respond 200 (invoice (invoice_json inv)))
          × Stored z contents s id inv)
      ⊎ ((e : Failure) × ((get_invoice p z id s).0 ≡ throw e) × (r ≡ on_error e))

  answer_post :
      (id : String) (s : S) (o : Outcome Failure (Option Invoice)) (s1 : S)
      → (get_invoice p z id s).0 ≡ o
      → GetPost p z contents env id s o s1
      → let run = continue (λ found. pure (found_response p z queue rejected found)) o s1 in
        ShowAnswer id s (recover run).0 × (contents (recover run).1 ≡ contents s)
  answer_post id s (ok none) s1 q (e, nothing) =
      (inl (refl, nothing), ap contents e ∙ env.get_keeps (key id) s)
  answer_post id s (ok (some inv)) s1 q (e, stored) =
      (inr (inl (inv, refl, stored)), ap contents e ∙ env.get_keeps (key id) s)
  answer_post id s (throw f) s1 q e =
      (inr (inr (f, q, refl)), ap contents e ∙ env.get_keeps (key id) s)

  -- GET /invoices/{id} changes nothing in Redis. It answers 404 where nothing is stored under the id,
  -- 200 with the invoice that is stored there, or it passes on an error of the read: of Redis, or of
  -- a text that is no invoice.
  pub get_route-answer :
      (params : Json) (id : String) (s : S)
      → id_params_schema z params ≡ some id
      → ShowAnswer id s (get_route p z queue rejected params s).0
        × (contents (get_route p z queue rejected params s).1 ≡ contents s)
  unfolding get_route
  get_route-answer params id s e = rw e (
      answer_post id s (get_invoice p z id s).0 (get_invoice p z id s).1 refl
        (get_invoice_post p z contents env id s))
