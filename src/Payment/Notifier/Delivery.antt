-- ===== src/Payment/Notifier/Delivery.antt =====
-- What a completed webhook job has done.
use mathlib.Core.Path.{subst}
use tugas_akhir.Common.{
  ◌<◌, String, ◌≡◌, ◌≢◌, ◌⊎◌, refl, sym, ap, ◌∙◌, true, Option, none, some, Outcome, ok, throw,
  bind_post, arith,
}
use tugas_akhir.Payment.Json.{Text, Failure}
use tugas_akhir.Payment.Entity.{
  Status, pending, Invoice, Zod, ZodLaws, invoice_json, schema-json, schema-positive,
}
use tugas_akhir.Payment.Platform.{Platform, Faithful}
use tugas_akhir.Payment.Invoice.{key, stringify, get_invoice, expire_invoice}
use tugas_akhir.Payment.Invoice.Reads.{Stored, GetPost, get_invoice_post}
use tugas_akhir.Payment.Invoice.Expire.{ExpireWrites, ExpirePost, expire_invoice_post}
use tugas_akhir.Payment.Notifier.{
  WebhookResponse, Sender, judge, settle_first, expired_result, found_invoice, load_invoice,
  deliver, process_job,
}

-- The receiver took the webhook, or a retry is not wanted.
abbrev pub Accepted : WebhookResponse → Type 0
Accepted r = (r.ok ≡ true) ⊎ (r.status_code ≡ 404) ⊎ (r.status_code < 400)

judge-Accepted : {S : Type 0} (r : WebhookResponse) (s : S) → (judge r s).0 ≡ ok tt → Accepted r
unfolding judge
judge-Accepted r s h = ground arith

module _ {S : Type 0} (p : Platform S) (z : Zod) (contents : S → String → Option Text)
    (env : Faithful p contents) (laws : ZodLaws z) (sender : Sender S) where
  -- The invoice to send is settled, and is the one that Redis holds now.
  abbrev pub LoadPost : String → Outcome Failure Invoice → S → Type 0
  LoadPost id (ok inv) s' = (inv.status ≢ pending) × Stored z contents s' id inv
  LoadPost id (throw e) s' = Unit {0}

  Stored-after_expiry :
      (id : String) (s s' : S) (new : Invoice)
      → ExpireWrites p z contents env id s new s'
      → Stored z contents s' id new
  Stored-after_expiry id s s' new (old, (j, _, parsed), _, e, w) =
      let h : 0 < new.amount =
        subst (λ (i : Invoice). 0 < i.amount) (sym e) (schema-positive z laws j old parsed) in
      (invoice_json new, w, schema-json z laws new h)

  expired_result_post :
      (id : String) (s : S) (r : Option Invoice) (s' : S)
      → ExpirePost p z contents env id s (ok r) s'
      → LoadPost id (expired_result p z sender r s').0 (expired_result p z sender r s').1
  expired_result_post id s none s' h = tt
  expired_result_post id s (some new) s' (old, st, pe, e, w) =
      ((λ q. cc (e, q)), Stored-after_expiry id s s' new (old, st, pe, e, w))

  settle_first_post :
      (st : Status) (id : String) (inv : Invoice) (s1 : S)
      → inv.status ≡ st
      → Stored z contents s1 id inv
      → LoadPost id
          (settle_first p z sender st id inv s1).0
          (settle_first p z sender st id inv s1).1
  settle_first_post pending id inv s1 e stored =
      bind_post (LoadPost id) (expire_invoice p z id) (expired_result p z sender) s1
        (λ r q. expired_result_post id s1 r _ (
          subst (λ o. ExpirePost p z contents env id s1 o (expire_invoice p z id s1).1) q
            (expire_invoice_post p z contents env id s1)))
        (λ _ _. tt)
  settle_first_post st id inv s1 e stored = ((λ q. cc (e, q)), stored)

  found_post :
      (id : String) (s : S) (found : Option Invoice) (s1 : S)
      → GetPost p z contents env id s (ok found) s1
      → LoadPost id
          (found_invoice p z sender id found s1).0
          (found_invoice p z sender id found s1).1
  found_post id s none s1 h = tt
  found_post id s (some inv) s1 (at, (j, there, parsed)) =
      settle_first_post inv.status id inv s1 refl (
        j,
        (ap (λ (w : S). contents w (key id)) at
              ∙ ap (λ (c : String → Option Text). c (key id)) (env.get_keeps (key id) s))
            ∙ there,
        parsed,
      )

  load_invoice_post :
      (id : String) (s : S)
      → LoadPost id (load_invoice p z sender id s).0 (load_invoice p z sender id s).1
  unfolding load_invoice
  load_invoice_post id s =
      bind_post (LoadPost id) (get_invoice p z id) (found_invoice p z sender id) s
        (λ found e. found_post id s found _ (
          subst (λ r. GetPost p z contents env id s r (get_invoice p z id s).1) e
            (get_invoice_post p z contents env id s)))
        (λ _ _. tt)

  -- The webhook of `inv` was posted in the world `s1` with its signature, and was accepted.
  abbrev pub Delivered : Invoice → S → Type 0
  Delivered inv s1 =
      (r : WebhookResponse) × ((sender.post (stringify inv) (sender.hmac (stringify inv)) s1).0
        ≡ ok r)
      × Accepted r

  abbrev SentPost : String → S → Outcome Failure (Unit {0}) → S → Type 0
  SentPost id s (ok u) s' =
      (inv : Invoice) × ((load_invoice p z sender id s).0 ≡ ok inv)
      × (inv.status ≢ pending)
      × Stored z contents (load_invoice p z sender id s).1 id inv
      × Delivered inv (load_invoice p z sender id s).1
  SentPost id s (throw e) s' = Unit {0}

  judge_post :
      (id : String) (s : S) (inv : Invoice) (r : WebhookResponse) (s2 : S)
      → (load_invoice p z sender id s).0 ≡ ok inv
      → LoadPost id (ok inv) (load_invoice p z sender id s).1
      → ((sender.post
            (stringify inv)
            (sender.hmac (stringify inv))
            (load_invoice p z sender id s).1).0
          ≡ ok r)
      → (o : Outcome Failure (Unit {0})) (s' : S) → (judge r s2).0 ≡ o
      → SentPost id s o s'
  judge_post id s inv r s2 loaded (np, stored) posted (ok tt) s' h =
      (inv, loaded, np, stored, (r, posted, judge-Accepted r s2 h))
  judge_post id s inv r s2 loaded post posted (throw e) s' h = tt

  process_job_post :
      (id : String) (s : S)
      → SentPost id s (process_job p z sender id s).0 (process_job p z sender id s).1
  unfolding process_job
  process_job_post id s =
      bind_post (SentPost id s) (load_invoice p z sender id) (deliver p z sender) s
        (λ inv loaded.
          bind_post (SentPost id s) (sender.post (stringify inv) (sender.hmac (stringify inv)))
            judge (load_invoice p z sender id s).1
            (λ r posted.
              judge_post id s inv r _ loaded
                (subst (λ o. LoadPost id o (load_invoice p z sender id s).1) loaded
                  (load_invoice_post id s))
                posted _ _ refl)
            (λ _ _. tt))
        (λ _ _. tt)

  -- A job that completes has posted the webhook of an invoice that is not pending: of the one that
  -- Redis then held under the id of the job, expired by the job itself if it was still pending. The
  -- body was signed, and the answer was a success, a 404 or a status below 400.
  pub process_job-ok :
      (id : String) (s : S)
      → (process_job p z sender id s).0 ≡ ok tt
      → (inv : Invoice) × ((load_invoice p z sender id s).0 ≡ ok inv)
        × (inv.status ≢ pending)
        × Stored z contents (load_invoice p z sender id s).1 id inv
        × Delivered inv (load_invoice p z sender id s).1
  process_job-ok id s h =
      subst (λ o. SentPost id s o (process_job p z sender id s).1) h (process_job_post id s)
