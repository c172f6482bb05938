-- ===== src/Payment/App/Refines.antt =====
-- The routes of the invoices against the ledger of invoices.
use tugas_akhir.Common.{
  arith, ℕ, ◌≤◌, String, ◌≡◌, refl, ap, ◌∙◌, Bool, true, false, Option, none, some, Outcome, ok,
  throw, continue, pure, ◌>>◌,
}
use tugas_akhir.Common.Int.{ℤ, pos, ◌+ℤ◌}
use tugas_akhir.Payment.Json.{Json, Text, Failure}
use tugas_akhir.Payment.Entity.{
  create_schema-positive, Invoice, Mode, Zod, ZodLaws, invoice_json, id_params_schema,
  pay_invoice_schema,
}
use tugas_akhir.Payment.Platform.{Platform, Faithful}
use tugas_akhir.Payment.Invoice.{pay_invoice}
use tugas_akhir.Payment.Invoice.Ledger.{makes, shows, Ledger, Answer, Moment, pays, serve}
use tugas_akhir.Payment.Invoice.Ledger.Represents.{call, Reliable, Represents, Holds-same}
use tugas_akhir.Payment.Invoice.Ledger.Tracks.{Tracks, stamped}
use tugas_akhir.Payment.Invoice.Ledger.Calls.{Follows-makes}
use tugas_akhir.Payment.Invoice.Ledger.Refines.{call-serve}
use tugas_akhir.Payment.App.{
  create_invoice, get_invoice, create_invoice_schema, CreateInvoice, create_route, announce,
  get_route, found_response, WebhookQueue, Response, respond, invoice, message, on_error, recover,
  delayed_job, promote_if, notify_paid, paid_response, pay_route,
}

-- The calls of the queue return, leave the invoices alone and do not turn the clock back.
pub record Quiet {S : Type 0} (queue : WebhookQueue S) (contents : S → String → Option Text)
    (time : S → ℕ) : Type 0 where
  pub add_answers : (id job : String) (delay : ℤ) (s : S) → (queue.add id job delay s).0 ≡ ok tt
  pub get_job_answers :
      (id : String) (s : S) → (job : Option String) × ((queue.get_job id s).0 ≡ ok job)
  pub is_delayed_answers :
      (job : String) (s : S) → (waiting : Bool) × ((queue.is_delayed job s).0 ≡ ok waiting)
  pub promote_answers : (job : String) (s : S) → (queue.promote job s).0 ≡ ok tt
  pub add_keeps :
      (id job : String) (delay : ℤ) (s : S) → contents (queue.add id job delay s).1 ≡ contents s
  pub get_job_keeps : (id : String) (s : S) → contents (queue.get_job id s).1 ≡ contents s
  pub is_delayed_keeps : (job : String) (s : S) → contents (queue.is_delayed job s).1 ≡ contents s
  pub promote_keeps : (job : String) (s : S) → contents (queue.promote job s).1 ≡ contents s
  pub add_later : (id job : String) (delay : ℤ) (s : S) → time s ≤ time (queue.add id job delay s).1
  pub get_job_later : (id : String) (s : S) → time s ≤ time (queue.get_job id s).1
  pub is_delayed_later : (job : String) (s : S) → time s ≤ time (queue.is_delayed job s).1
  pub promote_later : (job : String) (s : S) → time s ≤ time (queue.promote job s).1

recover-ok :
    {S : Type 0} (run : Outcome Failure Response × S) (r : Response)
    → run.0 ≡ ok r
    → ((recover run).0 ≡ r) × ((recover run).1 ≡ run.1)
recover-ok (ok a, s) r e = (ground arith, refl)
recover-ok (throw x, s) r e = cc e

-- What the route shows of an answer of the service.
abbrev pub shown : Answer → Response
shown (ok none) = respond 404 (message "Invoice not found")
shown (ok (some inv)) = respond 200 (invoice (invoice_json inv))
shown (throw e) = on_error e

-- A response to a call that started in `s` shows what `spec` answers at some moment of it, and the
-- world represents the ledger after it.
abbrev pub Served :
    {S : Type 0}
    → (S → String → Option Text)
    → (S → ℕ)
    → S
    → (Moment → Answer × Ledger)
    → Response × S
    → Type 0
Served contents time s spec run =
    (m : Moment) × (run.0 ≡ shown (spec m).0)
    × Represents contents run.1 (spec m).1
    × (time s ≤ m.first)
    × (m.first ≤ m.second)
    × (m.second ≤ time run.1)

module _ {S : Type 0} (p : Platform S) (z : Zod) (contents : S → String → Option Text)
    (queue : WebhookQueue S) (rejected : Response) (time : S → ℕ)
    (quiet : Quiet queue contents time) where
  -- The call returned `a` and left the invoices alone.
  abbrev Returns : {A : Type 0} → S → A → Outcome Failure A → S → Type 0
  Returns s a r s' = (r ≡ ok a) × (contents s' ≡ contents s) × (time s ≤ time s')

  promote-Returns :
      (job : Option String) (waiting : Bool) (s : S)
      → let run = promote_if p z queue rejected waiting job s in Returns s tt run.0 run.1
  promote-Returns none true s = (refl, refl, omega arith)
  promote-Returns none false s = (refl, refl, omega arith)
  promote-Returns (some job) true s =
      (quiet.promote_answers job s, quiet.promote_keeps job s, quiet.promote_later job s)
  promote-Returns (some job) false s = (refl, refl, omega arith)

  delayed-Returns :
      (job : Option String) (s : S)
      → (waiting : Bool) × Returns s waiting
          (delayed_job p z queue rejected job s).0
          (delayed_job p z queue rejected job s).1
  delayed-Returns none s = (false, (refl, refl, omega arith))
  delayed-Returns (some job) s =
      let (waiting, e) = quiet.is_delayed_answers job s in
      (waiting, (e, quiet.is_delayed_keeps job s, quiet.is_delayed_later job s))

  notify-Returns :
      (inv : Invoice) (s : S)
      → let run = notify_paid p z queue rejected inv s in
        Returns s (respond 200 (invoice (invoice_json inv))) run.0 run.1
  notify-Returns inv s =
      let (job, found) = quiet.get_job_answers inv.id s in
      let s1 : S = (queue.get_job inv.id s).1 in
      let (waiting, (asked, same, t1)) = delayed-Returns job s1 in
      let s2 : S = (delayed_job p z queue rejected job s1).1 in
      let (done, kept, t2) = promote-Returns job waiting s2 in
      rw (found, asked, done)
        (
          refl,
          kept ∙ same ∙ quiet.get_job_keeps inv.id s,
          omega (arith, quiet.get_job_later inv.id s, t1, t2),
        )

  module _ (env : Faithful p contents) (laws : ZodLaws z) (up : Reliable p time) where
    -- The rest of createInvoice's route returns the invoice, too.
    queue-Returns :
        (inv : Invoice) (s : S)
        → let run =
            (queue.add inv.id inv.id (p.diff inv.expired_at (p.clock s).0 +ℤ pos 1000)
                >> pure (respond 200 (invoice (invoice_json inv))))
              (p.clock s).1 in
          Returns s (respond 200 (invoice (invoice_json inv))) run.0 run.1
    queue-Returns inv s =
        let delay = p.diff inv.expired_at (p.clock s).0 +ℤ pos 1000 in
        let s1 : S = (p.clock s).1 in
        rw (quiet.add_answers inv.id inv.id delay s1) (
          refl,
          quiet.add_keeps inv.id inv.id delay s1 ∙ env.clock_keeps s,
          omega (arith, quiet.add_later inv.id inv.id delay s1, up.clock_reads s, up.clock_later s),
        )

    abbrev Shows : S → Ledger → Answer → Response × S → Type 0
    Shows s l a run = (run.0 ≡ shown a) × Represents contents run.1 l × (time s ≤ time run.1)

    returned-Shows :
        (inv : Invoice) (s : S) (l : Ledger) (run : Outcome Failure Response × S)
        → Represents contents s l
        → Returns s (respond 200 (invoice (invoice_json inv))) run.0 run.1
        → Shows s l (ok (some inv)) (recover run)
    returned-Shows inv s l run h (e, same, later) =
        let (a, w) = recover-ok run (respond 200 (invoice (invoice_json inv))) e in
        (a, Holds-same p z contents time env laws up s _ l (ap contents w ∙ same) h, rw w later)

    pay-Shows :
        (r : Answer) (s : S) (l : Ledger)
        → Represents contents s l
        → Shows s l r (recover (continue (paid_response p z queue rejected) r s))
    pay-Shows (ok none) s l h = (refl, h, omega arith)
    pay-Shows (throw e) s l h = (refl, h, omega arith)
    pay-Shows (ok (some inv)) s l h = returned-Shows inv s l _ h (notify-Returns inv s)

    get-Shows :
        (r : Answer) (s : S) (l : Ledger)
        → Represents contents s l
        → Shows s l r
            (recover (continue (λ found. pure (found_response p z queue rejected found)) r s))
    get-Shows (ok none) s l h = (refl, h, omega arith)
    get-Shows (throw e) s l h = (refl, h, omega arith)
    get-Shows (ok (some inv)) s l h = (refl, h, omega arith)

    -- What createInvoice gave, as an answer of the ledger.
    abbrev as_answer : Outcome Failure Invoice → S → Answer × S
    as_answer r s = continue (λ inv. pure (some inv)) r s

    create-Shows :
        (r : Outcome Failure Invoice) (s : S) (l : Ledger)
        → Represents contents (as_answer r s).1 l
        → Shows
            (as_answer r s).1
            l
            (as_answer r s).0
            (recover (continue (announce p z queue rejected) r s))
    create-Shows (throw e) s l h = (refl, h, omega arith)
    create-Shows (ok inv) s l h = returned-Shows inv s l _ h (queue-Returns inv s)

    Served-from :
        (s : S) (spec : Moment → Answer × Ledger) (run : Answer × S) (out : Response × S)
        → Tracks contents time s spec run
        → ((l : Ledger) → Represents contents run.1 l → Shows run.1 l run.0 out)
        → Served contents time s spec out
    Served-from s spec run out (m, (answer, world), before, order, after) finish =
        let (e, h, later) = finish (spec m).1 world in
        (m, e ∙ ap shown answer, h, before, order, omega (arith, after, later))

    -- Where Redis and the queue answer every call, the route of a payment answers what the ledger
    -- answers to the payment: 404 where there is no invoice, 400 where it cannot be paid, and 200
    -- with the invoice after it; and it leaves a world that represents the ledger after it.
    pub pay_route-Served :
        (params body : Json) (id : String) (mode : Mode) (s : S) (l : Ledger)
        → id_params_schema z params ≡ some id
        → pay_invoice_schema z body ≡ some mode
        → Represents contents s l
        → Served contents time s
            (λ m. serve (pays id mode) m l)
            (pay_route p z queue rejected params body s)
    unfolding pay_route call
    pay_route-Served params body id mode s l ei em h =
        rw (ei, em)
          (Served-from s _ _ _ (call-serve p z contents time env laws up (pays id mode) s l tt h)
            (pay-Shows (pay_invoice p z id mode s).0 (pay_invoice p z id mode s).1))

    -- The route that shows an invoice answers what the ledger holds.
    pub get_route-Served :
        (params : Json) (id : String) (s : S) (l : Ledger)
        → id_params_schema z params ≡ some id
        → Represents contents s l
        → Served contents time s (λ m. serve (shows id) m l) (get_route p z queue rejected params s)
    unfolding get_route call
    get_route-Served params id s l ei h = rw ei (
        Served-from s _ _ _ (call-serve p z contents time env laws up (shows id) s l tt h)
          (get-Shows (get_invoice p z id s).0 (get_invoice p z id s).1))

    -- The route that makes an invoice shows the one that the ledger makes, under the id that the
    -- generator gives, once its job is queued.
    pub create_route-Served :
        (body : Json) (payload : CreateInvoice) (s : S) (l : Ledger)
        → create_invoice_schema z body ≡ some payload
        → Represents contents s l
        → Served contents time s
            (λ m. serve (makes payload) (stamped p s m) l)
            (create_route p z queue rejected body s)
    unfolding create_route call
    create_route-Served body payload s l e h = rw e (
        Served-from s _ _ _
          (Follows-makes p z contents time env laws up s l payload h
            (create_schema-positive z laws body payload e))
          (create-Shows (create_invoice p z payload s).0 (create_invoice p z payload s).1))
