-- ===== src/Payment/Notifier/Settles.antt =====
-- The webhook job against the ledger of invoices, on a Redis whose calls do not throw.
use text.Mathlib.TextEquality.{eq_iff}
use tugas_akhir.Common.{
  String, ◌≡◌, ◌≢◌, refl, ℕ, Option, none, some, Outcome, ok, throw, bind_post, arith,
}
use tugas_akhir.Payment.Json.{Text, Failure}
use tugas_akhir.Payment.Entity.{Status, pending, expired, paid, failed, Invoice, Zod, ZodLaws}
use tugas_akhir.Payment.Platform.{Platform, Faithful}
use tugas_akhir.Payment.Invoice.{key, stringify, expire_invoice}
use tugas_akhir.Payment.Invoice.Reads.{get_invoice_world}
use tugas_akhir.Payment.Invoice.Ledger.{Ledger, update, lapse, lapse_entry, serve}
use tugas_akhir.Payment.Invoice.Ledger.Represents.{
  Reliable, Represents, Holds-same, get_invoice-Holds,
}
use tugas_akhir.Payment.Invoice.Ledger.Calls.{Follows-lapses}
use tugas_akhir.Payment.Notifier.{
  WebhookResponse, Sender, judge, settle_first, found_invoice, load_invoice, deliver, process_job,
}
use tugas_akhir.Payment.Notifier.Delivery.{Accepted}

-- Under `id` there is no invoice that is still open.
abbrev pub IsSettledAt : Ledger → String → Type 0
IsSettledAt l id = (inv : Invoice) → l id ≡ some inv → inv.status ≢ pending

-- The ledger after the job: a pending invoice has lapsed.
abbrev pub lapsed : Ledger → String → Ledger
lapsed l id = (lapse l id (l id)).1

-- A request to the receiver does not change what Redis holds.
abbrev pub LeavesRedis : {S : Type 0} → (S → String → Option Text) → Sender S → Type 0
LeavesRedis {S} contents sender =
    (t : Text) (h : String) (s : S) → contents (sender.post t h s).1 ≡ contents s

-- The receiver answers each request, and takes it.
abbrev pub Accepts : {S : Type 0} → Sender S → Type 0
Accepts {S} sender =
    (t : Text) (h : String) (s : S)
    → (r : WebhookResponse) × ((sender.post t h s).0 ≡ ok r) × Accepted r

judge-ok : {S : Type 0} (r : WebhookResponse) (s : S) → Accepted r → (judge r s).0 ≡ ok tt
unfolding judge
judge-ok r s h = ground arith

judge_world : {S : Type 0} (r : WebhookResponse) (s : S) → (judge r s).1 ≡ s
unfolding judge
judge_world r s = ground arith

module _ {S : Type 0} (p : Platform S) (z : Zod) (contents : S → String → Option Text)
    (time : S → ℕ) (env : Faithful p contents) (laws : ZodLaws z) (up : Reliable p time)
    (sender : Sender S) where
  abbrev Holds : S → Ledger → Type 0
  Holds = Represents contents

  deliver-Holds :
      LeavesRedis contents sender
      → (l : Ledger) (inv : Invoice) (s : S) → Holds s l
      → Holds (deliver p z sender inv s).1 l
  deliver-Holds leaves l inv s h =
      bind_post (λ r s'. Holds s' l) (sender.post (stringify inv) (sender.hmac (stringify inv)))
        judge s
        (λ r e.
          rw (judge_world r (sender.post (stringify inv) (sender.hmac (stringify inv)) s).1) sent)
        (λ e _. sent)
    where
      sent : Holds (sender.post (stringify inv) (sender.hmac (stringify inv)) s).1 l
      sent = Holds-same p z contents time env laws up s _ l (leaves _ _ s) h

  deliver-ok : Accepts sender → (inv : Invoice) (s : S) → (deliver p z sender inv s).0 ≡ ok tt
  deliver-ok accepts inv s =
      let (r, e, a) = accepts (stringify inv) (sender.hmac (stringify inv)) s in
      rw e (judge-ok r _ a)

  module _ (s : S) (l : Ledger) (h : Holds s l) (id : String) where
    -- What the first half of the job gives: the invoice of the ledger after the lapse.
    abbrev pub LoadAnswer : Option Invoice → Outcome Failure Invoice → Type 0
    LoadAnswer none r = (e : Failure) × (r ≡ throw e)
    LoadAnswer (some inv) r = r ≡ ok inv

    abbrev pub Loads : Ledger → Outcome Failure Invoice × S → Type 0
    Loads l' run = LoadAnswer (l' id) run.0 × Holds run.1 l'

    expire_ledger :
        (s1 : S) (inv : Invoice)
        → Holds s1 l
        → l id ≡ some inv
        → inv.status ≡ pending
        → let new : Invoice = record inv { status = expired } in
          ((expire_invoice p z id s1).0 ≡ ok (some new))
          × Holds (expire_invoice p z id s1).1 (update l id new)
    unfolding serve
    expire_ledger s1 inv h1 e st =
        rw (e, st) at ((Follows-lapses p z contents time env laws up s1 l h1 id).1)

    settle_first_ledger :
        (s1 : S) (inv : Invoice) (st : Status)
        → Holds s1 l
        → l id ≡ some inv
        → inv.status ≡ st
        → Loads (lapse_entry l id st inv).1 (settle_first p z sender st id inv s1)
    settle_first_ledger s1 inv pending h1 e st =
        let (answer, world) = expire_ledger s1 inv h1 e st in
        rw (answer, (eq_iff id id).1 refl) (refl, world)
    settle_first_ledger s1 inv expired h1 e st = rw e (refl, h1)
    settle_first_ledger s1 inv paid h1 e st = rw e (refl, h1)
    settle_first_ledger s1 inv failed h1 e st = rw e (refl, h1)

    found_ledger :
        (s1 : S) (found : Option Invoice)
        → Holds s1 l
        → l id ≡ found
        → Loads (lapse l id found).1 (found_invoice p z sender id found s1)
    found_ledger s1 none h1 e = rw (LoadAnswer, e) ((_, refl), h1)
    found_ledger s1 (some inv) h1 e = settle_first_ledger s1 inv inv.status h1 e refl

    pub load_ledger : Loads (lapsed l id) (load_invoice p z sender id s)
    unfolding load_invoice
    load_ledger =
        rw
          (
            get_invoice-Holds p z contents time env laws up s l id h,
            get_invoice_world p z contents env id s,
          )
          (found_ledger _ (l id)
            (Holds-same p z contents time env laws up s _ l (env.get_keeps (key id) s) h) refl)

    lapsed_entry :
        (inv : Invoice) (st : Status)
        → l id ≡ some inv
        → inv.status ≡ st
        → IsSettledAt (lapse_entry l id st inv).1 id
    lapsed_entry inv pending at st new e q = ground (arith, e, q, (eq_iff id id).1 refl)
    lapsed_entry inv expired at st new e q = cc (at, st, e, q)
    lapsed_entry inv paid at st new e q = cc (at, st, e, q)
    lapsed_entry inv failed at st new e q = cc (at, st, e, q)

    lapsed-IsSettledAt :
        (found : Option Invoice) → l id ≡ found → IsSettledAt (lapse l id found).1 id
    lapsed-IsSettledAt none at inv e q = cc (at, e)
    lapsed-IsSettledAt (some old) at inv e q = lapsed_entry old old.status at refl inv e q

    lapsed_there :
        (inv : Invoice) (st : Status)
        → l id ≡ some inv
        → (new : Invoice) × ((lapse_entry l id st inv).1 id ≡ some new)
    lapsed_there inv pending e = rw ((eq_iff id id).1 refl) (_, refl)
    lapsed_there inv _ e = (inv, e)

    found_there :
        (inv : Invoice) (found : Option Invoice)
        → l id ≡ found
        → found ≡ some inv
        → (new : Invoice) × ((lapse l id found).1 id ≡ some new)
    found_there inv none at e = cc e
    found_there inv (some old) at e = lapsed_there old old.status at

    job-Holds : LeavesRedis contents sender → Holds (process_job p z sender id s).1 (lapsed l id)
    unfolding process_job
    job-Holds leaves =
        bind_post (λ r s'. Holds s' (lapsed l id)) (load_invoice p z sender id) (deliver p z sender)
          s (λ inv e. deliver-Holds leaves (lapsed l id) inv _ load_ledger.1) (λ e q. load_ledger.1)

    loaded_ok :
        (o : Option Invoice) (new : Invoice) (r : Outcome Failure Invoice)
        → LoadAnswer o r
        → o ≡ some new
        → r ≡ ok new
    loaded_ok none new r h e = cc e
    loaded_ok (some inv) new r h e = cc (h, e)

    job-ok :
        Accepts sender → (inv : Invoice) → l id ≡ some inv → (process_job p z sender id s).0 ≡ ok tt
    unfolding process_job
    job-ok accepts inv e =
        let (new, there) = found_there inv (l id) refl e in
        rw (loaded_ok (lapsed l id id) new _ load_ledger.0 there) (deliver-ok accepts new _)

  -- From a world that represents a ledger, with a Redis that answers every call: the job on `id`
  -- leaves a world that represents the ledger in which a pending invoice of that id has lapsed, so
  -- no open invoice is left there, whatever the receiver answers. If there is an invoice and the
  -- receiver accepts every request, the job completes.
  pub process_job-settles :
      (s : S) (l : Ledger) (id : String)
      → LeavesRedis contents sender
      → Holds s l
      → Holds (process_job p z sender id s).1 (lapsed l id)
        × IsSettledAt (lapsed l id) id
        × (Accepts sender
            → (inv : Invoice) → l id ≡ some inv
            → (process_job p z sender id s).0 ≡ ok tt)
  process_job-settles s l id leaves h =
      (job-Holds s l h id leaves, lapsed-IsSettledAt s l h id (l id) refl, job-ok s l h id)
