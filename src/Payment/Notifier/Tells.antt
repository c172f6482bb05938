-- ===== src/Payment/Notifier/Tells.antt =====
-- What the webhook job of implementation/payment/src/cmd/notifier/index.ts posts, after requests to
-- the server.
use tugas_akhir.Common.{
  ℕ, ◌≤◌, String, ◌≡◌, ◌≢◌, refl, sym, ap, ◌∙◌, Option, some, List, [], ◌∷◌, map, ok, inl, inr, Any,
}
use tugas_akhir.Payment.Json.{Text}
use tugas_akhir.Payment.Entity.{Status, pending, expired, paid, failed, Invoice, Zod, ZodLaws}
use tugas_akhir.Payment.Platform.{Platform, Faithful}
use tugas_akhir.Payment.Invoice.Ledger.{
  Ledger, lapse, lapse_entry, Command, shows, makes, pays, lapses, Moment, replay,
}
use tugas_akhir.Payment.Invoice.Ledger.Represents.{Reliable, Represents}
use tugas_akhir.Payment.Invoice.Ledger.Refines.{command_of}
use tugas_akhir.Payment.Invoice.Ledger.Keeps.{Remakes, replay_keeps}
use tugas_akhir.Payment.App.{WebhookQueue, Response}
use tugas_akhir.Payment.App.Server.{Request, Matches, Pages, Limit}
use tugas_akhir.Payment.App.Requests.{MatchesInvoices, Limits}
use tugas_akhir.Payment.App.Refines.{Quiet}
use tugas_akhir.Payment.App.Serves.{AskAll, serve_all, GeneratedAll, serve_all-replay}
use tugas_akhir.Payment.Notifier.{Sender, load_invoice, deliver, process_job}
use tugas_akhir.Payment.Notifier.Settles.{lapsed, load_ledger}

lapse_entry_same :
    (l : Ledger) (id : String) (st : Status) (inv : Invoice)
    → inv.status ≢ pending
    → inv.status ≡ st
    → (lapse_entry l id st inv).1 ≡ l
lapse_entry_same l id pending inv not_pending e = absurd (not_pending e)
lapse_entry_same l id expired inv not_pending e = refl
lapse_entry_same l id paid inv not_pending e = refl
lapse_entry_same l id failed inv not_pending e = refl

-- The job does not change an invoice that is not pending.
lapsed_same :
    (l : Ledger) (id : String) (inv : Invoice)
    → inv.status ≢ pending
    → l id ≡ some inv
    → lapsed l id ≡ l
lapsed_same l id inv not_pending e =
    ap (λ found. (lapse l id found).1) e ∙ lapse_entry_same l id inv.status inv not_pending refl

module _ {S : Type 0} (p : Platform S) (z : Zod) (contents : S → String → Option Text)
    (time : S → ℕ) (env : Faithful p contents) (laws : ZodLaws z) (up : Reliable p time)
    (sender : Sender S) where
  -- The job on `id` posts the invoice `inv`, and does nothing else to the ledger.
  abbrev pub Posts : Ledger → String → Invoice → S → Type 0
  Posts l id inv s =
      (s1 : S) × Represents contents s1 l
      × (process_job p z sender id s ≡ deliver p z sender inv s1)

  delivers :
      (id : String) (inv : Invoice) (s : S)
      → (load_invoice p z sender id s).0 ≡ ok inv
      → process_job p z sender id s ≡ deliver p z sender inv (load_invoice p z sender id s).1
  unfolding process_job
  delivers id inv s e = rw e refl

  process_job-Posts :
      (s : S) (l : Ledger) (id : String) (inv : Invoice)
      → inv.status ≢ pending
      → l id ≡ some inv
      → Represents contents s l
      → Posts l id inv s
  process_job-Posts s l id inv not_pending e h =
      let (answer, world) =
        rw (lapsed_same l id inv not_pending e, e) at
          (load_ledger p z contents time env laws up sender s l h id) in
      ((load_invoice p z sender id s).1, world, delivers id inv s answer)

  module _ (queue : WebhookQueue S) (rejected : Response) (pages : Pages S) (matches : Matches)
      (routed : MatchesInvoices matches) (limit : Limit S)
      (duration : (S → Response × S) → S → Option ℕ) (limits : Limits limit duration)
      (quiet : Quiet queue contents time) where
    -- No id that the generator gives from a time on is `id`.
    abbrev pub NeverAgain : String → ℕ → Type 0
    NeverAgain id t = (w : S) → t ≤ time w → (p.generate w).0 ≢ id

    abbrev IdsFrom : ℕ → List (Command × Moment) → Type 0
    IdsFrom =
        GeneratedAll p z queue rejected pages matches routed limit duration limits contents time env
          laws up quiet

    here_again :
        (id : String) (t : ℕ) (c : Command) (m : Moment) (ms : List (Command × Moment))
        → NeverAgain id t
        → IdsFrom t ((c, m) ∷ ms)
        → Remakes id (c, m)
        → ⊥
    here_again id t (makes payload) m ms never ((w, late, given), rest) same =
        never w late (sym given ∙ same)
    here_again id t (shows j) m ms never h same = same
    here_again id t (pays j mode) m ms never h same = same
    here_again id t (lapses j) m ms never h same = same

    not_remade :
        (id : String) (t : ℕ) (ms : List (Command × Moment))
        → NeverAgain id t
        → IdsFrom t ms
        → Any (Remakes id) ms
        → ⊥
    not_remade id t [] never h any = any
    not_remade id t ((c, m) ∷ ms) never h (inl here) = here_again id t c m ms never h here
    not_remade id t ((c, m) ∷ ms) never (first, h) (inr later) = not_remade id t ms never h later

    -- From a world that represents a ledger, where Redis and the queue answer every call and the
    -- generator of ids does not give `id` any more: after any requests to the server that meet the
    -- schemas of their routes, the webhook job of the invoice `id`, if that was not pending before
    -- them, posts this invoice, as it was in the ledger then. The world at the post represents the
    -- ledger after the commands of the requests.
    pub process_job-tells :
        (requests : List Request) (cs : List Command) (s : S) (l : Ledger) (id : String)
        (inv : Invoice)
        → AskAll p z queue rejected pages matches routed limit duration limits contents time env
            laws up quiet requests cs
        → Represents contents s l
        → l id ≡ some inv
        → inv.status ≢ pending
        → NeverAgain id (time s)
        → (ms : List (Command × Moment)) × (map command_of ms ≡ cs)
          × ((replay ms l).1 id ≡ some inv)
          × Posts
              (replay ms l).1
              id
              inv
              (serve_all p z queue rejected pages matches routed limit duration limits contents time
                env laws up quiet requests s).1
    process_job-tells requests cs s l id inv asks h there settled never =
        let (ms, same, answers, world, times, ids) =
          serve_all-replay p z queue rejected pages matches routed limit duration limits contents
            time env laws up quiet requests cs s l asks h in
        elim (replay_keeps id inv settled ms l there) [
          | inl remade ↦ absurd (not_remade id (time s) ms never ids remade)
          | inr kept ↦
              (ms, same, kept, process_job-Posts _ (replay ms l).1 id inv settled kept world)
        ]
