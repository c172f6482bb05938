-- ===== src/System/Loop.antt =====
-- The payment loop of the agent, as the ledger of the payment service sees it.
use tugas_akhir.Common.{
  ℕ, zero, suc, String, ◌≡◌, ◌⊎◌, refl, ◌∙◌, Bool, true, false, Option, none, some, List, [], ◌∷◌,
  Outcome, ok, throw, continue, Bool-cases, inl, inr, ltb,
}
use tugas_akhir.Common.Int.{ℤ, pos}
use tugas_akhir.Payment.Json.{Json, Text, obj, str}
use tugas_akhir.Payment.Entity.{
  Status, pending, paid, Invoice, Mode, success, Zod, ZodLaws, id_params_schema, pay_invoice_schema,
}
use tugas_akhir.Payment.Platform.{Platform, Faithful}
use tugas_akhir.Payment.Invoice.Ledger.{Ledger, Answer, Moment, pays, serve, pay, pay_entry}
use tugas_akhir.Payment.Invoice.Ledger.Represents.{Reliable, Represents, Holds-same}
use tugas_akhir.Payment.App.{WebhookQueue, Response}
use tugas_akhir.Payment.App.Server.{Matches, Pages, Limit}
use tugas_akhir.Payment.App.Requests.{MatchesInvoices, Limits}
use tugas_akhir.Payment.App.Refines.{Quiet}
use tugas_akhir.Agent.Kit.{Kit, KitLaws, Stop, pause}
use tugas_akhir.Agent.Types.{Order}
use tugas_akhir.Agent.Backend.{Backend}
use tugas_akhir.Agent.Loops.{pay_loop, paid_or_wait}
use tugas_akhir.System.{Network, mode_of, payment_json, Delivers, http}
use tugas_akhir.System.Payments.{seen, payment_url, Sees, pay_order-serve}
use tugas_akhir.Payment.Invoice.Pay.{settled}
use text.Mathlib.TextEquality.{eq_iff}

-- The status of an invoice after a payment.
abbrev pub status_after : Mode → Status
status_after success = paid
status_after Mode.failed = Status.failed

-- The ledger holds a payment of the invoice `id`.
abbrev pub IsPaidAt : Ledger → String → Mode → Type 0
IsPaidAt l id mode = (inv : Invoice) × (l id ≡ some inv) × (inv.status ≡ status_after mode)

-- If the answer is an invoice, the ledger after it holds its payment.
abbrev IsKept : String → Mode → Answer → Ledger → Type 0
IsKept id mode (ok (some inv)) l = IsPaidAt l id mode
IsKept id mode _ l = Unit {0}

status_settled :
    (mode : Mode) (t : ℕ) (inv : Invoice) → (settled mode t inv).status ≡ status_after mode
status_settled success t inv = refl
status_settled Mode.failed t inv = refl

entry-IsKept :
    (m : Moment) (l : Ledger) (id : String) (mode : Mode) (st : Status) (inv : Invoice)
    → IsKept id mode (pay_entry m l id mode st inv).0 (pay_entry m l id mode st inv).1
entry-IsKept m l id mode pending inv = elim (Bool-cases (ltb inv.expired_at m.first)) [
  | inl late ↦ rw late tt
  | inr early ↦ rw (early, (eq_iff id id).1 refl) (_, refl, status_settled mode m.second inv)
]
entry-IsKept m l id mode _ inv = tt

pay-IsKept :
    (m : Moment) (l : Ledger) (id : String) (mode : Mode) (found : Option Invoice)
    → IsKept id mode (pay m l id mode found).0 (pay m l id mode found).1
pay-IsKept m l id mode none = tt
pay-IsKept m l id mode (some inv) = entry-IsKept m l id mode inv.status inv

-- The agent's own calls of k6 leave the invoices alone.
pub record LeavesInvoices {S : Type 0} (kit : Kit S) (contents : S → String → Option Text)
    : Type 0 where
  pub check_keeps :
      (tests : List (Option Bool)) (s : S) → contents (kit.check tests s).1 ≡ contents s
  pub random_int_keeps : (lo hi : ℤ) (s : S) → contents (kit.random_int lo hi s).1 ≡ contents s
  pub sleep_keeps : (t : ℤ) (s : S) → contents (kit.sleep t s) ≡ contents s

module _ {S : Type 0} (p : Platform S) (z : Zod) (contents : S → String → Option Text)
    (queue : WebhookQueue S) (rejected : Response) (pages : Pages S) (matches : Matches)
    (routed : MatchesInvoices matches) (limit : Limit S)
    (duration : (S → Response × S) → S → Option ℕ) (limits : Limits limit duration) (net : Network)
    (b : Backend S Json) (kit_laws : KitLaws b.kit) (time : S → ℕ) (env : Faithful p contents)
    (laws : ZodLaws z) (up : Reliable p time) (quiet : Quiet queue contents time)
    (leaves : LeavesInvoices b.kit contents) (order : Order) (id : String) (succeeds : Bool) where
  -- The loop has returned, and where it returns true the ledger holds the payment.
  abbrev pub LoopPost : Outcome Stop Bool → S → Type 0
  LoopPost r s =
      (l : Ledger) × Represents contents s l
      × ((r ≡ ok false) ⊎ ((r ≡ ok true) × IsPaidAt l id (mode_of succeeds)))

  Represents-pause :
      (lo hi : ℤ) (s : S) (l : Ledger)
      → Represents contents s l
      → Represents contents (pause b.kit lo hi s) l
  Represents-pause lo hi s l =
      Holds-same p z contents time env laws up s _ l
        (leaves.sleep_keeps _ _ ∙ leaves.random_int_keeps lo hi s)

  answer_post :
      (n : ℕ) (a : Answer) (s : S) (l : Ledger)
      → Represents contents s l
      → IsKept id (mode_of succeeds) a l
      → ((s' : S)
          → Represents contents s' l
          → LoopPost (pay_loop b n order succeeds s').0 (pay_loop b n order succeeds s').1)
      → let run = paid_or_wait b (pay_loop b n order succeeds) (seen a) s in LoopPost run.0 run.1
  answer_post n (ok (some inv)) s l h kept ih = (l, h, inr (refl, kept))
  answer_post n (ok none) s l h kept ih = ih _ (Represents-pause (pos 2) (pos 6) s l h)
  answer_post n (throw e) s l h kept ih = ih _ (Represents-pause (pos 2) (pos 6) s l h)

  abbrev SeesHere : S → Answer → Outcome Stop (Option Json) → Type 0
  SeesHere =
      Sees p z contents queue rejected pages matches routed limit duration limits net b kit_laws id
        succeeds

  -- What the loop does with a reply that is late is what it does with none.
  reply_post :
      (n : ℕ) (s0 : S) (a : Answer) (out : Outcome Stop (Option Json)) (s : S) (l : Ledger)
      → SeesHere s0 a out
      → Represents contents s l
      → IsKept id (mode_of succeeds) a l
      → ((s' : S)
          → Represents contents s' l
          → LoopPost (pay_loop b n order succeeds s').0 (pay_loop b n order succeeds s').1)
      → let run = continue (paid_or_wait b (pay_loop b n order succeeds)) out s in
        LoopPost run.0 run.1
  reply_post n s0 a out s l (inl e) h kept ih = rw e (answer_post n a s l h kept ih)
  reply_post n s0 a out s l (inr (e, late)) h kept ih = rw e (answer_post n (ok none) s l h tt ih)

  -- The agent's payment loop returns, and what it takes for a payment is one: if it returns true, the
  -- ledger of the payment service holds the invoice of the order as paid, or as failed where the
  -- payment was to fail.
  pub pay_loop-IsPaidAt :
      (n : ℕ) (s : S) (l : Ledger)
      → b.http ≡ http p z queue rejected pages matches limit net
      → Delivers net (payment_url b id) id
      → order.invoice_external_id ≡ some id
      → id_params_schema z (obj (("id", str id) ∷ [])) ≡ some id
      → pay_invoice_schema z (payment_json succeeds) ≡ some (mode_of succeeds)
      → Represents contents s l
      → LoopPost (pay_loop b n order succeeds s).0 (pay_loop b n order succeeds s).1
  unfolding pay_loop serve
  pay_loop-IsPaidAt zero s l wired delivers external ei em h = (l, h, inl refl)
  pay_loop-IsPaidAt (suc n) s l wired delivers external ei em h =
      let (m, answer, world, before, order_of, later) =
        pay_order-serve p z contents queue rejected pages matches routed limit duration limits net b
          kit_laws time env laws up quiet order id succeeds s l leaves.check_keeps wired delivers
          external ei em h in
      reply_post n s (serve (pays id (mode_of succeeds)) m l).0 _ _ _ answer world
        (pay-IsKept m l id (mode_of succeeds) (l id))
        (λ s' h'. pay_loop-IsPaidAt n s' _ wired delivers external ei em h')
