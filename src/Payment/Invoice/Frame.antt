-- ===== src/Payment/Invoice/Frame.antt =====
-- What the methods of InvoiceService do to other keys than that of the invoice they are about.
use tugas_akhir.Common.{
  String, ◌≡◌, ◌≢◌, refl, ap, ◌∙◌, Option, none, some, Exec, ◌>>=◌, bind_post, Bool-cases, inl, inr,
  pure,
}
use text.Mathlib.TextLemmas.{append_cancel_left}
use tugas_akhir.Payment.Json.{Text, Failure}
use tugas_akhir.Payment.Entity.{Status, pending, Invoice, CreateInvoice, Mode, success, Zod}
use tugas_akhir.Payment.Platform.{Platform, Faithful}
use tugas_akhir.Payment.Invoice.Reads.{get_invoice_world}
use tugas_akhir.Payment.Invoice.{
  key, ttl, stringify, settle, get_invoice, create_invoice, expire_read, expire_found,
  expire_invoice, pay_read, pay_found, pay_invoice,
}

pub key_injective : (i j : String) → key i ≡ key j → i ≡ j
key_injective i j h = append_cancel_left "invoices:" i j h

module _ {S : Type 0} (p : Platform S) (z : Zod) (contents : S → String → Option Text)
    (env : Faithful p contents) (k : String) where
  abbrev pub Keeps : {A : Type 0} → Exec S Failure A → Type 0
  Keeps m = (s : S) → contents (m s).1 k ≡ contents s k

  Keeps-bind :
      {A B : Type 0} (m : Exec S Failure A) (f : A → Exec S Failure B)
      → Keeps m
      → ((a : A) → Keeps (f a))
      → Keeps (m >>= f)
  Keeps-bind m f km kf s =
      bind_post (λ _ s'. contents s' k ≡ contents s k) m f s (λ a _. kf a (m s).1 ∙ km s)
        (λ _ _. km s)

  Keeps-get : (j : String) → Keeps (p.get j)
  Keeps-get j s = ap (λ (c : String → Option Text). c k) (env.get_keeps j s)

  Keeps-clock : (s : S) → contents (p.clock s).1 k ≡ contents s k
  Keeps-clock s = ap (λ (c : String → Option Text). c k) (env.clock_keeps s)

  Keeps-store :
      {B : Type 0} (j : String) (inv : Invoice) (x : B)
      → k ≢ key j
      → Keeps (p.setex (key j) ttl (stringify inv) >>= λ _. pure x)
  Keeps-store j inv x ne =
      Keeps-bind (p.setex (key j) ttl (stringify inv)) (λ _. pure x)
        (λ s. env.setex_ne (key j) k ttl (stringify inv) s ne) (λ _ s. refl)

  pub Keeps-get_invoice : (id : String) → Keeps (get_invoice p z id)
  Keeps-get_invoice id s =
      ap (λ (w : S). contents w k) (get_invoice_world p z contents env id s) ∙ Keeps-get (key id) s

  pub Keeps-create_invoice :
      (payload : CreateInvoice) (s : S)
      → k ≢ key (p.generate s).0
      → contents (create_invoice p z payload s).1 k ≡ contents s k
  unfolding create_invoice
  Keeps-create_invoice payload s ne =
      Keeps-store (p.generate s).0 _ _ ne (p.clock (p.generate s).1).1
      ∙ Keeps-clock (p.generate s).1
      ∙ ap (λ (c : String → Option Text). c k) (env.generate_keeps s)

  module _ (id : String) (ne : k ≢ key id) where
    Keeps-expire_read : (st : Status) (inv : Invoice) → Keeps (expire_read p z st id inv)
    Keeps-expire_read pending inv s = Keeps-store id _ _ ne s
    Keeps-expire_read _ inv s = refl

    Keeps-expire_found : (found : Option Invoice) → Keeps (expire_found p z id found)
    Keeps-expire_found none s = refl
    Keeps-expire_found (some inv) s = Keeps-expire_read inv.status inv s

    pub Keeps-expire_invoice : Keeps (expire_invoice p z id)
    unfolding expire_invoice
    Keeps-expire_invoice =
        Keeps-bind (get_invoice p z id) (expire_found p z id) (Keeps-get_invoice id)
          Keeps-expire_found

    Keeps-settle : (mode : Mode) (inv : Invoice) → Keeps (settle p z mode inv)
    Keeps-settle success inv s = Keeps-clock s
    Keeps-settle Mode.failed inv s = refl

    Keeps-pay_read :
        (st : Status) (mode : Mode) (inv : Invoice) → Keeps (pay_read p z st id mode inv)
    Keeps-pay_read pending mode inv s =
        elim (Bool-cases (p.is_before inv.expired_at (p.clock s).0)) [
          | inl late ↦ rw late (Keeps-clock s)
          | inr early ↦ rw early (
              Keeps-bind (settle p z mode inv) _ (Keeps-settle mode inv)
                (λ new. Keeps-store id new (some new) ne) (p.clock s).1
              ∙ Keeps-clock s)
        ]
    Keeps-pay_read _ mode inv s = refl

    Keeps-pay_found : (mode : Mode) (found : Option Invoice) → Keeps (pay_found p z id mode found)
    Keeps-pay_found mode none s = refl
    Keeps-pay_found mode (some inv) s = Keeps-pay_read inv.status mode inv s

    pub Keeps-pay_invoice : (mode : Mode) → Keeps (pay_invoice p z id mode)
    unfolding pay_invoice
    Keeps-pay_invoice mode =
        Keeps-bind (get_invoice p z id) (pay_found p z id mode) (Keeps-get_invoice id)
          (Keeps-pay_found mode)
