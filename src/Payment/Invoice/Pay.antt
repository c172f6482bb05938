-- ===== src/Payment/Invoice/Pay.antt =====
-- InvoiceService.payInvoice: what each outcome says of the invoice before and after.
use mathlib.Core.Path.{subst}
use tugas_akhir.Common.{
  ℕ, ◌≤◌, String, ◌≡◌, ◌⊎◌, refl, sym, ap, ◌∙◌, Option, none, some, Outcome, ok, throw, pure, ◌>>=◌,
  ◌>>◌, bind_post, inl, inr, Bool-cases, ltb_false→le,
}
use tugas_akhir.Payment.Json.{Text, Failure}
use tugas_akhir.Payment.Entity.{Status, pending, paid, failed, Invoice, Mode, success, Zod}
use tugas_akhir.Payment.Platform.{Platform, Faithful, setex_post}
use tugas_akhir.Payment.Invoice.{
  key, ttl, stringify, settle, get_invoice, pay_read, pay_found, pay_invoice,
}
use tugas_akhir.Payment.Invoice.Reads.{Stored, GetPost, get_invoice_post}

-- The invoice after a payment at time `t`.
abbrev pub settled : Mode → ℕ → Invoice → Invoice
settled success t inv = record inv {
  paid_at = some t;
  paid_amount = some inv.amount;
  status = paid;
}
settled Mode.failed t inv = record inv { status = failed }

module _ {S : Type 0} (p : Platform S) (z : Zod) (contents : S → String → Option Text)
    (env : Faithful p contents) where
  -- The payment of `old` was written: it was pending and not past its expiry when it was read.
  abbrev pub PayWrites : String → Mode → S → Invoice → S → Type 0
  PayWrites id mode s new s' =
      (old : Invoice) × Stored z contents s id old
      × (old.status ≡ pending)
      × ((p.clock (p.get (key id) s).1).0 ≤ old.expired_at)
      × (new ≡ settled mode (p.clock (p.clock (p.get (key id) s).1).1).0 old)
      × (contents s' (key id) ≡ some (stringify new))

  abbrev pub PayPost : String → Mode → S → Outcome Failure (Option Invoice) → S → Type 0
  PayPost id mode s (ok none) s' =
      (contents s (key id) ≡ none) × (contents s' (key id) ≡ contents s (key id))
  PayPost id mode s (ok (some new)) s' = PayWrites id mode s new s'
  PayPost id mode s (throw e) s' =
      (contents s' (key id) ≡ contents s (key id)) ⊎ ((new : Invoice) × PayWrites id mode s new s')

  same_at : (id : String) (s : S) → contents (p.get (key id) s).1 (key id) ≡ contents s (key id)
  same_at id s = ap (λ (c : String → Option Text). c (key id)) (env.get_keeps (key id) s)

  module _ (id : String) (mode : Mode) (s : S) (old : Invoice)
      (stored : Stored z contents s id old) where
    write_post :
        (new : Invoice) (s1 : S)
        → contents s1 ≡ contents s
        → old.status ≡ pending
        → (p.clock (p.get (key id) s).1).0 ≤ old.expired_at
        → new ≡ settled mode (p.clock (p.clock (p.get (key id) s).1).1).0 old
        → let run = (p.setex (key id) ttl (stringify new) >> pure (some new)) s1 in
          PayPost id mode s run.0 run.1
    write_post new s1 same pe fresh e =
        setex_post p contents env (PayPost id mode s) (key id) ttl (stringify new) (some new) s1
          (λ s' w. (old, stored, pe, fresh, e, w))
          (λ _ s' w. elim w [
            | inl h ↦ inr (new, (old, stored, pe, fresh, e, h))
            | inr h ↦ inl (h ∙ ap (λ (c : String → Option Text). c (key id)) same)
          ])

    settle_post :
        (m : Mode) (s1 : S)
        → mode ≡ m
        → s1 ≡ (p.clock (p.get (key id) s).1).1
        → contents s1 ≡ contents s
        → old.status ≡ pending
        → (p.clock (p.get (key id) s).1).0 ≤ old.expired_at
        → let run =
            (settle p z m old >>= λ new. p.setex (key id) ttl (stringify new) >> pure (some new))
              s1 in
          PayPost id mode s run.0 run.1
    settle_post success s1 em at same pe fresh =
        write_post _ (p.clock s1).1 (env.clock_keeps s1 ∙ same) pe fresh (rw (em, at) refl)
    settle_post Mode.failed s1 em at same pe fresh = write_post _ s1 same pe fresh (rw em refl)

    abbrev read_time : ℕ
    read_time = (p.clock (p.get (key id) s).1).0

    read_keeps : contents (p.get (key id) s).1 ≡ contents s
    read_keeps = env.get_keeps (key id) s

    clock_keeps : contents (p.clock (p.get (key id) s).1).1 ≡ contents s
    clock_keeps = env.clock_keeps (p.get (key id) s).1 ∙ read_keeps

    pay_read_post :
        (st : Status)
        → old.status ≡ st
        → PayPost id mode s
            (pay_read p z st id mode old (p.get (key id) s).1).0
            (pay_read p z st id mode old (p.get (key id) s).1).1
    pay_read_post pending e = elim (Bool-cases (p.is_before old.expired_at read_time)) [
      | inl late ↦ rw late (inl (ap (λ (c : String → Option Text). c (key id)) clock_keeps))
      | inr early ↦ rw early (
          settle_post mode _ refl refl clock_keeps e
            (ltb_false→le _ _ (sym (env.is_before_lem _ _) ∙ early)))
    ]
    pay_read_post _ e = inl (ap (λ (c : String → Option Text). c (key id)) read_keeps)

  module _ (id : String) (mode : Mode) (s : S) where
    pay_found_post :
        (found : Option Invoice) (s1 : S)
        → GetPost p z contents env id s (ok found) s1
        → PayPost id mode s (pay_found p z id mode found s1).0 (pay_found p z id mode found s1).1
    pay_found_post none s1 (e, nothing) = rw e (nothing, same_at id s)
    pay_found_post (some old) s1 (e, stored) =
        rw e (pay_read_post id mode s old stored old.status refl)

    -- payInvoice returns null exactly on a missing invoice, and leaves it missing. It returns an
    -- invoice only after writing it: the one read, which was pending and not expired at the time of
    -- the check, with the changes of the mode. When it throws, the stored text is as before, or it
    -- is such a payment.
    pub pay_invoice_post :
        PayPost id mode s (pay_invoice p z id mode s).0 (pay_invoice p z id mode s).1
    unfolding pay_invoice
    pay_invoice_post =
        bind_post (PayPost id mode s) (get_invoice p z id) (pay_found p z id mode) s
          (λ found e. pay_found_post found (get_invoice p z id s).1 (
            subst (λ r. GetPost p z contents env id s r (get_invoice p z id s).1) e
              (get_invoice_post p z contents env id s)))
          (λ e h. inl (
            rw
              (subst (λ r. GetPost p z contents env id s r (get_invoice p z id s).1) h
                (get_invoice_post p z contents env id s))
              (same_at id s)))
