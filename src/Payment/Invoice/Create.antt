-- ===== src/Payment/Invoice/Create.antt =====
-- InvoiceService.createInvoice, and its round trip through getInvoice.
use mathlib.Core.Path.{subst}
use tugas_akhir.Common.{
  ℕ, ◌+◌, ◌*◌, ◌<◌, String, ◌≡◌, ◌⊎◌, refl, sym, ap, ◌∙◌, Option, none, some, Outcome, ok, throw,
  inl, inr,
}
use tugas_akhir.Payment.Json.{Text, Failure}
use tugas_akhir.Payment.Entity.{pending, Invoice, CreateInvoice, Zod, ZodLaws, schema-json}
use tugas_akhir.Payment.Platform.{Platform, Faithful, setex_post}
use tugas_akhir.Payment.Invoice.{key, ttl, stringify, get_invoice, create_invoice}

-- The invoice that a request makes: pending, unpaid, and open for 15 minutes.
abbrev pub made : CreateInvoice → String → ℕ → Invoice
made payload id t = record {
  id = id;
  amount = payload.amount;
  description = payload.description;
  external_id = payload.external_id;
  created_at = t;
  expired_at = t + 15 * 60000;
  paid_at = none;
  paid_amount = none;
  status = pending;
}

module _ {S : Type 0} (p : Platform S) (z : Zod) (contents : S → String → Option Text)
    (env : Faithful p contents) where
  abbrev pub new_id : S → String
  new_id s = (p.generate s).0

  abbrev pub made_at : CreateInvoice → S → Invoice
  made_at payload s = made payload (new_id s) (p.clock (p.generate s).1).0

  abbrev pub CreatePost : CreateInvoice → S → Outcome Failure Invoice → S → Type 0
  CreatePost payload s (ok inv) s' =
      (inv ≡ made_at payload s) × (contents s' (key (new_id s)) ≡ some (stringify inv))
  CreatePost payload s (throw e) s' =
      (contents s' (key (new_id s)) ≡ contents s (key (new_id s)))
      ⊎ (contents s' (key (new_id s)) ≡ some (stringify (made_at payload s)))

  -- createInvoice returns a pending invoice under the generated id that expires 15 minutes after
  -- it was made, and has stored it. When it throws, the key is as before or holds that invoice.
  pub create_invoice_post :
      (payload : CreateInvoice) (s : S)
      → CreatePost payload s (create_invoice p z payload s).0 (create_invoice p z payload s).1
  unfolding create_invoice
  create_invoice_post payload s = rw (env.add_minutes_lem _ 15) (
      setex_post p contents env (CreatePost payload s) (key (new_id s)) ttl
        (stringify (made_at payload s)) (made_at payload s) (p.clock (p.generate s).1).1
        (λ s' w. (refl, w))
        (λ _ s' w. elim w [
          | inl h ↦ inr h
          | inr h ↦ inl (
              h
              ∙ ap (λ (c : String → Option Text). c (key (new_id s)))
                  (env.clock_keeps _ ∙ env.generate_keeps s))
        ]))

  -- Whoever reads a stored invoice with a positive amount gets it back, unless the read throws.
  read_back :
      ZodLaws z
      → (id : String) (inv : Invoice) (s : S) (v : Option Text) → 0 < inv.amount
      → contents s (key id) ≡ some (stringify inv)
      → (p.get (key id) s).0 ≡ ok v
      → (get_invoice p z id s).0 ≡ ok (some inv)
  unfolding get_invoice
  read_back laws id inv s v h stored got =
      rw (got, env.get_reads (key id) s v got, stored, schema-json z laws inv h) refl

  -- An invoice that createInvoice returned is what getInvoice returns for its id in the world that
  -- createInvoice left, if the read of Redis does not throw.
  pub get-create :
      ZodLaws z
      → (payload : CreateInvoice) (s : S) (inv : Invoice) (v : Option Text) → 0 < payload.amount
      → (create_invoice p z payload s).0 ≡ ok inv
      → (p.get (key inv.id) (create_invoice p z payload s).1).0 ≡ ok v
      → (get_invoice p z inv.id (create_invoice p z payload s).1).0 ≡ ok (some inv)
  get-create laws payload s inv v h made got =
      let (same, stored) =
        subst (λ r. CreatePost payload s r (create_invoice p z payload s).1) made
          (create_invoice_post payload s) in
      let at : contents (create_invoice p z payload s).1 (key inv.id) ≡ some (stringify inv) =
        subst
          (λ (i : String). contents (create_invoice p z payload s).1 (key i) ≡ some (stringify inv))
          (sym (ap (λ (i : Invoice). i.id) same)) stored in
      read_back laws inv.id inv _ v (subst (λ (i : Invoice). 0 < i.amount) (sym same) h) at got
