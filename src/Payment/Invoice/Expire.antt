-- ===== src/Payment/Invoice/Expire.antt =====
-- InvoiceService.expireInvoice: what each outcome says of the invoice before and after.
use mathlib.Core.Path.{subst}
use tugas_akhir.Common.{
  String, ◌≡◌, ◌⊎◌, refl, ap, ◌∙◌, Option, none, some, Outcome, ok, throw, bind_post, inl, inr,
}
use tugas_akhir.Payment.Json.{Text, Failure}
use tugas_akhir.Payment.Entity.{Status, pending, expired, Invoice, Zod}
use tugas_akhir.Payment.Platform.{Platform, Faithful, setex_post}
use tugas_akhir.Payment.Invoice.{
  key, ttl, stringify, get_invoice, expire_read, expire_found, expire_invoice,
}
use tugas_akhir.Payment.Invoice.Reads.{Stored, GetPost, get_invoice_post}

module _ {S : Type 0} (p : Platform S) (z : Zod) (contents : S → String → Option Text)
    (env : Faithful p contents) where
  -- The expiry of `old` was written: it was pending when it was read.
  abbrev pub ExpireWrites : String → S → Invoice → S → Type 0
  ExpireWrites id s new s' =
      (old : Invoice) × Stored z contents s id old
      × (old.status ≡ pending)
      × (new ≡ record old { status = expired })
      × (contents s' (key id) ≡ some (stringify new))

  abbrev pub ExpirePost : String → S → Outcome Failure (Option Invoice) → S → Type 0
  ExpirePost id s (ok none) s' =
      (contents s (key id) ≡ none) × (contents s' (key id) ≡ contents s (key id))
  ExpirePost id s (ok (some new)) s' = ExpireWrites id s new s'
  ExpirePost id s (throw e) s' =
      (contents s' (key id) ≡ contents s (key id)) ⊎ ((new : Invoice) × ExpireWrites id s new s')

  module _ (id : String) (s : S) where
    same_at : contents (p.get (key id) s).1 (key id) ≡ contents s (key id)
    same_at = ap (λ (c : String → Option Text). c (key id)) (env.get_keeps (key id) s)

    expire_read_post :
        (old : Invoice) (stored : Stored z contents s id old) (st : Status)
        → old.status ≡ st
        → ExpirePost id s
            (expire_read p z st id old (p.get (key id) s).1).0
            (expire_read p z st id old (p.get (key id) s).1).1
    expire_read_post old stored pending pe =
        let new : Invoice = record old { status = expired } in
        setex_post p contents env (ExpirePost id s) (key id) ttl (stringify new) (some new) _
          (λ s' w. (old, stored, pe, refl, w))
          (λ _ s' w. elim w [
            | inl h ↦ inr (new, (old, stored, pe, refl, h))
            | inr h ↦ inl (h ∙ same_at)
          ])
    expire_read_post old stored _ e = inl same_at

    expire_found_post :
        (found : Option Invoice) (s1 : S)
        → GetPost p z contents env id s (ok found) s1
        → ExpirePost id s (expire_found p z id found s1).0 (expire_found p z id found s1).1
    expire_found_post none s1 (e, nothing) = rw e (nothing, same_at)
    expire_found_post (some old) s1 (e, stored) = rw e (expire_read_post old stored old.status refl)

    -- expireInvoice returns null exactly on a missing invoice. It returns an invoice only after
    -- writing it: the one read, which was pending, with the status expired. When it throws, the
    -- stored text is as before, or it is such an expiry.
    pub expire_invoice_post :
        ExpirePost id s (expire_invoice p z id s).0 (expire_invoice p z id s).1
    unfolding expire_invoice
    expire_invoice_post =
        let read = get_invoice_post p z contents env id s in
        bind_post (ExpirePost id s) (get_invoice p z id) (expire_found p z id) s
          (λ found e.
            expire_found_post found (get_invoice p z id s).1
              (subst (λ r. GetPost p z contents env id s r (get_invoice p z id s).1) e read))
          (λ e h. inl (
            rw (subst (λ r. GetPost p z contents env id s r (get_invoice p z id s).1) h read)
              same_at))
