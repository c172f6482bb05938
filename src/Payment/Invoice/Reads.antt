-- ===== src/Payment/Invoice/Reads.antt =====
-- InvoiceService.getInvoice: what it returns, and what it leaves behind.
use tugas_akhir.Common.{
  String, ◌≡◌, refl, sym, Option, none, some, Outcome, ok, throw, bind_post, Option-cases, inl, inr,
}
use tugas_akhir.Payment.Json.{Json, Text, json, other, Failure}
use tugas_akhir.Payment.Entity.{Invoice, Zod, invoice_schema}
use tugas_akhir.Payment.Platform.{Platform, Faithful}
use tugas_akhir.Payment.Invoice.{key, decode, get_invoice}

-- `inv` is what the schema reads from the text under the key of `id`.
abbrev pub Stored : {S : Type 0} → Zod → (S → String → Option Text) → S → String → Invoice → Type 0
Stored z contents s id inv =
    (j : Json) × (contents s (key id) ≡ some (json j)) × (invoice_schema z j ≡ some inv)

module _ {S : Type 0} (p : Platform S) (z : Zod) (contents : S → String → Option Text)
    (env : Faithful p contents) where
  -- What a call of `getInvoice` says of the store.
  abbrev pub GetPost : String → S → Outcome Failure (Option Invoice) → S → Type 0
  GetPost id s (ok none) s' = (s' ≡ (p.get (key id) s).1) × (contents s (key id) ≡ none)
  GetPost id s (ok (some inv)) s' = (s' ≡ (p.get (key id) s).1) × Stored z contents s id inv
  GetPost id s (throw e) s' = s' ≡ (p.get (key id) s).1

  decode_post :
      (id : String) (s : S) (v : Option Text)
      → v ≡ contents s (key id)
      → GetPost id s (decode p z v (p.get (key id) s).1).0 (decode p z v (p.get (key id) s).1).1
  decode_post id s none h = (refl, sym h)
  decode_post id s (some (other t)) h = refl
  decode_post id s (some (json j)) h = elim (Option-cases (invoice_schema z j)) [
    | inl bad ↦ rw bad refl
    | inr (inv, good) ↦ rw good (refl, (j, sym h, good))
  ]

  pub get_invoice_post :
      (id : String) (s : S) → GetPost id s (get_invoice p z id s).0 (get_invoice p z id s).1
  unfolding get_invoice
  get_invoice_post id s =
      bind_post (GetPost id s) (p.get (key id)) (decode p z) s
        (λ v e. decode_post id s v (env.get_reads (key id) s v e)) (λ e _. refl)

  world_of_post :
      (id : String) (s : S) (r : Outcome Failure (Option Invoice)) (s' : S)
      → GetPost id s r s'
      → s' ≡ (p.get (key id) s).1
  world_of_post id s (ok none) s' h = h.0
  world_of_post id s (ok (some inv)) s' h = h.0
  world_of_post id s (throw e) s' h = h

  -- After `getInvoice` the world is the one that `redis.get` left.
  pub get_invoice_world : (id : String) (s : S) → (get_invoice p z id s).1 ≡ (p.get (key id) s).1
  get_invoice_world id s = world_of_post id s _ _ (get_invoice_post id s)
