-- ===== src/Payment/Tests/Race.antt =====
-- The theorems on the interleaved payment server and notifier at work: a payment and an expiry of
-- one invoice decided in turn and written back in turn.
use mathlib.Core.Path.{subst}
use text.Mathlib.Text.{◌==◌ as str_eq}
use text.Mathlib.TextEquality.{eq_iff}
use tugas_akhir.Payment.Invoice.Frame.{key_injective}
use tugas_akhir.Common.{String, Bool-cases, ◌≡◌, refl, ◌⊎◌, none, some, [], ◌∷◌, inl, inr, arith}
use tugas_akhir.Payment.Entity.{
  expired, failed, Mode, Invoice, paid, success, invoice_json, invoice_schema,
}
use tugas_akhir.Payment.Invoice.{key, ttl, stringify, get_invoice}
use tugas_akhir.Payment.Invoice.Store.Sound.{IsConsistent}
use tugas_akhir.Payment.Invoice.Interleave.{
  pay_decide, expire_decide, Turns, start, turn, pay_decides, expire_decides, writes,
}
use tugas_akhir.Payment.Invoice.Ledger.{Ledger, update}
use tugas_akhir.Payment.Invoice.Ledger.Represents.{Represents, Holds-setex}
use tugas_akhir.Payment.Invoice.Interleave.Lost.{lost_update}
use tugas_akhir.Payment.World.Server.{time, no_invoices}
use tugas_akhir.Payment.Invoice.Interleave.Sound.{IsReady, Turns-IsReady}
use tugas_akhir.Payment.World.{
  World, contents, platform, platform-Faithful, platform-Reliable, zod, zod-ZodLaws,
}
use tugas_akhir.Payment.Tests.{open_invoice, open_world}

abbrev settled_invoice : Invoice
settled_invoice = record open_invoice { paid_at = some 2001; paid_amount = some 50; status = paid }

abbrev expired_invoice : Invoice
expired_invoice = record open_invoice { status = expired }

-- The server has decided on the payment, and the notifier on the expiry.
abbrev both_decided : World
both_decided =
    (expire_decide platform zod "inv1" (pay_decide platform zod "inv1" success open_world).1).1

abbrev payment_written : World
payment_written = (platform.setex (key "inv1") ttl (stringify settled_invoice) both_decided).1

abbrev expiry_written : World
expiry_written = (platform.setex (key "inv1") ttl (stringify expired_invoice) payment_written).1

race : Turns platform zod contents (open_world, []) (expiry_written, [])
unfolding pay_decide expire_decide get_invoice invoice_schema invoice_json
race =
    turn
      (turn
        (turn (turn start (pay_decides "inv1" success open_world settled_invoice [] refl))
          (expire_decides "inv1" _ expired_invoice (("inv1", settled_invoice) ∷ []) refl))
        (writes "inv1" settled_invoice both_decided (("inv1", expired_invoice) ∷ []) []))
      (writes "inv1" expired_invoice payment_written [] [])

open_sound :
    (id : String)
    → (contents open_world (key id) ≡ none)
      ⊎ ((inv : Invoice) × (contents open_world (key id) ≡ some (stringify inv))
          × IsConsistent id inv)
open_sound id = elim (Bool-cases (str_eq (key "inv1") (key id))) [
  | inr ne ↦ inl (rw ne refl)
  | inl e ↦
      subst
        (λ j.
          (contents open_world (key j) ≡ none)
          ⊎ ((inv : Invoice) × (contents open_world (key j) ≡ some (stringify inv))
              × IsConsistent j inv))
        (key_injective "inv1" id ((eq_iff (key "inv1") (key id)).0 e))
        (inr (
          open_invoice,
          refl,
          record {
            positive = omega arith;
            own_id = refl;
            quarter_hour = refl;
            payment = (refl, refl);
          },
        ))
]

Turns-IsReady_example :
    IsReady platform zod contents platform-Faithful zod-ZodLaws (expiry_written, [])
Turns-IsReady_example =
    Turns-IsReady platform zod contents platform-Faithful zod-ZodLaws (open_sound, tt) race

abbrev open_ledger : Ledger
open_ledger = update no_invoices "inv1" open_invoice

open_world-Represents : Represents contents open_world open_ledger
open_world-Represents =
    Holds-setex platform zod contents time platform-Faithful zod-ZodLaws platform-Reliable
      (record open_world { store = [] }) no_invoices "inv1" open_invoice (omega arith)
      (record { texts = λ id. refl; positive = λ id inv e. cc e })

abbrev failed_invoice : Invoice
failed_invoice = record open_invoice { status = failed }

-- The server has decided on a payment, and on a failed one for another request.
abbrev both_paid : World
both_paid =
    (pay_decide platform zod "inv1" Mode.failed
      (pay_decide platform zod "inv1" success open_world).1).1

abbrev first_written : World
first_written = (platform.setex (key "inv1") ttl (stringify settled_invoice) both_paid).1

abbrev second_written : World
second_written = (platform.setex (key "inv1") ttl (stringify failed_invoice) first_written).1

lost_update_example :
    Turns platform zod contents (open_world, []) (first_written, ("inv1", failed_invoice) ∷ [])
    × Represents contents first_written (update open_ledger "inv1" settled_invoice)
    × Turns platform zod contents (open_world, []) (second_written, [])
    × Represents contents second_written
        (update (update open_ledger "inv1" settled_invoice) "inv1" failed_invoice)
unfolding get_invoice pay_decide invoice_schema invoice_json
lost_update_example =
    lost_update platform zod contents time platform-Faithful zod-ZodLaws platform-Reliable "inv1"
      open_invoice open_world open_ledger open_world-Represents refl refl (omega arith)
      (omega arith)
