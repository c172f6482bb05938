-- ===== src/Agent/Order/Answers.antt =====
-- payOrder by the reply of the payment service.
use tugas_akhir.Common.{
  Option-cases, ◌&&◌, ℕ, String, ◌≡◌, refl, Bool, true, false, Option, none, some, [], ◌∷◌, Outcome,
  ok, ◌>>=◌, ◌==◌, inl, inr, ◌≢◌, arith,
}
use tugas_akhir.Agent.Kit.{KitLaws, Stop, run_check}
use tugas_akhir.Agent.Types.{Order}
use tugas_akhir.Agent.Client.{Reply, post_invoices_id_payment}
use tugas_akhir.Agent.Backend.{Backend, tagged, is_200}
use tugas_akhir.Agent.Order.{value_or_log, pay_order}

is_200_true : (n : ℕ) → n ≡ 200 → ((n == 200) && true) ≡ true
is_200_true n e = ground arith

is_200_false : (n : ℕ) → n ≢ 200 → ((n == 200) && true) ≡ false
is_200_false n ne = ground arith

module _ {W J : Type 0} (b : Backend W J) (laws : KitLaws b.kit) where
  -- A reply with the status 200 gives its value, and another one gives nothing if its body is JSON;
  -- the check is the last use of the world.
  abbrev pub ReplyPost : {A : Type 0} → Reply J → A → W → Outcome Stop (Option A) → W → Type 0
  ReplyPost r a w out w' =
      (r.response.status ≡ 200 → out ≡ ok (some a))
      × (r.response.status ≢ 200 → (j : J) → r.response.json ≡ some j → out ≡ ok none)
      × (w' ≡ (b.kit.check (is_200 r ∷ []) w).1)

  logged :
      {A : Type 0} (r : Reply J) (a : A) (w : W) (j : J)
      → r.response.json ≡ some j
      → (value_or_log b false r a w).0 ≡ ok none
  logged r a w j e = rw e refl

  logged_world :
      {A : Type 0} (r : Reply J) (a : A) (fine : Bool) (w : W) → (value_or_log b fine r a w).1 ≡ w
  logged_world r a true w = refl
  logged_world r a false w = elim (Option-cases r.response.json) [
    | inl e ↦ rw e refl
    | inr (j, e) ↦ rw e refl
  ]

  checked_reply :
      {A : Type 0} (r : Reply J) (a : A) (w : W)
      → let run = (run_check b.kit (is_200 r ∷ []) >>= λ fine. value_or_log b fine r a) w in
        ReplyPost r a w run.0 run.1
  checked_reply r a w = rw (laws.check-conjunction ((r.response.status == 200) ∷ []) w) (
    (λ e. rw (is_200_true r.response.status e) refl),
    (λ ne j e. rw (is_200_false r.response.status ne) (logged r a _ j e)),
    logged_world r a _ _,
  )

  -- The reply to the payment of an invoice.
  abbrev pub pay_reply : String → Bool → W → Reply J × W
  pay_reply id success =
      post_invoices_id_payment b.to_url b.http b.payment_client id success (tagged "PayInvoice")

  pub pay_order-reply :
      (order : Order) (id : String) (success : Bool) (w : W)
      → order.invoice_external_id ≡ some id
      → let (r, w1) = pay_reply id success w in
        ReplyPost r r.data_value w1 (pay_order b order success w).0 (pay_order b order success w).1
  unfolding pay_order
  pay_order-reply order id success w e = rw e (
      checked_reply (pay_reply id success w).0 (pay_reply id success w).0.data_value
        (pay_reply id success w).1)
