-- ===== src/Payment/Invoice/Ledger/Refines.antt =====
-- Sequences of calls of InvoiceService against the ledger, on a Redis whose calls do not throw.
use tugas_akhir.Common.{ℕ, ◌≤◌, String, ◌≡◌, refl, ap, arith, Option, List, [], ◌∷◌, All, map}
use tugas_akhir.Payment.Json.{Text}
use tugas_akhir.Payment.Entity.{Zod, ZodLaws}
use tugas_akhir.Payment.Platform.{Platform, Faithful}
use tugas_akhir.Payment.Invoice.Ledger.{
  Ledger, Command, shows, makes, pays, lapses, Moment, serve, replay, InOrder, IsRequest,
}
use tugas_akhir.Payment.Invoice.Ledger.Represents.{Reliable, Represents, call, calls}
use tugas_akhir.Payment.Invoice.Ledger.Tracks.{Tracks, stamped}
use tugas_akhir.Payment.Invoice.Ledger.Calls.{
  Follows-shows, Follows-makes, Follows-pays, Follows-lapses,
}

abbrev pub command_of : Command × Moment → Command
command_of (c, m) = c

pub InOrder-from : (t t' : ℕ) (ms : List (Command × Moment)) → t ≤ t' → InOrder t' ms → InOrder t ms
InOrder-from t t' [] le h = tt
InOrder-from t t' ((c, m) ∷ ms) le (a, b, rest) = (omega (arith, le, a), b, rest)

module _ {S : Type 0} (p : Platform S) (z : Zod) (contents : S → String → Option Text)
    (time : S → ℕ) (env : Faithful p contents) (laws : ZodLaws z) (up : Reliable p time) where
  -- From a world that represents a ledger, each call of the service answers what the ledger
  -- answers, and leaves a world that represents the ledger after it, at a moment of the call.
  pub call-serve :
      (c : Command) (s : S) (l : Ledger)
      → IsRequest c
      → Represents contents s l
      → Tracks contents time s (λ m. serve c m l) (call p z c s)
  unfolding call
  call-serve (shows id) s l ok h = Follows-shows p z contents time env laws up s l h id
  call-serve (makes payload) s l ok h =
      let (m, agrees, before, order, after) =
        Follows-makes p z contents time env laws up s l payload h ok in
      (stamped p s m, agrees, before, order, after)
  call-serve (pays id mode) s l ok h = Follows-pays p z contents time env laws up s l h id mode
  call-serve (lapses id) s l ok h = Follows-lapses p z contents time env laws up s l h id

  -- From a world that represents a ledger, any sequence of calls, with create requests whose amount
  -- is positive, gives the answers that the ledger gives to the same commands at moments that
  -- follow one another, and leaves a world that represents the ledger after them.
  pub calls-replay :
      (cs : List Command) (s : S) (l : Ledger)
      → All IsRequest cs
      → Represents contents s l
      → (ms : List (Command × Moment)) × (map command_of ms ≡ cs)
        × ((calls p z cs s).0 ≡ (replay ms l).0)
        × Represents contents (calls p z cs s).1 (replay ms l).1
        × InOrder (time s) ms
  unfolding calls replay
  calls-replay [] s l ok h = ([], refl, refl, h, tt)
  calls-replay (c ∷ cs) s l (good, rest) h =
      let (m, (answer, world), before, order, after) = call-serve c s l good h in
      let (ms, same, answers, last, times) =
        calls-replay cs (call p z c s).1 (serve c m l).1 rest world in
      (
        (c, m) ∷ ms,
        ap (λ (xs : List Command). c ∷ xs) same,
        rw (answer, answers) refl,
        last,
        (before, order, InOrder-from m.second (time (call p z c s).1) ms after times),
      )
