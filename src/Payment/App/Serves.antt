-- ===== src/Payment/App/Serves.antt =====
-- The server of the payment service against the ledger of invoices: requests for its three invoice
-- routes, each under the time limit.
use tugas_akhir.Common.{
  ℕ, ◌≤◌, String, ◌≡◌, refl, ap, ◌⊎◌, inl, inr, Option, some, List, [], ◌∷◌, map, throw, Bool-cases,
  ltb, ltb→lt, ltb_false→le, arith,
}
use tugas_akhir.Payment.Json.{Text, http_exception}
use tugas_akhir.Payment.Entity.{CreateInvoice, Zod, ZodLaws}
use tugas_akhir.Payment.Platform.{Platform, Faithful}
use tugas_akhir.Payment.Invoice.Ledger.{
  Ledger, Answer, Command, makes, Moment, serve, replay, InOrder,
}
use tugas_akhir.Payment.Invoice.Ledger.Represents.{Reliable, Represents}
use tugas_akhir.Payment.Invoice.Ledger.Tracks.{stamped}
use tugas_akhir.Payment.Invoice.Ledger.Refines.{command_of, InOrder-from}
use tugas_akhir.Payment.App.{WebhookQueue, Response}
use tugas_akhir.Payment.App.Server.{Request, Matches, Pages, Limit, routes, dispatch, create_app}
use tugas_akhir.Payment.App.Requests.{
  MatchesInvoices, path_params, Asks, asks_show, asks_make, asks_pay, gateway_timeout, Limits,
}
use tugas_akhir.Payment.App.Refines.{
  Quiet, shown, Served, get_route-Served, create_route-Served, pay_route-Served,
}

module _ {S : Type 0} (p : Platform S) (z : Zod) (queue : WebhookQueue S) (rejected : Response)
    (pages : Pages S) (matches : Matches) (routed : MatchesInvoices matches) (limit : Limit S)
    (duration : (S → Response × S) → S → Option ℕ) (limits : Limits limit duration)
    (contents : S → String → Option Text) (time : S → ℕ) (env : Faithful p contents)
    (laws : ZodLaws z) (up : Reliable p time) (quiet : Quiet queue contents time) where
  abbrev unlimited : Request → S → Response × S
  unlimited request = dispatch matches (routes p z queue rejected pages) request

  -- The id of a moment at which an invoice is made is the one that the generator gives.
  abbrev pub Generated : Command → S → Moment → Type 0
  Generated (makes payload) s m = m.fresh ≡ (p.generate s).0
  Generated _ s m = Unit {0}

  abbrev Handled : Command → S → Ledger → Response × S → Type 0
  Handled c s l run =
      (m : Moment) × (run.0 ≡ shown (serve c m l).0)
      × Represents contents run.1 (serve c m l).1
      × (time s ≤ m.first)
      × (m.first ≤ m.second)
      × (m.second ≤ time run.1)
      × Generated c s m

  makes-Handled :
      (payload : CreateInvoice) (s : S) (l : Ledger) (run : Response × S)
      → Served contents time s (λ m. serve (makes payload) (stamped p s m) l) run
      → Handled (makes payload) s l run
  makes-Handled payload s l run (m, answer, world, before, order, after) =
      (stamped p s m, answer, world, before, order, after, refl)

  -- The route of a request answers it.
  unlimited-Handled :
      {request : Request} {c : Command} (s : S) (l : Ledger)
      → Asks z request c
      → Represents contents s l
      → Handled c s l (unlimited request s)
  unfolding dispatch
  unlimited-Handled s l (asks_show {given} {id} {body} e) h =
      let (root, (metrics, (queue_page, (health, end)))) = routed.show_differs given in
      let (m, answer, world, before, order, after) =
        get_route-Served p z contents queue rejected time quiet env laws up (path_params given) id s
          l e h in
      rw (root, metrics, queue_page, health, routed.show_matches given)
        (m, answer, world, before, order, after, tt)
  unlimited-Handled s l (asks_make {body} {payload} e) h = rw routed.create_matches (
      makes-Handled payload s l _ (
        create_route-Served p z contents queue rejected time quiet env laws up body payload s l e
          h))
  unlimited-Handled s l (asks_pay {given} {id} {body} {mode} ei em) h =
      let (m, answer, world, before, order, after) =
        pay_route-Served p z contents queue rejected time quiet env laws up (path_params given) body
          id mode s l ei em h in
      rw (routed.pay_differs given, routed.pay_matches given)
        (m, answer, world, before, order, after, tt)

  -- The response shows the answer, or it is that of the limit and the request took 30 seconds.
  abbrev pub Shows : Request → S → Answer → Response → Type 0
  Shows request s a r =
      (r ≡ shown a)
      ⊎ ((r ≡ gateway_timeout) × ((t : ℕ) → duration (unlimited request) s ≡ some t → 30000 ≤ t))

  not_in_time :
      (request : Request) (s : S)
      → limit 30000 (unlimited request) s
        ≡ (throw (http_exception 504 "Gateway Timeout"), (unlimited request s).1)
      → (t : ℕ) → duration (unlimited request) s ≡ some t
      → 30000 ≤ t
  not_in_time request s e t d = elim (Bool-cases (ltb t 30000)) [
    | inl soon ↦ cc (limits.in_time 30000 (unlimited request) s t d (ltb→lt t 30000 soon), e)
    | inr late ↦ ltb_false→le t 30000 late
  ]

  -- A request to the server, at a moment of it.
  abbrev pub Answered : Request → Command → S → Ledger → Moment → Response × S → Type 0
  Answered request c s l m run =
      Shows request s (serve c m l).0 run.0
      × Represents contents run.1 (serve c m l).1
      × (time s ≤ m.first)
      × (m.first ≤ m.second)
      × (m.second ≤ time run.1)
      × Generated c s m

  -- Where Redis and the queue answer every call, a request that meets the schemas of its route leaves
  -- a world that represents the ledger after its command; its response shows the answer of the
  -- ledger, or it is that of the time limit, and then the request took 30 seconds or more.
  pub create_app-Answered :
      {request : Request} {c : Command} (s : S) (l : Ledger)
      → Asks z request c
      → Represents contents s l
      → (m : Moment) × Answered request c s l m
          (create_app p z queue rejected pages matches limit request s)
  unfolding create_app
  create_app-Answered {request} {c} s l asks h =
      let (m, answer, world, before, order, after, id) = unlimited-Handled s l asks h in
      elim (limits.answers_or_throws 30000 (unlimited request) s) [
        | inl e ↦ (m, rw e (inl answer, world, before, order, after, id))
        | inr e ↦ (m, rw e (inr (refl, not_in_time request s e), world, before, order, after, id))
      ]

  -- The server's answers to requests, one after the other.
  unfoldable pub serve_all : List Request → S → List Response × S
  serve_all [] s = ([], s)
  serve_all (request ∷ rest) s =
      let here = create_app p z queue rejected pages matches limit request s in
      let later = serve_all rest here.1 in (here.0 ∷ later.0, later.1)

  -- Requests that stand for the commands, in their order.
  abbrev pub AskAll : List Request → List Command → Type 0
  AskAll [] [] = Unit {0}
  AskAll (request ∷ requests) (c ∷ cs) = Asks z request c × AskAll requests cs
  AskAll _ _ = ⊥

  -- Each response shows the answer of its command, or is that of the time limit.
  abbrev pub ShowAll : List Response → List Answer → Type 0
  ShowAll [] [] = Unit {0}
  ShowAll (r ∷ rs) (a ∷ answers) = ((r ≡ shown a) ⊎ (r ≡ gateway_timeout)) × ShowAll rs answers
  ShowAll _ _ = ⊥

  -- The ids of the moments at which invoices are made are given by the generator, from a time on.
  abbrev pub GeneratedAll : ℕ → List (Command × Moment) → Type 0
  GeneratedAll t [] = Unit {0}
  GeneratedAll t ((c, m) ∷ ms) = ((w : S) × (t ≤ time w) × Generated c w m) × GeneratedAll t ms

  GeneratedAll-from :
      (t t' : ℕ) (ms : List (Command × Moment)) → t ≤ t' → GeneratedAll t' ms → GeneratedAll t ms
  GeneratedAll-from t t' [] le h = tt
  GeneratedAll-from t t' ((c, m) ∷ ms) le ((w, late, id), h) =
      ((w, omega (arith, le, late), id), GeneratedAll-from t t' ms le h)

  weaken :
      (request : Request) (s : S) (a : Answer) (r : Response)
      → Shows request s a r
      → (r ≡ shown a) ⊎ (r ≡ gateway_timeout)
  weaken request s a r (inl e) = inl e
  weaken request s a r (inr (e, late)) = inr e

  -- Where Redis and the queue answer every call, requests to the server that meet the schemas of their
  -- routes are answered, one after the other, as the ledger answers their commands at moments that
  -- follow one another, save for those whose response is that of the time limit, whose command is
  -- carried out all the same; the world after them represents the ledger after the commands. The ids of
  -- the invoices that they make are given by the generator in worlds that are not earlier than `s`.
  pub serve_all-replay :
      (requests : List Request) (cs : List Command) (s : S) (l : Ledger)
      → AskAll requests cs
      → Represents contents s l
      → (ms : List (Command × Moment)) × (map command_of ms ≡ cs)
        × ShowAll (serve_all requests s).0 (replay ms l).0
        × Represents contents (serve_all requests s).1 (replay ms l).1
        × InOrder (time s) ms
        × GeneratedAll (time s) ms
  unfolding serve_all replay
  serve_all-replay [] [] s l asks h = ([], refl, tt, h, tt, tt)
  serve_all-replay [] (c ∷ cs) s l asks h = absurd asks
  serve_all-replay (request ∷ requests) [] s l asks h = absurd asks
  serve_all-replay (request ∷ requests) (c ∷ cs) s l (ask, asks) h =
      let run = create_app p z queue rejected pages matches limit request s in
      let (m, (answer, world, before, order, after, id)) = create_app-Answered s l ask h in
      let (ms, same, answers, last, times, ids) =
        serve_all-replay requests cs run.1 (serve c m l).1 asks world in
      (
        (c, m) ∷ ms,
        ap (λ (xs : List Command). c ∷ xs) same,
        (weaken request s (serve c m l).0 run.0 answer, answers),
        last,
        (before, order, InOrder-from m.second (time run.1) ms after times),
        (
          (s, omega arith, id),
          GeneratedAll-from (time s) (time run.1) ms (omega (arith, before, order, after)) ids,
        ),
      )
