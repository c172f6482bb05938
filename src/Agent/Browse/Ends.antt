-- ===== src/Agent/Browse/Ends.antt =====
-- When the browsing loops end, and what they leave behind.
use mathlib.Core.Path.{subst}
use tugas_akhir.Common.{
  ℕ, zero, suc, ◌+◌, ◌<◌, ◌≤◌, ◌≡◌, ◌≢◌, refl, ap, ◌∙◌, Bool, true, false, Option, none, some, Exec,
  Outcome, ok, throw, pure, ltb→lt, ltb_false→le, arith, raise, bind_post,
}
use tugas_akhir.Agent.Kit.{Stop, spinning}
use tugas_akhir.Agent.Profile.{ProfileState}
use tugas_akhir.Agent.Backend.{Backend}
use tugas_akhir.Agent.Seats.{AreaSale, SeatSale}
use tugas_akhir.Agent.Browse.{
  browsed, more_browsing, look, area_round, numbered_round, keep_or_retry, case_area,
  get_seat_case_area, try_seats, seats_or_retry, case_numbered, get_seat_case_numbered,
}
use tugas_akhir.Agent.Browse.Calm.{Calm-look, Calm-try_seats}

-- `t` is `s` after some more browse attempts, and nothing else.
abbrev pub Browsed : ProfileState → ProfileState → Type 0
Browsed s t =
    (t ≡ record s { current_browse_attempt = t.current_browse_attempt })
    × (s.current_browse_attempt ≤ t.current_browse_attempt)

Browsed-refl : (s : ProfileState) → Browsed s s
Browsed-refl s = (refl, omega arith)

Browsed-step : (s t : ProfileState) → Browsed (browsed s) t → Browsed s t
Browsed-step s t (e, h) = (cc e, omega (arith, h))

-- A loop that found something, or has no attempt left, or threw.
abbrev pub BrowsePost :
    {A : Type 0} → ProfileState → Outcome Stop (Option A × ProfileState) → Type 0
BrowsePost s (ok (none, t)) = Browsed s t × (t.max_browse_attempt ≤ t.current_browse_attempt)
BrowsePost s (ok (some a, t)) = Browsed s t × (t.current_browse_attempt < t.max_browse_attempt)
BrowsePost s (throw e) = e ≢ spinning

BrowsePost-step :
    {A : Type 0} (s : ProfileState) (r : Outcome Stop (Option A × ProfileState))
    → BrowsePost (browsed s) r
    → BrowsePost s r
BrowsePost-step s (ok (none, t)) (h, k) = (Browsed-step s t h, k)
BrowsePost-step s (ok (some a, t)) (h, k) = (Browsed-step s t h, k)
BrowsePost-step s (throw e) h = h

-- A loop that returned, with or without seats, or threw.
abbrev pub SeatsPost : ProfileState → Outcome Stop (Option SeatSale × ProfileState) → Type 0
SeatsPost s (ok (seats, t)) = Browsed s t
SeatsPost s (throw e) = e ≢ spinning

SeatsPost-trans :
    (s t : ProfileState) (r : Outcome Stop (Option SeatSale × ProfileState))
    → Browsed s t
    → SeatsPost (browsed t) r
    → SeatsPost s r
SeatsPost-trans s t (ok (seats, u)) (e, h) (f, k) = (cc (e, f), omega (arith, h, k))
SeatsPost-trans s t (throw e) h k = k

module _ {W J : Type 0} (b : Backend W J) where
  abbrev Retries : ℕ → (ProfileState → Exec W Stop (Option AreaSale × ProfileState)) → Type 0
  Retries rounds retry =
      (state : ProfileState) (w : W)
      → state.max_browse_attempt ≤ state.current_browse_attempt + rounds
      → BrowsePost state (retry state w).0

  keep_or_retry_post :
      (rounds : ℕ) (retry : ProfileState → Exec W Stop (Option AreaSale × ProfileState))
      (state : ProfileState) (found : Option AreaSale) (w : W)
      → Retries rounds retry
      → state.max_browse_attempt ≤ state.current_browse_attempt + suc rounds
      → state.current_browse_attempt < state.max_browse_attempt
      → BrowsePost state (keep_or_retry b retry state found w).0
  keep_or_retry_post rounds retry state (some found) w ih h k = (Browsed-refl state, k)
  keep_or_retry_post rounds retry state none w ih h k =
      BrowsePost-step state _ (ih (browsed state) _ (omega (arith, h)))

  area_round_post :
      (rounds : ℕ) (retry : ProfileState → Exec W Stop (Option AreaSale × ProfileState))
      (state : ProfileState) (more : Bool) (w : W)
      → Retries rounds retry
      → state.max_browse_attempt ≤ state.current_browse_attempt + suc rounds
      → more_browsing state ≡ more
      → BrowsePost state (area_round b retry state more w).0
  area_round_post rounds retry state false w ih h e = (Browsed-refl state, ltb_false→le _ _ e)
  area_round_post rounds retry state true w ih h e =
      bind_post (λ r _. BrowsePost state r) (look b state.fallback_type state)
        (keep_or_retry b retry state) w
        (λ found _. keep_or_retry_post rounds retry state found _ ih h (ltb→lt _ _ e))
        (λ stop q s. (Calm-look b state.fallback_type state w).not_spinning (q ∙ ap throw s))

  area_stop_post :
      (state : ProfileState) (more : Bool) (w : W)
      → state.max_browse_attempt ≤ state.current_browse_attempt
      → more_browsing state ≡ more
      → BrowsePost state (area_round b (λ _. raise spinning) state more w).0
  area_stop_post state false w h e = (Browsed-refl state, h)
  area_stop_post state true w h e = ground (arith, h, ltb→lt _ _ e)

  case_area_post :
      (rounds : ℕ) (state : ProfileState) (w : W)
      → state.max_browse_attempt ≤ state.current_browse_attempt + rounds
      → BrowsePost state (case_area b rounds state w).0
  unfolding case_area
  case_area_post zero state w h =
      area_stop_post state (more_browsing state) w (omega (arith, h)) refl
  case_area_post (suc rounds) state w h =
      area_round_post rounds (case_area b rounds) state (more_browsing state) w
        (case_area_post rounds) h refl

  -- The loop of getSeatCaseArea is given as many rounds as there are attempts left, and they are
  -- enough: it does not spin. It changes nothing of the state but the counter of attempts, which does
  -- not go down. An area comes back while attempts are left, null only when none is.
  pub get_seat_case_area-BrowsePost :
      (state : ProfileState) (w : W) → BrowsePost state (get_seat_case_area b state w).0
  unfolding get_seat_case_area
  get_seat_case_area-BrowsePost state w = case_area_post _ state w (omega arith)

  abbrev RetriesSeats : ℕ → (ProfileState → Exec W Stop (Option SeatSale × ProfileState)) → Type 0
  RetriesSeats rounds retry =
      (state : ProfileState) (w : W)
      → state.max_browse_attempt ≤ state.current_browse_attempt + rounds
      → SeatsPost state (retry state w).0

  seats_or_retry_post :
      (rounds : ℕ) (retry : ProfileState → Exec W Stop (Option SeatSale × ProfileState))
      (state : ProfileState) (r : Option AreaSale × ProfileState) (w : W)
      → RetriesSeats rounds retry
      → state.max_browse_attempt ≤ state.current_browse_attempt + suc rounds
      → BrowsePost state (ok r)
      → SeatsPost state (seats_or_retry b retry r w).0
  seats_or_retry_post rounds retry state (some found, t) w ih h post =
      bind_post (λ r _. SeatsPost state r) (try_seats b 3 t found) (λ seats. pure (seats, t)) w
        (λ seats _. post.0)
        (λ stop q s. (Calm-try_seats b 3 t found w).not_spinning (q ∙ ap throw s))
  seats_or_retry_post rounds retry state (none, t) w ih h post =
      SeatsPost-trans state t _ post.0 (ih (browsed t) _ (omega (arith, h, post.0.1)))

  numbered_round_post :
      (rounds : ℕ) (retry : ProfileState → Exec W Stop (Option SeatSale × ProfileState))
      (state : ProfileState) (more : Bool) (w : W)
      → RetriesSeats rounds retry
      → state.max_browse_attempt ≤ state.current_browse_attempt + suc rounds
      → SeatsPost state (numbered_round b retry state more w).0
  numbered_round_post rounds retry state false w ih h = Browsed-refl state
  numbered_round_post rounds retry state true w ih h =
      bind_post (λ r _. SeatsPost state r) (get_seat_case_area b state) (seats_or_retry b retry) w
        (λ r q.
          seats_or_retry_post rounds retry state r _ ih h
            (subst (BrowsePost state) q (get_seat_case_area-BrowsePost state w)))
        (λ stop q. subst (BrowsePost state) q (get_seat_case_area-BrowsePost state w))

  numbered_stop_post :
      (state : ProfileState) (more : Bool) (w : W)
      → state.max_browse_attempt ≤ state.current_browse_attempt
      → more_browsing state ≡ more
      → SeatsPost state (numbered_round b (λ _. raise spinning) state more w).0
  numbered_stop_post state false w h e = Browsed-refl state
  numbered_stop_post state true w h e = ground (arith, h, ltb→lt _ _ e)

  case_numbered_post :
      (rounds : ℕ) (state : ProfileState) (w : W)
      → state.max_browse_attempt ≤ state.current_browse_attempt + rounds
      → SeatsPost state (case_numbered b rounds state w).0
  unfolding case_numbered
  case_numbered_post zero state w h =
      numbered_stop_post state (more_browsing state) w (omega (arith, h)) refl
  case_numbered_post (suc rounds) state w h =
      numbered_round_post rounds (case_numbered b rounds) state (more_browsing state) w
        (case_numbered_post rounds) h

  -- The loop of getSeatCaseNumbered ends within the attempts that are left, too, and it changes
  -- nothing of the state but the counter of attempts, which does not go down.
  pub get_seat_case_numbered-SeatsPost :
      (state : ProfileState) (w : W) → SeatsPost state (get_seat_case_numbered b state w).0
  unfolding get_seat_case_numbered
  get_seat_case_numbered-SeatsPost state w = case_numbered_post _ state w (omega arith)
