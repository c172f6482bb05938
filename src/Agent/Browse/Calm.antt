-- ===== src/Agent/Browse/Calm.antt =====
-- How the parts of the browsing loops end: whether they return or throw.
use tugas_akhir.Common.{
  ℕ, zero, suc, Bool, true, false, String, Option, none, some, List, [], ◌∷◌, ◌++◌, Exec, Outcome,
  ok, throw, continue, ◌≢◌, length,
}
use tugas_akhir.Agent.Kit.{Stop, exception, spinning, run_check, thrown}
use tugas_akhir.Agent.Types.{AreaAvailability, TicketSale, TicketSeat}
use tugas_akhir.Agent.Profile.{ProfileState, FallbackType, same_day, same_category}
use tugas_akhir.Agent.Backend.{Backend}
use tugas_akhir.Agent.Seats.{
  AreaSale, SeatSale, preferred, get_availability, select_seats, chosen_seats, get_seats,
}
use tugas_akhir.Agent.Browse.{
  Rows, keep_seats, area_result, sale_options, random_sale, select_ticket_sale, random_area,
  first_area, first_of_rows, area_of_sale, get_area_prefer_same_day, inspect_row, inspect, or_go_on,
  later_pass, later_passes, first_pass, by_category, get_area_prefer_same_category, look, try_seats,
}

-- An outcome that is no endless loop.
pub record Ends {A : Type 0} (r : Outcome Stop A) : Type 0 where
  pub not_spinning : r ≢ throw spinning

abbrev pub Calm : {W A : Type 0} → Exec W Stop A → Type 0
Calm {W} m = (w : W) → Ends (m w).0

pub Ends-ok : {A : Type 0} (a : A) → Ends (ok a)
Ends-ok a = record { not_spinning = λ e. cc e }

pub Ends-exception : {A : Type 0} (e : String) → Ends {A = A} (throw (exception e))
Ends-exception e = record { not_spinning = λ q. cc q }

pub Ends-bind :
    {W A B : Type 0} (f : A → Exec W Stop B) (r : Outcome Stop A) (s : W)
    → Ends r
    → ((a : A) → Ends (f a s).0)
    → Ends (continue f r s).0
Ends-bind f (ok a) s h k = k a
Ends-bind f (throw e) s h k = record { not_spinning = λ q. h.not_spinning (cc q) }

module _ {W J : Type 0} (b : Backend W J) where
  Ends-thrown : (r : Outcome String Bool) → Ends (thrown r)
  Ends-thrown (ok a) = Ends-ok a
  Ends-thrown (throw e) = Ends-exception e

  pub Calm-check : (tests : List (Option Bool)) → Calm (run_check b.kit tests)
  Calm-check tests w = Ends-thrown (b.kit.check tests w).0

  Calm-preferred :
      (sale : TicketSale) (state : ProfileState) (fine : Bool)
      (areas : Option (List AreaAvailability))
      → Calm (preferred b sale state fine areas)
  Calm-preferred sale state false areas w = Ends-ok _
  Calm-preferred sale state true none w = Ends-exception _
  Calm-preferred sale state true (some []) w = Ends-ok _
  Calm-preferred sale state true (some (a ∷ areas)) w = Ends-ok _

  pub Calm-get_availability :
      (sale : TicketSale) (state : ProfileState) → Calm (get_availability b sale state)
  unfolding get_availability
  Calm-get_availability sale state w =
      Ends-bind _ _ _ (Calm-check _ _) (λ fine. Calm-preferred sale state fine _ _)

  Calm-chosen_seats :
      (state : ProfileState) (fine : Bool) (seats : Option (List TicketSeat))
      → Calm (chosen_seats b state fine seats)
  unfolding select_seats
  Calm-chosen_seats state false seats w = Ends-ok _
  Calm-chosen_seats state true none w = Ends-exception _
  Calm-chosen_seats state true (some []) w = Ends-ok _
  Calm-chosen_seats state true (some (s ∷ seats)) w =
      Ends-bind _ _ _ (Ends-bind _ _ _ (Calm-check _ _) (λ fine. Ends-ok _)) (λ l. Ends-ok _)

  pub Calm-get_seats : (state : ProfileState) (a : AreaAvailability) → Calm (get_seats b state a)
  unfolding get_seats
  Calm-get_seats state a w =
      Ends-bind _ _ _ (Calm-check _ _) (λ fine. Calm-chosen_seats state fine _ _)

  Calm-area_result : (sale : TicketSale) (a : Option AreaAvailability) → Calm (area_result b sale a)
  Calm-area_result sale none w = Ends-exception _
  Calm-area_result sale (some a) w = Ends-ok _

  Calm-random_area :
      (sale : TicketSale) (areas : List AreaAvailability) → Calm (random_area b sale areas)
  Calm-random_area sale areas w = Calm-area_result sale _ _

  Calm-first_area :
      (sale : TicketSale) (rows : List (List AreaAvailability)) → Calm (first_area b sale rows)
  unfolding first_area
  Calm-first_area sale [] w = Ends-ok _
  Calm-first_area sale ([] ∷ rows) w = Calm-first_area sale rows w
  Calm-first_area sale ((a ∷ areas) ∷ rows) w = Calm-random_area sale (a ∷ areas) w

  Calm-first_of_rows : (sale : TicketSale) (rows : Rows) → Calm (first_of_rows b sale rows)
  Calm-first_of_rows sale none w = Ends-ok _
  Calm-first_of_rows sale (some rows) w = Calm-first_area sale rows w

  Calm-area_of_sale :
      (state : ProfileState) (sale : Option TicketSale) → Calm (area_of_sale b state sale)
  Calm-area_of_sale state none w = Ends-ok _
  Calm-area_of_sale state (some sale) w =
      Ends-bind _ _ _ (Calm-get_availability sale state w) (λ rows. Calm-first_of_rows sale rows _)

  Calm-random_sale : (sales : List TicketSale) → Calm (random_sale b sales)
  Calm-random_sale [] w = Ends-ok _
  Calm-random_sale (s ∷ sales) w = Ends-ok _

  Calm-same_day : (state : ProfileState) → Calm (get_area_prefer_same_day b state)
  unfolding get_area_prefer_same_day select_ticket_sale
  Calm-same_day state w =
      Ends-bind (area_of_sale b state) _ _ (Calm-random_sale (sale_options b state) w)
        (λ sale. Calm-area_of_sale state sale _)

  Calm-inspect_row :
      (sale : TicketSale) (row : Option (List AreaAvailability)) → Calm (inspect_row b sale row)
  Calm-inspect_row sale none w = Ends-exception _
  Calm-inspect_row sale (some []) w = Ends-ok _
  Calm-inspect_row sale (some (a ∷ areas)) w = Calm-random_area sale (a ∷ areas) w

  Calm-inspect : (cat : ℕ) (sale : TicketSale) (rows : Rows) → Calm (inspect b cat sale rows)
  Calm-inspect cat sale none w = Ends-ok _
  Calm-inspect cat sale (some []) w = Ends-ok _
  Calm-inspect cat sale (some (row ∷ rows)) w = Calm-inspect_row sale _ w

  Calm-or_go_on :
      {A : Type 0} (rest : Exec W Stop (Option A)) (o : Option A)
      → Calm rest
      → Calm (or_go_on b rest o)
  Calm-or_go_on rest none h w = h w
  Calm-or_go_on rest (some a) h w = Ends-ok _

  Calm-later_pass :
      (cat : ℕ) (sales : List TicketSale) (fetched : List Rows)
      → Calm (later_pass b cat sales fetched)
  unfolding later_pass
  Calm-later_pass cat [] fetched w = Ends-ok _
  Calm-later_pass cat (sale ∷ sales) [] w = Ends-exception _
  Calm-later_pass cat (sale ∷ sales) (rows ∷ fetched) w =
      Ends-bind _ _ _ (Calm-inspect cat sale rows w)
        (λ found. Calm-or_go_on _ found (Calm-later_pass cat sales fetched) _)

  Calm-later_passes :
      (n cat : ℕ) (sales : List TicketSale) (fetched : List Rows)
      → Calm (later_passes b n cat sales fetched)
  unfolding later_passes
  Calm-later_passes zero cat sales fetched w = Ends-ok _
  Calm-later_passes (suc n) cat sales fetched w =
      Ends-bind _ _ _ (Calm-later_pass cat sales fetched w)
        (λ found. Calm-or_go_on _ found (Calm-later_passes n (suc cat) sales fetched) _)

  Calm-first_pass :
      (state : ProfileState) (go_on : List Rows → Exec W Stop (Option AreaSale))
      (sales : List TicketSale) (fetched : List Rows)
      → ((l : List Rows) → Calm (go_on l))
      → Calm (first_pass b state go_on sales fetched)
  unfolding first_pass
  Calm-first_pass state go_on [] fetched h w = h fetched w
  Calm-first_pass state go_on (sale ∷ sales) fetched h w =
      Ends-bind _ _ _ (Calm-get_availability sale state w) (λ rows.
        Ends-bind _ _ _ (Calm-inspect 0 sale rows _) (λ found.
          Calm-or_go_on _ found (Calm-first_pass state go_on sales (fetched ++ rows ∷ []) h) _))

  Calm-by_category : (state : ProfileState) (tiers : List String) → Calm (by_category b state tiers)
  Calm-by_category state [] w = Ends-ok _
  Calm-by_category state (tier ∷ tiers) w =
      Calm-first_pass state _ state.sale_selection []
        (Calm-later_passes (length tiers) 1 state.sale_selection) w

  pub Calm-look : (fallback : FallbackType) (state : ProfileState) → Calm (look b fallback state)
  unfolding get_area_prefer_same_category
  Calm-look same_category state = Calm-by_category state state.tier_order
  Calm-look same_day state = Calm-same_day state

  Calm-keep_seats :
      (retry : Exec W Stop (Option SeatSale)) (found : AreaSale) (seats : Option (List TicketSeat))
      → Calm retry
      → Calm (keep_seats b retry found seats)
  Calm-keep_seats retry found none h w = h _
  Calm-keep_seats retry found (some l) h w = Ends-ok _

  pub Calm-try_seats :
      (n : ℕ) (state : ProfileState) (found : AreaSale) → Calm (try_seats b n state found)
  unfolding try_seats
  Calm-try_seats zero state found w = Ends-ok _
  Calm-try_seats (suc n) state found w =
      Ends-bind (keep_seats b (try_seats b n state found) found) _ _
        (Calm-get_seats state found.chosen_area w)
        (λ seats.
          Calm-keep_seats (try_seats b n state found) found seats (Calm-try_seats n state found) _)
