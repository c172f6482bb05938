-- ===== src/Agent/Seats/Suits.antt =====
-- The areas that getAvailability lists for a user.
use mathlib.Core.Path.{subst}
use tugas_akhir.Common.{
  ℕ, ◌≤◌, ◌≡◌, ◌∙◌, inl, inr, Bool, true, false, String, Option, none, some, List, [], ◌∷◌, filter,
  All, All-map, All-filter, Any, Any-map, Outcome, ok, throw, continue, Bool-cases, Option-cases,
  arith, ◌==◌,
}
use tugas_akhir.Common.Text.{includes}
use tugas_akhir.Agent.Kit.{Stop}
use tugas_akhir.Agent.Types.{AreaAvailability, TicketPackage, TicketSale}
use tugas_akhir.Agent.Profile.{ProfileState}
use tugas_akhir.Agent.Backend.{Backend}
use tugas_akhir.Agent.Seats.{has, package_of, fits, by_preference, preferred, get_availability}

-- The package of an area belongs to a category of the list.
abbrev pub IsOfTier : List String → TicketSale → AreaAvailability → Type 0
IsOfTier categories sale a =
    Any
      (λ q.
        (q.id ≡ a.ticket_package_id)
        × Any (λ category. includes q.category_name category ≡ true) categories)
      sale.ticket_packages

-- The area is not one to skip, has as many seats as the user wants, and its package belongs to a
-- category of the list.
abbrev pub Suits : List String → ProfileState → TicketSale → AreaAvailability → Type 0
Suits categories state sale a =
    (has state.area_skip a.ticket_area_id ≡ false)
    × (state.ticket_count ≤ a.available_seats)
    × IsOfTier categories sale a

package_of-Any :
    (qs : List TicketPackage) (id : ℕ) (q : TicketPackage)
    → package_of qs id ≡ some q
    → Any (λ x. (x ≡ q) × (x.id ≡ id)) qs
unfolding package_of
package_of-Any [] id q = λ e. cc e
package_of-Any (x ∷ qs) id q = elim (Option-cases (package_of qs id)) [
  | inr (later, found) ↦ rw found (λ e. inr (package_of-Any qs id q (found ∙ e)))
  | inl missing ↦ elim (Bool-cases (x.id == id)) [
    | inl same ↦ rw (missing, same) (λ e. inl (cc e, ground (arith, same)))
    | inr other ↦ rw (missing, other) (λ e. cc e)
  ]
]

fits-Suits :
    (category : String) (state : ProfileState) (sale : TicketSale) (a : AreaAvailability)
    → fits sale state category a ≡ true
    → Suits (category ∷ []) state sale a
unfolding fits
fits-Suits category state sale a =
    elim (Option-cases (package_of sale.ticket_packages a.ticket_package_id)) [
      | inl missing ↦ rw (missing, fits) (λ e. cc e)
      | inr (q, found) ↦
          rw (found, fits)
            (λ e. (
              ground (arith, e),
              ground (arith, e),
              Any-map (λ x h. (h.1, inl (named x q h.0 (ground (arith, e))))) sale.ticket_packages
                  (package_of-Any sale.ticket_packages a.ticket_package_id q found),
            ))
    ]
  where
    named :
        (x q : TicketPackage)
        → x ≡ q
        → includes q.category_name category ≡ true
        → includes x.category_name category ≡ true
    named x q e h = rw e h

Suits-first :
    (category : String) (categories : List String) (state : ProfileState) (sale : TicketSale)
    (a : AreaAvailability)
    → Suits (category ∷ []) state sale a
    → Suits (category ∷ categories) state sale a
Suits-first category categories state sale a (seen, room, tier) = (
  seen,
  room,
  Any-map (λ q h. (h.0, elim h.1 [ inl e ↦ inl e | inr e ↦ absurd e ])) sale.ticket_packages tier,
)

Suits-more :
    (category : String) (categories : List String) (state : ProfileState) (sale : TicketSale)
    (a : AreaAvailability)
    → Suits categories state sale a
    → Suits (category ∷ categories) state sale a
Suits-more category categories state sale a (seen, room, tier) =
    (seen, room, Any-map (λ q h. (h.0, inr h.1)) sale.ticket_packages tier)

-- Each row holds areas that suit the user.
abbrev pub SuitRows :
    List String → ProfileState → TicketSale → List (List AreaAvailability) → Type 0
SuitRows categories state sale rows = All (λ row. All (Suits categories state sale) row) rows

by_preference-SuitRows :
    (sale : TicketSale) (state : ProfileState) (areas : List AreaAvailability)
    (categories : List String)
    → SuitRows categories state sale (by_preference sale state areas categories)
unfolding by_preference
by_preference-SuitRows sale state areas [] = tt
by_preference-SuitRows sale state areas (category ∷ categories) = (
  All-map (λ a e. Suits-first category categories state sale a (fits-Suits category state sale a e))
      (filter (fits sale state category) areas) (All-filter (fits sale state category) areas),
  All-map (λ row. All-map (Suits-more category categories state sale) row)
      (by_preference sale state areas categories)
      (by_preference-SuitRows sale state areas categories),
)

-- The rows of a sale, or null.
abbrev pub RowsPost : ProfileState → TicketSale → Option (List (List AreaAvailability)) → Type 0
RowsPost state sale none = Unit {0}
RowsPost state sale (some rows) = SuitRows state.tier_order state sale rows

abbrev AnswerPost :
    ProfileState → TicketSale → Outcome Stop (Option (List (List AreaAvailability))) → Type 0
AnswerPost state sale (ok rows) = RowsPost state sale rows
AnswerPost state sale (throw e) = Unit {0}

module _ {W J : Type 0} (b : Backend W J) where
  preferred_post :
      (sale : TicketSale) (state : ProfileState) (fine : Bool)
      (areas : Option (List AreaAvailability)) (w : W)
      → AnswerPost state sale (preferred b sale state fine areas w).0
  preferred_post sale state false areas w = tt
  preferred_post sale state true none w = tt
  preferred_post sale state true (some []) w = tt
  preferred_post sale state true (some (a ∷ areas)) w =
      by_preference-SuitRows sale state (a ∷ areas) state.tier_order

  checked_post :
      (sale : TicketSale) (state : ProfileState) (areas : Option (List AreaAvailability))
      (r : Outcome Stop Bool) (w : W)
      → AnswerPost state sale (continue (λ fine. preferred b sale state fine areas) r w).0
  checked_post sale state areas (ok fine) w = preferred_post sale state fine areas w
  checked_post sale state areas (throw e) w = tt

  answer_post :
      (sale : TicketSale) (state : ProfileState) (w : W)
      → AnswerPost state sale (get_availability b sale state w).0
  unfolding get_availability
  answer_post sale state w = checked_post sale state _ _ _

  pub get_availability-RowsPost :
      (sale : TicketSale) (state : ProfileState) (w : W)
      (rows : Option (List (List AreaAvailability)))
      → (get_availability b sale state w).0 ≡ ok rows
      → RowsPost state sale rows
  get_availability-RowsPost sale state w rows e =
      subst (AnswerPost state sale) e (answer_post sale state w)
