-- ===== src/Agent/Seats/Selection.antt =====
-- The seats that getSeats selects.
use mathlib.Core.List.{Perm}
use mathlib.Core.List.Perm
use tugas_akhir.Common.{
  ℕ, suc, ◌+◌, ◌-◌, ◌≤◌, ◌≡◌, refl, sym, ap, ◌∙◌, true, false, Option, none, some, List, [], ◌∷◌,
  ◌++◌, map, filter, length, take, drop, ok, arith, Bool-cases, inl, inr, ◌==◌, All, All-map,
  take-append-drop,
}
use tugas_akhir.Common.Int.{pos, sub_ℕ, ◌+ℤ◌, between_pos}
use tugas_akhir.Common.Slice.{slice, clamp_index, length-slice}
use tugas_akhir.Agent.Kit.{KitLaws}
use tugas_akhir.Agent.Types.{TicketSeat}
use tugas_akhir.Agent.Profile.{ProfileState}
use tugas_akhir.Agent.Backend.{Backend}
use tugas_akhir.Agent.Seats.{
  ParsedSeat, is_available, parse_seat, not_after, insert_seat, sort_seats, available_seats,
  select_seats,
}

insert_seat-perm : (s : ParsedSeat) (ts : List ParsedSeat) → Perm (insert_seat s ts) (s ∷ ts)
unfolding insert_seat
insert_seat-perm s [] = Perm.refl (s ∷ [])
insert_seat-perm s (t ∷ ts) = elim (Bool-cases (not_after s.parsed_number t.parsed_number)) [
  | inl before ↦ rw before (Perm.refl (s ∷ t ∷ ts))
  | inr after ↦ rw after (Perm.trans (Perm.cons t (insert_seat-perm s ts)) (Perm.swap s t ts))
]

sort_seats-perm : (ss : List ParsedSeat) → Perm (sort_seats ss) ss
unfolding sort_seats
sort_seats-perm [] = Perm.refl []
sort_seats-perm (s ∷ ss) =
    Perm.trans (insert_seat-perm s (sort_seats ss)) (Perm.cons s (sort_seats-perm ss))

-- The number of a seat could be read.
abbrev pub IsNumbered : ParsedSeat → Type 0
IsNumbered s = (n : ℕ) × (s.parsed_number ≡ some n)

-- No seat comes after one with a smaller number.
abbrev pub IsAscending : List ParsedSeat → Type 0
IsAscending [] = Unit
IsAscending (s ∷ ss) =
    All (λ t. not_after s.parsed_number t.parsed_number ≡ true) ss × IsAscending ss

not_after_trans :
    (a b c : Option ℕ) (n : ℕ)
    → b ≡ some n
    → not_after a b ≡ true
    → not_after b c ≡ true
    → not_after a c ≡ true
not_after_trans a none c n e h k = cc e
not_after_trans none (some b) c n e h k = refl
not_after_trans (some a) (some b) none n e h k = refl
not_after_trans (some a) (some b) (some c) n e h k = ground arith

not_after_flip : (a b : Option ℕ) → not_after a b ≡ false → not_after b a ≡ true
not_after_flip none b h = cc h
not_after_flip (some a) none h = refl
not_after_flip (some a) (some b) h = ground arith

pub insert_seat-All :
    (P : ParsedSeat → Type 0) (s : ParsedSeat) (ts : List ParsedSeat)
    → P s
    → All P ts
    → All P (insert_seat s ts)
unfolding insert_seat
insert_seat-All P s [] p h = (p, tt)
insert_seat-All P s (t ∷ ts) p (q, h) =
    elim (Bool-cases (not_after s.parsed_number t.parsed_number)) [
      | inl before ↦ rw before (p, (q, h))
      | inr after ↦ rw after (q, insert_seat-All P s ts p h)
    ]

insert_seat-IsAscending :
    (s : ParsedSeat) (ts : List ParsedSeat)
    → All IsNumbered ts
    → IsAscending ts
    → IsAscending (insert_seat s ts)
unfolding insert_seat
insert_seat-IsAscending s [] h k = (tt, tt)
insert_seat-IsAscending s (t ∷ ts) ((n, e), h) (least, k) =
    elim (Bool-cases (not_after s.parsed_number t.parsed_number)) [
      | inl before ↦ rw before (
        (
          before,
          All-map (λ u. not_after_trans s.parsed_number t.parsed_number u.parsed_number n e before)
              ts least,
        ),
        (least, k),
      )
      | inr after ↦ rw after (
        insert_seat-All (λ u. not_after t.parsed_number u.parsed_number ≡ true) s ts
            (not_after_flip s.parsed_number t.parsed_number after) least,
        insert_seat-IsAscending s ts h k,
      )
    ]

sort_seats-IsAscending :
    (ss : List ParsedSeat)
    → All IsNumbered ss
    → All IsNumbered (sort_seats ss) × IsAscending (sort_seats ss)
unfolding sort_seats
sort_seats-IsAscending [] h = (tt, tt)
sort_seats-IsAscending (s ∷ ss) (p, h) =
    let (numbered, ascending) = sort_seats-IsAscending ss h in
    (
      insert_seat-All IsNumbered s (sort_seats ss) p numbered,
      insert_seat-IsAscending s (sort_seats ss) numbered ascending,
    )

-- The seats that getSeats chooses from are the available ones, each once; where each of their
-- numbers can be read they stand in ascending order.
pub available_seats-IsAscending :
    (seats : List TicketSeat)
    → All IsNumbered (map parse_seat (filter is_available seats))
    → Perm (available_seats seats) (map parse_seat (filter is_available seats))
      × IsAscending (available_seats seats)
unfolding available_seats
available_seats-IsAscending seats h = (sort_seats-perm _, (sort_seats-IsAscending _ h).1)

-- The seats are a block of those to choose from, of the size that is wanted.
pub record IsBlock (state : ProfileState) (seats l : List TicketSeat) : Type 0 where
  pub before : List ParsedSeat
  pub chosen : List ParsedSeat
  pub after : List ParsedSeat
  pub listed : available_seats seats ≡ before ++ (chosen ++ after)
  pub shown : l ≡ map (λ s. s.seat) chosen
  pub wanted : length l ≡ state.ticket_count

length-map : {A B : Type 0} (f : A → B) (xs : List A) → length (map f xs) ≡ length xs
length-map f [] = refl
length-map f (x ∷ xs) = ap suc (length-map f xs)

slice-IsBlock :
    (state : ProfileState) (seats : List TicketSeat) (n : ℕ)
    → n + state.ticket_count ≤ length (available_seats seats)
    → IsBlock state seats
        (map (λ s. s.seat) (slice (available_seats seats) (pos n) (pos (n + state.ticket_count))))
slice-IsBlock state seats n h =
    let all = available_seats seats in
    let i = clamp_index (length all) (pos n) in
    let k = clamp_index (length all) (pos (n + state.ticket_count)) - i in
    record {
      before = take i all;
      chosen = take k (drop i all);
      after = drop k (drop i all);
      listed =
          sym
            (ap (λ l. take i all ++ l) (take-append-drop k (drop i all)) ∙ take-append-drop i all);
      shown = refl;
      wanted =
          length-map (λ s. s.seat) (slice all (pos n) (pos (n + state.ticket_count)))
          ∙ length-slice all n (n + state.ticket_count) (omega arith) h
          ∙ omega arith;
    }

room : (a c : ℕ) → c ≤ a → sub_ℕ a c ≡ pos (a - c)
room a c h = ground arith

end_of : (n c : ℕ) → pos n +ℤ pos c ≡ pos (n + c)
end_of n c = ground arith

module _ {W J : Type 0} (b : Backend W J) (laws : KitLaws b.kit) where
  start-le :
      (total count : ℕ) (w : W)
      → count ≤ total
      → (n : ℕ) × ((b.kit.random_int (pos 0) (sub_ℕ total count) w).0 ≡ pos n) × (n + count ≤ total)
  start-le total count w h =
      let drawn = (b.kit.random_int (pos 0) (pos (total - count)) w).0 in
      let (lo, hi) = laws.random_int-between (pos 0) (pos (total - count)) w (omega arith) in
      let (n, e, l, u) = between_pos 0 (total - count) drawn lo hi in
      (n, rw (room total count h) e, omega (arith, u, h))

  -- Where as many seats are available as the user wants, getSeats selects that many of them, next
  -- to each other in the order of their numbers, whatever is drawn.
  pub select_seats-IsBlock :
      (state : ProfileState) (seats : List TicketSeat) (w : W)
      → state.ticket_count ≤ length (available_seats seats)
      → (l : List TicketSeat) × ((select_seats b state seats w).0 ≡ ok l) × IsBlock state seats l
  unfolding select_seats
  select_seats-IsBlock state seats w h =
      let all = available_seats seats in
      let count = state.ticket_count in
      let (n, e, u) = start-le (length all) count w h in
      let w1 = (b.kit.random_int (pos 0) (sub_ℕ (length all) count) w).1 in
      let equal = length (slice all (pos n) (pos (n + count))) == count in
      (
        map (λ s. s.seat) (slice all (pos n) (pos (n + count))),
        rw (e, end_of n count, laws.check-conjunction (equal ∷ []) w1) refl,
        slice-IsBlock state seats n u,
      )
