-- ===== src/Agent/Random/Permutes.antt =====
-- What the shuffle does to the contents of its array.
use mathlib.Core.List.{Perm}
use mathlib.Core.List.Perm
use mathlib.Core.Path.{subst}
use tugas_akhir.Common.{
  ℕ, zero, suc, ◌≤◌, ◌<◌, ◌≡◌, ◌≢◌, refl, sym, ap, ◌∙◌, List, [], ◌∷◌, Option, some, get_elem?, set,
  map, length, length-set, ◌==◌, ==_iff, Bool-cases, inl, inr, arith,
}
use tugas_akhir.Agent.Kit.{Kit, KitLaws, random_below, floor-lt}
use tugas_akhir.Agent.Random.{slot, put, swap_elems, defined, shuffle_from, shuffle, shuffled}

module _ {T : Type 0} where
  exchange_head :
      (x b : T) (xs : List T) (j : ℕ) → get_elem? xs j ≡ some b → Perm (b ∷ set xs j x) (x ∷ xs)
  exchange_head x b [] j h = cc
  exchange_head x b (y ∷ ys) zero h =
      subst (λ c. Perm (c ∷ x ∷ ys) (x ∷ y ∷ ys)) (cc h) (Perm.swap x y ys)
  exchange_head x b (y ∷ ys) (suc j) h =
      Perm.trans (Perm.swap y b (set ys j x))
        (Perm.trans (Perm.cons y (exchange_head x b ys j h)) (Perm.swap x y ys))

  exchange :
      (xs : List T) (i j : ℕ) (a b : T)
      → get_elem? xs i ≡ some a
      → get_elem? xs j ≡ some b
      → Perm (set (set xs i b) j a) xs
  exchange [] i j a b hi hj = cc
  exchange (x ∷ xs) zero zero a b hi hj =
      subst (λ c. Perm (c ∷ xs) (x ∷ xs)) (cc hi) (Perm.refl (x ∷ xs))
  exchange (x ∷ xs) zero (suc j) a b hi hj =
      subst (λ c. Perm (b ∷ set xs j c) (x ∷ xs)) (cc hi) (exchange_head x b xs j hj)
  exchange (x ∷ xs) (suc i) zero a b hi hj =
      subst (λ c. Perm (a ∷ set xs i c) (x ∷ xs)) (cc hj) (exchange_head x a xs i hi)
  exchange (x ∷ xs) (suc i) (suc j) a b hi hj = Perm.cons x (exchange xs i j a b hi hj)

  slot-map : (xs : List T) (i : ℕ) → slot (map some xs) i ≡ get_elem? xs i
  unfolding slot
  slot-map [] i = refl
  slot-map (x ∷ xs) zero = refl
  slot-map (x ∷ xs) (suc i) = slot-map xs i

  put-map :
      (xs : List T) (i : ℕ) (v : T)
      → i < length xs
      → put (map some xs) i (some v) ≡ map some (set xs i v)
  unfolding put
  put-map [] i v h = absurd (omega (arith, h))
  put-map (x ∷ xs) zero v h = refl
  put-map (x ∷ xs) (suc i) v h =
      ap (λ (l : List (Option T)). some x ∷ l) (put-map xs i v (omega (arith, h)))

  element_there : (xs : List T) (i : ℕ) → i < length xs → (x : T) × (get_elem? xs i ≡ some x)
  element_there [] i h = absurd (omega (arith, h))
  element_there (x ∷ xs) zero h = (x, refl)
  element_there (x ∷ xs) (suc i) h = element_there xs i (omega (arith, h))

  get_elem?-set : (xs : List T) (i : ℕ) (v : T) → i < length xs → get_elem? (set xs i v) i ≡ some v
  get_elem?-set [] i v h = absurd (omega (arith, h))
  get_elem?-set (x ∷ xs) zero v h = refl
  get_elem?-set (x ∷ xs) (suc i) v h = get_elem?-set xs i v (omega (arith, h))

  get_elem?-set_other :
      (xs : List T) (i k : ℕ) (v : T) → k ≢ i → get_elem? (set xs i v) k ≡ get_elem? xs k
  get_elem?-set_other [] i k v ne = refl
  get_elem?-set_other (x ∷ xs) zero zero v ne = absurd (ne refl)
  get_elem?-set_other (x ∷ xs) zero (suc k) v ne = refl
  get_elem?-set_other (x ∷ xs) (suc i) zero v ne = refl
  get_elem?-set_other (x ∷ xs) (suc i) (suc k) v ne =
      get_elem?-set_other xs i k v (λ e. ne (ap suc e))

  defined-map : (xs : List T) → defined (map some xs) ≡ xs
  unfolding defined
  defined-map [] = refl
  defined-map (x ∷ xs) = ap (λ (l : List T). x ∷ l) (defined-map xs)

  -- The second array is the first one with the elements of two places exchanged.
  pub record Exchanged (a b : List T) (i j : ℕ) : Type 0 where
    pub same_length : length b ≡ length a
    pub first_there : i < length a
    pub second_there : j < length a
    pub first : get_elem? b i ≡ get_elem? a j
    pub second : get_elem? b j ≡ get_elem? a i
    pub others : (k : ℕ) → k ≢ i → k ≢ j → get_elem? b k ≡ get_elem? a k

  -- One exchange leaves no undefined slot.
  swap_elems-Exchanged :
      (a : List T) (i j : ℕ)
      → i < length a
      → j < length a
      → (b : List T) × (swap_elems (map some a) i j ≡ map some b) × Perm b a × Exchanged a b i j
  unfolding swap_elems
  swap_elems-Exchanged a i j hi hj =
      let (x, ei) = element_there a i hi in
      let (y, ej) = element_there a j hj in
      let longer : j < length (set a i y) = omega (arith, hj, length-set a i y) in
      let b = set (set a i y) j x in
      (
        b,
        rw (slot-map a i, slot-map a j, ei, ej, put-map a i y hi, put-map (set a i y) j x longer)
            refl,
        exchange a i j x y ei ej,
        record {
          same_length = length-set (set a i y) j x ∙ length-set a i y;
          first_there = hi;
          second_there = hj;
          first = first_place x y ei ej longer;
          second = get_elem?-set (set a i y) j x longer ∙ sym ei;
          others =
              λ k ni nj. get_elem?-set_other (set a i y) j k x nj ∙ get_elem?-set_other a i k y ni;
        },
      )
    where
      first_place :
          (x y : T)
          → get_elem? a i ≡ some x
          → get_elem? a j ≡ some y
          → j < length (set a i y)
          → get_elem? (set (set a i y) j x) i ≡ get_elem? a j
      first_place x y ei ej longer = elim (Bool-cases (i == j)) [
        | inl e ↦
            let same = (==_iff i j).0 e in
            subst (λ k. get_elem? (set (set a i y) j x) k ≡ get_elem? a j) (sym same)
              (get_elem?-set (set a i y) j x longer ∙ sym ei ∙ ap (λ k. get_elem? a k) same)
        | inr ne ↦
            get_elem?-set_other (set a i y) j i x (λ q. cc ((==_iff i j).1 q, ne))
            ∙ get_elem?-set a i y hi
            ∙ sym ej
      ]

module _ {W : Type 0} (kit : Kit W) where
  -- The rounds of a Fisher-Yates shuffle with the draws of the kit: in the round `current` the
  -- element at this place is exchanged with the one at a place up to it that is drawn.
  pub data Draws {T : Type 0} : ℕ → List T → W → List T → W → Type 0 where
    drawn_all : (a : List T) (w : W) → Draws zero a w a w
    drawn :
        {current : ℕ} {a b c : List T} {w w' : W}
        → (random_below kit (suc current) w).0 ≤ current
        → Exchanged a b current (random_below kit (suc current) w).0
        → Draws current b (random_below kit (suc current) w).1 c w'
        → Draws (suc current) a w c w'

  length-Draws :
      {T : Type 0} {current : ℕ} {a c : List T} {w w' : W}
      → Draws current a w c w'
      → length c ≡ length a
  length-Draws (drawn_all a w) = refl
  length-Draws (drawn le x d) = length-Draws d ∙ x.same_length

  -- A run of the loop that leaves a permutation, by its draws, and no undefined slot.
  abbrev pub Shuffles : {T : Type 0} → ℕ → List T → W → List (Option T) × W → Type 0
  Shuffles {T} current a w run =
      (c : List T) × (run.0 ≡ map some c) × Perm c a × Draws current a w c run.1

  module _ (laws : KitLaws kit) where
    below : (n : ℕ) (w : W) → (random_below kit (suc n) w).0 < suc n
    below n w = floor-lt (kit.random w).0 (suc n) (laws.random-lt w) (omega arith)

    round-Shuffles :
        {T : Type 0} (current : ℕ) (a b : List T) (w : W) (slots : List (Option T))
        → slots ≡ map some b
        → Perm b a
        → Exchanged a b current (random_below kit (suc current) w).0
        → Shuffles current b
            (random_below kit (suc current) w).1
            (shuffle_from kit current (map some b) (random_below kit (suc current) w).1)
        → Shuffles
            (suc current)
            a
            w
            (shuffle_from kit current slots (random_below kit (suc current) w).1)
    round-Shuffles current a b w slots e p x (c, q, r, d) =
        subst
          (λ l.
            Shuffles (suc current) a w
              (shuffle_from kit current l (random_below kit (suc current) w).1))
          (sym e) (c, q, Perm.trans r p, drawn (omega (arith, below current w)) x d)

    shuffle_from-Shuffles :
        {T : Type 0} (current : ℕ) (a : List T) (w : W)
        → current ≤ length a
        → Shuffles current a w (shuffle_from kit current (map some a) w)
    unfolding shuffle_from
    shuffle_from-Shuffles zero a w h = (a, refl, Perm.refl a, drawn_all a w)
    shuffle_from-Shuffles (suc current) a w h =
        let r = (random_below kit (suc current) w).0 in
        let (b, e, p, x) =
          swap_elems-Exchanged a current r (omega (arith, h)) (omega (arith, h, below current w)) in
        round-Shuffles current a b w (swap_elems (map some a) current r) e p x (
          shuffle_from-Shuffles current b (random_below kit (suc current) w).1
            (omega (arith, h, x.same_length)))

    length-slots : {T : Type 0} (a : List T) → length (map some a) ≡ length a
    length-slots [] = refl
    length-slots (x ∷ a) = ap suc (length-slots a)

    -- The array after `shuffle` is a permutation of the array before it, without an undefined slot.
    -- It comes about by one exchange for each place, from the last one down to the first, of the
    -- element there with the element at a place up to it that Math.random() draws.
    pub shuffle-Shuffles :
        {T : Type 0} (array : List T) (w : W)
        → Shuffles (length array) array w (shuffle kit (map some array) w)
    unfolding shuffle
    shuffle-Shuffles array w =
        rw (length-slots array) (shuffle_from-Shuffles (length array) array w (omega arith))

    -- A caller finds a permutation of its array.
    pub shuffled-perm : {T : Type 0} (array : List T) (w : W) → Perm (shuffled kit array w).0 array
    unfolding shuffled
    shuffled-perm array w =
        let (c, e, p, d) = shuffle-Shuffles array w in
        subst (λ l. Perm l array) (sym (ap defined e ∙ defined-map c)) p

    pub length-shuffled :
        {T : Type 0} (array : List T) (w : W) → length (shuffled kit array w).0 ≡ length array
    unfolding shuffled
    length-shuffled array w =
        let (c, e, p, d) = shuffle-Shuffles array w in
        ap (λ l. length l) (ap defined e ∙ defined-map c) ∙ length-Draws d
