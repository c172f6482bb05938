-- ===== src/Payment/Invoice/Interleave/Sound.antt =====
-- The consistency of what is stored, when calls interleave.
use mathlib.Core.Path.{subst}
use text.Mathlib.Text.{◌==◌ as str_eq}
use text.Mathlib.TextEquality.{eq_iff}
use tugas_akhir.Common.{
  String, ◌≡◌, ◌⊎◌, refl, sym, ap, ◌∙◌, false, Option, none, some, [], ◌∷◌, ◌++◌, All, Outcome, ok,
  throw, Bool-cases, inl, inr, bind_post, Exec, pure, ◌>>=◌,
}
use tugas_akhir.Payment.Json.{Text, Failure}
use tugas_akhir.Payment.Entity.{Status, pending, Invoice, Mode, success, Zod, ZodLaws}
use tugas_akhir.Payment.Platform.{Platform, Faithful}
use tugas_akhir.Payment.Invoice.{key, ttl, stringify, settle, get_invoice}
use tugas_akhir.Payment.Invoice.Reads.{Stored, GetPost, get_invoice_post}
use tugas_akhir.Payment.Invoice.Frame.{key_injective}
use tugas_akhir.Payment.Invoice.Store.{Moves, Step-Change}
use tugas_akhir.Payment.Invoice.Store.Sound.{
  IsConsistent, IsSound, Moves-IsConsistent, Stored-IsConsistent, Change-IsSound,
}
use tugas_akhir.Payment.Invoice.Interleave.{
  pay_decide_read, pay_decide_found, pay_decide, expire_decide_read, expire_decide_found,
  expire_decide, Waiting, Turn, whole, pay_decides, expire_decides, writes, Turns, start, turn,
}

module _ {S : Type 0} (p : Platform S) (z : Zod) (contents : S → String → Option Text)
    (env : Faithful p contents) where
  -- A decision leaves Redis as it is, and is about the pending invoice that was read.
  abbrev Decided : String → S → Outcome Failure (Option Invoice) → S → Type 0
  Decided id s (ok none) s' = contents s' ≡ contents s
  Decided id s (ok (some new)) s' =
      (contents s' ≡ contents s)
      × ((old : Invoice) × Stored z contents s id old × (old.status ≡ pending) × Moves old new)
  Decided id s (throw e) s' = contents s' ≡ contents s

  module _ (id : String) (s : S) (old : Invoice) (stored : Stored z contents s id old) where
    pay_decide_read_post :
        (st : Status) (mode : Mode) (s1 : S)
        → contents s1 ≡ contents s
        → old.status ≡ st
        → Decided id s (pay_decide_read p z st mode old s1).0 (pay_decide_read p z st mode old s1).1
    pay_decide_read_post pending mode s1 same pe =
        elim (Bool-cases (p.is_before old.expired_at (p.clock s1).0)) [
          | inl late ↦ rw late (env.clock_keeps s1 ∙ same)
          | inr early ↦ rw early (by_mode mode)
        ]
      where
        by_mode :
            (m : Mode)
            → let run = (settle p z m old >>= λ new. pure (some new)) (p.clock s1).1 in
              Decided id s run.0 run.1
        by_mode success = (
          env.clock_keeps (p.clock s1).1 ∙ (env.clock_keeps s1 ∙ same),
          (old, stored, pe, inr (success, _, refl)),
        )
        by_mode Mode.failed =
            (env.clock_keeps s1 ∙ same, (old, stored, pe, inr (Mode.failed, 0, refl)))
    pay_decide_read_post _ mode s1 same e = same

    expire_decide_read_post :
        (st : Status) (s1 : S)
        → contents s1 ≡ contents s
        → old.status ≡ st
        → Decided id s (expire_decide_read p z st old s1).0 (expire_decide_read p z st old s1).1
    expire_decide_read_post pending s1 same pe = (same, (old, stored, pe, inl refl))
    expire_decide_read_post _ s1 same e = same

  read_keeps : (id : String) (s s1 : S) → s1 ≡ (p.get (key id) s).1 → contents s1 ≡ contents s
  read_keeps id s s1 e = ap contents e ∙ env.get_keeps (key id) s

  pay_decide_found_post :
      (id : String) (mode : Mode) (s : S) (found : Option Invoice) (s1 : S)
      → GetPost p z contents env id s (ok found) s1
      → Decided id s (pay_decide_found p z mode found s1).0 (pay_decide_found p z mode found s1).1
  pay_decide_found_post id mode s none s1 (e, nothing) = read_keeps id s s1 e
  pay_decide_found_post id mode s (some old) s1 (e, stored) =
      pay_decide_read_post id s old stored old.status mode s1 (read_keeps id s s1 e) refl

  expire_decide_found_post :
      (id : String) (s : S) (found : Option Invoice) (s1 : S)
      → GetPost p z contents env id s (ok found) s1
      → Decided id s (expire_decide_found p z found s1).0 (expire_decide_found p z found s1).1
  expire_decide_found_post id s none s1 (e, nothing) = read_keeps id s s1 e
  expire_decide_found_post id s (some old) s1 (e, stored) =
      expire_decide_read_post id s old stored old.status s1 (read_keeps id s s1 e) refl

  decide_post :
      (id : String) (s : S) (f : Option Invoice → Exec S Failure (Option Invoice))
      → ((found : Option Invoice) (s1 : S)
          → GetPost p z contents env id s (ok found) s1
          → Decided id s (f found s1).0 (f found s1).1)
      → let run = (get_invoice p z id >>= f) s in Decided id s run.0 run.1
  decide_post id s f h =
      let read = get_invoice_post p z contents env id s in
      bind_post (Decided id s) (get_invoice p z id) f s
        (λ found e.
          h found (get_invoice p z id s).1
            (subst (λ r. GetPost p z contents env id s r (get_invoice p z id s).1) e read))
        (λ e q.
          read_keeps id s _
            (subst (λ r. GetPost p z contents env id s r (get_invoice p z id s).1) q read))

  pay_decide_post :
      (id : String) (mode : Mode) (s : S)
      → Decided id s (pay_decide p z id mode s).0 (pay_decide p z id mode s).1
  unfolding pay_decide
  pay_decide_post id mode s =
      decide_post id s (pay_decide_found p z mode) (pay_decide_found_post id mode s)

  expire_decide_post :
      (id : String) (s : S) → Decided id s (expire_decide p z id s).0 (expire_decide p z id s).1
  unfolding expire_decide
  expire_decide_post id s =
      decide_post id s (expire_decide_found p z) (expire_decide_found_post id s)

module _ {S : Type 0} (p : Platform S) (z : Zod) (contents : S → String → Option Text)
    (env : Faithful p contents) (laws : ZodLaws z) where
  abbrev Sound : S → Type 0
  Sound = IsSound p z contents env laws (λ id. Unit {0})

  -- The store is sound, and so is every write that waits.
  abbrev pub IsReady : S × Waiting → Type 0
  IsReady (s, l) = Sound s × All (λ (w : String × Invoice). IsConsistent w.0 w.1) l

  abbrev HoldsSound : String → Option Text → Type 0
  HoldsSound id v =
      (v ≡ none) ⊎ ((inv : Invoice) × (v ≡ some (stringify inv)) × IsConsistent id inv)

  same-Sound : (s s' : S) → contents s' ≡ contents s → Sound s → Sound s'
  same-Sound s s' e sound id =
      subst (λ (c : String → Option Text). HoldsSound id (c (key id))) (sym e) (sound id)

  written-Sound :
      (id : String) (new : Invoice) (s : S)
      → IsConsistent id new
      → Sound s
      → Sound (p.setex (key id) ttl (stringify new) s).1
  written-Sound id new s c sound j = elim (Bool-cases (str_eq id j)) [
    | inl e ↦ subst (λ i. HoldsSound i (contents s' (key i))) ((eq_iff id j).0 e) here
    | inr ne ↦
        subst (HoldsSound j)
          (sym (
            env.setex_ne (key id) (key j) ttl (stringify new) s
              (λ e. differ (key_injective j id e) ne)))
          (sound j)
  ]
    where
      s' : S
      s' = (p.setex (key id) ttl (stringify new) s).1

      differ : j ≡ id → str_eq id j ≡ false → ⊥
      differ e ne = cc ((eq_iff id j).1 (sym e), ne)

      here : HoldsSound id (contents (p.setex (key id) ttl (stringify new) s).1 (key id))
      here = elim (env.setex_at (key id) ttl (stringify new) s) [
        | inl h ↦ inr (new, h, c)
        | inr h ↦ subst (HoldsSound id) (sym h.1) (sound id)
      ]

  All-extract :
      (l : Waiting) (w : String × Invoice) (m : Waiting)
      → All (λ (w : String × Invoice). IsConsistent w.0 w.1) (l ++ w ∷ m)
      → IsConsistent w.0 w.1 × All (λ (w : String × Invoice). IsConsistent w.0 w.1) (l ++ m)
  All-extract [] w m (c, h) = (c, h)
  All-extract (v ∷ l) w m (d, h) = let (c, rest) = All-extract l w m h in (c, (d, rest))

  Decided-IsReady :
      (id : String) (s s1 : S) (new : Invoice) (l : Waiting)
      → Decided p z contents env id s (ok (some new)) s1
      → IsReady (s, l)
      → IsReady (s1, (id, new) ∷ l)
  Decided-IsReady id s s1 new l (same, (old, stored, pe, moves)) (sound, h) = (
    same-Sound s s1 same sound,
    (
      Moves-IsConsistent id old new pe moves
          (Stored-IsConsistent p z contents env laws (λ id. Unit {0}) s id old sound stored),
      h,
    ),
  )

  Turn-IsReady : (a b : S × Waiting) → Turn p z contents a b → IsReady a → IsReady b
  Turn-IsReady _ _ (whole {s} {s'} {l} step) (sound, h) = (
    Change-IsSound p z contents env laws (λ id. Unit {0}) s s' sound
        (λ id. Step-Change p z contents env (λ id. Unit {0}) id step),
    h,
  )
  Turn-IsReady _ _ (pay_decides id mode s new l e) ready =
      Decided-IsReady id s _ new l
        (subst (λ r. Decided p z contents env id s r (pay_decide p z id mode s).1) e
          (pay_decide_post p z contents env id mode s))
        ready
  Turn-IsReady _ _ (expire_decides id s new l e) ready =
      Decided-IsReady id s _ new l
        (subst (λ r. Decided p z contents env id s r (expire_decide p z id s).1) e
          (expire_decide_post p z contents env id s))
        ready
  Turn-IsReady _ _ (writes id new s l m) (sound, h) =
      let (c, rest) = All-extract l (id, new) m h in (written-Sound id new s c sound, rest)

  -- Also where calls of the server and of the notifier interleave between their reads and their
  -- writes, in whatever order, with whatever errors and losses: the store stays sound, each invoice
  -- under its own id, with a positive amount, and with a payment of its whole amount exactly if its
  -- status is paid; and so is whatever still waits to be written.
  pub Turns-IsReady : {a b : S × Waiting} → IsReady a → Turns p z contents a b → IsReady b
  Turns-IsReady ready start = ready
  Turns-IsReady ready (turn r t) = Turn-IsReady _ _ t (Turns-IsReady ready r)
