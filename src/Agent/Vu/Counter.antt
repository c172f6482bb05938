-- ===== src/Agent/Vu/Counter.antt =====
-- What calls add to the counter of end states.
use text.Mathlib.Text.{◌==◌ as str_eq}
use text.Mathlib.TextEquality.{eq_iff}
use mathlib.Core.List.{append_assoc, map-append}
use tugas_akhir.Common.{
  ◌≡◌, refl, ap, ◌∙◌, false, String, some, List, [], ◌∷◌, ◌++◌, filter, map, Exec, Outcome, ok,
  throw, ◌>>=◌, arith, bind_post,
}
use tugas_akhir.Agent.Kit.{Stop}
use tugas_akhir.Agent.Client.{Fields, lookup, assign}
use tugas_akhir.Agent.Client.Headers.{lookup-assign}
use tugas_akhir.Agent.Vu.{
  Vu, EndState, end_text, tag_given, on_world, submit_metric, finish, success_purchased,
}

-- The tag that names the end state survives the filter of submitMetric.
lookup-given :
    (k v : String) (m : Fields)
    → str_eq v "" ≡ false
    → lookup k m ≡ some v
    → lookup k (filter tag_given m) ≡ some v
lookup-given k v [] h e = e
lookup-given k v ((j, w) ∷ m) h e = ground (arith, lookup-given k v m h)

lookup-submitted :
    (k v : String) (m : Fields)
    → str_eq v "" ≡ false
    → lookup k (filter tag_given (assign k v m)) ≡ some v
lookup-submitted k v m h =
    lookup-given k v (assign k v m) h (lookup-assign k k v m ∙ rw ((eq_iff k k).1 refl) refl)

end_text-given : (e : EndState) → str_eq (end_text e) "" ≡ false
end_text-given success_purchased = refl
end_text-given _ = refl

module _ {W : Type 0} where
  -- The counter has got entries for these end states, in this order.
  pub record Adds (es : List EndState) (v v' : Vu W) : Type 0 where
    pub entries : List Fields
    pub states : map (lookup "state") entries ≡ map (λ e. some (end_text e)) es
    pub appended : v'.submitted ≡ v.submitted ++ entries

  pub Adds-trans :
      (es fs : List EndState) (v v1 v2 : Vu W) → Adds es v v1 → Adds fs v1 v2 → Adds (es ++ fs) v v2
  Adds-trans es fs v v1 v2 a b = record {
    entries = a.entries ++ b.entries;
    states =
        map-append _ a.entries b.entries
        ∙ cc (a.states, b.states, map-append (λ e. some (end_text e)) es fs);
    appended =
        b.appended
        ∙ ap (λ l. l ++ b.entries) a.appended
        ∙ append_assoc v.submitted a.entries b.entries;
  }

  pub Adds-finish :
      (e : EndState) (v v1 : Vu W) → v1.submitted ≡ v.submitted → Adds (e ∷ []) v (finish e v1).1
  unfolding submit_metric
  Adds-finish e v v1 h = record {
    entries = filter tag_given (assign "state" (end_text e) v1.tags) ∷ [];
    states = ap (λ x. x ∷ []) (lookup-submitted "state" (end_text e) v1.tags (end_text-given e));
    appended = ap (λ l. l ++ filter tag_given (assign "state" (end_text e) v1.tags) ∷ []) h;
  }

  module _ {B : Type 0} (Q : Outcome Stop B → Vu W → Type 0) (v0 : Vu W) where
    -- A step on the world keeps the counter as it is. The rest may use what the step returned.
    pub world_returns :
        {A : Type 0} (m : Exec W Stop A) (f : A → Exec (Vu W) Stop B) (v : Vu W)
        → v.submitted ≡ v0.submitted
        → ((a : A) (v1 : Vu W)
            → (m v.world).0 ≡ ok a
            → v1.submitted ≡ v0.submitted
            → Q (f a v1).0 (f a v1).1)
        → ((e : Stop) (v1 : Vu W) → v1.submitted ≡ v0.submitted → Q (throw e) v1)
        → Q ((on_world m >>= f) v).0 ((on_world m >>= f) v).1
    world_returns m f v h goes_on stops =
        bind_post Q (on_world m) f v (λ a q. goes_on a _ q h) (λ e _. stops e _ h)

    pub world_step :
        {A : Type 0} (m : Exec W Stop A) (f : A → Exec (Vu W) Stop B) (v : Vu W)
        → v.submitted ≡ v0.submitted
        → ((a : A) (v1 : Vu W) → v1.submitted ≡ v0.submitted → Q (f a v1).0 (f a v1).1)
        → ((e : Stop) (v1 : Vu W) → v1.submitted ≡ v0.submitted → Q (throw e) v1)
        → Q ((on_world m >>= f) v).0 ((on_world m >>= f) v).1
    world_step m f v h goes_on stops = world_returns m f v h (λ a v1 _. goes_on a v1) stops
