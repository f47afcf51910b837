-- ===== src/Queue/Order/Pick.antt =====
-- One round of `_stack_order`: the choice among the ready candidates, as a specification of `pick`.
use saffron.Prelude.{
  suc, ◌≡◌, refl, ap, ◌↔◌, ◌⊎◌, inl, inr, Bool, true, false, not, ◌&&◌, List, [], ◌∷◌, Option, none,
  some, arith, length, Any, text_lt_trans, text_lt_total, text_lt_irrefl, lt_ℤ_irrefl,
  lt_ℤ-false_trans, lt_ℤ_asym, text_lt, same_iff, if_cases, Text,
}
use saffron.Queue.Rows.{Candidate}
use saffron.Queue.Order.{runs_before, pick, pick_over}

abbrev pub In : Candidate → List Candidate → Type 0
In c candidates = Any (λ d. c ≡ d) candidates

runs_before_irrefl : (c : Candidate) → runs_before c c ≡ false
unfolding runs_before
runs_before_irrefl c = ground (arith, lt_ℤ_irrefl c.spec.priority, text_lt_irrefl c.spec.id)

text_lt-false_trans :
    (s t u : Text) → text_lt t s ≡ false → text_lt u t ≡ false → text_lt u s ≡ false
text_lt-false_trans s t u h k = ground (arith, text_lt_total u t, same_iff u t, text_lt_trans t u s)

-- What does not run before one candidate does not run before one that it follows.
runs_before-false_trans :
    (a b c : Candidate)
    → runs_before b a ≡ false
    → runs_before c b ≡ false
    → runs_before c a ≡ false
unfolding runs_before
runs_before-false_trans a b c h k = ground (
  arith,
  lt_ℤ-false_trans a.spec.priority b.spec.priority c.spec.priority,
  lt_ℤ-false_trans b.spec.priority c.spec.priority a.spec.priority,
  lt_ℤ-false_trans c.spec.priority a.spec.priority b.spec.priority,
  text_lt-false_trans a.spec.id b.spec.id c.spec.id,
)

runs_before_asym : (a b : Candidate) → runs_before a b ≡ true → runs_before b a ≡ false
unfolding runs_before
runs_before_asym a b h = ground (
  arith,
  lt_ℤ_asym a.spec.priority b.spec.priority,
  text_lt_trans a.spec.id b.spec.id a.spec.id,
  text_lt_irrefl a.spec.id,
)

-- What `pick` says of its input.
abbrev pub Picked :
    (Candidate → Bool) → List Candidate → Option (Candidate × List Candidate) → Type 0
Picked ready candidates none = (c : Candidate) → In c candidates → ready c ≡ false
Picked ready candidates (some (best, others)) =
    In best candidates
    × (ready best ≡ true)
    × ((c : Candidate) → In c candidates → ready c ≡ true → runs_before c best ≡ false)
    × ((c : Candidate) → In c candidates ↔ ((c ≡ best) ⊎ In c others))
    × (length candidates ≡ suc (length others))

pick_over-Picked :
    (ready : Candidate → Bool) (c : Candidate) (candidates : List Candidate)
    (picked : Option (Candidate × List Candidate))
    → Picked ready candidates picked
    → Picked ready (c ∷ candidates) (pick_over ready c candidates picked)
pick_over-Picked ready c candidates none h =
    if_cases (Picked ready (c ∷ candidates)) (ready c) _ _
      (λ r. (
        inl refl,
        r,
        (λ d m k. elim m [ inl e ↦ rw e (runs_before_irrefl c) | inr later ↦ cc (h d later) ]),
        (λ d. ((λ m. m), (λ m. m))),
        refl,
      ))
      λ r d m. elim m [ inl e ↦ rw e r | inr later ↦ h d later ]
pick_over-Picked ready c candidates (some (best, others)) (is_in, is_ready, least, kept, count) =
    if_cases (Picked ready (c ∷ candidates)) (ready c && not (runs_before best c)) _ _
      (λ r. (
        inl refl,
        ground arith,
        (λ d m k. elim m [
          | inl e ↦ rw e (runs_before_irrefl c)
          | inr later ↦ runs_before-false_trans c best d (ground arith) (least d later k)
        ]),
        (λ d. ((λ m. m), (λ m. m))),
        refl,
      ))
      λ r. (
        inr is_in,
        is_ready,
        (λ d m k. elim m [
          | inl e ↦ ground (
            arith,
            runs_before_asym best c,
            ap ready e,
            ap (λ (t : Candidate). runs_before t best) e,
          )
          | inr later ↦ least d later k
        ]),
        (λ d. ground (arith, kept d)),
        ap suc count,
      )

pub pick-Picked :
    (ready : Candidate → Bool) (candidates : List Candidate)
    → Picked ready candidates (pick ready candidates)
unfolding pick
pick-Picked ready [] = λ c m. absurd m
pick-Picked ready (c ∷ candidates) =
    pick_over-Picked ready c candidates (pick ready candidates) (pick-Picked ready candidates)
