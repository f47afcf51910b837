-- ===== src/Queue/Names/Partners.antt =====
-- Which specs `_removed_name_refusals` compares: the dict `partners`, against the specs it is made of.
use saffron.Prelude.{
  ◌≡◌, refl, sym, subst, ◌∙◌, ◌≢◌, ◌↔◌, ◌⊎◌, inl, inr, Bool, true, false, List, [], ◌∷◌, arith,
  Text, same, same_iff, All, Any, Any-map, Bool-cases, if_cases,
}
use saffron.Intake.{Spec}
use saffron.Queue.Names.{Partners, put_partner, partners_from}

-- The spec is one of the specs with the property, and none after it has the property and its id.
abbrev pub Stands : (Spec → Type 0) → Spec → List Spec → Type 0
Stands P spec [] = ⊥
Stands P spec (first ∷ specs) =
    ((spec ≡ first) × P first × ¬ Any (λ later. P later × (later.id ≡ first.id)) specs)
    ⊎ Stands P spec specs

pub Stands-iff :
    (P Q : Spec → Type 0)
    → ((spec : Spec) → P spec ↔ Q spec)
    → (specs : List Spec) (spec : Spec) → Stands P spec specs ↔ Stands Q spec specs
Stands-iff P Q h [] spec = ((λ n. n), (λ n. n))
Stands-iff P Q h (first ∷ specs) spec =
    let there : Any (λ later. P later × (later.id ≡ first.id)) specs
        → Any (λ later. Q later × (later.id ≡ first.id)) specs =
      Any-map (λ later l. ((h later).0 l.0, l.1)) specs in
    let back : Any (λ later. Q later × (later.id ≡ first.id)) specs
        → Any (λ later. P later × (later.id ≡ first.id)) specs =
      Any-map (λ later l. ((h later).1 l.0, l.1)) specs in
    let rest = Stands-iff P Q h specs spec in ground (arith, h first, rest, there, back)

DistinctKeys : Partners → Type 0
DistinctKeys [] = Unit
DistinctKeys (partner ∷ partners) =
    All (λ other. other.0 ≢ partner.0) partners × DistinctKeys partners

Any-All :
    {A : Type 0} (P Q : A → Type 0) (xs : List A) → Any P xs → All Q xs → Any (λ x. P x × Q x) xs
Any-All P Q [] m h = m
Any-All P Q (x ∷ xs) (inl p) h = inl (p, h.0)
Any-All P Q (x ∷ xs) (inr m) h = inr (Any-All P Q xs m h.1)

put_partner-All :
    (P : Text × Spec → Type 0) (partners : Partners) (id : Text) (spec : Spec)
    → ((key : Text) → key ≡ id → P (key, spec))
    → All P partners
    → All P (put_partner partners id spec)
unfolding put_partner
put_partner-All P [] id spec p h = (p id refl, tt)
put_partner-All P ((key, old) ∷ partners) id spec p h = elim (Bool-cases (same key id)) [
  | inl e ↦ rw e (p key ((same_iff key id).0 e), h.1)
  | inr e ↦ rw e (h.0, put_partner-All P partners id spec p h.1)
]

put_partner-DistinctKeys :
    (partners : Partners) (id : Text) (spec : Spec)
    → DistinctKeys partners
    → DistinctKeys (put_partner partners id spec)
unfolding put_partner DistinctKeys
put_partner-DistinctKeys [] id spec d = (tt, tt)
put_partner-DistinctKeys ((key, old) ∷ partners) id spec d = elim (Bool-cases (same key id)) [
  | inl e ↦ rw e d
  | inr e ↦
      let differs : key ≢ id = λ p. cc ((same_iff key id).1 p, e) in
      rw e (
        put_partner-All (λ other. other.0 ≢ key) partners id spec (λ other p q. differs (sym q ∙ p))
            d.0,
        put_partner-DistinctKeys partners id spec d.1,
      )
]

module _ (Q : Text × Spec → Type 0) where
  put_partner_iff :
      (partners : Partners) (id : Text) (spec : Spec)
      → DistinctKeys partners
      → Any Q (put_partner partners id spec) ↔ (Q (id, spec) ⊎ Any (λ e. Q e × (e.0 ≢ id)) partners)
  unfolding put_partner DistinctKeys
  put_partner_iff [] id spec d = ground arith
  put_partner_iff ((key, old) ∷ partners) id spec d = elim (Bool-cases (same key id)) [
    | inl e ↦
        let named : key ≡ id = (same_iff key id).0 e in
        let others : All (λ (f : Text × Spec). f.0 ≢ id) partners =
          subst (λ (t : Text). All (λ (f : Text × Spec). f.0 ≢ t) partners) named d.0 in
        rw e (
          (λ m. elim m [
            | inl q ↦ inl (subst (λ (t : Text). Q (t, spec)) named q)
            | inr n ↦ inr (inr (Any-All Q (λ f. f.0 ≢ id) partners n others))
          ]),
          (λ m. elim m [
            | inl q ↦ inl (subst (λ (t : Text). Q (t, spec)) (sym named) q)
            | inr (inl q) ↦ absurd (q.1 named)
            | inr (inr n) ↦ inr (Any-map (λ f q. q.0) partners n)
          ]),
        )
    | inr e ↦
        let differs : key ≢ id = λ p. cc ((same_iff key id).1 p, e) in
        let rest = put_partner_iff partners id spec d.1 in rw e (ground (arith, rest, differs))
  ]

-- None of the specs with the property has the id.
abbrev NoneLater : (Spec → Type 0) → List Spec → Text → Type 0
NoneLater P specs id = ¬ Any (λ later. P later × (later.id ≡ id)) specs

module _ (is_partner : Spec → Bool) where
  abbrev Passes : Spec → Type 0
  Passes spec = is_partner spec ≡ true

  -- Something of the dict that no later spec replaces, or one of the specs that stand.
  abbrev Kept : (Text × Spec → Type 0) → Partners → List Spec → Type 0
  Kept Q partners specs =
      Any (λ e. Q e × NoneLater Passes specs e.0) partners
      ⊎ ((spec : Spec) × Stands Passes spec specs × Q (spec.id, spec))

  Kept-skipped :
      (Q : Text × Spec → Type 0) (partners : Partners) (first : Spec) (specs : List Spec)
      → is_partner first ≡ false
      → Kept Q partners specs ↔ Kept Q partners (first ∷ specs)
  Kept-skipped Q partners first specs e = (
    (λ m. elim m [
      | inl n ↦ inl (
          Any-map (λ f q. (q.0, (λ l. elim l [ inl h ↦ cc (h.0) | inr later ↦ q.1 later ])))
            partners n)
      | inr (spec, stands, q) ↦ inr (spec, inr stands, q)
    ]),
    (λ m. elim m [
      | inl n ↦ inl (Any-map (λ f q. (q.0, (λ l. q.1 (inr l)))) partners n)
      | inr (spec, inl h, q) ↦ cc (h.1)
      | inr (spec, inr stands, q) ↦ inr (spec, stands, q)
    ]),
  )

  Kept-stored :
      (Q : Text × Spec → Type 0) (partners : Partners) (first : Spec) (specs : List Spec)
      → DistinctKeys partners
      → is_partner first ≡ true
      → Kept Q (put_partner partners first.id first) specs ↔ Kept Q partners (first ∷ specs)
  Kept-stored Q partners first specs d e =
      let stored =
        put_partner_iff (λ f. Q f × NoneLater Passes specs f.0) partners first.id first d in
      (
        (λ m. elim m [
          | inr (spec, stands, q) ↦ inr (spec, inr stands, q)
          | inl n ↦ elim (stored.0 n) [
            | inl h ↦ inr (first, inl (refl, e, h.1), h.0)
            | inr old ↦ inl (
                Any-map
                  (λ f q.
                    (q.0.0, (λ l. elim l [ inl h ↦ q.1 (sym h.1) | inr later ↦ q.0.1 later ])))
                  partners old)
          ]
        ]),
        (λ m. elim m [
          | inl n ↦ inl (
              stored.1 (
                inr (
                  Any-map (λ f q. ((q.0, (λ l. q.1 (inr l))), (λ s. q.1 (inl (e, sym s))))) partners
                    n)))
          | inr (spec, inl h, q) ↦
              inl (stored.1 (inl (subst (λ (t : Spec). Q (t.id, t)) h.0 q, h.2)))
          | inr (spec, inr stands, q) ↦ inr (spec, stands, q)
        ]),
      )

  partners_from-Kept :
      (Q : Text × Spec → Type 0) (partners : Partners) (specs : List Spec)
      → DistinctKeys partners
      → Any Q (partners_from is_partner partners specs) ↔ Kept Q partners specs
  unfolding partners_from
  partners_from-Kept Q partners [] d = (
    (λ m. inl (Any-map (λ e q. (q, (λ n. n))) partners m)),
    (λ m. elim m [
      | inl n ↦ Any-map (λ e q. q.0) partners n
      | inr (spec, stands, q) ↦ absurd stands
    ]),
  )
  partners_from-Kept Q partners (first ∷ specs) d =
      let put = put_partner partners first.id first in
      let distinct = put_partner-DistinctKeys partners first.id first d in
      if_cases
        (λ (next : Partners).
          Any Q (partners_from is_partner next specs) ↔ Kept Q partners (first ∷ specs))
        (is_partner first) put partners
        (λ e.
          let rest = partners_from-Kept Q put specs distinct in
          let stored = Kept-stored Q partners first specs d e in
          ((λ m. stored.0 (rest.0 m)), (λ m. rest.1 (stored.1 m))))
        (λ e.
          let rest = partners_from-Kept Q partners specs d in
          let skipped = Kept-skipped Q partners first specs e in
          ((λ m. skipped.0 (rest.0 m)), (λ m. rest.1 (skipped.1 m))))

  -- The values of the dict are the specs that stand.
  pub partners_from_iff :
      (Q : Text × Spec → Type 0) (specs : List Spec)
      → Any Q (partners_from is_partner [] specs)
        ↔ ((spec : Spec) × Stands Passes spec specs × Q (spec.id, spec))
  unfolding DistinctKeys
  partners_from_iff Q specs =
      let both = partners_from-Kept Q [] specs tt in
      (
        (λ m. elim (both.0 m) [ inl n ↦ absurd n | inr found ↦ found ]),
        (λ found. both.1 (inr found)),
      )
