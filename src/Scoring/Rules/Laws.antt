-- ===== src/Scoring/Rules/Laws.antt =====
-- When a rule of agent/internal/scoring/rules.go fires.
use tmap.Base.{
  ◌≡◌, refl, sym, subst, ◌∙◌, Bool, true, false, not, ◌&&◌, ◌↔◌, ◌⊎◌, inl, inr, List, [], ◌∷◌,
  String, str_eq, is_empty, member, to_lower, contains, Bool-cases, if◌then◌else◌, arith, clash,
}
use text.Mathlib.TextEquality.{eq_iff}
use text.Mathlib.TextPositions.{eq_refl}
use tmap.Scoring.Rules.{
  Condition, Rule, MatchContext, any_needle, any_contains_fold, any_value, any_slice_contains_fold,
  matches,
}

-- A value holds a needle that is not empty, whatever the case of either.
pub record Hit (values needles : List String) : Type 0 where
  pub value : String
  pub needle : String
  pub is_value : member value values ≡ true
  pub is_needle : member needle needles ≡ true
  pub filled : is_empty needle ≡ false
  pub held : contains (to_lower value) (to_lower needle) ≡ true

-- One of the four groups of the condition has a hit.
abbrev pub Fires : Condition → MatchContext → Type 0
Fires c ctx =
    Hit (ctx.router_model ∷ []) c.router_model_contains
    ⊎ (Hit (ctx.text ∷ []) c.text_contains
        ⊎ (Hit ctx.interfaces c.interface_name_matches ⊎ Hit ctx.hints c.hint_contains))

any_needle_intro :
    (h n : String) (needles : List String)
    → member n needles ≡ true
    → is_empty n ≡ false
    → contains h (to_lower n) ≡ true
    → any_needle h needles ≡ true
unfolding any_needle member
any_needle_intro h n [] m e c = clash false refl m
any_needle_intro h n (x ∷ xs) m e c = ground (arith, eq_iff x n, any_needle_intro h n xs)

any_needle_elim :
    (h : String) (needles : List String)
    → any_needle h needles ≡ true
    → (n : String) × ((member n needles ≡ true)
        × ((is_empty n ≡ false) × (contains h (to_lower n) ≡ true)))
unfolding any_needle member
any_needle_elim h [] t = clash false refl t
any_needle_elim h (x ∷ xs) t = elim (Bool-cases (not (is_empty x) && contains h (to_lower x))) [
  | inl here ↦ (x, (ground (arith, eq_refl x), (ground arith, ground arith)))
  | inr later ↦ let rest = any_needle_elim h xs (ground arith) in (rest.0, (ground arith, rest.1.1))
]

any_contains_fold_needle :
    (v : String) (needles : List String)
    → any_contains_fold v needles ≡ any_needle (to_lower v) needles
unfolding any_contains_fold any_needle
any_contains_fold_needle v [] = refl
any_contains_fold_needle v (n ∷ needles) = refl

any_value_intro :
    (values needles : List String) → Hit values needles → any_value values needles ≡ true
unfolding any_value member
any_value_intro [] needles h = clash false refl h.is_value
any_value_intro (x ∷ xs) needles h = elim (Bool-cases (any_contains_fold x needles)) [
  | inl here ↦ ground arith
  | inr absent ↦ elim (Bool-cases (str_eq x h.value)) [
    | inl same ↦
        let found : any_contains_fold h.value needles ≡ true =
          any_contains_fold_needle h.value needles
          ∙ any_needle_intro (to_lower h.value) h.needle needles h.is_needle h.filled h.held in
        clash (any_contains_fold x needles) absent
          (subst (λ y. any_contains_fold y needles ≡ true) (sym ((eq_iff x h.value).0 same)) found)
    | inr other ↦
        let later = any_value_intro xs needles record {
          value = h.value;
          needle = h.needle;
          is_value = ground arith;
          is_needle = h.is_needle;
          filled = h.filled;
          held = h.held;
        } in
        ground arith
  ]
]

member-cons : (x k : String) (xs : List String) → member k xs ≡ true → member k (x ∷ xs) ≡ true
unfolding member
member-cons x k xs h = ground arith

any_value_elim :
    (values needles : List String) → any_value values needles ≡ true → Hit values needles
unfolding any_value member
any_value_elim [] needles t = clash false refl t
any_value_elim (x ∷ xs) needles t = elim (Bool-cases (any_contains_fold x needles)) [
  | inl here ↦
      let n =
        any_needle_elim (to_lower x) needles (sym (any_contains_fold_needle x needles) ∙ here) in
      record {
        value = x;
        needle = n.0;
        is_value = ground (arith, eq_refl x);
        is_needle = n.1.0;
        filled = n.1.1.0;
        held = n.1.1.1;
      }
  | inr later ↦
      let h = any_value_elim xs needles (ground arith) in
      record {
        value = h.value;
        needle = h.needle;
        is_value = member-cons x h.value xs h.is_value;
        is_needle = h.is_needle;
        filled = h.filled;
        held = h.held;
      }
]

any_slice_iff :
    (values needles : List String)
    → (any_slice_contains_fold values needles ≡ true) ↔ Hit values needles
unfolding any_slice_contains_fold member
any_slice_iff values [] = (λ t. clash false refl t, λ h. clash false refl h.is_needle)
any_slice_iff values (n ∷ needles) =
    (any_value_elim values (n ∷ needles), any_value_intro values (n ∷ needles))

any_one_iff :
    (v : String) (needles : List String)
    → (any_contains_fold v needles ≡ true) ↔ Hit (v ∷ []) needles
unfolding any_value
any_one_iff v needles = (
  λ t. any_value_elim (v ∷ []) needles (ground arith),
  λ h. let t = any_value_intro (v ∷ []) needles h in ground arith,
)

if_iff :
    {P Q : Type 0} (a b : Bool)
    → ((a ≡ true) ↔ P)
    → ((b ≡ true) ↔ Q)
    → ((if a then true else b) ≡ true) ↔ (P ⊎ Q)
if_iff true b p q = (λ t. inl (p.0 refl), λ s. refl)
if_iff false b p q =
    (λ t. inr (q.0 t), λ s. elim s [ inl x ↦ clash false refl (p.1 x) | inr y ↦ q.1 y ])

-- A rule fires exactly when one of its four groups names a needle that is not empty and that what the
-- group is about holds, the model of the router, the text, an interface or a hint, whatever the
-- case of letters.
pub matches_iff :
    {F : Type 0} (r : Rule F) (ctx : MatchContext) → (matches r ctx ≡ true) ↔ Fires r.condition ctx
unfolding matches
matches_iff r ctx =
    let c = r.condition in
    if_iff _ _ (any_one_iff ctx.router_model c.router_model_contains) (
      if_iff _ _ (any_one_iff ctx.text c.text_contains) (
        if_iff _ _ (any_slice_iff ctx.interfaces c.interface_name_matches)
          (any_slice_iff ctx.hints c.hint_contains)))
