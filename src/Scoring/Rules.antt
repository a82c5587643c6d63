-- ===== src/Scoring/Rules.antt =====
-- agent/internal/scoring/rules.go: the rules and when they fire. A rule is loaded from a file by a
-- reader of YAML, which is input.
pub mod Laws
use tmap.Base.Map.{Map}
use tmap.Base.{
  Bool, true, false, ◌&&◌, ◌||◌, List, [], ◌∷◌, String, is_empty, to_lower, contains, if◌then◌else◌,
  not,
}

pub record Condition : Type 0 where
  pub router_model_contains : List String
  pub text_contains : List String
  pub interface_name_matches : List String
  pub hint_contains : List String

pub record Action (F : Type 0) : Type 0 where
  pub add_score : Map F

pub record Rule (F : Type 0) : Type 0 where
  pub id : String
  pub condition : Condition
  pub action : Action F

pub record MatchContext : Type 0 where
  pub router_model : String
  pub text : String
  pub interfaces : List String
  pub hints : List String

-- The loop over the needles, in a haystack in lower case.
unfoldable pub any_needle : String → List String → Bool
any_needle h [] = false
any_needle h (n ∷ needles) =
    let rest = any_needle h needles in
    if not (is_empty n) && contains h (to_lower n) then true else rest

unfoldable pub any_contains_fold : String → List String → Bool
any_contains_fold haystack [] = false
any_contains_fold haystack needles = any_needle (to_lower haystack) needles

unfoldable pub any_value : List String → List String → Bool
any_value [] needles = false
any_value (v ∷ values) needles =
    let rest = any_value values needles in if any_contains_fold v needles then true else rest

unfoldable pub any_slice_contains_fold : List String → List String → Bool
any_slice_contains_fold values [] = false
any_slice_contains_fold values needles = any_value values needles

-- `Rule.Matches`
unfoldable pub matches : {F : Type 0} → Rule F → MatchContext → Bool
matches r ctx =
    let c = r.condition in
    if any_contains_fold ctx.router_model c.router_model_contains
    then true
    else if any_contains_fold ctx.text c.text_contains
    then true
    else if any_slice_contains_fold ctx.interfaces c.interface_name_matches
    then true
    else any_slice_contains_fold ctx.hints c.hint_contains
