-- ===== src/Scoring/Matcher.antt =====
-- agent/internal/detection/matcher.go: the first known device whose marks a text holds.
use tmap.Base.{
  not, Option, none, some, List, [], ◌∷◌, String, is_empty, to_lower, trim_space, if◌then◌else◌,
}
use tmap.Scoring.Rules.{any_needle}

pub record Fingerprint : Type 0 where
  pub model : String
  pub supports : List String
  pub access_hints : List String
  pub match_texts : List String

-- What a device is known by: its marks, or its model where it has none.
unfoldable pub needles_of : Fingerprint → List String
needles_of d = elim d.match_texts [
  | [] ↦ if not (is_empty d.model) then d.model ∷ [] else []
  | n ∷ ns ↦ n ∷ ns
]

-- The loop over the devices.
unfoldable pub first_match : List Fingerprint → String → Option Fingerprint
unfolding needles_of any_needle
first_match [] t = none
first_match (d ∷ devices) t =
    let rest = first_match devices t in if any_needle t (needles_of d) then some d else rest

unfoldable pub match_fingerprint : List Fingerprint → String → Option Fingerprint
unfolding to_lower trim_space
match_fingerprint devices text =
    let t = to_lower text in if is_empty (trim_space t) then none else first_match devices t
