-- ===== src/Tests/Scoring.antt =====
-- A rule for modems of one vendor and the scores that it leaves.
use tmap.Base.{
  ℕ, ◌≡◌, refl, ◌↔◌, trim_space, true, false, none, some, [], ◌∷◌, List, String, to_lower, contains,
}
use tmap.Base.Map.{Map, Each, lookup, insert}
use tmap.Tests.Config.{thousandths, by_size}
use tmap.Scoring.Rules.{
  Condition, Rule, MatchContext, any_needle, any_contains_fold, any_value, any_slice_contains_fold,
  matches,
}
use tmap.Scoring.Rules.Laws.{Fires, matches_iff}
use tmap.Scoring.Board.{
  new_board, add_deltas, raise_score, score, add, mark_fired, add_hint_list, add_hints, normalize,
}
use tmap.Scoring.Board.Laws.{InUnit, scaled, normalize-InUnit}
use tmap.Scoring.Matcher.{Fingerprint, needles_of, first_match, match_fingerprint}
use tmap.Scoring.Engine.{
  EvidenceBag, latency_deltas, apply_latency_signal, apply_hints, apply_rules, match_context,
  score_board,
}
use tmap.Scoring.Board.Points.{grow}
use tmap.Scoring.Engine.Laws.{device_text, points, matching, ids, score_board_lem}

abbrev modem : Condition
modem = record {
  router_model_contains = "Zyxel" ∷ [];
  text_contains = "" ∷ "VDSL" ∷ [];
  interface_name_matches = "ptm" ∷ [];
  hint_contains = [];
}

abbrev rule : Map ℕ → Rule ℕ
rule deltas = record {
  id = "model_vdsl";
  condition = modem;
  action = record { add_score = deltas };
}

abbrev deltas : Map ℕ
deltas = ("vdsl", 40000) ∷ ("dsl", 20000) ∷ []

abbrev seen : MatchContext
seen = record { router_model = ""; text = ""; interfaces = "eth0" ∷ "PTM0" ∷ []; hints = [] }

abbrev unseen : MatchContext
unseen = record { router_model = "TP-Link"; text = "cable"; interfaces = []; hints = "vdsl" ∷ [] }

fires : matches (rule deltas) seen ≡ true
unfolding matches any_contains_fold any_needle any_slice_contains_fold any_value contains to_lower
fires = refl

quiet : matches (rule deltas) unseen ≡ false
unfolding matches any_contains_fold any_needle any_slice_contains_fold any_value contains to_lower
quiet = refl

scored : lookup "vdsl" (apply_rules (rule deltas ∷ []) seen new_board).scores ≡ some 40000
unfolding lookup insert apply_rules new_board add mark_fired add_deltas raise_score score matches
    any_contains_fold any_needle any_slice_contains_fold any_value contains to_lower
scored = refl

matches_iff_example : (matches (rule deltas) seen ≡ true) ↔ Fires modem seen
matches_iff_example = matches_iff (rule deltas) seen

normalize-InUnit_example : Each {V = ℕ} InUnit (normalize (("vdsl", 140000) ∷ ("dsl", 20000) ∷ []))
normalize-InUnit_example = normalize-InUnit by_size (("vdsl", 140000) ∷ ("dsl", 20000) ∷ [])

abbrev known_device : Fingerprint
known_device = record {
  model = "VMG3312";
  supports = "Fiber" ∷ [];
  access_hints = "VDSL" ∷ [];
  match_texts = [];
}

abbrev known : List Fingerprint
known = known_device ∷ []

abbrev bag : EvidenceBag ℕ
bag = record {
  router_model = "Zyxel vmg3312";
  text = "";
  interfaces = "ptm0" ∷ [];
  hints = "vdsl" ∷ [];
  avg_ms = 7000;
  has_latency = true;
  gateway_device_text = "";
  wan_signal_text = "";
  strong_access_hints = [];
}

known_modem : first_match known "a vmg3312 modem" ≡ some known_device
unfolding first_match needles_of any_needle contains to_lower
known_modem = refl

vdsl_points : lookup "VDSL" (score_board known [] bag).scores ≡ some 43000
unfolding score_board match_fingerprint first_match needles_of any_needle contains to_lower
    trim_space apply_hints add_hints add_hint_list raise_score score lookup insert new_board
    apply_latency_signal latency_deltas add add_deltas apply_rules
vdsl_points = refl

score_board_lem_example :
    (let fp = match_fingerprint known (device_text bag) in
      let board = score_board known (rule deltas ∷ []) bag in
      ((t : String)
        → lookup t (normalize board.scores)
          ≡ scaled (grow none (points t fp (rule deltas ∷ []) bag)))
      × (board.fired ≡ ids (matching (rule deltas ∷ []) (match_context fp bag))))
score_board_lem_example = score_board_lem known (rule deltas ∷ []) bag
