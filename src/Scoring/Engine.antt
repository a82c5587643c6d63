-- ===== src/Scoring/Engine.antt =====
-- agent/internal/detection/engine.go: how Analyze fills the board of scores from its evidence,
-- before it ranks them.
pub mod Laws
use tmap.Base.{
  Bool, true, false, Option, none, some, List, [], ◌∷◌, ◌++◌, String, ◌<>◌, trim_space,
  if◌then◌else◌,
}
use tmap.Base.Float.{Float64, le}
use tmap.Base.Map.{Map}
use tmap.Scoring.Rules.{Rule, MatchContext, matches}
use tmap.Scoring.Board.{Board, new_board, add, add_hints, mark_fired}
use tmap.Scoring.Matcher.{Fingerprint, match_fingerprint}

-- The fields of the evidence that the board is filled from.
pub record EvidenceBag (F : Type 0) : Type 0 where
  pub router_model : String
  pub text : String
  pub interfaces : List String
  pub hints : List String
  pub avg_ms : F
  pub has_latency : Bool
  pub gateway_device_text : String
  pub wan_signal_text : String
  pub strong_access_hints : List String

module _ {F : Type 0} ⦃f : Float64 F⦄ where
  -- The deltas of the bands of a latency.
  unfoldable pub latency_deltas : F → Map F
  latency_deltas ms =
      if le ms (f.lit 8 1)
      then ("Fiber", f.lit 4 1) ∷ ("VDSL", f.lit 3 1) ∷ []
      else if le ms (f.lit 25 1)
      then ("DSL", f.lit 2 1)
        ∷ ("VDSL", f.lit 2 1)
        ∷ ("Fiber", f.lit 2 1)
        ∷ ("Cable", f.lit 2 1)
        ∷ []
      else if le ms (f.lit 80 1)
      then ("DSL", f.lit 2 1) ∷ ("FWA", f.lit 2 1) ∷ []
      else if le ms (f.lit 200 1)
      then ("Mobile", f.lit 4 1) ∷ ("FWA", f.lit 4 1) ∷ []
      else if le (f.lit 500 1) ms
      then ("Satellite", f.lit 15 1) ∷ []
      else []

  unfoldable pub apply_latency_signal : Board F → EvidenceBag F → Board F
  unfolding latency_deltas add
  apply_latency_signal board bag =
      if bag.has_latency then add (latency_deltas bag.avg_ms) board else board

  -- The fingerprint's hints, where there is one, then those of the probes.
  unfoldable pub apply_hints : Option Fingerprint → EvidenceBag F → Board F → Board F
  unfolding add_hints
  apply_hints fp bag board =
      let known : Board F = elim fp [
        | none ↦ board
        | some d ↦ add_hints d.supports (f.lit 15 1) (add_hints d.access_hints (f.lit 40 1) board)
      ] in
      add_hints bag.strong_access_hints (f.lit 45 1) (add_hints bag.hints (f.lit 25 1) known)

  unfoldable pub match_context : Option Fingerprint → EvidenceBag F → MatchContext
  unfolding trim_space
  match_context fp bag = record {
    router_model = bag.router_model;
    text = trim_space (bag.text <> " " <> bag.gateway_device_text <> " " <> bag.wan_signal_text);
    interfaces = bag.interfaces;
    hints =
        elim fp [ none ↦ bag.hints | some d ↦ bag.hints ++ d.access_hints ]
        ++ bag.strong_access_hints;
  }

  unfoldable pub apply_rules : List (Rule F) → MatchContext → Board F → Board F
  unfolding add mark_fired
  apply_rules [] ctx board = board
  apply_rules (r ∷ rules) ctx board =
      apply_rules rules ctx
        (if matches r ctx then mark_fired r.id (add r.action.add_score board) else board)

  -- The board of Analyze.
  unfoldable pub score_board : List Fingerprint → List (Rule F) → EvidenceBag F → Board F
  unfolding match_fingerprint apply_hints apply_latency_signal match_context apply_rules
  score_board devices rules bag =
      let fp = match_fingerprint devices (
        bag.router_model <> " " <> bag.text <> " " <> bag.gateway_device_text <> " "
        <> bag.wan_signal_text) in
      apply_rules rules (match_context fp bag)
        (apply_latency_signal (apply_hints fp bag new_board) bag)
