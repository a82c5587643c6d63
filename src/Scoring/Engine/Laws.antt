-- ===== src/Scoring/Engine/Laws.antt =====
-- What is on the board of agent/internal/detection/engine.go, type by type.
use tmap.Base.{
  ◌≡◌, refl, sym, ap, ◌∙◌, Bool, true, false, Option, none, some, List, [], ◌∷◌, ◌++◌, String,
  if◌then◌else◌, if_case, ◌<>◌,
}
use mathlib.Core.List.{append-nil, append_assoc}
use tmap.Base.Map.{Map, lookup}
use tmap.Base.Float.{Float64}
use tmap.Scoring.Rules.{Rule, MatchContext, matches}
use tmap.Scoring.Board.{Board, new_board, add, add_hint_list, add_hints, mark_fired, normalize}
use tmap.Scoring.Board.Laws.{scaled, lookup-normalize}
use tmap.Scoring.Board.Points.{
  deltas_at, weights_at, grow, grow-append, lookup-add_deltas, lookup-add_hint_list,
}
use tmap.Scoring.Matcher.{Fingerprint, match_fingerprint}
use tmap.Scoring.Engine.{
  EvidenceBag, latency_deltas, apply_latency_signal, apply_hints, match_context, apply_rules,
  score_board,
}

-- The rules that match, in order.
unfoldable pub matching : {F : Type 0} → List (Rule F) → MatchContext → List (Rule F)
matching [] ctx = []
matching (r ∷ rules) ctx = let rest = matching rules ctx in if matches r ctx then r ∷ rest else rest

unfoldable pub ids : {F : Type 0} → List (Rule F) → List String
ids [] = []
ids (r ∷ rules) = r.id ∷ ids rules

module _ {F : Type 0} ⦃f : Float64 F⦄ where
  -- The deltas of a type in a list of rules.
  unfoldable pub rule_points : String → List (Rule F) → List F
  unfolding deltas_at
  rule_points t [] = []
  rule_points t (r ∷ rules) = deltas_at t r.action.add_score ++ rule_points t rules

  abbrev pub known_points : String → Option Fingerprint → List F
  known_points t none = []
  known_points t (some d) =
      weights_at t d.access_hints (f.lit 40 1) ++ weights_at t d.supports (f.lit 15 1)

  -- The points that a detection gives a type: 40 for each hint of the fingerprint and 15 for each
  -- type that it supports, 25 and 45 for each hint and each strong hint of the probes, those of the
  -- latency, and the deltas of the rules that match.
  unfoldable pub points : String → Option Fingerprint → List (Rule F) → EvidenceBag F → List F
  unfolding weights_at deltas_at rule_points matching
  points t fp rules bag =
      known_points t fp
      ++ (weights_at t bag.hints (f.lit 25 1)
          ++ (weights_at t bag.strong_access_hints (f.lit 45 1)
              ++ ((if bag.has_latency then deltas_at t (latency_deltas bag.avg_ms) else [])
                  ++ rule_points t (matching rules (match_context fp bag)))))

  -- The board after a rule that matches or does not.
  abbrev scored : Bool → Rule F → Board F → Board F
  scored fires r b = if fires then mark_fired r.id (add r.action.add_score b) else b

  scored-fired :
      (fires : Bool) (r : Rule F) (b : Board F) (rules : List (Rule F))
      → (scored fires r b).fired ++ ids rules ≡ b.fired ++ ids (if fires then r ∷ rules else rules)
  unfolding add mark_fired ids
  scored-fired true r b rules = append_assoc b.fired (r.id ∷ []) (ids rules)
  scored-fired false r b rules = refl

  apply_rules-fired :
      (rules : List (Rule F)) (ctx : MatchContext) (b : Board F)
      → (apply_rules rules ctx b).fired ≡ b.fired ++ ids (matching rules ctx)
  unfolding apply_rules matching ids
  apply_rules-fired [] ctx b = sym (append-nil b.fired)
  apply_rules-fired (r ∷ rules) ctx b =
      apply_rules-fired rules ctx (scored (matches r ctx) r b)
      ∙ scored-fired (matches r ctx) r b (matching rules ctx)

  scored-scores :
      (t : String) (fires : Bool) (r : Rule F) (b : Board F) (rules : List (Rule F))
      → grow (lookup t (scored fires r b).scores) (rule_points t rules)
        ≡ grow (lookup t b.scores) (rule_points t (if fires then r ∷ rules else rules))
  unfolding add mark_fired rule_points
  scored-scores t true r b rules =
      ap (λ o. grow o (rule_points t rules)) (lookup-add_deltas t r.action.add_score b.scores)
      ∙ sym (grow-append (lookup t b.scores) (deltas_at t r.action.add_score) (rule_points t rules))
  scored-scores t false r b rules = refl

  apply_rules-scores :
      (t : String) (rules : List (Rule F)) (ctx : MatchContext) (b : Board F)
      → lookup t (apply_rules rules ctx b).scores
        ≡ grow (lookup t b.scores) (rule_points t (matching rules ctx))
  unfolding apply_rules matching rule_points grow
  apply_rules-scores t [] ctx b = refl
  apply_rules-scores t (r ∷ rules) ctx b =
      apply_rules-scores t rules ctx (scored (matches r ctx) r b)
      ∙ scored-scores t (matches r ctx) r b (matching rules ctx)

  apply_latency-scores :
      (t : String) (b : Board F) (bag : EvidenceBag F)
      → lookup t (apply_latency_signal b bag).scores
        ≡ grow
            (lookup t b.scores)
            (if bag.has_latency then deltas_at t (latency_deltas bag.avg_ms) else [])
  unfolding apply_latency_signal add grow
  apply_latency-scores t b bag = by_case bag.has_latency
    where
      by_case :
          (c : Bool)
          → lookup t (if c then add (latency_deltas bag.avg_ms) b else b).scores
            ≡ grow (lookup t b.scores) (if c then deltas_at t (latency_deltas bag.avg_ms) else [])
      by_case true = lookup-add_deltas t (latency_deltas bag.avg_ms) b.scores
      by_case false = refl

  hinted :
      (t : String) (hints : List String) (w : F) (m : Map F) {o : Option F}
      → lookup t m ≡ o
      → lookup t (add_hint_list hints w m) ≡ grow o (weights_at t hints w)
  hinted t hints w m e =
      lookup-add_hint_list t hints w m ∙ ap (λ o. grow o (weights_at t hints w)) e

  apply_hints-scores :
      (t : String) (fp : Option Fingerprint) (bag : EvidenceBag F) (b : Board F)
      → lookup t (apply_hints fp bag b).scores
        ≡ grow
            (grow
              (grow (lookup t b.scores) (known_points t fp))
              (weights_at t bag.hints (f.lit 25 1)))
            (weights_at t bag.strong_access_hints (f.lit 45 1))
  unfolding apply_hints add_hints grow
  apply_hints-scores t none bag b =
      hinted t bag.strong_access_hints (f.lit 45 1) _
        (hinted t bag.hints (f.lit 25 1) b.scores refl)
  apply_hints-scores t (some d) bag b = hinted t bag.strong_access_hints (f.lit 45 1) _ (
      hinted t bag.hints (f.lit 25 1) _ (
        hinted t d.supports (f.lit 15 1) _ (hinted t d.access_hints (f.lit 40 1) b.scores refl)
        ∙ sym (grow-append (lookup t b.scores) (weights_at t d.access_hints (f.lit 40 1)) _)))

  -- The text that the fingerprints are matched against.
  abbrev pub device_text : EvidenceBag F → String
  device_text bag =
      bag.router_model <> " " <> bag.text <> " " <> bag.gateway_device_text <> " "
      <> bag.wan_signal_text

  score_board-scores :
      (t : String) (devices : List Fingerprint) (rules : List (Rule F)) (bag : EvidenceBag F)
      → lookup t (score_board devices rules bag).scores
        ≡ grow none (points t (match_fingerprint devices (device_text bag)) rules bag)
  unfolding score_board points new_board lookup
  score_board-scores t devices rules bag =
      let fp = match_fingerprint devices (device_text bag) in
      apply_rules-scores t rules (match_context fp bag) _
      ∙ ap (λ o. grow o (rule_points t (matching rules (match_context fp bag))))
          (apply_latency-scores t (apply_hints fp bag new_board) bag
            ∙ ap
                (λ o.
                  grow o (if bag.has_latency then deltas_at t (latency_deltas bag.avg_ms) else []))
                (apply_hints-scores t fp bag new_board))
      ∙ sym (simp (grow-append))

  apply_latency-fired :
      (b : Board F) (bag : EvidenceBag F) → (apply_latency_signal b bag).fired ≡ b.fired
  unfolding apply_latency_signal add
  apply_latency-fired b bag =
      if_case {A = Board F} (λ c. c.fired ≡ b.fired) bag.has_latency refl refl

  apply_hints-fired :
      (fp : Option Fingerprint) (bag : EvidenceBag F) (b : Board F)
      → (apply_hints fp bag b).fired ≡ b.fired
  unfolding apply_hints add_hints
  apply_hints-fired none bag b = refl
  apply_hints-fired (some d) bag b = refl

  -- The scaled score of every type is that of the sum of its points, in order: 40 for each hint of the
  -- matched fingerprint and 15 for each type that it supports, 25 for each hint and 45 for each strong
  -- hint of the probes, the deltas of its latency, and those of the rules that match. A type without
  -- points has no score. The rules that fired are those that match, in order.
  pub score_board_lem :
      (devices : List Fingerprint) (rules : List (Rule F)) (bag : EvidenceBag F)
      → (let fp = match_fingerprint devices (device_text bag) in
          let board = score_board devices rules bag in
          ((t : String)
            → lookup t (normalize board.scores) ≡ scaled (grow none (points t fp rules bag)))
          × (board.fired ≡ ids (matching rules (match_context fp bag))))
  unfolding score_board new_board
  score_board_lem devices rules bag =
      let fp = match_fingerprint devices (device_text bag) in
      (
        λ t.
            lookup-normalize t (score_board devices rules bag).scores
            ∙ ap scaled (score_board-scores t devices rules bag),
        apply_rules-fired rules (match_context fp bag) _
            ∙ ap (λ l. l ++ ids (matching rules (match_context fp bag)))
                (apply_latency-fired (apply_hints fp bag new_board) bag
                  ∙ apply_hints-fired fp bag new_board),
      )
