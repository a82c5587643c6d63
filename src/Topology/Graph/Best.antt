-- ===== src/Topology/Graph/Best.antt =====
-- What the graph promises of `AddEdge`: under each identifier it holds the first of the strongest
-- edges between known devices that it was offered.
use tmap.Base.{
  Bool, true, false, ◌||◌, ◌&&◌, not, Option, none, some, List, [], ◌∷◌, ◌++◌, String, str_eq,
  member, if◌then◌else◌, All, All-append, All-map, ◌≡◌, refl, sym, ◌∙◌, ap, subst, inl, inr,
  Bool-cases, clash,
}
use mathlib.Core.List.{append-nil, append_assoc}
use text.Mathlib.TextEquality.{eq_iff}
use tmap.Base.Map.{lookup, insert, lookup-insert}
use tmap.Base.Float.{Float64, Ordered, le, le_of_not_le}
use tmap.Topology.Types.{TopologyEdge}
use tmap.Topology.Graph.{Graph, new_graph, has_device, keeps, add_edge, add_edges}

module _ {F : Type 0} where
  -- The endpoints are two known devices.
  unfoldable pub joins : List String → TopologyEdge F → Bool
  joins ids e = not (str_eq e.source e.target) && (member e.source ids && member e.target ids)

  -- An edge that may be stored under the identifier.
  unfoldable pub is_offer : List String → String → TopologyEdge F → Bool
  unfolding joins
  is_offer ids id e = joins ids e && str_eq e.id id

module _ {F : Type 0} ⦃f : Float64 F⦄ where
  -- The stronger of the stored edge and the new one, and the stored one where they are equal.
  abbrev pub stronger : Option (TopologyEdge F) → TopologyEdge F → Option (TopologyEdge F)
  stronger none e = some e
  stronger (some d) e = if le e.confidence d.confidence then some d else some e

  flatten :
      (a b c k : Bool) (x y : Graph F)
      → (let out : Graph F × Bool =
            (if a
              then (x, false)
              else if not b || not c
              then (x, false)
              else if k
              then (x, false)
              else (y, true)) in
          out.0)
        ≡ (if not a && (b && c) then (if k then x else y) else x)
  flatten true b c k x y = refl
  flatten false false c k x y = refl
  flatten false true false k x y = refl
  flatten false true true true x y = refl
  flatten false true true false x y = refl

  -- The call as one test.
  pub add_edge-flat :
      (g : Graph F) (e : TopologyEdge F)
      → (add_edge g e).0 ≡ (
          if joins g.device_ids e
          then (if keeps (lookup e.id g.edges) e
              then g
              else record g { edges = insert e.id e g.edges })
          else g)
  unfolding add_edge has_device joins
  add_edge-flat g e =
      flatten (str_eq e.source e.target) (member e.source g.device_ids)
        (member e.target g.device_ids) (keeps (lookup e.id g.edges) e) g
        (record g { edges = insert e.id e g.edges })

  lookup-stored :
      (g : Graph F) (e : TopologyEdge F) (o : Option (TopologyEdge F)) (id : String)
      → lookup e.id g.edges ≡ o
      → lookup id (if keeps o e then g else record g { edges = insert e.id e g.edges }).edges
        ≡ (if str_eq e.id id then stronger o e else lookup id g.edges)
  unfolding keeps
  lookup-stored g e none id h = lookup-insert e.id id e g.edges
  lookup-stored g e (some d) id h = elim (Bool-cases (le e.confidence d.confidence)) [
    | inl kept ↦ elim (Bool-cases (str_eq e.id id)) [
      | inl same ↦ rw (kept, same, sym ((eq_iff e.id id).0 same)) h
      | inr other ↦ rw (kept, other) refl
    ]
    | inr beaten ↦ rw beaten (lookup-insert e.id id e g.edges)
  ]

  pub lookup-add_edge :
      (g : Graph F) (e : TopologyEdge F) (id : String)
      → lookup id (add_edge g e).0.edges ≡ (
          if is_offer g.device_ids id e
          then stronger (lookup e.id g.edges) e
          else lookup id g.edges)
  unfolding is_offer
  lookup-add_edge g e id = elim (Bool-cases (joins g.device_ids e)) [
    | inl j ↦ rw (add_edge-flat, j) (lookup-stored g e (lookup e.id g.edges) id refl)
    | inr n ↦ rw (add_edge-flat, n) refl
  ]

module _ {F : Type 0} ⦃f : Float64 F⦄ where
  -- `best` is the first of the strongest of the edges offered under the identifier.
  pub record IsFirst (ids : List String) (id : String) (offered : List (TopologyEdge F))
      (best : TopologyEdge F) : Type 0 where
    pub before : List (TopologyEdge F)
    pub after : List (TopologyEdge F)
    pub split : offered ≡ before ++ (best ∷ after)
    pub fits : is_offer ids id best ≡ true
    pub above : All (λ e. is_offer ids id e ≡ true → le best.confidence e.confidence ≡ false) before
    pub not_below :
        All (λ e. is_offer ids id e ≡ true → le e.confidence best.confidence ≡ true) after

  -- What the identifier stands for after the offers.
  abbrev pub IsBest :
      List String → String → List (TopologyEdge F) → Option (TopologyEdge F) → Type 0
  IsBest ids id offered none = All (λ e. is_offer ids id e ≡ false) offered
  IsBest ids id offered (some d) = IsFirst ids id offered d

  none_ahead :
      (ids : List String) (id : String) (e : TopologyEdge F) (offered : List (TopologyEdge F))
      → All (λ x. is_offer ids id x ≡ false) offered
      → All (λ x. is_offer ids id x ≡ true → le e.confidence x.confidence ≡ false) offered
  none_ahead ids id e offered h =
      All-map (λ x. is_offer ids id x ≡ false) _ offered
        (λ x fails holds. clash (is_offer ids id x) fails holds) h

  -- An edge that beats the best one beats all.
  beats_each :
      (o : Ordered F) (ids : List String) (id : String) (e : TopologyEdge F)
      (offered : List (TopologyEdge F)) (d : TopologyEdge F)
      → IsFirst ids id offered d
      → le e.confidence d.confidence ≡ false
      → All (λ x. is_offer ids id x ≡ true → le e.confidence x.confidence ≡ false) offered
  beats_each o ids id e offered d h up = rw h.split (
      All-append _ h.before (d ∷ h.after)
        (All-map _ _ h.before
          (λ x weaker holds. lifts x (le_of_not_le o d.confidence x.confidence (weaker holds)))
          h.above)
        (λ holds. up, All-map _ _ h.after (λ x weaker holds. lifts x (weaker holds)) h.not_below))
    where
      lifts :
          (x : TopologyEdge F)
          → le x.confidence d.confidence ≡ true
          → le e.confidence x.confidence ≡ false
      lifts x low = elim (Bool-cases (le e.confidence x.confidence)) [
        | inl bad ↦
            clash (le e.confidence d.confidence) up
              (o.le_trans e.confidence x.confidence d.confidence bad low)
        | inr good ↦ good
      ]

  IsBest-offer :
      (o : Ordered F) (ids : List String) (id : String) (offered : List (TopologyEdge F))
      (best : Option (TopologyEdge F)) (e : TopologyEdge F)
      → IsBest ids id offered best
      → is_offer ids id e ≡ true
      → IsBest ids id (offered ++ (e ∷ [])) (stronger best e)
  IsBest-offer o ids id offered none e h holds = record {
    before = offered;
    after = [];
    split = refl;
    fits = holds;
    above = none_ahead ids id e offered h;
    not_below = tt;
  }
  IsBest-offer o ids id offered (some d) e h holds =
      elim (Bool-cases (le e.confidence d.confidence)) [
        | inl kept ↦ rw kept (record {
          before = h.before;
          after = h.after ++ (e ∷ []);
          split = ap (λ l. l ++ (e ∷ [])) h.split ∙ append_assoc h.before (d ∷ h.after) (e ∷ []);
          fits = h.fits;
          above = h.above;
          not_below = All-append _ h.after (e ∷ []) h.not_below (λ y. kept, tt);
        })
        | inr beaten ↦ rw beaten (record {
          before = offered;
          after = [];
          split = refl;
          fits = holds;
          above = beats_each o ids id e offered d h beaten;
          not_below = tt;
        })
      ]

  IsBest-ignore :
      (ids : List String) (id : String) (offered : List (TopologyEdge F))
      (best : Option (TopologyEdge F)) (e : TopologyEdge F)
      → IsBest ids id offered best
      → is_offer ids id e ≡ false
      → IsBest ids id (offered ++ (e ∷ [])) best
  IsBest-ignore ids id offered none e h fails = All-append _ offered (e ∷ []) h (fails, tt)
  IsBest-ignore ids id offered (some d) e h fails = record {
    before = h.before;
    after = h.after ++ (e ∷ []);
    split = ap (λ l. l ++ (e ∷ [])) h.split ∙ append_assoc h.before (d ∷ h.after) (e ∷ []);
    fits = h.fits;
    above = h.above;
    not_below =
        All-append _ h.after (e ∷ []) h.not_below
          (λ holds. clash (is_offer ids id e) fails holds, tt);
  }

  pub add_edge-device_ids :
      (g : Graph F) (e : TopologyEdge F) → (add_edge g e).0.device_ids ≡ g.device_ids
  add_edge-device_ids g e = elim (Bool-cases (joins g.device_ids e)) [
    | inl j ↦ elim (Bool-cases (keeps (lookup e.id g.edges) e)) [
      | inl k ↦ rw (add_edge-flat, j, k) refl
      | inr k ↦ rw (add_edge-flat, j, k) refl
    ]
    | inr n ↦ rw (add_edge-flat, n) refl
  ]

  pub offer_same :
      (ids : List String) (id : String) (e : TopologyEdge F) → is_offer ids id e ≡ true → e.id ≡ id
  unfolding is_offer
  offer_same ids id e holds = (eq_iff e.id id).0 (right_of (joins ids e) (str_eq e.id id) holds)
    where
      right_of : (a b : Bool) → (a && b) ≡ true → b ≡ true
      right_of true b h = h
      right_of false b h = clash false refl h

  add_edge-IsBest :
      (o : Ordered F) (g : Graph F) (ids : List String) (id : String)
      (offered : List (TopologyEdge F)) (e : TopologyEdge F)
      → g.device_ids ≡ ids
      → IsBest ids id offered (lookup id g.edges)
      → IsBest ids id (offered ++ (e ∷ [])) (lookup id (add_edge g e).0.edges)
  add_edge-IsBest o g ids id offered e p h = elim (Bool-cases (is_offer ids id e)) [
    | inl holds ↦
        rw (lookup-add_edge, p, holds)
          (subst (λ j. IsBest ids id (offered ++ (e ∷ [])) (stronger (lookup j g.edges) e))
            (sym (offer_same ids id e holds))
            (IsBest-offer o ids id offered (lookup id g.edges) e h holds))
    | inr fails ↦
        rw (lookup-add_edge, p, fails) (IsBest-ignore ids id offered (lookup id g.edges) e h fails)
  ]

  add_edges-run :
      (o : Ordered F) (g : Graph F) (ids : List String) (id : String)
      (offered es : List (TopologyEdge F))
      → g.device_ids ≡ ids
      → IsBest ids id offered (lookup id g.edges)
      → IsBest ids id (offered ++ es) (lookup id (add_edges g es).edges)
  unfolding add_edges
  add_edges-run o g ids id offered [] p h = rw append-nil h
  add_edges-run o g ids id offered (e ∷ es) p h =
      subst (λ l. IsBest ids id l (lookup id (add_edges (add_edge g e).0 es).edges))
        (append_assoc offered (e ∷ []) es)
        (add_edges-run o (add_edge g e).0 ids id (offered ++ (e ∷ [])) es
          (add_edge-device_ids g e ∙ p) (add_edge-IsBest o g ids id offered e p h))

  -- The graph that was offered a list of edges holds under each identifier the first of the
  -- strongest of the edges that join two known devices, and nothing where there is none.
  pub add_edges-IsBest :
      (o : Ordered F) (ids : List String) (id : String) (es : List (TopologyEdge F))
      → IsBest ids id es (lookup id (add_edges (new_graph ids) es).edges)
  unfolding new_graph
  add_edges-IsBest o ids id es =
      add_edges-run o (new_graph ids) ids id [] es refl (unfold lookup in tt)
