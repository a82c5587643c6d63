-- ===== src/Topology/Builder/Roles.antt =====
-- The roles that a built topology gives its devices.
use tmap.Base.{
  Bool, true, false, not, ◌&&◌, ◌||◌, List, [], ◌∷◌, map, String, str_eq, is_empty, member, ◌≡◌,
  refl, arith, subst, inl, inr, Bool-cases,
}
use tmap.Base.Sets.{IsUnique}
use tmap.Base.Float.{Float64}
use tmap.Topology.Types.{Device, role_agent, role_gateway, role_router, role_host}
use tmap.Topology.Builder.{RouteHop, BuildInput, add_role, classify_roles, forwarders, with_roles}

-- Whether a hop leaves the device.
unfoldable pub sends_hop : String → List RouteHop → Bool
sends_hop id [] = false
sends_hop id (h ∷ hs) = str_eq h.from_id id || sends_hop id hs

-- The roles that the facts support, and no other.
pub record AreRoles (gateway router agent : Bool) (roles : List String) : Type 0 where
  pub as_gateway : member role_gateway roles ≡ gateway
  pub as_router : member role_router roles ≡ router
  pub as_agent : member role_agent roles ≡ agent
  pub as_host : member role_host roles ≡ true
  pub once : IsUnique roles

classify_roles-AreRoles :
    (gateway router agent : Bool)
    → AreRoles gateway router agent (
        classify_roles
          (record { is_agent = agent; is_default_gw = gateway; forwards_traffic = router }))
unfolding classify_roles add_role member
classify_roles-AreRoles false false false = record {
  as_gateway = refl;
  as_router = refl;
  as_agent = refl;
  as_host = refl;
  once = (refl, tt);
}
classify_roles-AreRoles false false true = record {
  as_gateway = refl;
  as_router = refl;
  as_agent = refl;
  as_host = refl;
  once = (refl, (refl, tt));
}
classify_roles-AreRoles false true false = record {
  as_gateway = refl;
  as_router = refl;
  as_agent = refl;
  as_host = refl;
  once = (refl, (refl, tt));
}
classify_roles-AreRoles false true true = record {
  as_gateway = refl;
  as_router = refl;
  as_agent = refl;
  as_host = refl;
  once = (refl, (refl, (refl, tt)));
}
classify_roles-AreRoles true false false = record {
  as_gateway = refl;
  as_router = refl;
  as_agent = refl;
  as_host = refl;
  once = (refl, (refl, tt));
}
classify_roles-AreRoles true false true = record {
  as_gateway = refl;
  as_router = refl;
  as_agent = refl;
  as_host = refl;
  once = (refl, (refl, (refl, tt)));
}
classify_roles-AreRoles true true false = record {
  as_gateway = refl;
  as_router = refl;
  as_agent = refl;
  as_host = refl;
  once = (refl, (refl, (refl, tt)));
}
classify_roles-AreRoles true true true = record {
  as_gateway = refl;
  as_router = refl;
  as_agent = refl;
  as_host = refl;
  once = (refl, (refl, (refl, (refl, tt))));
}

member-sources :
    (id : String) (hs : List RouteHop)
    → member id (map (λ (h : RouteHop). h.from_id) hs) ≡ sends_hop id hs
unfolding member sends_hop
member-sources id [] = refl
member-sources id (h ∷ hs) = rw (member-sources id hs) refl

-- Whether there is a hop at all.
unfoldable pub has_hop : List RouteHop → Bool
has_hop [] = false
has_hop (h ∷ hs) = true

member-forwarders :
    (id gateway : String) (hs : List RouteHop)
    → member id (forwarders gateway hs)
      ≡ (sends_hop id hs || (has_hop hs && (not (is_empty gateway) && str_eq gateway id)))
unfolding forwarders has_hop member sends_hop
member-forwarders id gateway [] = refl
member-forwarders id gateway (h ∷ hs) = elim (Bool-cases (is_empty gateway)) [
  | inl blank ↦ rw (blank, member-sources id hs) (only (sends_hop id (h ∷ hs)))
  | inr named ↦ rw (named, member-sources id hs) (swap (str_eq gateway id) (sends_hop id (h ∷ hs)))
]
  where
    only : (a : Bool) → a ≡ (a || false)
    only a = ground arith

    swap : (a b : Bool) → (a || b) ≡ (b || a)
    swap a b = ground arith

module _ {F : Type 0} ⦃f : Float64 F⦄ where
  -- A device of a built topology is a gateway just where its identifier is the one of the default
  -- gateway, an agent just where it is the one of the agent, a router just where a hop leaves it or it
  -- is the named gateway and there is a hop, and a host in any case; no role is given twice.
  pub with_roles-AreRoles :
      (in_ : BuildInput F) (d : Device F)
      → AreRoles
          (str_eq d.id in_.gateway_id)
          (sends_hop d.id in_.route_hops
            || (has_hop in_.route_hops
                && (not (is_empty in_.gateway_id) && str_eq in_.gateway_id d.id)))
          (str_eq d.id in_.agent_id)
          (with_roles in_ d).roles
  unfolding with_roles
  with_roles-AreRoles in_ d =
      subst
        (λ b.
          AreRoles (str_eq d.id in_.gateway_id) b (str_eq d.id in_.agent_id)
            (with_roles in_ d).roles)
        (member-forwarders d.id in_.gateway_id in_.route_hops)
        (classify_roles-AreRoles (str_eq d.id in_.gateway_id)
          (member d.id (forwarders in_.gateway_id in_.route_hops)) (str_eq d.id in_.agent_id))
