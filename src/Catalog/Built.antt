-- ===== src/Catalog/Built.antt =====
-- What `buildServiceEntity` of internal/servicecatalog/application/service.go makes sure of.
use edge_pilot.Base.{
  ℕ, ◌≡◌, refl, Bool, false, ◌||◌, inl, inr, List, [], ◌∷◌, ◌++◌, Bool-cases, All, arith,
}
use edge_pilot.Base.Text.{ends_in_space, Text, is_empty}
use edge_pilot.Store.Effect.{ok}
use edge_pilot.Model.Service.{Service}
use edge_pilot.Catalog.Routes.{
  normalize_route_path_prefix, normalize_route_host, has_text, add_host, add_hosts, primary_of,
  normalize_route_hosts,
}
use edge_pilot.Catalog.Normal.{normalize_route_path_prefix_twice, normalized_nonempty}
use edge_pilot.Catalog.World.{Backend}
use edge_pilot.Catalog.Build.{UpsertRequest, entity, build_service_entity}
use edge_pilot.Catalog.Learns.{
  Learns, Learns-Quiet, >>=-Learns, >>-Learns, given-Learns, return-Learns,
}

NoneEmpty : List Text → Type 0
NoneEmpty ts = All (λ t. is_empty t ≡ false) ts

NoneEmpty-append :
    (ts : List Text) (t : Text) → NoneEmpty ts → is_empty t ≡ false → NoneEmpty (ts ++ (t ∷ []))
unfolding NoneEmpty
NoneEmpty-append [] t h e = (e, tt)
NoneEmpty-append (u ∷ us) t h e = (h.0, NoneEmpty-append us t h.1 e)

add_host-NoneEmpty :
    (value : Text) (hosts : List Text) → NoneEmpty hosts → NoneEmpty (add_host value hosts)
unfolding add_host
add_host-NoneEmpty value hosts h =
    elim (Bool-cases
      (is_empty (normalize_route_host value) || has_text (normalize_route_host value) hosts)) [
        | inl skipped ↦ rw skipped h
        | inr added ↦ rw added (
            NoneEmpty-append hosts (normalize_route_host value) h
              (first_false (is_empty (normalize_route_host value)) _ added))
      ]
  where
    first_false : (t u : Bool) → (t || u) ≡ false → t ≡ false
    first_false t u e = ground arith

add_hosts-NoneEmpty :
    (items hosts : List Text) → NoneEmpty hosts → NoneEmpty (add_hosts items hosts)
unfolding add_hosts
add_hosts-NoneEmpty [] hosts h = h
add_hosts-NoneEmpty (i ∷ is) hosts h =
    add_hosts-NoneEmpty is (add_host i hosts) (add_host-NoneEmpty i hosts h)

primary_nonempty :
    (primary : Text) (hosts : List Text) (r : Text × List Text)
    → NoneEmpty hosts
    → primary_of primary hosts ≡ ok r
    → is_empty r.0 ≡ false
unfolding primary_of NoneEmpty
primary_nonempty primary [] r h e = ground arith
primary_nonempty primary (t ∷ ts) r h e = elim (Bool-cases (is_empty primary)) [
  | inl none_ ↦ (let q : ok (t, t ∷ ts) ≡ ok r = rw none_ at e in ground arith)
  | inr some_ ↦ (let q : ok (primary, t ∷ ts) ≡ ok r = rw some_ at e in ground arith)
]

route_host_nonempty :
    (primary : Text) (hosts : List Text) (r : Text × List Text)
    → normalize_route_hosts primary hosts ≡ ok r
    → is_empty r.0 ≡ false
unfolding normalize_route_hosts NoneEmpty
route_host_nonempty primary hosts r e =
    primary_nonempty (normalize_route_host primary)
      (add_hosts hosts (add_host (normalize_route_host primary) [])) r
      (add_hosts-NoneEmpty hosts (add_host (normalize_route_host primary) [])
        (add_host-NoneEmpty (normalize_route_host primary) [] tt))
      e

-- A service that has been built: its identifier, a host, and a prefix of paths that is settled unless it ends
-- in white space.
pub record Built (id : ℕ) (s : Service) : Type 0 where
  pub own_id : s.id ≡ id
  pub host_there : is_empty s.route_host ≡ false
  pub prefix_there : is_empty s.route_path_prefix ≡ false
  pub settled :
      ends_in_space s.route_path_prefix ≡ false
      → normalize_route_path_prefix s.route_path_prefix ≡ s.route_path_prefix

built :
    (id : ℕ) (req : UpsertRequest) (key : Text) (routes : Text × List Text) (sealed : Text × Text)
    (aliases : List Text)
    → normalize_route_hosts req.route_host req.route_hosts ≡ ok routes
    → Built id (
        entity id req key routes (normalize_route_path_prefix req.route_path_prefix) sealed aliases)
unfolding entity
built id req key routes sealed aliases r = record {
  own_id = refl;
  host_there = route_host_nonempty req.route_host req.route_hosts routes r;
  prefix_there = normalized_nonempty req.route_path_prefix;
  settled = normalize_route_path_prefix_twice req.route_path_prefix;
}

pub build-Learns :
    (b : Backend) (id : ℕ) (req : UpsertRequest)
    → Learns b (λ s _. Built id s) (build_service_entity b id req)
unfolding build_service_entity
build-Learns b id req = >>=-Learns b (given-Learns b _) λ key.
    >>-Learns b (Learns-Quiet b (given-Learns b _)) (
      >>-Learns b (Learns-Quiet b (given-Learns b _)) (
        >>=-Learns b (given-Learns b _) λ routes. >>-Learns b (Learns-Quiet b (given-Learns b _)) (
          >>-Learns b (Learns-Quiet b (given-Learns b _)) (
            >>=-Learns b (given-Learns b _) λ sealed. >>=-Learns b (given-Learns b _) λ aliases.
              return-Learns b _ _
                λ db _ _ _ _ routed _ _ _. built id req key routes sealed aliases routed))))
