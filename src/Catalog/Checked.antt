-- ===== src/Catalog/Checked.antt =====
-- What the checks of `Create` and `Update` of internal/servicecatalog/application/service.go find out
-- about the other services of the agent.
use edge_pilot.Base.{
  ℕ, ◌≡◌, refl, sym, ◌∙◌, ap, subst, Bool, true, false, false≢true, not, ◌⊎◌, inl, inr, Option,
  none, some, List, [], ◌∷◌, ◌==◌, Bool-cases, any, In, arith,
}
use edge_pilot.Base.Int.{ℤ, eqb_ℤ, eqb_ℤ-self}
use edge_pilot.Base.Text.{ends_in_space, Text, text_eq, text_eq_iff, text_eq_self}
use edge_pilot.Store.Base.{done}
use edge_pilot.Store.Effect.{Result}
use edge_pilot.Model.Service.{Service}
use edge_pilot.Catalog.Routes.{normalize_route_path_prefix, route_hosts_from_service, has_text}
use edge_pilot.Catalog.Ports.{ports_of, has_port, meets}
use edge_pilot.Catalog.World.{Backend, AgentOutput, find_services, list_by_agent, is_of_agent}
use edge_pilot.Catalog.Services.{
  takes_route, takes_port, no_ports, ensure_agent_assignable, ensure_route_available, prebound_by,
  ensure_host_ports_available, check_entity,
}
use edge_pilot.Catalog.Learns.{
  Learns, Quiet, weaken-Learns, Learns-Quiet, >>=-Learns, >>-Learns, given-Learns, return-Learns,
  fail-Learns, require-Learns, answer-Learns,
}
use edge_pilot.Catalog.Apart.{SharesPort, SharesRoute, Clash, FreeFor}

any_in : {A : Type 0} (f : A → Bool) (x : A) (xs : List A) → In x xs → f x ≡ true → any f xs ≡ true
unfolding any
any_in f x [] m h = absurd m
any_in f x (y ∷ ys) (inl e) h = rw (ap f e ∙ h) refl
any_in f x (y ∷ ys) (inr m) h = ground (arith, any_in f x ys m h)

nothing_taken :
    {A : Type 0} (f : A → Bool) (x : A) (xs : List A)
    → not (any f xs) ≡ true
    → In x xs
    → f x ≡ true
    → ⊥
nothing_taken f x xs none_ m h = false≢true (rw (any_in f x xs m h) at none_)

has_port_in : (p : ℤ) (ps : List ℤ) → In p ps → has_port p ps ≡ true
unfolding has_port
has_port_in p ps m = any_in (eqb_ℤ p) p ps m (eqb_ℤ-self p)

has_text_in : (t : Text) (ts : List Text) → In t ts → has_text t ts ≡ true
unfolding has_text
has_text_in t ts m = any_in (text_eq t) t ts m (text_eq_self t)

takes_port_shared :
    (self : ℕ) (r s : Service)
    → (r.id == self) ≡ false
    → SharesPort r s
    → takes_port self (ports_of s) r ≡ true
unfolding takes_port meets SharesPort
takes_port_shared self r s other (p, m, n) =
    rw
      (other, any_in (λ q. has_port q (ports_of s)) p (ports_of r) m (has_port_in p (ports_of s) n))
      refl

takes_route_shared :
    (self : ℕ) (r s : Service)
    → (r.id == self) ≡ false
    → (ends_in_space s.route_path_prefix ≡ false
        → normalize_route_path_prefix s.route_path_prefix ≡ s.route_path_prefix)
    → SharesRoute r s
    → takes_route self (route_hosts_from_service s) s.route_path_prefix r ≡ true
unfolding takes_route SharesRoute
takes_route_shared self r s other normal (w, e, (h, m, n)) =
    let same : text_eq (normalize_route_path_prefix r.route_path_prefix) s.route_path_prefix
        ≡ true =
      (text_eq_iff _ _).1
        (ap normalize_route_path_prefix e ∙ normal (subst (λ p. ends_in_space p ≡ false) e w)) in
    rw
      (
        other,
        same,
        any_in (λ g. has_text g (route_hosts_from_service s)) h (route_hosts_from_service r) m
            (has_text_in h (route_hosts_from_service s) n),
      )
      refl

neither : {A B : Type 0} → (A → ⊥) → (B → ⊥) → A ⊎ B → ⊥
neither f g (inl a) = f a
neither f g (inr c) = g c

no_ports_none : (ps : List ℤ) (p : ℤ) → no_ports ps ≡ true → In p ps → ⊥
unfolding no_ports
no_ports_none [] p h m = m
no_ports_none (q ∷ qs) p h m = false≢true h

module _ (b : Backend) where
  list_by_agent-Learns :
      (agent : Text)
      → Learns b
          (λ rows db. b.services.find (is_of_agent b agent) none db ≡ done rows)
          (list_by_agent b agent)
  unfolding list_by_agent find_services
  list_by_agent-Learns agent = answer-Learns b (b.services.find (is_of_agent b agent) none)

  -- Another service of the agent is in the list.
  listed :
      (s r : Service) (rows : List Service) (db : b.services.Db) (k : ℕ)
      → b.services.find (is_of_agent b s.agent_id) none db ≡ done rows
      → b.services.row k db ≡ some r
      → r.agent_id ≡ s.agent_id
      → In r rows
  unfolding is_of_agent
  listed s r rows db k found e same =
      b.services.found_all (is_of_agent b s.agent_id) db rows found k r e
        ((text_eq_iff r.agent_id s.agent_id).1 same)

  other_id :
      (db : b.services.Db) (k self : ℕ) (r : Service)
      → b.services.row k db ≡ some r
      → (k == self) ≡ false
      → (r.id == self) ≡ false
  other_id db k self r e h = subst (λ i. (i == self) ≡ false) (sym (b.services.row_key k db r e)) h

  RouteFree : Service → b.services.Db → Type 0
  RouteFree s db =
      (k : ℕ) (r : Service)
      → b.services.row k db ≡ some r
      → (k == s.id) ≡ false
      → r.agent_id ≡ s.agent_id
      → SharesRoute r s
      → ⊥

  PortFree : Service → b.services.Db → Type 0
  PortFree s db =
      (k : ℕ) (r : Service)
      → b.services.row k db ≡ some r
      → (k == s.id) ≡ false
      → r.agent_id ≡ s.agent_id
      → SharesPort r s
      → ⊥

  module _ (s : Service) where
    route-Learns :
        (hosts : List Text)
        → route_hosts_from_service s ≡ hosts
        → (ends_in_space s.route_path_prefix ≡ false
            → normalize_route_path_prefix s.route_path_prefix ≡ s.route_path_prefix)
        → Learns b
            (λ _. RouteFree s)
            (ensure_route_available b s.agent_id hosts s.route_path_prefix s.id)
    unfolding ensure_route_available RouteFree
    route-Learns [] e normal = fail-Learns b _ _
    route-Learns (h ∷ hs) e normal = >>=-Learns b (list_by_agent-Learns s.agent_id) λ rows.
        weaken-Learns b
          (λ _ db free found k r at_k other same shares.
            nothing_taken (takes_route s.id (h ∷ hs) s.route_path_prefix) r rows free
              (listed s r rows db k found at_k same)
              (subst (λ hosts. takes_route s.id hosts s.route_path_prefix r ≡ true) e
                (takes_route_shared s.id r s (other_id db k s.id r at_k other) normal shares)))
          (require-Learns b _ _)

    prebound-Quiet :
        (g : Option (Text → Result (Option AgentOutput)))
        → Quiet b (prebound_by b g s.agent_id s.published_ports s.tcp_proxy_ports)
    unfolding prebound_by
    prebound-Quiet none = return-Learns b _ tt (λ _. tt)
    prebound-Quiet (some get_agent) =
        >>=-Learns b (given-Learns b _)
          (λ found. weaken-Learns b (λ _ _ _ _. tt) (given-Learns b _))

    ports-Learns :
        Learns b
          (λ _. PortFree s)
          (ensure_host_ports_available b s.agent_id s.published_ports s.tcp_proxy_ports s.id)
    unfolding ensure_host_ports_available PortFree SharesPort
    ports-Learns = elim (Bool-cases (no_ports (ports_of s))) [
      | inl empty ↦ rw empty (
          return-Learns b _ tt
            (λ db k r e other same shares. no_ports_none (ports_of s) shares.0 empty shares.2))
      | inr full ↦ rw full (
          >>-Learns b (prebound-Quiet b.get_agent) (
            >>=-Learns b (list_by_agent-Learns s.agent_id) λ rows.
              weaken-Learns b
                (λ _ db free found _ k r at_k other same shares.
                  nothing_taken (takes_port s.id (ports_of s)) r rows free
                    (listed s r rows db k found at_k same)
                    (takes_port_shared s.id r s (other_id db k s.id r at_k other) shares))
                (require-Learns b _ _)))
    ]

    assignable-Learns :
        Learns b (λ _ _. b.is_uuid s.agent_id ≡ true) (ensure_agent_assignable b s.agent_id)
    unfolding ensure_agent_assignable
    assignable-Learns =
        >>-Learns b (require-Learns b _ _) (weaken-Learns b (λ _ _ _ u. u) (given-Learns b _))

    -- The checks together: no other service clashes with this one.
    pub check_entity-Learns :
        (ends_in_space s.route_path_prefix ≡ false
          → normalize_route_path_prefix s.route_path_prefix ≡ s.route_path_prefix)
        → Learns b (λ _ db. (b.is_uuid s.agent_id ≡ true) × FreeFor b s.id s db) (check_entity b s)
    unfolding check_entity FreeFor Clash RouteFree PortFree
    check_entity-Learns normal = >>-Learns b (Learns-Quiet b (given-Learns b _)) (
        >>-Learns b (Learns-Quiet b (given-Learns b _)) (
          >>-Learns b (Learns-Quiet b (given-Learns b _)) (
            >>-Learns b assignable-Learns (
              >>-Learns b (route-Learns (route_hosts_from_service s) refl normal) (
                weaken-Learns b
                  (λ _ db ports routes uuid _ _ _. (
                    uuid,
                    λ k r e other clash.
                        neither (ports k r e other clash.0) (routes k r e other clash.0) clash.1,
                  ))
                  ports-Learns)))))
