-- ===== src/Catalog/Operations.antt =====
-- Any sequence of operations on the catalogue of internal/servicecatalog/application/service.go leaves
-- the services of an agent apart: no two share a port of its host, nor a route.
use edge_pilot.Base.{
  ℕ, ◌≡◌, refl, sym, ◌∙◌, subst, true, false, false≢true, not, inl, inr, some, List, [], ◌∷◌,
  if◌then◌else◌, Bool-cases,
}
use edge_pilot.Base.Text.{Text, is_empty, text_eq}
use edge_pilot.Store.Program.{return}
use edge_pilot.Model.Slot.{Slot}
use edge_pilot.Model.Service.{Service}
use edge_pilot.Catalog.Routes.{route_hosts_from_service}
use edge_pilot.Catalog.World.{Backend, World, update_row, update_live_slot, publish_agent}
use edge_pilot.Catalog.Build.{UpsertRequest}
use edge_pilot.Catalog.Services.{create, kept, update_checked, update_found, update, delete}
use edge_pilot.Catalog.Learns.{
  Quiet, >>-Learns, >>=-Leads, >>-Leads, >>-Done, write-Leads, given-Learns, return-Learns,
  require-Learns,
}
use edge_pilot.Catalog.Quiet.{publish_agent-Quiet, output-Quiet, unmindful}
use edge_pilot.Catalog.Safe.{
  Keeps, kept_so_far, Safe, known-Leads, narrow-Leads, live_slot-Safe, create-Safe, found-Safe,
  delete-Safe,
}
use edge_pilot.Catalog.Built.{Built, build-Learns}
use edge_pilot.Catalog.Apart.{SharesPort, SharesRoute, Clash, Apart, FreeFor, save-Apart}
use edge_pilot.Catalog.Checked.{check_entity-Learns}

-- `Updates` with a struct writes a text that is not empty and every field of type JSONB, and `uuid.Parse`
-- refuses the empty text.
pub record SavesFields (b : Backend) : Type 0 where
  pub published_saved :
      (old new : Service) → (b.services.merge old new).published_ports ≡ new.published_ports
  pub tcp_saved :
      (old new : Service) → (b.services.merge old new).tcp_proxy_ports ≡ new.tcp_proxy_ports
  pub hosts_saved : (old new : Service) → (b.services.merge old new).route_hosts ≡ new.route_hosts
  pub host_saved :
      (old new : Service)
      → is_empty new.route_host ≡ false
      → (b.services.merge old new).route_host ≡ new.route_host
  pub prefix_saved :
      (old new : Service)
      → is_empty new.route_path_prefix ≡ false
      → (b.services.merge old new).route_path_prefix ≡ new.route_path_prefix
  pub agent_saved :
      (old new : Service)
      → is_empty new.agent_id ≡ false
      → (b.services.merge old new).agent_id ≡ new.agent_id
  pub empty_no_uuid : b.is_uuid [] ≡ false

-- One call of the catalogue, the write of the live slot by a finished release included.
pub data Call : Type 0 where
  create_call : UpsertRequest → Call
  update_call : ℕ → UpsertRequest → Call
  delete_call : ℕ → Call
  set_live_call : ℕ → Slot → Call

module _ (b : Backend) where
  unfoldable pub after : World b → Call → World b
  after w (create_call req) = (create b req w).1
  after w (update_call id req) = (update b id req w).1
  after w (delete_call id) = (delete b id w).1
  after w (set_live_call id slot) = (update_live_slot b id slot w).1

  unfoldable pub after_all : World b → List Call → World b
  unfolding after
  after_all w [] = w
  after_all w (c ∷ cs) = after_all (after w c) cs

  module _ (saves : SavesFields b) where
    uuid_nonempty : (t : Text) → b.is_uuid t ≡ true → is_empty t ≡ false
    unfolding is_empty
    uuid_nonempty [] h = absurd (false≢true (sym saves.empty_no_uuid ∙ h))
    uuid_nonempty (c ∷ t) h = refl

    merged-Clash :
        (old s r : Service)
        → b.is_uuid s.agent_id ≡ true
        → Built s.id s
        → Clash r (b.services.merge old s)
        → Clash r s
    unfolding Clash SharesPort SharesRoute route_hosts_from_service
    merged-Clash old s r uuid made clash =
        rw
          (
            saves.published_saved old s,
            saves.tcp_saved old s,
            saves.hosts_saved old s,
            saves.host_saved old s made.host_there,
            saves.prefix_saved old s made.prefix_there,
            saves.agent_saved old s (uuid_nonempty s.agent_id uuid),
          )
          at clash

    update_row-Safe :
        (old s : Service)
        → Built s.id s
        → (Safe b)
            (λ db.
              (b.services.row s.id db ≡ some old)
              × ((b.is_uuid s.agent_id ≡ true) × FreeFor b s.id s db))
            (update_row b s)
    unfolding Safe Keeps update_row FreeFor
    update_row-Safe old s made =
        write-Leads b (Keeps b) (kept_so_far b) (b.services.save s) λ db db' p e.
          save-Apart b s old db db' p.0
            (λ k r at_k other clash. p.1.1 k r at_k other (merged-Clash old s r p.1.0 made clash)) e

    kept-Built :
        (id : ℕ) (current s : Service) → Built id s → Built (kept b current s).id (kept b current s)
    unfolding kept
    kept-Built id current s made = record {
      own_id = refl;
      host_there = made.host_there;
      prefix_there = made.prefix_there;
      settled = made.settled;
    }

    kept-id : (id : ℕ) (current s : Service) → Built id s → (kept b current s).id ≡ id
    unfolding kept
    kept-id id current s made = made.own_id

    republish-Quiet :
        (current updated : Service)
        → Quiet b (
            if not (text_eq current.agent_id updated.agent_id)
            then publish_agent b current.agent_id
            else return tt)
    republish-Quiet current updated =
        elim (Bool-cases (text_eq current.agent_id updated.agent_id)) [
          | inl same ↦ rw same (return-Learns b _ tt (λ _. tt))
          | inr moved ↦ rw moved (publish_agent-Quiet b current.agent_id)
        ]

    update_checked-Safe :
        (current s : Service)
        → Built s.id s
        → (Safe b) (λ db. b.services.row s.id db ≡ some current) (update_checked b current s)
    unfolding Safe update_checked
    update_checked-Safe current s made =
        >>-Leads b (Keeps b) (kept_so_far b) (check_entity-Learns b s made.settled) (
          >>-Done b (Keeps b) (kept_so_far b) (update_row-Safe current s made) (
            >>-Learns b (republish-Quiet current s) (
              unmindful b
                (>>-Learns b (publish_agent-Quiet b s.agent_id) (unmindful b (output-Quiet b s))))))

    update_found-Safe :
        (id : ℕ) (req : UpsertRequest) (current : Service)
        → (Safe b) (λ db. b.services.row id db ≡ some current) (update_found b id req current)
    unfolding Safe update_found
    update_found-Safe id req current = >>-Leads b (Keeps b) (kept_so_far b) (require-Learns b _ _) (
        >>-Leads b (Keeps b) (kept_so_far b) (require-Learns b _ _) (
          >>=-Leads b (Keeps b) (kept_so_far b) (build-Learns b id req) λ s.
            (known-Leads b) _ _ _ λ made.
              (narrow-Leads b) (update_checked b current (kept b current s))
                (λ db p.
                  subst (λ i. b.services.row i db ≡ some current) (sym (kept-id id current s made))
                    p.0.0)
                (update_checked-Safe current (kept b current s) (kept-Built id current s made))))

    update-Safe : (id : ℕ) (req : UpsertRequest) → (Safe b) (λ _. Unit {0}) (update b id req)
    unfolding Safe update
    update-Safe id req = >>=-Leads b (Keeps b) (kept_so_far b) (given-Learns b _) λ key.
        (narrow-Leads b) _ (λ _ _. tt)
          ((found-Safe b) id (update_found b id (record req { service_key = key }))
            (update_found-Safe id (record req { service_key = key })))

    after-Apart : (w : World b) (c : Call) → Apart b w.services → Apart b (after w c).services
    unfolding after Safe Keeps
    after-Apart w (create_call req) = ((create-Safe b) req).leads w tt
    after-Apart w (update_call id req) = (update-Safe id req).leads w tt
    after-Apart w (delete_call id) = ((delete-Safe b) id).leads w tt
    after-Apart w (set_live_call id slot) = ((live_slot-Safe b) (λ _. Unit {0}) id slot).leads w tt

    -- In whatever order services are created, updated, deleted and given a live slot, whether the calls
    -- succeed or fail: if no two services of an agent share a port of its host, or a host of a route
    -- under the same prefix of paths that does not end in white space, then none do afterwards.
    pub services_share_nothing :
        (w : World b) (calls : List Call)
        → Apart b w.services
        → Apart b (after_all w calls).services
    unfolding after_all
    services_share_nothing w [] h = h
    services_share_nothing w (c ∷ cs) h = services_share_nothing (after w c) cs (after-Apart w c h)
