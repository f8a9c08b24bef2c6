-- ===== src/Catalog/Services.antt =====
-- The operations on the catalogue of services: `Create`, `Update`, `Delete` and what they check, and
-- what the releases read, of internal/servicecatalog/application/service.go.
use edge_pilot.Base.{
  ℕ, Bool, true, false, ◌&&◌, ◌||◌, not, Option, none, some, List, [], ◌∷◌, ◌++◌, ◌==◌, any,
  if◌then◌else◌,
}
use edge_pilot.Base.Int.{ℤ, pos, leb_ℤ}
use edge_pilot.Base.Text.{Text, codes, trim_space, text_eq}
use edge_pilot.Store.Base.{Answer}
use edge_pilot.Store.Effect.{Error, Result, ok, err, bad_request, conflict, not_found}
use edge_pilot.Store.Program.{◌>>=◌, ◌>>◌, return, fail}
use edge_pilot.Model.Release.{PublishedPort}
use edge_pilot.Model.Service.{Service, TcpProxyPort}
use edge_pilot.Release.World.{Spec}
use edge_pilot.Catalog.Routes.{
  normalize_service_key, normalize_route_path_prefix, route_hosts_from_service, has_text,
}
use edge_pilot.Catalog.Ports.{
  validate_published_ports, validate_tcp_proxy_ports, validate_host_port_sets, host_ports,
  listen_ports, ports_of, has_port, meets,
}
use edge_pilot.Catalog.World.{
  Backend, C, AgentOutput, given, asked, create_row, update_row, delete_row, get_by_id, get_by_key,
  list_by_agent, new_id, publish_agent,
}
use edge_pilot.Catalog.Build.{
  UpsertRequest, build_service_entity, resolve_env, to_deployment_spec, is_true,
}

-- `toServiceOutput`: the service with its environment in the open, and its hosts.
pub record ServiceOutput : Type 0 where
  pub service : Service
  pub env : List (Text × Text)
  pub route_hosts : List Text

-- Whether another service of the agent has one of the hosts under the same prefix of paths.
unfoldable pub takes_route : ℕ → List Text → Text → Service → Bool
unfolding has_text
takes_route self hosts prefix s =
    not ((s.id == self) || not (text_eq (normalize_route_path_prefix s.route_path_prefix) prefix))
    && any (λ h. has_text h hosts) (route_hosts_from_service s)

-- Whether another service of the agent has one of the ports.
unfoldable pub takes_port : ℕ → List ℤ → Service → Bool
unfolding meets
takes_port self requested s = not (s.id == self) && meets (ports_of s) requested

-- A port of the range that agents bind in advance, which this agent has not bound.
unfoldable pub is_unbound : List ℤ → ℤ → Bool
is_unbound prebound p =
    not (not (leb_ℤ (pos 20000) p) || not (leb_ℤ p (pos 20099))) && not (has_port p prebound)

unfoldable pub check_prebound :
    List PublishedPort → List TcpProxyPort → Option AgentOutput → Result (Unit {0})
unfolding is_unbound
check_prebound published tcp none = ok tt
check_prebound published tcp (some agent) =
    if not agent.tcp_prebind_supported
    then ok tt
    else if meets (host_ports published) agent.prebound_tcp_ports
    then err (bad_request (codes "publishedPorts.hostPort 与 Agent TCP 预占端口冲突"))
    else if any (is_unbound agent.prebound_tcp_ports) (listen_ports tcp)
    then err (bad_request (codes "tcpProxyPorts.listenPort 未被该 Agent 成功预占"))
    else ok tt

unfoldable pub check_assignable : Result (Option AgentOutput) → Result (Unit {0})
check_assignable (ok none) = err (bad_request (codes "agentId 不存在或已禁用"))
check_assignable (ok (some agent)) =
    if is_true agent.enabled then ok tt else err (bad_request (codes "agentId 不存在或已禁用"))
check_assignable (err not_found) = err (bad_request (codes "agentId 不存在或已禁用"))
check_assignable (err e) = err e

unfoldable pub no_ports : List ℤ → Bool
no_ports [] = true
no_ports (p ∷ ps) = false

module _ (b : Backend) where
  unfoldable pub require : Bool → Error → C b (Unit {0})
  require test e = if test then return tt else fail e

  unfoldable pub assignable_by :
      Option (Text → Result (Option AgentOutput)) → Text → Result (Unit {0})
  unfolding check_assignable
  assignable_by none agent = ok tt
  assignable_by (some get_agent) agent = check_assignable (get_agent agent)

  unfoldable pub ensure_agent_assignable : Text → C b (Unit {0})
  ensure_agent_assignable agent =
      require (b.is_uuid agent) (bad_request (codes "agentId 必须是 UUID"))
      >> given b (assignable_by b.get_agent agent)

  unfoldable pub ensure_route_available : Text → List Text → Text → ℕ → C b (Unit {0})
  ensure_route_available agent [] prefix self = fail (bad_request (codes "routeHost 必填"))
  ensure_route_available agent (h ∷ hs) prefix self = list_by_agent b agent >>= λ services.
      require (not (any (takes_route self (h ∷ hs) prefix) services))
        (bad_request (codes "routeHost + routePathPrefix 已存在"))

  unfoldable pub prebound_by :
      Option (Text → Result (Option AgentOutput))
      → Text
      → List PublishedPort
      → List TcpProxyPort
      → C b (Unit {0})
  prebound_by none agent published tcp = return tt
  prebound_by (some get_agent) agent published tcp =
      given b (get_agent agent) >>= λ found. given b (check_prebound published tcp found)

  unfoldable pub ensure_host_ports_available :
      Text → List PublishedPort → List TcpProxyPort → ℕ → C b (Unit {0})
  ensure_host_ports_available agent published tcp self =
      if no_ports (host_ports published ++ listen_ports tcp) then return tt else (do
        prebound_by b.get_agent agent published tcp
        services ← list_by_agent b agent
        require (not (any (takes_port self (host_ports published ++ listen_ports tcp)) services))
            (bad_request (codes "host port 已被服务占用")))

  -- The checks that `Create` and `Update` have in common.
  unfoldable pub check_entity : Service → C b (Unit {0})
  check_entity s = do
    given b (validate_published_ports s.published_ports)
    given b (validate_tcp_proxy_ports s.tcp_proxy_ports)
    given b (validate_host_port_sets s.published_ports s.tcp_proxy_ports)
    ensure_agent_assignable s.agent_id
    ensure_route_available s.agent_id (route_hosts_from_service s) s.route_path_prefix s.id
    ensure_host_ports_available s.agent_id s.published_ports s.tcp_proxy_ports s.id

  unfoldable pub output_of : Service → Result (List (Text × Text)) → Result ServiceOutput
  output_of s (ok env) =
      ok (record { service = s; env = env; route_hosts = route_hosts_from_service s })
  output_of s (err e) = err e

  unfoldable pub to_service_output : Service → C b ServiceOutput
  unfolding output_of
  to_service_output s = given b (output_of s (resolve_env b s))

  unfoldable pub create_unless : UpsertRequest → Option Service → C b ServiceOutput
  create_unless req (some existing) = fail (bad_request (codes "serviceKey 已存在"))
  create_unless req none = do
    id ← new_id b
    s ← build_service_entity b id req
    check_entity s
    create_row b s
    publish_agent b s.agent_id
    to_service_output s

  unfoldable pub create : UpsertRequest → C b ServiceOutput
  create req = do
    key ← given b (normalize_service_key req.service_key)
    existing ← get_by_key b key
    create_unless (record req { service_key = key }) existing

  unfoldable pub found : {A : Type 0} → Option Service → (Service → C b A) → C b A
  found none k = fail not_found
  found (some s) k = k s

  -- The service that an update writes: it keeps its time of creation and its live slot.
  unfoldable pub kept : Service → Service → Service
  kept current s = record s {
    created_at = current.created_at;
    current_live_slot = current.current_live_slot;
  }

  unfoldable pub update_checked : Service → Service → C b ServiceOutput
  update_checked current updated = do
    check_entity updated
    update_row b updated
    (if not (text_eq current.agent_id updated.agent_id)
        then publish_agent b current.agent_id
        else return tt)
    publish_agent b updated.agent_id
    to_service_output updated

  unfoldable pub update_found : ℕ → UpsertRequest → Service → C b ServiceOutput
  unfolding kept
  update_found id req current = do
    require (text_eq req.service_key current.service_key) (bad_request (codes "serviceKey 不允许修改"))
    require (text_eq (trim_space req.agent_id) current.agent_id)
        (bad_request (codes "agentId 不允许修改"))
    s ← build_service_entity b id req
    update_checked current (kept current s)

  unfoldable pub update : ℕ → UpsertRequest → C b ServiceOutput
  update id req = do
    key ← given b (normalize_service_key req.service_key)
    current ← get_by_id b id
    found current (update_found id (record req { service_key = key }))

  unfoldable pub refuse_if : Bool → C b (Unit {0})
  refuse_if active = require (not active) (conflict (codes "服务存在进行中的发布，禁止删除"))

  unfoldable pub deletable_by : Option ((ℕ → Answer Bool) × (ℕ → Answer Bool)) → ℕ → C b (Unit {0})
  unfolding refuse_if
  deletable_by none id = return tt
  deletable_by (some (has_active, has_split)) id = do
    active ← asked b (has_active id)
    refuse_if active
    split ← asked b (has_split id)
    refuse_if split

  unfoldable pub ensure_service_deletable : ℕ → C b (Unit {0})
  ensure_service_deletable id = deletable_by b.releases id

  unfoldable pub delete_found : ℕ → Service → C b (Unit {0})
  delete_found id current = do
    ensure_service_deletable id
    delete_row b id
    publish_agent b current.agent_id

  unfoldable pub delete : ℕ → C b (Unit {0})
  delete id = get_by_id b id >>= λ current. found current (delete_found id)

  unfoldable pub get : ℕ → C b ServiceOutput
  get id = get_by_id b id >>= λ current. found current to_service_output

  unfoldable pub get_spec_by_id : ℕ → C b Spec
  get_spec_by_id id = get_by_id b id >>= λ s. found s (λ r. given b (to_deployment_spec b r))

  unfoldable pub get_spec_by_key : Text → C b Spec
  get_spec_by_key key = get_by_key b key >>= λ s. found s (λ r. given b (to_deployment_spec b r))
