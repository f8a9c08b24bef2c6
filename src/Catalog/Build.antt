-- ===== src/Catalog/Build.antt =====
-- A service as it is built from a request: `buildServiceEntity` of
-- internal/servicecatalog/application/service.go and what it calls, and what is read from a service.
use edge_pilot.Base.{
  ℕ, Bool, true, false, ◌&&◌, not, Option, none, some, List, [], ◌∷◌, map, if◌then◌else◌,
}
use edge_pilot.Base.Int.{ℤ, pos, ltb_ℤ, eqb_ℤ}
use edge_pilot.Base.Text.{Text, codes, is_empty, trim_space}
use edge_pilot.Store.Effect.{Result, ok, err, other_error}
use edge_pilot.Store.Program.{◌>>=◌, ◌>>◌, return}
use edge_pilot.Model.Slot.{unset}
use edge_pilot.Model.Release.{PublishedPort, VolumeMount}
use edge_pilot.Model.Service.{Service, TcpProxyPort}
use edge_pilot.Release.World.{Spec}
use edge_pilot.Catalog.Routes.{
  normalize_service_key, normalize_route_hosts, normalize_route_path_prefix,
  validate_route_path_prefix, normalize_http_headers, normalize_network_aliases,
}
use edge_pilot.Catalog.Ports.{
  validate_container_port, validate_resource_limits, validate_scheduler_sdk_config,
}
use edge_pilot.Catalog.World.{Backend, C, given}

-- `dto.UpsertServiceRequest`.
pub record UpsertRequest : Type 0 where
  pub name : Text
  pub service_key : Text
  pub agent_id : Text
  pub image_repo : Text
  pub container_port : ℤ
  pub cpu_limit_cores : ℤ
  pub memory_limit_mb : ℤ
  pub docker_health_check : Option Bool
  pub http_health_path : Text
  pub http_health_headers : List (Text × Text)
  pub http_expected_code : ℤ
  pub http_timeout_second : ℤ
  pub startup_grace_second : ℤ
  pub http_probe_timeout_second : ℤ
  pub http_probe_interval_second : ℤ
  pub http_success_threshold : ℤ
  pub scheduler_sdk_port : ℤ
  pub scheduler_sdk_addr : Text
  pub scheduler_executor_group : Text
  pub route_host : Text
  pub route_hosts : List Text
  pub route_path_prefix : Text
  pub env : List (Text × Text)
  pub command : List Text
  pub entrypoint : List Text
  pub volumes : List VolumeMount
  pub network_aliases : List Text
  pub published_ports : List PublishedPort
  pub tcp_proxy_ports : List TcpProxyPort
  pub enabled : Option Bool

abbrev pub or_true : Option Bool → Option Bool
or_true none = some true
or_true (some b) = some b

unfoldable pub or_default : ℤ → ℤ → ℤ
or_default value fallback = if eqb_ℤ value (pos 0) then fallback else value

unfoldable pub idle_or_default : TcpProxyPort → TcpProxyPort
unfolding or_default
idle_or_default p = record p { idle_timeout_second = or_default p.idle_timeout_second (pos 3600) }

unfoldable pub to_model_tcp_proxy_ports : List TcpProxyPort → List TcpProxyPort
unfolding idle_or_default
to_model_tcp_proxy_ports items = map idle_or_default items

unfoldable pub executor_group : ℤ → Text → Text
executor_group port group =
    if ltb_ℤ (pos 0) port && is_empty (trim_space group) then codes "default" else trim_space group

unfoldable pub encrypt_with :
    Option (List (Text × Text) → Result (Text × Text)) → List (Text × Text) → Result (Text × Text)
encrypt_with codec [] = ok ([], [])
encrypt_with none (e ∷ es) = err other_error
encrypt_with (some encrypt) (e ∷ es) = encrypt (e ∷ es)

unfoldable pub decrypt_with :
    Option (Text → Text → Result (List (Text × Text))) → Service → Result (List (Text × Text))
decrypt_with none s = err other_error
decrypt_with (some decrypt) s = decrypt s.env_ciphertext s.env_key_version

unfoldable pub entity :
    ℕ → UpsertRequest → Text → Text × List Text → Text → Text × Text → List Text → Service
unfolding or_default executor_group normalize_http_headers to_model_tcp_proxy_ports
entity id req key (primary, hosts) prefix (ciphertext, version) aliases = record {
  id = id;
  created_at = 0;
  service_key = key;
  name = req.name;
  agent_id = req.agent_id;
  image_repo = req.image_repo;
  container_port = req.container_port;
  cpu_limit_cores = req.cpu_limit_cores;
  memory_limit_mb = req.memory_limit_mb;
  current_live_slot = unset;
  scheduler_sdk_port = req.scheduler_sdk_port;
  scheduler_sdk_addr = req.scheduler_sdk_addr;
  scheduler_executor_group = executor_group req.scheduler_sdk_port req.scheduler_executor_group;
  docker_health_check = or_true req.docker_health_check;
  http_health_path = req.http_health_path;
  http_health_headers = normalize_http_headers [] req.http_health_headers;
  http_expected_code = or_default req.http_expected_code (pos 200);
  http_timeout_second = or_default req.http_timeout_second (pos 90);
  startup_grace_second = or_default req.startup_grace_second (pos 15);
  http_probe_timeout_second = or_default req.http_probe_timeout_second (pos 2);
  http_probe_interval_second = or_default req.http_probe_interval_second (pos 1);
  http_success_threshold = or_default req.http_success_threshold (pos 2);
  route_host = primary;
  route_hosts = hosts;
  route_path_prefix = prefix;
  env = [];
  env_ciphertext = ciphertext;
  env_key_version = version;
  command = req.command;
  entrypoint = req.entrypoint;
  volumes = req.volumes;
  network_aliases = aliases;
  published_ports = req.published_ports;
  tcp_proxy_ports = to_model_tcp_proxy_ports req.tcp_proxy_ports;
  enabled = or_true req.enabled;
}

module _ (b : Backend) where
  unfoldable pub build_service_entity : ℕ → UpsertRequest → C b Service
  unfolding encrypt_with entity normalize_route_hosts
  build_service_entity id req = do
    key ← given b (normalize_service_key req.service_key)
    given b (validate_container_port req.container_port)
    given b (validate_resource_limits req.cpu_limit_cores req.memory_limit_mb)
    routes ← given b (normalize_route_hosts req.route_host req.route_hosts)
    given b (validate_route_path_prefix (normalize_route_path_prefix req.route_path_prefix))
    given b (
        validate_scheduler_sdk_config req.scheduler_sdk_port
          (executor_group req.scheduler_sdk_port req.scheduler_executor_group))
    sealed ← given b (encrypt_with b.encrypt req.env)
    aliases ← given b (normalize_network_aliases [] req.network_aliases)
    return (
        entity id req key routes (normalize_route_path_prefix req.route_path_prefix) sealed aliases)

  unfoldable pub resolve_env : Service → Result (List (Text × Text))
  unfolding decrypt_with
  resolve_env s =
      if is_empty (trim_space s.env_ciphertext) then ok s.env else decrypt_with b.decrypt s

abbrev pub is_true : Option Bool → Bool
is_true none = false
is_true (some b) = b

unfoldable pub spec_of : Service → Result (List (Text × Text)) → Result Spec
spec_of s (err e) = err e
spec_of s (ok env) = ok (record {
  id = s.id;
  service_key = s.service_key;
  agent_id = s.agent_id;
  image_repo = s.image_repo;
  container_port = s.container_port;
  cpu_limit_cores = s.cpu_limit_cores;
  memory_limit_mb = s.memory_limit_mb;
  current_live_slot = s.current_live_slot;
  docker_health_check = is_true s.docker_health_check;
  http_health_path = s.http_health_path;
  http_health_headers = s.http_health_headers;
  http_expected_code = s.http_expected_code;
  http_timeout_second = s.http_timeout_second;
  startup_grace_second = s.startup_grace_second;
  http_probe_timeout_second = s.http_probe_timeout_second;
  http_probe_interval_second = s.http_probe_interval_second;
  http_success_threshold = s.http_success_threshold;
  scheduler_sdk_port = s.scheduler_sdk_port;
  scheduler_sdk_addr = s.scheduler_sdk_addr;
  scheduler_executor_group = s.scheduler_executor_group;
  env = env;
  env_encrypted = not (is_empty (trim_space s.env_ciphertext));
  command = s.command;
  entrypoint = s.entrypoint;
  volumes = s.volumes;
  network_aliases = s.network_aliases;
  published_ports = s.published_ports;
  enabled = is_true s.enabled;
})

unfoldable pub to_deployment_spec : (b : Backend) → Service → Result Spec
unfolding spec_of resolve_env
to_deployment_spec b s = spec_of s (resolve_env b s)
