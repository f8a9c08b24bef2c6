-- ===== src/Model/Service.antt =====
-- A service of the catalogue, from internal/shared/model/entities.go. A field of type JSONB is the value
-- it holds.
use edge_pilot.Base.{ℕ, Bool, Option, List}
use edge_pilot.Base.Int.{ℤ}
use edge_pilot.Base.Text.{Text}
use edge_pilot.Cron.Calendar.{Time}
use edge_pilot.Model.Slot.{Slot}
use edge_pilot.Model.Release.{PublishedPort, VolumeMount}

pub record TcpProxyPort : Type 0 where
  pub listen_port : ℤ
  pub container_port : ℤ
  pub idle_timeout_second : ℤ

pub record Service : Type 0 where
  pub id : ℕ
  pub created_at : Time
  pub service_key : Text
  pub name : Text
  pub agent_id : Text
  pub image_repo : Text
  pub container_port : ℤ
  pub cpu_limit_cores : ℤ
  pub memory_limit_mb : ℤ
  pub current_live_slot : Slot
  pub scheduler_sdk_port : ℤ
  pub scheduler_sdk_addr : Text
  pub scheduler_executor_group : Text
  pub docker_health_check : Option Bool
  pub http_health_path : Text
  pub http_health_headers : List (Text × Text)
  pub http_expected_code : ℤ
  pub http_timeout_second : ℤ
  pub startup_grace_second : ℤ
  pub http_probe_timeout_second : ℤ
  pub http_probe_interval_second : ℤ
  pub http_success_threshold : ℤ
  pub route_host : Text
  pub route_hosts : List Text
  pub route_path_prefix : Text
  pub env : List (Text × Text)
  pub env_ciphertext : Text
  pub env_key_version : Text
  pub command : List Text
  pub entrypoint : List Text
  pub volumes : List VolumeMount
  pub network_aliases : List Text
  pub published_ports : List PublishedPort
  pub tcp_proxy_ports : List TcpProxyPort
  pub enabled : Option Bool
