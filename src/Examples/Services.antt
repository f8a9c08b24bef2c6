-- ===== src/Examples/Services.antt =====
-- A catalogue in memory with two services of one agent, on which a service is created, updated and deleted.
use edge_pilot.Base.{
  ◌++◌, ℕ, ◌≡◌, refl, sym, ◌∙◌, true, false, not, Option, none, some, List, [], ◌∷◌, ◌==◌, ==_iff,
  ==_refl, if◌then◌else◌, any, arith,
}
use edge_pilot.Base.Int.{ℤ, pos, eqb_ℤ}
use edge_pilot.Base.Text.{ends_in_space, Text, codes, is_empty, trim_space}
use edge_pilot.Store.Base.{done}
use edge_pilot.Store.Effect.{ok}
use edge_pilot.Store.Memory.{Rows}
use edge_pilot.Store.EntityMemory.{entity_memory, own, KeepsKey, change_at, change_at-row}
use edge_pilot.Model.Slot.{Slot, unset, green}
use edge_pilot.Model.Service.{Service}
use edge_pilot.Catalog.Routes.{normalize_route_path_prefix, validate_route_path_prefix}
use edge_pilot.Catalog.World.{Backend, World, service_id, with_live_slot}
use edge_pilot.Catalog.Build.{UpsertRequest}
use edge_pilot.Catalog.Apart.{Apart}
use edge_pilot.Catalog.Normal.{normalize_route_path_prefix_twice}
use edge_pilot.Catalog.Operations.{
  Call, create_call, update_call, delete_call, set_live_call, after_all, SavesFields,
  services_share_nothing,
}

text_of_new : Text → Text → Text
text_of_new old new = if is_empty new then old else new

int_of_new : ℤ → ℤ → ℤ
int_of_new old new = if eqb_ℤ new (pos 0) then old else new

-- What `Updates` with the struct `new` leaves of `old`: zero values are not written.
unfoldable merge : Service → Service → Service
merge old new = record new {
  id = old.id;
  agent_id = text_of_new old.agent_id new.agent_id;
  cpu_limit_cores = int_of_new old.cpu_limit_cores new.cpu_limit_cores;
  memory_limit_mb = int_of_new old.memory_limit_mb new.memory_limit_mb;
  scheduler_sdk_port = int_of_new old.scheduler_sdk_port new.scheduler_sdk_port;
  http_health_path = text_of_new old.http_health_path new.http_health_path;
  route_host = text_of_new old.route_host new.route_host;
  route_path_prefix = text_of_new old.route_path_prefix new.route_path_prefix;
  env_ciphertext = text_of_new old.env_ciphertext new.env_ciphertext;
}

abbrev Table : Type 0
Table = Rows ℕ Service

same→eq : (a c : ℕ) → (a == c) ≡ true → a ≡ c
same→eq a c = (==_iff a c).0

merge-id : (old new : Service) → service_id (merge old new) ≡ service_id old
unfolding merge
merge-id old new = refl

live_slot_keeps :
    (slot : Slot) → KeepsKey service_id ◌==◌ same→eq ==_refl merge merge-id (with_live_slot slot)
unfolding own
live_slot_keeps slot = (refl, λ r. rw (==_refl r.id) refl)

change : ℕ → (Option Service → Option Service) → Table → Table
change = change_at service_id ◌==◌ same→eq ==_refl merge merge-id

done_eq : (x y : Table) → done x ≡ done y → y ≡ x
done_eq x y h = cc

unfoldable backend : Backend
unfolding entity_memory change is_empty
backend = record {
  services = entity_memory service_id ◌==◌ same→eq ==_refl merge merge-id;
  delete = λ id db. done (change id (λ _. none) db);
  set_live_slot = λ id slot db. done (change id (with_live_slot slot) db);
  row-delete = λ id db db' k h. rw (done_eq _ db' h) (
      change_at-row service_id ◌==◌ same→eq ==_refl merge merge-id id (λ _. none) db k
        (refl, λ r. refl));
  row-set_live_slot = λ id slot db db' k h. rw (done_eq _ db' h) (
      change_at-row service_id ◌==◌ same→eq ==_refl merge merge-id id (with_live_slot slot) db k
        (live_slot_keeps slot));
  is_uuid = λ t. not (is_empty t);
  get_agent = some (λ id. ok (
      some (record {
        enabled = some true;
        tcp_prebind_supported = true;
        prebound_tcp_ports = pos 20001 ∷ [];
      })));
  publisher = some (λ agent. done tt);
  encrypt = some (λ env. ok (codes "sealed", codes "v1"));
  decrypt = some (λ ciphertext version. ok []);
  releases = some ((λ id. done false), (λ id. done false));
}

text_saved : (old new : Text) → is_empty new ≡ false → text_of_new old new ≡ new
unfolding text_of_new
text_saved old new h = rw h refl

saves : SavesFields backend
unfolding backend entity_memory merge text_of_new is_empty
saves = record {
  published_saved = λ old new. refl;
  tcp_saved = λ old new. refl;
  hosts_saved = λ old new. refl;
  host_saved = λ old new h. text_saved old.route_host new.route_host h;
  prefix_saved = λ old new h. text_saved old.route_path_prefix new.route_path_prefix h;
  agent_saved = λ old new h. text_saved old.agent_id new.agent_id h;
  empty_no_uuid = refl;
}

-- A service on the host "shop.example" that publishes the port 8080.
abbrev shop : Service
shop = record {
  id = 1;
  created_at = 100;
  service_key = codes "shop";
  name = codes "Shop";
  agent_id = codes "agent";
  image_repo = codes "registry/shop";
  container_port = pos 80;
  cpu_limit_cores = pos 1;
  memory_limit_mb = pos 64;
  current_live_slot = unset;
  scheduler_sdk_port = pos 0;
  scheduler_sdk_addr = [];
  scheduler_executor_group = [];
  docker_health_check = some true;
  http_health_path = codes "/health";
  http_health_headers = [];
  http_expected_code = pos 200;
  http_timeout_second = pos 90;
  startup_grace_second = pos 15;
  http_probe_timeout_second = pos 2;
  http_probe_interval_second = pos 1;
  http_success_threshold = pos 2;
  route_host = codes "shop.example";
  route_hosts = codes "shop.example" ∷ [];
  route_path_prefix = codes "/";
  env = [];
  env_ciphertext = [];
  env_key_version = [];
  command = [];
  entrypoint = [];
  volumes = [];
  network_aliases = [];
  published_ports = record { host_port = pos 8080; container_port = pos 80 } ∷ [];
  tcp_proxy_ports = [];
  enabled = some true;
}

unfoldable only_shop : backend.services.Db
unfolding backend entity_memory
only_shop = record { keys = 1 ∷ []; at = λ k. if k == 1 then some shop else none }

abbrev world : World backend
world = record { services = only_shop; next_id = 2 }

-- A request for a service on another host, whose proxy listens on the port 20001.
abbrev request : UpsertRequest
request = record {
  name = codes "Blog";
  service_key = codes "blog";
  agent_id = codes "agent";
  image_repo = codes "registry/blog";
  container_port = pos 80;
  cpu_limit_cores = pos 0;
  memory_limit_mb = pos 0;
  docker_health_check = none;
  http_health_path = codes "/";
  http_health_headers = [];
  http_expected_code = pos 0;
  http_timeout_second = pos 0;
  startup_grace_second = pos 0;
  http_probe_timeout_second = pos 0;
  http_probe_interval_second = pos 0;
  http_success_threshold = pos 0;
  scheduler_sdk_port = pos 0;
  scheduler_sdk_addr = [];
  scheduler_executor_group = [];
  route_host = codes " Blog.Example ";
  route_hosts = [];
  route_path_prefix = codes "posts/";
  env = (codes "MODE", codes "live") ∷ [];
  command = [];
  entrypoint = [];
  volumes = [];
  network_aliases = [];
  published_ports = [];
  tcp_proxy_ports =
      record { listen_port = pos 20001; container_port = pos 90; idle_timeout_second = pos 0 } ∷ [];
  enabled = none;
}

-- One that would take the port of the shop.
abbrev greedy : UpsertRequest
greedy = record request {
  service_key = codes "greedy";
  route_host = codes "greedy.example";
  published_ports = record { host_port = pos 8080; container_port = pos 80 } ∷ [];
}

abbrev calls : List Call
calls =
    create_call request
    ∷ create_call greedy
    ∷ update_call 2 (record request { route_host = codes "news.example" })
    ∷ set_live_call 2 green
    ∷ delete_call 1
    ∷ create_call greedy
    ∷ []

shop_row : (k : ℕ) (r : Service) → backend.services.row k world.services ≡ some r → k ≡ 1
unfolding only_shop backend entity_memory own any
shop_row k r e = ground arith

shop_alone : Apart backend world.services
unfolding Apart
shop_alone i j r s p q clash = shop_row i r p ∙ sym (shop_row j s q)

services_share_nothing_example : Apart backend (after_all backend world calls).services
services_share_nothing_example = services_share_nothing backend saves world calls shop_alone

normalize_route_path_prefix_twice_example :
    normalize_route_path_prefix (normalize_route_path_prefix (codes " posts//"))
    ≡ normalize_route_path_prefix (codes " posts//")
unfolding normalize_route_path_prefix is_empty trim_space ends_in_space
normalize_route_path_prefix_twice_example =
    normalize_route_path_prefix_twice (codes " posts//") refl

-- A prefix that ends in the white space U+3000 after a slash has been taken off is accepted, and loses it the next time.
wide_prefix : Text
wide_prefix = b'/' ∷ b'a' ∷ 0xe3 ∷ 0x80 ∷ 0x80 ∷ []

wide_kept : normalize_route_path_prefix (wide_prefix ++ b'/' ∷ []) ≡ wide_prefix
unfolding wide_prefix normalize_route_path_prefix is_empty trim_space
wide_kept = refl

wide_valid : validate_route_path_prefix wide_prefix ≡ ok tt
unfolding wide_prefix validate_route_path_prefix any
wide_valid = refl

wide_lost : normalize_route_path_prefix wide_prefix ≡ codes "/a"
unfolding wide_prefix normalize_route_path_prefix is_empty trim_space
wide_lost = refl
