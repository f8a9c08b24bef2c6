-- ===== src/Agent/Containers.antt =====
-- The containers that an agent manages, their names, and the order for a task:
-- internal/agent/domain/managed_container.go and runtime_contract.go, and `TaskCommand` of
-- internal/shared/grpcapi/agent_control.proto with the fields that the executor reads or sets.
use edge_pilot.Base.{
  ℕ, zero, suc, ◌+◌, ◌/◌, ◌%◌, Bool, false, ◌||◌, Option, none, some, List, [], ◌∷◌, ◌++◌, ◌==◌,
  ltb, map, take, if◌then◌else◌,
}
use edge_pilot.Base.Int.{ℤ, pos, negsuc}
use edge_pilot.Base.Text.{Text, codes, is_empty, trim_space, text_eq, join}
use edge_pilot.Model.Slot.{Slot, unset, blue, green}
use edge_pilot.Catalog.Routes.{lower}
use mathlib.Core.List.{reverse}

unfoldable pub to_lower : Text → Text
unfolding lower
to_lower s = map lower s

pub data TaskType : Type 0 where
  unspecified deploy_green switch_traffic rollback cleanup_old : TaskType

pub record TaskCommand : Type 0 where
  pub task_id : Text
  pub release_id : Text
  pub service_key : Text
  pub agent_id : Text
  pub type : TaskType
  pub image_repo : Text
  pub image_tag : Text
  pub target_slot : Slot
  pub current_live_slot : Slot
  pub container_port : ℤ
  pub docker_health_check : Bool
  pub http_health_path : Text
  pub http_health_headers : List (Text × Text)
  pub http_expected_code : ℤ
  pub http_timeout_second : ℤ
  pub startup_grace_second : ℤ
  pub http_probe_timeout_second : ℤ
  pub http_probe_interval_second : ℤ
  pub http_success_threshold : ℤ
  pub server_name : Text

pub record ContainerRuntime : Type 0 where
  pub container_id : Text
  pub listen_address : Text
  pub image : Text

pub record ContainerStatus : Type 0 where
  pub state : Text
  pub health : Text
  pub running : Bool

pub record ManagedContainer : Type 0 where
  pub container_id : Text
  pub image : Text
  pub managed : Bool
  pub agent_id : Text
  pub service_key : Text
  pub release_id : Text
  pub slot : Slot
  pub state : Text

pub record ManagedContainerIdentity : Type 0 where
  pub agent_id : Text
  pub service_key : Text
  pub release_id : Text
  pub slot : Slot

unfoldable pub is_terminal_state : Text → Bool
unfolding to_lower
is_terminal_state state =
    let s = to_lower (trim_space state) in
    text_eq s (codes "exited") || text_eq s (codes "dead") || text_eq s (codes "removing")

-- `(*ContainerStatus).Terminal`.
unfoldable pub is_terminal : Option ContainerStatus → Bool
unfolding is_terminal_state
is_terminal none = false
is_terminal (some s) = is_terminal_state s.state

unfoldable pub managed_slot_name : Slot → Text
managed_slot_name blue = codes "blue"
managed_slot_name green = codes "green"
managed_slot_name unset = codes "unknown"

unfoldable pub dashed : ℕ → ℕ
dashed c = if (c == b'/') || (c == b'_') || (c == b' ') || (c == b'.') then b'-' else c

unfoldable pub without_dashes_left : Text → Text
without_dashes_left [] = []
without_dashes_left (c ∷ s) = let rest = without_dashes_left s in if c == b'-' then rest else c ∷ s

unfoldable pub sanitize_container_token : Text → Text → Text
unfolding dashed without_dashes_left
sanitize_container_token value fallback =
    let name =
      reverse
        (without_dashes_left (reverse (without_dashes_left (map dashed (trim_space value))))) in
    if is_empty name then fallback else name

-- The argument `sha1_hex` is the hash as hexadecimal digits, of the library.
unfoldable pub short_identity_hash : (Text → Text) → Text → Text → Slot → Text
unfolding managed_slot_name
short_identity_hash sha1_hex service release slot =
    take 10 (sha1_hex (join b'|' (service ∷ release ∷ managed_slot_name slot ∷ [])))

unfoldable pub managed_container_name : (Text → Text) → Text → Slot → Text
unfolding sanitize_container_token short_identity_hash
managed_container_name sha1_hex service slot =
    let token = sanitize_container_token service (codes "service") in
    codes "ep-" ++ (token ++ (codes "-" ++ short_identity_hash sha1_hex token [] slot))

unfoldable pub managed_container_name_for_release : (Text → Text) → Text → Text → Text
unfolding sanitize_container_token short_identity_hash
managed_container_name_for_release sha1_hex service release =
    let token = sanitize_container_token service (codes "service") in
    let release_token = sanitize_container_token release [] in
    if is_empty release_token
    then []
    else codes "ep-"
      ++ (token ++ (codes "-" ++ short_identity_hash sha1_hex token release_token unset))

unfoldable pub managed_container_name_for_task : (Text → Text) → Text → Text → Slot → Text
unfolding managed_container_name managed_container_name_for_release
managed_container_name_for_task sha1_hex service release slot =
    let name = managed_container_name_for_release sha1_hex service release in
    if is_empty name then managed_container_name sha1_hex service slot else name

-- `%d` of a number that is not negative, with as many rounds as it may have digits.
unfoldable pub digits : ℕ → ℕ → Text
digits zero n = []
digits (suc rounds) n =
    let rest = digits rounds (n / 10) in
    if ltb n 10 then (b'0' + n) ∷ [] else rest ++ ((b'0' + n % 10) ∷ [])

unfoldable pub decimal : ℤ → Text
unfolding digits
decimal (pos n) = digits 20 n
decimal (negsuc n) = b'-' ∷ digits 20 (n + 1)
