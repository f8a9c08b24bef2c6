-- ===== src/Catalog/World.antt =====
-- What the catalogue of services works on: the table of internal/servicecatalog/infra/repository.go and
-- the parts of the control plane that it asks.
use edge_pilot.Base.{ℕ, ◌≡◌, Bool, Option, none, some, List, [], ◌∷◌, ◌==◌, ◌+◌, if◌then◌else◌}
use edge_pilot.Base.Int.{ℤ}
use edge_pilot.Base.Text.{Text, text_eq, is_empty, trim_space}
use edge_pilot.Store.Base.{Answer, done, fault}
use edge_pilot.Store.Entities.{Entities}
use edge_pilot.Store.Effect.{M, Result, ok, err, database, read_answer}
use edge_pilot.Store.Program.{◌>>=◌, return}
use edge_pilot.Model.Slot.{Slot}
use edge_pilot.Model.Service.{Service}

abbrev pub service_id : Service → ℕ
service_id s = s.id

abbrev pub with_live_slot : Slot → Option Service → Option Service
with_live_slot slot none = none
with_live_slot slot (some s) = some (record s { current_live_slot = slot })

-- What the catalogue reads of an agent.
pub record AgentOutput : Type 0 where
  pub enabled : Option Bool
  pub tcp_prebind_supported : Bool
  pub prebound_tcp_ports : List ℤ

pub record Backend : Type 1 where
  pub services : Entities ℕ Service service_id ◌==◌
  -- `Where("id = ?", id).Delete` and `….Update("current_live_slot", slot)`.
  pub delete : ℕ → services.Db → Answer services.Db
  pub set_live_slot : ℕ → Slot → services.Db → Answer services.Db
  pub row-delete :
      (id : ℕ) (db db' : services.Db) (k : ℕ)
      → delete id db ≡ done db'
      → services.row k db' ≡ (if id == k then none else services.row k db)
  pub row-set_live_slot :
      (id : ℕ) (slot : Slot) (db db' : services.Db) (k : ℕ)
      → set_live_slot id slot db ≡ done db'
      → services.row k db'
        ≡ (if id == k then with_live_slot slot (services.row k db) else services.row k db)
  -- `uuid.Parse(id) == nil`, and the lookup of agents, where there is one.
  pub is_uuid : Text → Bool
  pub get_agent : Option (Text → Result (Option AgentOutput))
  -- The publisher of proxy configurations, the codec and the checker of releases, where there are such.
  pub publisher : Option (Text → Answer (Unit {0}))
  pub encrypt : Option (List (Text × Text) → Result (Text × Text))
  pub decrypt : Option (Text → Text → Result (List (Text × Text)))
  pub releases : Option ((ℕ → Answer Bool) × (ℕ → Answer Bool))

module _ (b : Backend) where
  pub record World : Type 0 where
    pub services : b.services.Db
    -- The next identifier of `uuid.New`.
    pub next_id : ℕ

module _ (b : Backend) where
  abbrev pub C : Type 0 → Type 0
  C A = M (World b) A

  -- A value that is computed, or asked of another part, without the state.
  unfoldable pub given : {A : Type 0} → Result A → C A
  given a w = (a, w)

  unfoldable pub asked : {A : Type 0} → Answer A → C A
  asked a w = read_answer w a

  unfoldable pub stored : World b → Answer b.services.Db → Result (Unit {0}) × World b
  stored w (done db) = (ok tt, record w { services = db })
  stored w (fault e) = (err (database e), w)

  unfoldable pub create_row : Service → C (Unit {0})
  unfolding stored
  create_row s w = stored w (b.services.create s w.services)

  unfoldable pub update_row : Service → C (Unit {0})
  unfolding stored
  update_row s w = stored w (b.services.save s w.services)

  unfoldable pub delete_row : ℕ → C (Unit {0})
  unfolding stored
  delete_row id w = stored w (b.delete id w.services)

  unfoldable pub update_live_slot : ℕ → Slot → C (Unit {0})
  unfolding stored
  update_live_slot id slot w = stored w (b.set_live_slot id slot w.services)

  unfoldable pub get_by_id : ℕ → C (Option Service)
  get_by_id id w = read_answer w (b.services.first id w.services)

  unfoldable pub first_of : List Service → Option Service
  first_of [] = none
  first_of (s ∷ rest) = some s

  unfoldable pub find_services : (Service → Bool) → Option ℕ → C (List Service)
  find_services p n w = read_answer w (b.services.find p n w.services)

  unfoldable pub get_by_key : Text → C (Option Service)
  get_by_key key =
      find_services (λ s. text_eq s.service_key key) (some 1) >>= λ rows. return (first_of rows)

  unfoldable pub is_of_agent : Text → Service → Bool
  is_of_agent agent s = text_eq s.agent_id agent

  unfoldable pub list_by_agent : Text → C (List Service)
  unfolding is_of_agent
  list_by_agent agent = find_services (is_of_agent agent) none

  unfoldable pub new_id : C ℕ
  new_id w = (ok w.next_id, record w { next_id = w.next_id + 1 })

  unfoldable pub publish_by : Text → Option (Text → Answer (Unit {0})) → C (Unit {0})
  unfolding asked
  publish_by agent none = return tt
  publish_by agent (some publish) =
      if is_empty (trim_space agent) then return tt else asked (publish agent)

  unfoldable pub publish_agent : Text → C (Unit {0})
  publish_agent agent = publish_by agent b.publisher
