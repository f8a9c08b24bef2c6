-- ===== src/Catalog/Safe.antt =====
-- The operations on the catalogue of internal/servicecatalog/application/service.go that do not update a
-- service in place: each leaves the services of an agent apart if they were.
use edge_pilot.Base.{ℕ, ◌≡◌, sym, Option, none, some}
use edge_pilot.Store.Base.{done}
use edge_pilot.Store.Effect.{Error}
use edge_pilot.Store.Program.{◌>>=◌, fail}
use edge_pilot.Model.Slot.{Slot}
use edge_pilot.Model.Service.{Service}
use edge_pilot.Catalog.World.{
  Backend, World, C, create_row, delete_row, update_live_slot, get_by_id,
}
use edge_pilot.Catalog.Build.{UpsertRequest}
use edge_pilot.Catalog.Services.{create_unless, create, found, delete_found, delete}
use edge_pilot.Catalog.Learns.{
  Leads, Learns-Leads, >>-Learns, >>=-Leads, >>-Leads, >>-Done, write-Leads, given-Learns,
  fail-Learns, answer-Learns,
}
use edge_pilot.Catalog.Quiet.{
  publish_agent-Quiet, output-Quiet, new_id-Quiet, unmindful, get_by_key-Quiet, deletable-Quiet,
}
use edge_pilot.Catalog.Built.{build-Learns}
use edge_pilot.Catalog.Apart.{Apart, FreeFor, create-Apart, delete-Apart, set_live_slot-Apart}
use edge_pilot.Catalog.Checked.{check_entity-Learns}

module _ (b : Backend) where
  -- What every operation respects.
  unfoldable pub Keeps : b.services.Db → b.services.Db → Type 0
  Keeps db db' = Apart b db → Apart b db'

  pub kept_so_far : (db : b.services.Db) → Keeps db db
  unfolding Keeps
  kept_so_far db h = h

  -- The step respects it, where `P` holds of the table before.
  unfoldable pub Safe : {A : Type 0} → (b.services.Db → Type 0) → C b A → Type 0
  Safe P m = Leads b Keeps kept_so_far P m

  fail-Safe :
      (A : Type 0) (P : b.services.Db → Type 0) (e : Error) → Safe P (fail {S = World b} {A = A} e)
  unfolding Safe
  fail-Safe A P e =
      Learns-Leads b Keeps kept_so_far (fail-Learns b (λ (_ : A) (_ : b.services.Db). Unit {0}) e)

  pub known-Leads :
      {A : Type 0} (P : b.services.Db → Type 0) (K : Type 0) (m : C b A)
      → (K → Safe P m)
      → Safe (λ d. P d × K) m
  unfolding Safe
  known-Leads P K m h = record { leads = λ w p. (h p.1).leads w p.0 }

  pub narrow-Leads :
      {A : Type 0} {P P' : b.services.Db → Type 0} (m : C b A)
      → ((db : b.services.Db) → P' db → P db)
      → Safe P m
      → Safe P' m
  unfolding Safe
  narrow-Leads m k h = record { leads = λ w p. h.leads w (k w.services p) }

  delete_row-Safe : (P : b.services.Db → Type 0) (id : ℕ) → Safe P (delete_row b id)
  unfolding Safe Keeps delete_row
  delete_row-Safe P id =
      write-Leads b Keeps kept_so_far (b.delete id) (λ db db' p e. delete-Apart b id db db' e)

  pub live_slot-Safe :
      (P : b.services.Db → Type 0) (id : ℕ) (slot : Slot) → Safe P (update_live_slot b id slot)
  unfolding Safe Keeps update_live_slot
  live_slot-Safe P id slot =
      write-Leads b Keeps kept_so_far (b.set_live_slot id slot)
        (λ db db' p e. set_live_slot-Apart b id slot db db' e)

  create_row-Safe : (s : Service) → Safe (FreeFor b s.id s) (create_row b s)
  unfolding Safe Keeps create_row
  create_row-Safe s =
      write-Leads b Keeps kept_so_far (b.services.create s)
        (λ db db' p e. create-Apart b s db db' p e)

  create_unless-Safe :
      (req : UpsertRequest) (o : Option Service) → Safe (λ _. Unit {0}) (create_unless b req o)
  unfolding Safe create_unless
  create_unless-Safe req (some s) = fail-Safe _ _ _
  create_unless-Safe req none = >>=-Leads b Keeps kept_so_far (new_id-Quiet b) λ id.
      >>=-Leads b Keeps kept_so_far (build-Learns b id req) λ s. known-Leads _ _ _ λ built.
        >>-Leads b Keeps kept_so_far (check_entity-Learns b s built.settled) (
          >>-Done b Keeps kept_so_far
            (narrow-Leads (create_row b s) (λ db p. p.1.1) (create_row-Safe s))
            (>>-Learns b (publish_agent-Quiet b s.agent_id) (unmindful b (output-Quiet b s))))

  pub create-Safe : (req : UpsertRequest) → Safe (λ _. Unit {0}) (create b req)
  unfolding Safe create
  create-Safe req = >>=-Leads b Keeps kept_so_far (given-Learns b _) λ key.
      >>=-Leads b Keeps kept_so_far (get_by_key-Quiet b key) λ existing.
        narrow-Leads _ (λ _ _. tt) (create_unless-Safe (record req { service_key = key }) existing)

  delete_found-Safe :
      (P : b.services.Db → Type 0) (id : ℕ) (s : Service) → Safe P (delete_found b id s)
  unfolding Safe delete_found
  delete_found-Safe P id s =
      >>-Leads b Keeps kept_so_far (deletable-Quiet b id)
        (>>-Done b Keeps kept_so_far (delete_row-Safe _ id) (publish_agent-Quiet b s.agent_id))

  looked_up-Safe :
      {A : Type 0} (id : ℕ) (k : Service → C b A) (o : Option Service)
      → ((s : Service) → Safe (λ db. b.services.row id db ≡ some s) (k s))
      → Safe (λ db. Unit {0} × (b.services.first id db ≡ done o)) (found b o k)
  unfolding found
  looked_up-Safe id k none h = fail-Safe _ _ _
  looked_up-Safe id k (some s) h =
      narrow-Leads (k s) (λ db p. sym (b.services.first_row id db (some s) p.1)) (h s)

  pub found-Safe :
      {A : Type 0} (id : ℕ) (k : Service → C b A)
      → ((s : Service) → Safe (λ db. b.services.row id db ≡ some s) (k s))
      → Safe (λ _. Unit {0}) (get_by_id b id >>= λ o. found b o k)
  unfolding Safe get_by_id
  found-Safe id k h =
      >>=-Leads b Keeps kept_so_far (answer-Learns b (b.services.first id))
        λ o. looked_up-Safe id k o h

  pub delete-Safe : (id : ℕ) → Safe (λ _. Unit {0}) (delete b id)
  unfolding Safe delete
  delete-Safe id = found-Safe id (delete_found b id) (λ s. delete_found-Safe _ id s)
