-- ===== src/Catalog/Quiet.antt =====
-- The steps of the catalogue's operations that leave the table of services alone:
-- internal/servicecatalog/application/service.go.
use edge_pilot.Base.{ℕ, refl, Bool, Option, none, some, Bool-cases, inl, inr}
use edge_pilot.Base.Text.{Text, is_empty, trim_space}
use edge_pilot.Store.Base.{Answer}
use edge_pilot.Model.Service.{Service}
use edge_pilot.Catalog.World.{
  Backend, C, asked, get_by_key, find_services, new_id, publish_agent, publish_by,
}
use edge_pilot.Catalog.Services.{
  refuse_if, deletable_by, ensure_service_deletable, to_service_output,
}
use edge_pilot.Catalog.Learns.{
  Learns, Quiet, weaken-Learns, Learns-Quiet, >>=-Learns, >>-Learns, given-Learns, return-Learns,
  require-Learns, answer-Learns,
}

module _ (b : Backend) where
  asked-Quiet : {A : Type 0} (a : Answer A) → Quiet b (asked b a)
  unfolding asked
  asked-Quiet a = Learns-Quiet b (answer-Learns b (λ _. a))

  publish_by-Quiet :
      (agent : Text) (p : Option (Text → Answer (Unit {0}))) → Quiet b (publish_by b agent p)
  unfolding publish_by
  publish_by-Quiet agent none = return-Learns b _ tt (λ _. tt)
  publish_by-Quiet agent (some publish) = elim (Bool-cases (is_empty (trim_space agent))) [
    | inl none_ ↦ rw none_ (return-Learns b _ tt (λ _. tt))
    | inr some_ ↦ rw some_ (asked-Quiet (publish agent))
  ]

  pub publish_agent-Quiet : (agent : Text) → Quiet b (publish_agent b agent)
  unfolding publish_agent
  publish_agent-Quiet agent = publish_by-Quiet agent b.publisher

  pub output-Quiet : (s : Service) → Quiet b (to_service_output b s)
  unfolding to_service_output
  output-Quiet s = Learns-Quiet b (given-Learns b _)

  pub new_id-Quiet : Quiet b (new_id b)
  unfolding new_id
  new_id-Quiet = record { same = λ w. refl; learns = λ w x e. tt }

  pub unmindful :
      {A : Type 0} {P : b.services.Db → Type 0} {m : C b A}
      → Quiet b m
      → Learns b (λ _ db. P db → Unit {0}) m
  unmindful h = weaken-Learns b (λ _ _ _ _. tt) h

  pub get_by_key-Quiet : (key : Text) → Quiet b (get_by_key b key)
  unfolding get_by_key find_services
  get_by_key-Quiet key = >>=-Learns b (answer-Learns b _) (λ rows. return-Learns b _ _ (λ _ _. tt))

  refuse_if-Quiet : (active : Bool) → Quiet b (refuse_if b active)
  unfolding refuse_if
  refuse_if-Quiet active = Learns-Quiet b (require-Learns b _ _)

  deletable_by-Quiet :
      (r : Option ((ℕ → Answer Bool) × (ℕ → Answer Bool))) (id : ℕ) → Quiet b (deletable_by b r id)
  unfolding deletable_by
  deletable_by-Quiet none id = return-Learns b _ tt (λ _. tt)
  deletable_by-Quiet (some (has_active, has_split)) id =
      >>=-Learns b (asked-Quiet (has_active id)) λ active. unmindful (
        >>-Learns b (refuse_if-Quiet active) (
          unmindful
            (>>=-Learns b (asked-Quiet (has_split id)) λ split. unmindful (refuse_if-Quiet split))))

  pub deletable-Quiet : (id : ℕ) → Quiet b (ensure_service_deletable b id)
  unfolding ensure_service_deletable
  deletable-Quiet id = deletable_by-Quiet b.releases id
