-- ===== src/Catalog/Apart.antt =====
-- Two services of an agent share no port of its host and no route: what the statements of
-- internal/servicecatalog/infra/repository.go do to that.
use edge_pilot.Base.{
  ℕ, ◌≡◌, refl, sym, ◌∙◌, subst, false, ◌⊎◌, inl, inr, Option, none, some, ◌==◌, ==_iff,
  if◌then◌else◌, Bool-cases, In, arith,
}
use edge_pilot.Base.Int.{ℤ}
use edge_pilot.Base.Text.{Text, ends_in_space}
use edge_pilot.Store.Base.{done}
use edge_pilot.Store.Entities.{merged}
use edge_pilot.Model.Slot.{Slot}
use edge_pilot.Model.Service.{Service}
use edge_pilot.Catalog.Routes.{route_hosts_from_service}
use edge_pilot.Catalog.Ports.{ports_of}
use edge_pilot.Catalog.World.{Backend, with_live_slot}

unfoldable pub SharesPort : Service → Service → Type 0
SharesPort r s = (p : ℤ) × In p (ports_of r) × In p (ports_of s)

-- A host under the same prefix of paths, which does not end in white space.
unfoldable pub SharesRoute : Service → Service → Type 0
SharesRoute r s =
    (ends_in_space r.route_path_prefix ≡ false)
    × (r.route_path_prefix ≡ s.route_path_prefix)
    × ((h : Text) × In h (route_hosts_from_service r) × In h (route_hosts_from_service s))

-- Two services that could not both be served by an agent.
unfoldable pub Clash : Service → Service → Type 0
Clash r s = (r.agent_id ≡ s.agent_id) × (SharesPort r s ⊎ SharesRoute r s)

Clash-sym : (r s : Service) → Clash r s → Clash s r
unfolding Clash SharesPort SharesRoute
Clash-sym r s (e, inl (p, m, n)) = (sym e, inl (p, n, m))
Clash-sym r s (e, inr (w, q, (h, m, n))) =
    (sym e, inr (subst (λ p. ends_in_space p ≡ false) q w, sym q, (h, n, m)))

module _ (b : Backend) where
  -- No two services of an agent share a port of its host or a route.
  unfoldable pub Apart : b.services.Db → Type 0
  unfolding Clash SharesPort SharesRoute
  Apart db =
      (i j : ℕ) (r s : Service)
      → b.services.row i db ≡ some r
      → b.services.row j db ≡ some s
      → Clash r s
      → i ≡ j

  -- No other service than `id` clashes with `s`.
  unfoldable pub FreeFor : ℕ → Service → b.services.Db → Type 0
  unfolding Clash SharesPort SharesRoute
  FreeFor id s db =
      (k : ℕ) (r : Service) → b.services.row k db ≡ some r → (k == id) ≡ false → Clash r s → ⊥

  -- A row that is replaced by, or begins as, `s`, where nothing else clashes with it.
  module _ (id : ℕ) (s : Service) (db db' : b.services.Db) (free : FreeFor id s db)
      (now : (k : ℕ) (r : Service)
        → b.services.row k db' ≡ some r
        → ((k ≡ id) × (r ≡ s)) ⊎ (((k == id) ≡ false) × (b.services.row k db ≡ some r))) where
    pub placed-Apart : Apart db → Apart db'
    unfolding Apart FreeFor
    placed-Apart apart i j x y p q clash = by_rows (now i x p) (now j y q)
      where
        by_rows :
            ((i ≡ id) × (x ≡ s)) ⊎ (((i == id) ≡ false) × (b.services.row i db ≡ some x))
            → ((j ≡ id) × (y ≡ s)) ⊎ (((j == id) ≡ false) × (b.services.row j db ≡ some y))
            → i ≡ j
        by_rows (inl a) (inl c) = a.0 ∙ sym c.0
        by_rows (inl a) (inr c) =
            absurd (free j y c.1 c.0 (Clash-sym s y (subst (λ z. Clash z y) a.1 clash)))
        by_rows (inr a) (inl c) = absurd (free i x a.1 a.0 (subst (Clash x) c.1 clash))
        by_rows (inr a) (inr c) = apart i j x y a.1 c.1 clash

  -- Every service that is there now was there, and differs in nothing that could clash.
  module _ (db db' : b.services.Db)
      (before : (k : ℕ) (r : Service)
        → b.services.row k db' ≡ some r
        → (o : Service) × (b.services.row k db ≡ some o)
          × ((s : Service) → Clash r s → Clash o s)) where
    pub lessened-Apart : Apart db → Apart db'
    unfolding Apart
    lessened-Apart apart i j x y p q clash =
        let x' = before i x p in
        let y' = before j y q in
        apart i j x'.0 y'.0 x'.1 y'.1
          (Clash-sym y'.0 x'.0 (y'.2 x'.0 (Clash-sym x'.0 y (x'.2 y clash))))

  pub create-Apart :
      (s : Service) (db db' : b.services.Db)
      → FreeFor s.id s db
      → b.services.create s db ≡ done db'
      → Apart db
      → Apart db'
  create-Apart s db db' free e =
      placed-Apart s.id s db db' free
        λ k r p. by_key k r (sym (b.services.row-create s db db' k e) ∙ p)
    where
      by_key :
          (k : ℕ) (r : Service)
          → (if s.id == k then some s else b.services.row k db) ≡ some r
          → ((k ≡ s.id) × (r ≡ s)) ⊎ (((k == s.id) ≡ false) × (b.services.row k db ≡ some r))
      by_key k r q = elim (Bool-cases (s.id == k)) [
        | inl here ↦
            let one : some s ≡ some r = rw here at q in inl (sym ((==_iff s.id k).0 here), cc)
        | inr there ↦
            inr (ground arith, (let old : b.services.row k db ≡ some r = rw there at q in old))
      ]

  pub save-Apart :
      (s old : Service) (db db' : b.services.Db)
      → b.services.row s.id db ≡ some old
      → FreeFor s.id (b.services.merge old s) db
      → b.services.save s db ≡ done db'
      → Apart db
      → Apart db'
  save-Apart s old db db' there free e =
      placed-Apart s.id (b.services.merge old s) db db' free
        λ k r p. by_key k r (sym (b.services.row-save s db db' k e) ∙ p)
    where
      by_key :
          (k : ℕ) (r : Service)
          → (if s.id == k
              then merged b.services.merge s (b.services.row k db)
              else b.services.row k db)
            ≡ some r
          → ((k ≡ s.id) × (r ≡ b.services.merge old s))
            ⊎ (((k == s.id) ≡ false) × (b.services.row k db ≡ some r))
      by_key k r q = elim (Bool-cases (s.id == k)) [
        | inl here ↦
            let at_k : b.services.row k db ≡ some old =
              subst (λ i. b.services.row i db ≡ some old) ((==_iff s.id k).0 here) there in
            let one : some (b.services.merge old s) ≡ some r = rw (here, at_k) at q in
            inl (sym ((==_iff s.id k).0 here), cc)
        | inr there' ↦
            inr (ground arith, (let same : b.services.row k db ≡ some r = rw there' at q in same))
      ]

  pub delete-Apart :
      (id : ℕ) (db db' : b.services.Db) → b.delete id db ≡ done db' → Apart db → Apart db'
  delete-Apart id db db' e =
      lessened-Apart db db'
        λ k r p. (r, by_key k r (sym (b.row-delete id db db' k e) ∙ p), λ s c. c)
    where
      by_key :
          (k : ℕ) (r : Service)
          → (if id == k then none else b.services.row k db) ≡ some r
          → b.services.row k db ≡ some r
      by_key k r q = ground arith

  live_slot :
      (slot : Slot) (o : Option Service) (r : Service)
      → with_live_slot slot o ≡ some r
      → (x : Service) × (o ≡ some x) × ((s : Service) → Clash r s → Clash x s)
  unfolding Clash SharesPort SharesRoute route_hosts_from_service
  live_slot slot none r q = ground arith
  live_slot slot (some x) r q =
      (x, refl, λ s c. subst (λ z. Clash z s → Clash x s) (some_eq _ r q) (λ d. d) c)
    where
      some_eq : (y z : Service) → some y ≡ some z → y ≡ z
      some_eq y z h = cc

  pub set_live_slot-Apart :
      (id : ℕ) (slot : Slot) (db db' : b.services.Db)
      → b.set_live_slot id slot db ≡ done db'
      → Apart db
      → Apart db'
  set_live_slot-Apart id slot db db' e =
      lessened-Apart db db' λ k r p. by_key k r (sym (b.row-set_live_slot id slot db db' k e) ∙ p)
    where
      by_key :
          (k : ℕ) (r : Service)
          → (if id == k then with_live_slot slot (b.services.row k db) else b.services.row k db)
            ≡ some r
          → (o : Service) × (b.services.row k db ≡ some o) × ((s : Service) → Clash r s → Clash o s)
      by_key k r q = elim (Bool-cases (id == k)) [
        | inl here ↦ live_slot slot (b.services.row k db) r (rw here at q)
        | inr there ↦ (r, rw there at q, λ s c. c)
      ]
