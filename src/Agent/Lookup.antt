-- ===== src/Agent/Lookup.antt =====
-- What the index of internal/agent/application/containerindex/index.go finds, against a search of the list it
-- was built from, and what its keys say.
use edge_pilot.Base.{
  append_assoc, append-nil, ℕ, ◌≡◌, refl, sym, ◌∙◌, ap, Bool, true, false, false≢true, Option, none,
  some, List, [], ◌∷◌, ◌++◌, keep, if◌then◌else◌, Bool-cases, inl, inr,
}
use edge_pilot.Base.Text.{Text, is_empty, text_eq, text_eq→eq, text_eq_self}
use edge_pilot.Store.Base.{done}
use edge_pilot.Agent.Containers.{ManagedContainer, ManagedContainerIdentity}
use edge_pilot.Agent.Index.{
  identity_key, lookup, put, Grouped, grouped_with, group_from, only_item, find_by_identity,
  refreshed_index,
}
use edge_pilot.Agent.Cleanup.{some_items}

-- Whether a container goes by a key.
abbrev pub goes_by : Text → ManagedContainer → Bool
goes_by key item = text_eq (identity_key item.service_key item.release_id item.slot) key

lookup-put :
    (k key : Text) (item : ManagedContainer) (index : List (Text × List ManagedContainer))
    → lookup key (put k item index)
      ≡ (if text_eq k key then lookup key index ++ (item ∷ []) else lookup key index)
unfolding lookup put
lookup-put k key item [] = refl
lookup-put k key item ((j, items) ∷ rest) = elim (Bool-cases (text_eq j k)) [
  | inl here ↦
      let e : j ≡ k = text_eq→eq j k here in
      elim (Bool-cases (text_eq k key)) [
        | inl same ↦ rw (here, e, same) refl
        | inr other ↦ rw (here, e, other) refl
      ]
  | inr there ↦ elim (Bool-cases (text_eq j key)) [
    | inl same ↦ rw (there, same, different there (text_eq→eq j key same)) refl
    | inr other ↦ rw (there, other) (lookup-put k key item rest)
  ]
]
  where
    different : text_eq j k ≡ false → j ≡ key → text_eq k key ≡ false
    different h e = elim (Bool-cases (text_eq k key)) [
      | inl same ↦
          let q : k ≡ key = text_eq→eq k key same in
          let jk : text_eq j k ≡ true = rw (e, q) (text_eq_self key) in
          absurd (false≢true (sym h ∙ jk))
      | inr other ↦ other
    ]

lookup-grouped :
    (key : Text) (item : ManagedContainer) (g : Grouped)
    → is_empty key ≡ false
    → lookup key (grouped_with item g).index
      ≡ (if goes_by key item then lookup key g.index ++ (item ∷ []) else lookup key g.index)
unfolding grouped_with
lookup-grouped key item g h =
    elim (Bool-cases (is_empty (identity_key item.service_key item.release_id item.slot))) [
      | inr there ↦
          rw there
            (lookup-put (identity_key item.service_key item.release_id item.slot) key item g.index)
      | inl gone ↦
          rw (gone, different (identity_key item.service_key item.release_id item.slot) gone) refl
    ]
  where
    different : (k : Text) → is_empty k ≡ true → text_eq k key ≡ false
    different k e = elim (Bool-cases (text_eq k key)) [
      | inl same ↦ absurd (false≢true (sym h ∙ (ap is_empty (sym (text_eq→eq k key same)) ∙ e)))
      | inr other ↦ other
    ]

lookup-group :
    (key : Text) (items : List (Option ManagedContainer)) (g : Grouped)
    → is_empty key ≡ false
    → lookup key (group_from g items).index
      ≡ lookup key g.index ++ keep (goes_by key) (some_items items)
unfolding group_from keep
lookup-group key [] g h = sym (append-nil (lookup key g.index))
lookup-group key (none ∷ items) g h = lookup-group key items g h
lookup-group key (some item ∷ items) g h =
    lookup-group key items (grouped_with item g) h
    ∙ (ap (λ l. l ++ keep (goes_by key) (some_items items)) (lookup-grouped key item g h)
        ∙ elim (Bool-cases (goes_by key item)) [
          | inl mine ↦ rw mine (
              append_assoc (lookup key g.index) (item ∷ []) (keep (goes_by key) (some_items items)))
          | inr other ↦ rw other refl
        ])

-- Right after a refresh the index answers for an identity as a search of the listed containers for its key would: the one
-- container that goes by the key, none where there is none or the identity has no key, and a conflict where
-- there are several.
pub find_by_identity_refines :
    (identity : ManagedContainerIdentity) (now duration : ℕ)
    (items : List (Option ManagedContainer))
    → let key = identity_key identity.service_key identity.release_id identity.slot in
      find_by_identity identity (refreshed_index now duration items) ≡ (
        if is_empty key
        then done none
        else only_item identity (keep (goes_by key) (some_items items)))
unfolding find_by_identity refreshed_index lookup
find_by_identity_refines identity now duration items =
    elim (Bool-cases
      (is_empty (identity_key identity.service_key identity.release_id identity.slot))) [
        | inl none_ ↦ rw none_ refl
        | inr some_ ↦ rw some_ (
            ap (only_item identity) (
              lookup-group (identity_key identity.service_key identity.release_id identity.slot)
                items (record { index = []; conflicts = 0 }) some_))
      ]
