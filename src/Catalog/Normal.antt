-- ===== src/Catalog/Normal.antt =====
-- Prefixes of paths that are normalised and valid are normalised once and for all:
-- internal/servicecatalog/application/service.go and proxy_config.go.
use edge_pilot.Base.{
  ℕ, ◌≡◌, refl, true, false, false≢true, ◌&&◌, [], ◌∷◌, ◌==◌, if◌then◌else◌, Bool-cases, inl, inr,
  arith,
}
use edge_pilot.Base.Text.{
  Text, is_empty, is_space, is_space_of_two, is_space_of_three, space_width, space_width_back,
  trim_from, trim_space, ends_in_space,
}
use edge_pilot.Catalog.Routes.{
  without_slashes, starts_with_slash, or_slash, normalize_route_path_prefix,
}
use mathlib.Core.List.{reverse, reverse-reverse}

trim_from-still : (width : Text → ℕ) (s : Text) → width s ≡ 0 → trim_from width 0 s ≡ s
unfolding trim_from
trim_from-still width [] h = refl
trim_from-still width (c ∷ s) h = rw h refl

slash_width : (s : Text) → starts_with_slash s ≡ true → space_width s ≡ 0
unfolding starts_with_slash space_width is_space is_space_of_two is_space_of_three
slash_width [] h = refl
slash_width (a ∷ []) h = ground arith
slash_width (a ∷ b ∷ []) h = ground arith
slash_width (a ∷ b ∷ c ∷ s) h = ground arith

trim_space-still :
    (s : Text) → starts_with_slash s ≡ true → ends_in_space s ≡ false → trim_space s ≡ s
unfolding trim_space ends_in_space
trim_space-still s h e =
    let last : space_width_back (reverse s) ≡ 0 = ground arith in
    rw
      (
        trim_from-still space_width s (slash_width s h),
        trim_from-still space_width_back (reverse s) last,
      )
      (reverse-reverse s)

without_slashes_twice : (s : Text) → without_slashes (without_slashes s) ≡ without_slashes s
unfolding without_slashes
without_slashes_twice [] = refl
without_slashes_twice (c ∷ s) = elim (Bool-cases ((c == b'/') && is_empty (without_slashes s))) [
  | inl gone ↦ rw gone refl
  | inr stays ↦ rw (stays, without_slashes_twice s, stays) refl
]

-- What `normalize_route_path_prefix` makes of a path that has begun with a slash.
trimmed_once :
    (s : Text)
    → starts_with_slash s ≡ true
    → (starts_with_slash (or_slash (without_slashes s)) ≡ true)
      × (or_slash (without_slashes (or_slash (without_slashes s))) ≡ or_slash (without_slashes s))
      × (is_empty (or_slash (without_slashes s)) ≡ false)
unfolding or_slash without_slashes starts_with_slash is_empty
trimmed_once [] h = absurd (false≢true h)
trimmed_once (c ∷ s) h =
    let twice = without_slashes_twice (c ∷ s) in
    elim (Bool-cases ((c == b'/') && is_empty (without_slashes s))) [
      | inl gone ↦ rw gone (refl, refl, refl)
      | inr stays ↦ rw (stays, without_slashes_twice s, stays) (h, refl, refl)
    ]

slashed : (s : Text) → starts_with_slash (if starts_with_slash s then s else b'/' ∷ s) ≡ true
unfolding starts_with_slash
slashed s = elim (Bool-cases (starts_with_slash s)) [
  | inl yes_ ↦ rw yes_ yes_
  | inr no_ ↦ rw no_ refl
]

-- A result of the normalisation begins with a slash, and has no slash to lose.
Settled : Text → Type 0
Settled n = (starts_with_slash n ≡ true) × (or_slash (without_slashes n) ≡ n) × (is_empty n ≡ false)

settled : (v : Text) → Settled (normalize_route_path_prefix v)
unfolding normalize_route_path_prefix Settled
settled v = elim (Bool-cases (is_empty (trim_space v))) [
  | inl none_ ↦
      rw none_ (unfold or_slash without_slashes starts_with_slash is_empty in (refl, refl, refl))
  | inr some_ ↦ rw some_ (
      trimmed_once (if starts_with_slash (trim_space v) then trim_space v else b'/' ∷ trim_space v)
        (slashed (trim_space v)))
]

pub normalized_nonempty : (v : Text) → is_empty (normalize_route_path_prefix v) ≡ false
unfolding Settled
normalized_nonempty v = (settled v).2

again : (n : Text) → Settled n → ends_in_space n ≡ false → normalize_route_path_prefix n ≡ n
unfolding normalize_route_path_prefix Settled
again n s solid = rw (trim_space-still n s.0 solid, s.2, s.0) s.1

-- A prefix of paths that the catalogue has normalised, and that does not end in white space, stays as it is when
-- it is normalised again, as the checks of other services and the proxy's configuration do.
pub normalize_route_path_prefix_twice :
    (v : Text)
    → ends_in_space (normalize_route_path_prefix v) ≡ false
    → normalize_route_path_prefix (normalize_route_path_prefix v) ≡ normalize_route_path_prefix v
normalize_route_path_prefix_twice v solid = again (normalize_route_path_prefix v) (settled v) solid
