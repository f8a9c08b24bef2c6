-- ===== src/Catalog/Routes.antt =====
-- Hosts, paths and keys as the catalogue normalises and checks them:
-- internal/servicecatalog/application/service.go and proxy_config.go. Letters are those of ASCII.
use edge_pilot.Base.{
  ℕ, ◌+◌, Bool, true, false, ◌&&◌, ◌||◌, not, List, [], ◌∷◌, ◌++◌, ◌==◌, leb, if◌then◌else◌, length,
  any, map,
}
use edge_pilot.Base.Text.{Text, codes, is_empty, trim_space, text_eq}
use edge_pilot.Store.Effect.{Result, ok, err, bad_request}
use edge_pilot.Model.Service.{Service}
use mathlib.Core.List.{reverse}

unfoldable pub lower : ℕ → ℕ
lower c = if leb b'A' c && leb c b'Z' then c + 32 else c

unfoldable pub normalize_route_host : Text → Text
unfolding lower
normalize_route_host value = map lower (trim_space value)

-- `strings.TrimRight(s, "/")`.
unfoldable pub without_slashes : Text → Text
without_slashes [] = []
without_slashes (c ∷ s) =
    let rest = without_slashes s in if (c == b'/') && is_empty rest then [] else c ∷ rest

unfoldable pub starts_with_slash : Text → Bool
starts_with_slash [] = false
starts_with_slash (c ∷ s) = c == b'/'

unfoldable pub or_slash : Text → Text
or_slash path = if is_empty path then codes "/" else path

unfoldable pub normalize_route_path_prefix : Text → Text
unfolding without_slashes starts_with_slash or_slash
normalize_route_path_prefix value =
    let path = trim_space value in
    if is_empty path
    then codes "/"
    else or_slash (without_slashes (if starts_with_slash path then path else b'/' ∷ path))

-- Whether a byte may not stand in a prefix of paths.
unfoldable pub is_refused_byte : ℕ → Bool
is_refused_byte c =
    leb c 0x1f || (c == 0x7f) || (c == b' ') || (c == b';') || (c == b'?') || (c == b'#')

unfoldable pub validate_route_path_prefix : Text → Result (Unit {0})
unfolding is_refused_byte
validate_route_path_prefix path =
    if any is_refused_byte path then err (bad_request (codes "routePathPrefix 非法")) else ok tt

unfoldable pub is_alphanumeric : ℕ → Bool
is_alphanumeric c = (leb b'a' c && leb c b'z') || (leb b'0' c && leb c b'9')

unfoldable pub all_of : (ℕ → Bool) → Text → Bool
all_of p [] = true
all_of p (c ∷ s) = p c && all_of p s

unfoldable pub first_is : (ℕ → Bool) → Text → Bool
first_is p [] = false
first_is p (c ∷ s) = p c

-- `^[a-z0-9](?:[a-z0-9-]{0,n}[a-z0-9])?$` for the length n + 2.
unfoldable pub is_label : ℕ → Text → Bool
unfolding is_alphanumeric all_of first_is
is_label longest s =
    leb (length s) longest
    && first_is is_alphanumeric s
    && first_is is_alphanumeric (reverse s)
    && all_of (λ c. is_alphanumeric c || (c == b'-')) s

unfoldable pub normalize_service_key : Text → Result Text
unfolding is_label
normalize_service_key value =
    if is_label 24 (trim_space value)
    then ok (trim_space value)
    else err (bad_request (codes "serviceKey 非法"))

unfoldable pub has_text : Text → List Text → Bool
has_text t ts = any (text_eq t) ts

-- The closure `add`: a host that is new goes to the end.
unfoldable pub add_host : Text → List Text → List Text
unfolding has_text
add_host value hosts =
    let host = normalize_route_host value in
    if is_empty host || has_text host hosts then hosts else hosts ++ (host ∷ [])

unfoldable pub add_hosts : List Text → List Text → List Text
unfolding add_host
add_hosts [] hosts = hosts
add_hosts (h ∷ hs) hosts = add_hosts hs (add_host h hosts)

unfoldable pub primary_of : Text → List Text → Result (Text × List Text)
primary_of primary [] = err (bad_request (codes "routeHost 必填"))
primary_of primary (h ∷ hs) = ok (if is_empty primary then h else primary, h ∷ hs)

unfoldable pub normalize_route_hosts : Text → List Text → Result (Text × List Text)
unfolding add_hosts primary_of normalize_route_host
normalize_route_hosts primary hosts =
    primary_of (normalize_route_host primary)
      (add_hosts hosts (add_host (normalize_route_host primary) []))

unfoldable pub hosts_of_result : Result (Text × List Text) → List Text
hosts_of_result (ok (primary, hosts)) = hosts
hosts_of_result (err e) = []

unfoldable pub route_hosts_from_service : Service → List Text
unfolding hosts_of_result normalize_route_hosts
route_hosts_from_service s = hosts_of_result (normalize_route_hosts s.route_host s.route_hosts)

unfoldable pub put_header : Text → Text → List (Text × Text) → List (Text × Text)
put_header key value [] = (key, value) ∷ []
put_header key value ((k, v) ∷ rest) =
    if text_eq k key then (key, value) ∷ rest else (k, v) ∷ put_header key value rest

-- The headers in the order in which the map is read.
unfoldable pub normalize_http_headers : List (Text × Text) → List (Text × Text) → List (Text × Text)
unfolding put_header
normalize_http_headers out [] = out
normalize_http_headers out ((key, value) ∷ rest) =
    normalize_http_headers
      (if is_empty (trim_space key) || is_empty (trim_space value)
        then out
        else put_header (trim_space key) (trim_space value) out)
      rest

unfoldable pub normalize_network_aliases : List Text → List Text → Result (List Text)
unfolding is_label has_text
normalize_network_aliases out [] = ok out
normalize_network_aliases out (item ∷ rest) =
    let skip = normalize_network_aliases out rest in
    let added = normalize_network_aliases (out ++ (trim_space item ∷ [])) rest in
    if is_empty (trim_space item)
    then skip
    else if not (is_label 63 (trim_space item))
    then err (bad_request (codes "networkAliases 非法"))
    else if has_text (trim_space item) out
    then skip
    else added
