-- ===== src/Catalog/Ports.antt =====
-- The ports of a service on its agent's host, and the checks of numbers, of
-- internal/servicecatalog/application/service.go.
use edge_pilot.Base.{Bool, ◌&&◌, ◌||◌, not, List, [], ◌∷◌, ◌++◌, if◌then◌else◌, any, map}
use edge_pilot.Base.Int.{ℤ, pos, leb_ℤ, ltb_ℤ, eqb_ℤ}
use edge_pilot.Base.Text.{Text, codes, is_empty, trim_space}
use edge_pilot.Store.Effect.{Result, ok, err, bad_request}
use edge_pilot.Model.Release.{PublishedPort}
use edge_pilot.Model.Service.{Service, TcpProxyPort}

unfoldable pub is_port : ℤ → Bool
is_port p = not (leb_ℤ p (pos 0) || ltb_ℤ (pos 65535) p)

unfoldable pub is_reserved_proxy_port : ℤ → Bool
is_reserved_proxy_port p = eqb_ℤ p (pos 80) || eqb_ℤ p (pos 5555) || eqb_ℤ p (pos 19999)

unfoldable pub has_port : ℤ → List ℤ → Bool
has_port p ps = any (eqb_ℤ p) ps

unfoldable pub published_error : List ℤ → PublishedPort → Result (Unit {0})
unfolding is_port is_reserved_proxy_port has_port
published_error seen item =
    if not (is_port item.host_port)
    then err (bad_request (codes "publishedPorts.hostPort 非法"))
    else if not (is_port item.container_port)
    then err (bad_request (codes "publishedPorts.containerPort 非法"))
    else if is_reserved_proxy_port item.host_port
    then err (bad_request (codes "publishedPorts.hostPort 与代理保留端口冲突"))
    else if has_port item.host_port seen
    then err (bad_request (codes "publishedPorts.hostPort 重复"))
    else ok tt

unfoldable pub and_then : Result (Unit {0}) → Result (Unit {0}) → Result (Unit {0})
and_then (ok _) r = r
and_then (err e) r = err e

-- `seen` is what the loop has gone through.
unfoldable pub validate_published_from : List ℤ → List PublishedPort → Result (Unit {0})
unfolding published_error and_then
validate_published_from seen [] = ok tt
validate_published_from seen (item ∷ rest) =
    and_then (published_error seen item) (validate_published_from (item.host_port ∷ seen) rest)

unfoldable pub validate_published_ports : List PublishedPort → Result (Unit {0})
unfolding validate_published_from
validate_published_ports items = validate_published_from [] items

unfoldable pub tcp_error : List ℤ → TcpProxyPort → Result (Unit {0})
unfolding is_port is_reserved_proxy_port has_port
tcp_error seen item =
    if not (is_port item.listen_port)
    then err (bad_request (codes "tcpProxyPorts.listenPort 非法"))
    else if not (is_port item.container_port)
    then err (bad_request (codes "tcpProxyPorts.containerPort 非法"))
    else if leb_ℤ item.idle_timeout_second (pos 0)
    then err (bad_request (codes "tcpProxyPorts.idleTimeoutSecond 非法"))
    else if is_reserved_proxy_port item.listen_port
    then err (bad_request (codes "tcpProxyPorts.listenPort 与代理保留端口冲突"))
    else if has_port item.listen_port seen
    then err (bad_request (codes "tcpProxyPorts.listenPort 重复"))
    else ok tt

unfoldable pub validate_tcp_from : List ℤ → List TcpProxyPort → Result (Unit {0})
unfolding tcp_error and_then
validate_tcp_from seen [] = ok tt
validate_tcp_from seen (item ∷ rest) =
    and_then (tcp_error seen item) (validate_tcp_from (item.listen_port ∷ seen) rest)

unfoldable pub validate_tcp_proxy_ports : List TcpProxyPort → Result (Unit {0})
unfolding validate_tcp_from
validate_tcp_proxy_ports items = validate_tcp_from [] items

abbrev pub host_ports : List PublishedPort → List ℤ
host_ports items = map (λ (p : PublishedPort). p.host_port) items

abbrev pub listen_ports : List TcpProxyPort → List ℤ
listen_ports items = map (λ (p : TcpProxyPort). p.listen_port) items

-- Whether two lists of ports meet.
unfoldable pub meets : List ℤ → List ℤ → Bool
unfolding has_port
meets ps qs = any (λ p. has_port p qs) ps

unfoldable pub validate_host_port_sets : List PublishedPort → List TcpProxyPort → Result (Unit {0})
unfolding meets
validate_host_port_sets published tcp =
    if meets (listen_ports tcp) (host_ports published)
    then err (bad_request (codes "tcpProxyPorts.listenPort 与 publishedPorts.hostPort 冲突"))
    else ok tt

unfoldable pub validate_container_port : ℤ → Result (Unit {0})
unfolding is_port
validate_container_port port =
    if is_port port then ok tt else err (bad_request (codes "containerPort 非法"))

unfoldable pub validate_resource_limits : ℤ → ℤ → Result (Unit {0})
validate_resource_limits cpu memory =
    if ltb_ℤ cpu (pos 0)
    then err (bad_request (codes "cpuLimitCores 非法"))
    else if ltb_ℤ memory (pos 0)
    then err (bad_request (codes "memoryLimitMB 非法"))
    else ok tt

unfoldable pub validate_scheduler_sdk_config : ℤ → Text → Result (Unit {0})
validate_scheduler_sdk_config port group =
    if ltb_ℤ port (pos 0) || ltb_ℤ (pos 65535) port
    then err (bad_request (codes "schedulerSdkPort 非法"))
    else if ltb_ℤ (pos 0) port && is_empty (trim_space group)
    then err (bad_request (codes "schedulerExecutorGroup 必填"))
    else ok tt

-- The ports of the host that a service takes.
abbrev pub ports_of : Service → List ℤ
ports_of s = host_ports s.published_ports ++ listen_ports s.tcp_proxy_ports
