-- ===== src/Connection.antt =====
-- CheckConnectionToHost of internal/network/connection.go. The proxy library, the dialing and HTTP are
-- parameters; the connection's closing is left out.
use eks_hybrid.Base.{
  ℕ, ◌==◌, String, ◌<>◌, str_eq, if◌then◌else◌, ◌&&◌, Option, none, some, errorf, Result,
}
use eks_hybrid.Machine.{Exec, pure, lift, ◌>>=◌, ◌>>◌, wrapping, guard}

-- url.URL: its scheme, host name and port
pub record Url : Type 0 where
  pub scheme : String
  pub hostname : String
  pub port : String

pub record Dialer : Type 0 where
  -- the host of the proxy for a URL, if one is used
  pub proxy_for : Url → Result (Option String)
  pub dial : String → Exec Unit
  -- writing a CONNECT request for the target, and the status of the response
  pub write_connect : String → Exec Unit
  pub read_status : Exec ℕ

abbrev pub port_of : Url → String
port_of u = if str_eq u.port "" && str_eq u.scheme "https" then "443" else u.port

abbrev pub target_of : Url → String
target_of u = u.hostname <> ":" <> port_of u

abbrev pub host_or : Option String → String → String
host_or none target = target
host_or (some proxy) target = proxy

module _ (d : Dialer) where
  -- what is left to do on the connection: nothing, or the tunnel through the proxy
  abbrev pub tunnel : Option String → String → Exec Unit
  tunnel none target = pure tt
  tunnel (some proxy) target = do
    wrapping "proxy: writing CONNECT request" (d.write_connect target)
    status ← wrapping "proxy: reading CONNECT response" d.read_status
    guard (status == 200) (errorf "proxy: returned status")

  unfoldable pub check_connection_to_host : Url → Exec Unit
  check_connection_to_host u = do
    proxy ← wrapping "getting proxy URL" (lift (d.proxy_for u))
    wrapping ("dialing " <> host_or proxy (target_of u)) (d.dial (host_or proxy (target_of u)))
    tunnel proxy (target_of u)
