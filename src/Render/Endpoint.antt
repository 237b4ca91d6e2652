-- ===== src/Render/Endpoint.antt =====
-- `ListenerStatuses` of internal/render/render.go and `GatewayEndpoint` of internal/render/objects.go: where
-- an application sends its mail.
use mailout_operator.Base.{ℕ, ◌||◌, List, [], ◌∷◌, ◌++◌, Option, none, some, ◌==◌, if◌then◌else◌}
use mailout_operator.Text.{Bytes, codes, same, cut, number_from}
use mailout_operator.Config.{Config, Listener, TlsMode, unset}
use mailout_operator.Api.{MailoutGateway}

pub record ListenerStatus : Type 0 where
  pub name : Bytes
  pub port : ℕ
  pub mode : TlsMode

-- `fmt.Sscan` of the digits of a number.
unfoldable pub scan_port : Option (Bytes × Bytes) → ℕ
unfolding number_from
scan_port none = 0
scan_port (some (host, port)) = number_from 0 port

unfoldable pub listener_statuses : List Listener → List ListenerStatus
unfolding scan_port cut
listener_statuses [] = []
listener_statuses (l ∷ ls) =
    record { name = l.name; port = scan_port (cut b':' l.addr); mode = l.mode }
    ∷ listener_statuses ls

-- The TLS mode that is not set stands for no listener.
pub record Endpoint : Type 0 where
  pub host : Bytes
  pub port : ℕ
  pub tls : TlsMode

-- The loop of `GatewayEndpoint`.
unfoldable pub prefer : Endpoint → List ListenerStatus → Endpoint
unfolding same
prefer endpoint [] = endpoint
prefer endpoint (l ∷ ls) =
    prefer
      (if endpoint.port == 0 || same l.name (codes "submission")
        then record endpoint { port = l.port; tls = l.mode }
        else endpoint)
      ls

unfoldable pub gateway_endpoint : {Selector : Type 0} → MailoutGateway Selector → Config → Endpoint
unfolding prefer listener_statuses
gateway_endpoint gw cfg =
    prefer (record { host = gw.name ++ b'.' ∷ gw.namespace ++ codes ".svc"; port = 0; tls = unset })
      (listener_statuses cfg.listeners)
