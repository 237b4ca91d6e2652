-- ===== src/Envelope.antt =====
-- `Message` of internal/gateway/relay.go: one submission on its way through the gateway.
use mailout_operator.Base.{List}
use mailout_operator.Text.{Bytes}
use mailout_operator.Spool.{Spool}

pub record Envelope : Type 0 where
  pub from : Bytes
  pub to : List Bytes
  pub body : Spool
  pub account : Bytes
