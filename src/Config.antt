-- ===== src/Config.antt =====
-- options.go and events.go: the configuration and the event types.
use cosnet.Prelude.{ℕ}
use cosnet.Prelude.Int.{ℤ, pos}

-- int32 fields are integers; `write_chan_size` is the capacity of a channel.
pub record Config : Type 0 where
  pub heartbeat : ℤ
  pub write_chan_size : ℕ
  pub connect_max_size : ℤ
  pub socket_connect_time : ℤ
  pub socket_replaced_time : ℤ
  pub client_reconnect_max : ℤ
  pub client_reconnect_time : ℤ
  pub client_reconnect_max_delay : ℤ

-- `Options`
abbrev pub default_config : Config
default_config = record {
  heartbeat = pos 10;
  write_chan_size = 100;
  connect_max_size = pos 100000;
  socket_connect_time = pos 30;
  socket_replaced_time = pos 5;
  client_reconnect_max = pos 10;
  client_reconnect_time = pos 1000;
  client_reconnect_max_delay = pos 30000;
}

pub data EventType : Type 0 where
  event_error event_heartbeat event_message event_connected : EventType
  event_reconnected event_disconnect event_authentication event_replaced : EventType
