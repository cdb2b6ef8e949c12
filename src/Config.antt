-- ===== src/Config.antt =====
-- internal/config/config.go: the settings of the sender and of the receiver, and their defaults.
pub mod Checks
pub mod Load
pub mod Ranges
pub mod Valid
pub mod Loaded
use multicast_bridge.Common.{ℕ, List, [], Bool, true, false}
use multicast_bridge.Common.Int.{ℤ, pos}
use multicast_bridge.Common.Text.{text}

pub record LogConfig : Type 0 where
  pub level : List ℕ
  pub file : List ℕ

pub record FecConfig : Type 0 where
  pub enabled : Bool
  pub k : ℤ
  pub n : ℤ

pub record EncryptionConfig : Type 0 where
  pub enabled : Bool
  pub passphrase : List ℕ
  pub iterations : ℤ

pub record KeepAliveConfig : Type 0 where
  pub interval : ℤ
  pub timeout_multiplier : ℤ

pub record SendMulticast : Type 0 where
  pub address : List ℕ
  pub port : ℤ
  pub interface : List ℕ
  pub source_address : List ℕ

pub record SendUnicast : Type 0 where
  pub control_port : ℤ
  pub data_port : ℤ
  pub max_sessions : ℤ

pub record SendConfig : Type 0 where
  pub multicast : SendMulticast
  pub unicast : SendUnicast
  pub keep_alive : KeepAliveConfig
  pub fec : FecConfig
  pub encryption : EncryptionConfig
  pub log : LogConfig
  pub stats_interval : ℤ
  pub mtu : ℤ
  pub dscp : ℤ
  pub control_dscp : ℤ
  pub sender_data_port : ℤ
  pub socket_buffer_size : ℤ

pub record RecvSender : Type 0 where
  pub address : List ℕ
  pub control_port : ℤ
  pub data_port : ℤ

pub record RecvMulticast : Type 0 where
  pub address : List ℕ
  pub port : ℤ
  pub interface : List ℕ
  pub ttl : ℤ
  pub dscp : ℤ
  pub source_address : List ℕ

pub record RecvFec : Type 0 where
  pub enabled : Bool
  pub test : Bool

pub record RecvConfig : Type 0 where
  pub sender : RecvSender
  pub multicast : RecvMulticast
  pub keep_alive : KeepAliveConfig
  pub fec : RecvFec
  pub encryption : EncryptionConfig
  pub log : LogConfig
  pub stats_interval : ℤ
  pub control_dscp : ℤ
  pub unicast_bind_port : ℤ
  pub socket_buffer_size : ℤ

abbrev default_keep_alive : KeepAliveConfig
default_keep_alive = record { interval = pos 1; timeout_multiplier = pos 3 }

abbrev default_encryption : EncryptionConfig
default_encryption = record { enabled = false; passphrase = []; iterations = pos 600_000 }

abbrev pub new_default_send_config : SendConfig
new_default_send_config = record {
  multicast = record {
    address = text "239.0.0.1";
    port = pos 5004;
    interface = [];
    source_address = [];
  };
  unicast = record { control_port = pos 5100; data_port = pos 5101; max_sessions = pos 8 };
  keep_alive = default_keep_alive;
  fec = record { enabled = false; k = pos 8; n = pos 10 };
  encryption = default_encryption;
  log = record { level = text "INFO"; file = text "send.log" };
  stats_interval = pos 10;
  mtu = pos 1500;
  dscp = pos 0;
  control_dscp = pos 0;
  sender_data_port = pos 0;
  socket_buffer_size = pos 2_097_152;
}

abbrev pub new_default_recv_config : RecvConfig
new_default_recv_config = record {
  sender = record { address = text "127.0.0.1"; control_port = pos 5100; data_port = pos 5101 };
  multicast = record {
    address = text "239.0.0.1";
    port = pos 5004;
    interface = [];
    ttl = pos 1;
    dscp = pos 0;
    source_address = [];
  };
  keep_alive = default_keep_alive;
  fec = record { enabled = false; test = false };
  encryption = default_encryption;
  log = record { level = text "INFO"; file = text "recv.log" };
  stats_interval = pos 10;
  control_dscp = pos 0;
  unicast_bind_port = pos 0;
  socket_buffer_size = pos 2_097_152;
}
