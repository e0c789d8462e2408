-- ===== src/Capability.antt =====
-- internal/node/capability.go: the claims of a node capability, and what a verifier expects.
-- An operation is the Go string itself, since a decoded token may hold any.
pub mod Claims
pub mod Tokens
pub mod Amounts
pub mod Validity
pub mod Acceptance
pub mod Authority
pub mod Parts
pub mod Tickets
use brezel.Common.{ℕ, ◌*◌, List, ℤ, Text, codes}

pub data Error : Type 0 where
  not_initialized malformed invalid unknown_key invalid_signature not_yet_valid expired : Error
  mismatch no_random no_encoding bad_identity bad_key no_keys : Error

abbrev pub capability_version : ℕ
capability_version = 1

-- In seconds
abbrev pub max_capability_ttl : ℕ
max_capability_ttl = 30

abbrev pub max_capability_size : ℕ
max_capability_size = 8192

abbrev pub max_capability_bytes : ℕ
max_capability_bytes = 1073741824

abbrev pub max_operation_millis : ℕ
max_operation_millis = 86400000

abbrev pub run_command : Text
run_command = codes "command.run"

abbrev pub read_file : Text
read_file = codes "file.read"

abbrev pub write_file : Text
write_file = codes "file.write"

abbrev pub proxy_port : Text
proxy_port = codes "port.proxy"

abbrev pub web_socket : Text
web_socket = codes "port.websocket"

pub record CapabilityBounds : Type 0 where
  pub max_duration_millis : ℤ
  pub max_request_bytes : ℤ
  pub max_response_bytes : ℤ
  pub port : ℕ

pub record CapabilityHeader : Type 0 where
  pub type : Text
  pub algorithm : Text
  pub key_id : Text

pub record CapabilityClaims : Type 0 where
  pub version : ℤ
  pub key_id : Text
  pub issuer : Text
  pub audience : Text
  pub node_id : Text
  pub boot_epoch : Text
  pub route_id : Text
  pub generation : ℕ
  pub project_id : Text
  pub sandbox_id : Text
  pub jti : Text
  pub operations : List Text
  pub request_digest : Text
  pub issued_at : ℤ
  pub not_before : ℤ
  pub expires_at : ℤ
  pub bounds : CapabilityBounds

pub record CapabilityExpected : Type 0 where
  pub audience : Text
  pub node_id : Text
  pub boot_epoch : Text
  pub route_id : Text
  pub generation : ℕ
  pub project_id : Text
  pub sandbox_id : Text
  pub operation : Text
  pub request_digest : Text
