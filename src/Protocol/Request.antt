-- ===== src/Protocol/Request.antt =====
-- `Protocol::Request`, the reply codes, and `fingerprint`.
use tankervision_pdb.Common.{
  ℕ, Bool, false, if◌then◌else◌, List, [], ◌∷◌, replicate, u8, mul32, shr, bit_xor,
}

pub data Command : Type 0 where
  status pong shutdown_ack shutdown_ready port_set reboot unknown : Command

-- The enumerator's value.
unfoldable pub command_index : Command → ℕ
command_index status = 0
command_index pong = 1
command_index shutdown_ack = 2
command_index shutdown_ready = 3
command_index port_set = 4
command_index reboot = 5
command_index unknown = 6

-- `boot_id` and `port` are the arrays, their padding included.
pub record Request : Type 0 where
  pub command : Command
  pub id : ℕ
  pub ping_id : ℕ
  pub shutdown_id : ℕ
  pub boot_id : List ℕ
  pub port : List ℕ
  pub enabled : Bool

abbrev pub empty_request : Request
empty_request = record {
  command = unknown;
  id = 0;
  ping_id = 0;
  shutdown_id = 0;
  boot_id = replicate 9 0;
  port = replicate 24 0;
  enabled = false;
}

-- The string literals that replies carry.
pub data Code : Type 0 where
  ok accepted bad_json bad_request unsupported_version unknown_command id_conflict : Code
  stale_boot stale_ping stale_shutdown shutting_down invalid_port reserved_port : Code
  not_ready busy hardware_error : Code

-- FNV-1a, a byte at a time.
unfoldable pub mix_byte : ℕ → ℕ → ℕ
mix_byte hash b = mul32 (bit_xor hash (u8 b)) 16777619

-- The four bytes of a word, the lowest first.
unfoldable pub mix : ℕ → ℕ → ℕ
unfolding mix_byte
mix hash v =
    mix_byte (mix_byte (mix_byte (mix_byte hash (shr v 0)) (shr v 8)) (shr v 16)) (shr v 24)

unfoldable pub mix_bytes : ℕ → List ℕ → ℕ
unfolding mix_byte
mix_bytes hash [] = hash
mix_bytes hash (b ∷ bs) = mix_bytes (mix_byte hash b) bs

unfoldable pub fingerprint : Request → ℕ
unfolding mix mix_bytes command_index
fingerprint r =
    let a = mix 2166136261 (command_index r.command) in
    let b = mix (mix (mix a r.id) r.ping_id) r.shutdown_id in
    let c = mix b (if r.enabled then 1 else 0) in mix_bytes (mix_bytes c r.boot_id) r.port
