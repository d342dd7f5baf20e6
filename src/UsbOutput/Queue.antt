-- ===== src/UsbOutput/Queue.antt =====
-- `UsbOutput`: whole messages wait in six slots, and `service` writes the oldest in pieces. What
-- the USB port answers in a call of `service` is an argument.
use tankervision_pdb.Common.{
  ℕ, Bool, true, false, not, ◌+◌, ◌-◌, ◌%◌, ◌||◌, ◌==◌, leb, ltb, if◌then◌else◌, List, [], ◌∷◌,
  length, take, drop, set, get_or, add32, replicate,
}
use tankervision_pdb.UsbOutput.Message.{JsonOutput}

abbrev pub slot_count : ℕ
slot_count = 6

-- `message` is the first `length` bytes of the slot's buffer.
pub record Slot : Type 0 where
  pub message : List ℕ
  pub at : ℕ

abbrev pub empty_slot : Slot
empty_slot = record { message = []; at = 0 }

pub record UsbOutput : Type 0 where
  pub slots : List Slot
  pub head : ℕ
  pub count : ℕ
  pub dropped : ℕ
  pub telemetry_dropped : ℕ
  pub connected : Bool
  pub separator : Bool

abbrev pub new : UsbOutput
new = record {
  slots = replicate slot_count empty_slot;
  head = 0;
  count = 0;
  dropped = 0;
  telemetry_dropped = 0;
  connected = false;
  separator = true;
}

-- What the port answers: whether a host is connected, whether it takes the separator byte, what
-- `availableForWrite` returns (0 for a negative answer, as the code treats both alike), and how
-- many of n bytes `write` takes.
pub record UsbPort : Type 0 where
  pub connected : Bool
  pub takes_separator : Bool
  pub available : ℕ
  pub takes : ℕ → ℕ

unfoldable pub enqueue : JsonOutput → Bool → UsbOutput → Bool × UsbOutput
enqueue message telemetry u =
    if not message.fits || not u.connected || leb (if telemetry then 2 else slot_count) u.count
    then (
      false,
      record u {
        dropped = add32 u.dropped 1;
        telemetry_dropped = if telemetry then add32 u.telemetry_dropped 1 else u.telemetry_dropped;
      },
    )
    else (
      true,
      record u {
        slots =
            set u.slots ((u.head + u.count) % slot_count)
              (record { message = message.bytes; at = 0 });
        count = u.count + 1;
      },
    )

-- The host is gone: what waits is dropped.
unfoldable pub disconnect : UsbOutput → UsbOutput
disconnect u =
    let v =
      if u.connected
      then record u { dropped = add32 u.dropped u.count; count = 0; head = 0 }
      else u in
    record v { connected = false; separator = true }

-- The bytes asked for in one call.
unfoldable pub chunk : UsbPort → Slot → ℕ
chunk p slot =
    let n = length slot.message - slot.at in
    let m = if ltb p.available n then p.available else n in if ltb 256 m then 256 else m

-- A piece of the oldest message. Beside the new state, the bytes that went out.
unfoldable pub write_head : UsbPort → UsbOutput → UsbOutput × List ℕ
unfolding chunk
write_head p u =
    let slot = get_or u.slots u.head empty_slot in
    let n = p.takes (chunk p slot) in
    let slot' = record slot { at = slot.at + n } in
    let v = record u { slots = set u.slots u.head slot' } in
    (
      if slot'.at == length slot.message
          then record v { head = (u.head + 1) % slot_count; count = u.count - 1 }
          else v,
      take n (drop slot.at slot.message),
    )

unfoldable pub service : UsbPort → UsbOutput → UsbOutput × List ℕ
unfolding disconnect write_head
service p u =
    if not p.connected
    then (disconnect u, [])
    else (let v = record u { connected = true } in
        if v.separator
        then (if p.takes_separator then (record v { separator = false }, b'\n' ∷ []) else (v, []))
        else if v.count == 0
        then (v, [])
        else if p.available == 0
        then (v, [])
        else write_head p v)

unfoldable pub room_for_reply : UsbOutput → Bool
room_for_reply u = if u.connected then leb u.count (slot_count - 2) else false
