-- ===== src/SupercapTransfer/State.antt =====
-- The object `SupercapTransfer`, its constants, and its observers.
use tankervision_pdb.Common.{
  ℕ, Bool, true, false, not, Floats, ◌-◌, ◌*◌, ◌&&◌, ◌||◌, leb, if◌then◌else◌, List, sub32, codes,
}
use tankervision_pdb.BoardControl.{Status, BoardControl}

pub data TransferState : Type 0 where
  stopped charging ready backup returned fault cutoff : TransferState

pub data CutoffReason : Type 0 where
  no_reason main_timeout low_voltage : CutoffReason

-- The texts of `error_`; `of_board` is the driver's own.
pub data TransferError : Type 0 where
  no_error of_board budget_missing source_invalid start_voltage start_thermistor : TransferError
  loss_shutdown loss_unarmed invalid_voltage overvoltage backed_pg_fell backup_pg_lost :
      TransferError
  enables_changed thermistor stat_low charge_timeout stop_unverified : TransferError

abbrev pub is_no_error : TransferError → Bool
is_no_error no_error = true
is_no_error _ = false

abbrev pub is_fault : TransferState → Bool
is_fault fault = true
is_fault _ = false

abbrev pub is_cutoff : TransferState → Bool
is_cutoff cutoff = true
is_cutoff _ = false

abbrev pub is_charging : TransferState → Bool
is_charging charging = true
is_charging _ = false

abbrev pub is_ready : TransferState → Bool
is_ready ready = true
is_ready _ = false

abbrev pub sample_ms : ℕ
sample_ms = 20

abbrev pub charge_timeout_ms : ℕ
charge_timeout_ms = 2 * 60 * 60 * 1000

abbrev pub plateau_ms : ℕ
plateau_ms = 30000

abbrev pub stat_low_ms : ℕ
stat_low_ms = 100

abbrev pub decay_ms : ℕ
decay_ms = 100

abbrev pub main_return_grace_ms : ℕ
main_return_grace_ms = 20000

abbrev pub ts_min_mv : ℕ
ts_min_mv = 1300

abbrev pub ts_max_mv : ℕ
ts_max_mv = 2350

-- Boost and CE; the real thermistor, and the low current.
abbrev pub charging_outputs : ℕ
charging_outputs = 0x03

abbrev pub state_name : TransferState → List ℕ
state_name stopped = codes "STOPPED"
state_name charging = codes "CHARGING"
state_name ready = codes "READY"
state_name backup = codes "BACKUP"
state_name returned = codes "RETURNED"
state_name fault = codes "FAULT"
state_name cutoff = codes "CUTOFF"

abbrev pub cutoff_reason_name : CutoffReason → List ℕ
cutoff_reason_name no_reason = codes "NONE"
cutoff_reason_name main_timeout = codes "MAIN_TIMEOUT"
cutoff_reason_name low_voltage = codes "LOW_VOLTAGE"

module _ (F : Floats) where
  open F use {Float, lit}

  abbrev pub arm_v : Float
  arm_v = lit 10 0

  abbrev pub cutoff_v : Float
  cutoff_v = lit 7 0

  abbrev pub trip_v : Float
  trip_v = lit 21 0

  abbrev pub full_min_v : Float
  full_min_v = lit 20 0

  abbrev pub full_max_v : Float
  full_max_v = lit 2095 2

  abbrev pub plateau_span_v : Float
  plateau_span_v = lit 15 2

  abbrev pub zero_v : Float
  zero_v = lit 0 0

  unfoldable pub main_valid : Status F → Bool
  main_valid t = t.main_selected && (t.usb_pg || t.dc_pg)

  pub record SupercapTransfer : Type 0 where
    pub state : TransferState
    pub cutoff_reason : CutoffReason
    pub last_status : Status F
    pub error : TransferError
    pub status_valid : Bool
    pub monitoring : Bool
    pub backup_armed : Bool
    pub backup_confirmed : Bool
    pub reached_ready : Bool
    pub loss_active : Bool
    pub backup_ended : Bool
    pub is_stopped : Bool
    pub cleanup_ok : Bool
    pub shutdown_pending : Bool
    pub ce_off_verified : Bool
    pub plateau : Bool
    pub stat_low_seen : Bool
    pub started_at : ℕ
    pub last_sample_at : ℕ
    pub max_gap_ms : ℕ
    pub samples : ℕ
    pub first_loss_at : ℕ
    pub backup_confirmed_at : ℕ
    pub backup_ended_at : ℕ
    pub source_loss_count : ℕ
    pub ce_off_at : ℕ
    pub plateau_at : ℕ
    pub stat_low_at : ℕ
    pub plateau_min : Float
    pub plateau_max : Float

  module _ (B : BoardControl F) where
    open B use {World}

    pub record System : Type 0 where
      pub transfer : SupercapTransfer
      pub world : World

    abbrev pub ask : {A : Type 0} → (World → A × World) → System → A × System
    ask f s = let (a, w) = f s.world in (a, record s { world = w })

    abbrev pub update : (SupercapTransfer → SupercapTransfer) → System → System
    update f s = record s { transfer = f s.transfer }

    -- The observers read the clock only while they need it.
    unfoldable pub backup_duration_ms : System → ℕ × System
    backup_duration_ms s =
        let t = s.transfer in
        if not t.backup_confirmed
        then (0, s)
        else if t.backup_ended
        then (sub32 t.backup_ended_at t.backup_confirmed_at, s)
        else (let (now, u) = ask B.millis s in (sub32 now t.backup_confirmed_at, u))

    unfoldable pub source_loss_elapsed_ms : System → ℕ × System
    source_loss_elapsed_ms s =
        if s.transfer.loss_active
        then (let (now, u) = ask B.millis s in (sub32 now s.transfer.first_loss_at, u))
        else (0, s)

    unfoldable pub source_loss_remaining_ms : System → ℕ × System
    unfolding source_loss_elapsed_ms
    source_loss_remaining_ms s =
        if not s.transfer.loss_active
        then (0, s)
        else (let (elapsed, u) = source_loss_elapsed_ms s in
            (if leb main_return_grace_ms elapsed then 0 else main_return_grace_ms - elapsed, u))
