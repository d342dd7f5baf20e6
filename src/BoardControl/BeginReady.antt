-- ===== src/BoardControl/BeginReady.antt =====
-- What has been verified where `begin` succeeds.
use tankervision_pdb.Common.{Bool, true, false, ◌≡◌, refl, some, sym, subst, ap}
use tankervision_pdb.Common.Act.{continue, Keeps, Keeps-bind, after, modify, ◌>>=◌, ◌>>◌}
use tankervision_pdb.Common.Triples.{
  Triple, Triple-bind, Triple-keep, Triple-modify, Triple-skip, Triple-attempt, Triple-if,
  Triple-stop, Triple-weaken, Any,
}
use tankervision_pdb.BoardControl.Driver.{
  Rig, World, System, Registers, DriverError, safe_baseline, tell, fail, read_registers, validate,
  internal_address, external_address,
}
use tankervision_pdb.BoardControl.Start.{
  settle_outputs, settle, finish_begin, settle_or_clean, prepare_pins, begin,
}
use tankervision_pdb.BoardControl.Shutdown.{drive_low, backup_pin, led_pin}
use tankervision_pdb.BoardControl.Steady.{ask-Steady, delay-Steady, read_registers-Steady}
use tankervision_pdb.BoardControl.Enables.{validate-Valid, returned}
use tankervision_pdb.BoardControl.Baseline.{
  PinLow, View, Half, Cleared, OneRead, TwoRead, OneValid, Settled, Outcome, Ready, view, cleared,
  set_all-View, set_internal-View, set_external-View, settle_ce-View,
}

module _ {R : Rig} {Q : World R → Type 0} (W : PinLow R Q) (b : Bool) where
  valid_reads :
      (i e : Registers)
      → Triple
          (TwoRead Q b i e)
          (do validate R internal_address i 0; validate R external_address e 0)
          (λ _. Settled Q b)
  valid_reads i e =
      Triple-bind {Q = λ _. OneValid Q b i e} _ _
        (record {
          ensured = λ s p u h.
              let (valid, same) = validate-Valid R internal_address i 0 s h in
              subst (OneValid Q b i e) (ap (λ z. z.1) (sym same))
                (record { reads = p; valid = valid });
        })
        λ _. record {
          ensured = λ s p u h.
              let (valid, same) = validate-Valid R external_address e 0 s h in
              subst (Settled Q b) (ap (λ z. z.1) (sym same)) (record {
                cleared = p.reads.cleared;
                low = record {
                  origin = p.reads.origin;
                  middle = p.reads.middle;
                  internal = i;
                  external = e;
                  internal_read = p.reads.internal_read;
                  external_read = p.reads.external_read;
                  internal_valid = p.valid;
                  external_valid = valid;
                };
              });
        }

  read_back :
      Triple
        (Cleared Q b)
        (do
          internal ← read_registers R internal_address
          external ← read_registers R external_address
          validate R internal_address internal 0
          validate R external_address external 0)
        (λ _. Settled Q b)
  read_back =
      Triple-bind {Q = OneRead Q b} _ _
        (record {
          ensured = λ s p i h. record {
            cleared = (read_registers-Steady (cleared W b) internal_address).holds s p;
            origin = s;
            read = returned (read_registers R internal_address) s i h;
          };
        })
        λ i.
          Triple-bind {Q = TwoRead Q b i} _ _
            (record {
              ensured = λ s p e h. record {
                cleared = (read_registers-Steady (cleared W b) external_address).holds s p.cleared;
                origin = p.origin;
                middle = s;
                internal_read = p.read;
                external_read = returned (read_registers R external_address) s e h;
              };
            })
            λ e. valid_reads i e

  settle_outputs-Settled : Triple (View Q b) (settle_outputs R) (λ _. Settled Q b)
  unfolding settle_outputs
  settle_outputs-Settled =
      Triple-bind _ _ (Triple-keep _ (set_all-View W b external_address _)) λ _.
        Triple-bind _ _ (Triple-keep _ (set_all-View W b internal_address _)) λ _.
          Triple-bind {Q = λ _. Half Q b} _ _
            (Triple-modify _ (λ s p. record { held = p.held; backup = p.backup; internal = refl }))
            λ _.
              Triple-bind {Q = λ _. Cleared Q b} _ _
                (Triple-modify _ (λ s p. record {
                  held = p.held;
                  backup = p.backup;
                  internal = p.internal;
                  external = refl;
                }))
                λ _. Triple-bind _ _ (Triple-keep _ (delay-Steady (cleared W b) 2)) λ _. read_back

  tell-View :
      (f : World R → World R) → ((w : World R) → Q w → Q (f w)) → Keeps (View Q b) (tell R f)
  unfolding tell modify
  tell-View f h = record { holds = λ s p. record { held = h s.world p.held; backup = p.backup } }

  settle-Settled : Triple (View Q b) (settle R) (λ _. Settled Q b)
  unfolding settle
  settle-Settled = Triple-bind _ _ (Triple-keep _ (read_registers-Steady (view W b) _)) λ i.
      Triple-bind _ _ (Triple-keep _ (read_registers-Steady (view W b) _)) λ e.
        Triple-bind _ _ (Triple-keep _ (tell-View _ (W.at_log _))) λ _.
          Triple-bind _ _ (Triple-keep _ (tell-View _ (W.at_log _))) λ _.
            Triple-bind _ _ (Triple-keep _ (set_internal-View W b _)) λ _.
              Triple-bind _ _ (Triple-keep _ (set_external-View W b _)) λ _.
                Triple-bind _ _ (Triple-keep _ (settle_ce-View W b i)) λ _. settle_outputs-Settled

  finish_begin-Ready : (ok : Bool) → Triple (Outcome Q b ok) (finish_begin R ok) (λ _. Ready Q b)
  unfolding finish_begin modify tell ◌>>=◌
  finish_begin-Ready true = record {
    ensured = λ s p u h.
        let q = p.settled refl in
        record {
          held = W.at_log safe_baseline s.world q.cleared.held;
          ready = refl;
          backup = q.cleared.backup;
          internal = q.cleared.internal;
          external = q.cleared.external;
          verified = s;
          low = q.low;
          logged = refl;
        };
  }
  finish_begin-Ready false =
      Triple-bind {Q = λ _. Any} _ _ (record { ensured = λ s p a h. record {} }) λ _. Triple-stop

  settle_or_clean-Ready : Triple (View Q b) (settle_or_clean R) (λ _. Ready Q b)
  unfolding settle_or_clean
  settle_or_clean-Ready = Triple-bind _ _ (Triple-keep _ (tell-View _ (W.at_timeout 50))) λ _.
      Triple-bind {Q = Outcome Q b} _ _
        (Triple-attempt (settle R)
          (Triple-weaken _ settle-Settled (λ u s q. record { settled = λ _. q }))
          (λ s p. record { settled = λ e. cc }))
        finish_begin-Ready

  -- From any state: the backup's pin is driven low first.
  backup-View :
      Triple
        (λ (s : System R). s.driver.backup_enabled ≡ b)
        (drive_low R backup_pin)
        (λ _. View Q b)
  unfolding drive_low tell modify ◌>>=◌ continue
  backup-View = record { ensured = λ s p u h. record { held = W.at_drive s.world; backup = p } }

  led-View : Keeps (View Q b) (drive_low R led_pin)
  unfolding drive_low tell modify ◌>>=◌ continue
  led-View = record { holds = λ s p. record { held = W.at_led s.world p.held; backup = p.backup } }

  prepare_pins-View :
      Triple (λ (s : System R). s.driver.backup_enabled ≡ b) (prepare_pins R) (λ _. View Q b)
  unfolding prepare_pins
  prepare_pins-View = Triple-bind _ _ backup-View λ _. Triple-keep _ (
      Keeps-bind _ _ led-View λ _. Keeps-bind _ _ (tell-View _ (W.at_input _ _)) λ _.
        Keeps-bind _ _ (tell-View _ (W.at_input _ _))
          λ _. Keeps-bind _ _ (tell-View _ (W.at_input _ _)) λ _. tell-View _ (W.at_setup _ _))

-- What fails returns nothing.
fail-never :
    {R : Rig} {P : System R → Type 0} {A : Type 0} {Q : A → System R → Type 0} (e : DriverError)
    → Triple P (fail R {A = A} e) Q
unfolding fail
fail-never e =
    Triple-bind {Q = λ _. Any} _ _ (record { ensured = λ s p a h. record {} }) λ _. Triple-stop

-- Where `begin` succeeds, from whatever state, GPIO42 was set low, made an output and driven low, and
-- nothing but what `begin` does to the other parts of the board came after; the driver is ready and
-- knows the backup as released and both latches as 0; and both expanders were read, as the last thing
-- before the log, with every control an output that is low at its latch and its pin.
pub begin-Ready :
    (R : Rig) (Q : World R → Type 0) (s : System R)
    → PinLow R Q
    → (begin R s).0 ≡ some tt
    → Ready Q false (after (begin R) s)
unfolding begin
begin-Ready R Q s W h =
    (Triple-skip _ _ λ _.
        Triple-bind {Q = λ _ (t : System R). t.driver.backup_enabled ≡ false} _ _
          (Triple-modify _ (λ s p. refl))
          λ _. Triple-bind _ _ (prepare_pins-View W false) λ _.
            Triple-bind {Q = λ _. View Q false} _ _
              (Triple-keep _ (
                ask-Steady (view W false) _
                  (λ s p. record { held = W.at_wire s.world p.held; backup = p.backup })))
              λ started.
                Triple-if started _ _ (λ _. settle_or_clean-Ready W false)
                  (λ _. fail-never _)).ensured
      s (record {}) tt h
