-- ===== src/PowerDelivery/Contract.antt =====
-- When a service of the budget succeeds.
use tankervision_pdb.Common.{ℕ, true, ◌≡◌, ◌≤◌, ◌∙◌, List, Option, none, some, [], ◌∷◌, arith}
use tankervision_pdb.PowerDelivery.Reading.{
  PdReading, sensible, millivolts, source_ma, operating_ma, maximum_ma,
}
use tankervision_pdb.PowerDelivery.Bus.{write, Wire, PowerDelivery, System, running, succeeded}
use tankervision_pdb.PowerDelivery.Poll.{poll-but_reading, but_reading-result}
use tankervision_pdb.PowerDelivery.Frame.{write-Keeps, but_error-result}
use tankervision_pdb.PowerDelivery.Budget.{
  matches, payload, hold, judge, note_write, write_stage, sample_stage, run_stage, service, poll,
}

-- What a reading that the board may rely on says of the source and of the contract.
pub record Sound (r : PdReading) : Type 0 where
  valid : r.valid ≡ true
  voltage : millivolts r ≡ 20000
  least : 3000 ≤ operating_ma r
  within_maximum : operating_ma r ≤ maximum_ma r
  within_source : maximum_ma r ≤ source_ma r
  most : source_ma r ≤ 5000

pub matches-Sound : (d : PowerDelivery) (r : PdReading) → matches d r ≡ true → Sound r
unfolding matches sensible
matches-Sound d r e = ground arith

-- The controller has answered, and the contract is the wanted one and is being held.
pub record Settled (d : PowerDelivery) : Type 0 where
  pub answered : d.response_ok ≡ true
  pub stable : d.stable ≡ true
  pub matching : matches d d.reading ≡ true

module _ (W : Wire) where
  abbrev pub Judged : System W → Type 0
  Judged s = s.pd.result ≡ succeeded → Settled s.pd

  hold-Judged :
      (s : System W)
      → s.pd.result ≡ running
      → s.pd.response_ok ≡ true
      → matches s.pd s.pd.reading ≡ true
      → Judged (hold W s)
  unfolding hold matches
  hold-Judged s r o m = ground arith

  judge-Judged : (s : System W) → s.pd.result ≡ running → Judged (judge W s)
  unfolding judge
  judge-Judged s r =
      ground
        (arith, hold-Judged s, hold-Judged (record s { pd = record (s.pd) { response_ok = true } }))

  sample_stage-Judged :
      (now : ℕ) (s : System W) → s.pd.result ≡ running → Judged (sample_stage W now s)
  unfolding sample_stage
  sample_stage-Judged now s r =
      let t = record s { pd = record (s.pd) { sample_at = now } } in
      ground (
        arith,
        judge-Judged (poll W true t).1 (but_reading-result _ _ (poll-but_reading W true t) ∙ r),
      )

  note_write-Judged :
      (next : ℕ) (o : Option (Unit {0})) (t : System W)
      → t.pd.result ≡ running
      → Judged (note_write W next (o, t))
  unfolding note_write
  note_write-Judged next none t r = ground arith
  note_write-Judged next (some _) t r = ground arith

  write_stage-Judged :
      (address : ℕ) (bytes : List ℕ) (next : ℕ) (s : System W)
      → s.pd.result ≡ running
      → Judged (write_stage W address bytes next s)
  write_stage-Judged address bytes next s r =
      let (o, t) = write W address bytes s in
      note_write-Judged next o t (but_error-result _ _ (write-Keeps W address bytes s) ∙ r)

  run_stage-Judged : (now : ℕ) (s : System W) → s.pd.result ≡ running → Judged (run_stage W now s)
  unfolding run_stage
  run_stage-Judged now s r = ground (
    arith,
    write_stage-Judged 0x1800 payload 1 s r,
    write_stage-Judged 0x1005 (3 ∷ []) 2 s r,
    sample_stage-Judged now s r,
  )

  pub service-Judged : (s : System W) → s.pd.result ≡ running → Judged (service W s)
  unfolding service
  service-Judged s r =
      ground
        (arith, run_stage-Judged (W.millis s.world).0 (record s { world = (W.millis s.world).1 }) r)

  -- A running service that ends in success leaves a controller that has answered, a contract that is
  -- the one the budget started on and is held, and a sound reading: 20 V, at least 3 A in operation,
  -- within the maximum and the source, which is at most 5 A.
  pub service-succeeded :
      (s : System W)
      → s.pd.result ≡ running
      → (service W s).pd.result ≡ succeeded
      → Settled (service W s).pd × Sound (service W s).pd.reading
  service-succeeded s r e = let k = service-Judged s r e in (k, matches-Sound _ _ k.matching)
