-- ===== src/PowerDelivery/Poll.antt =====
-- What `poll` leaves in the object.
use tankervision_pdb.Common.{
  Bool, true, false, not, ◌≡◌, ◌∙◌, ◌||◌, refl, ap, arith, Option, none, some, if◌then◌else◌,
}
use tankervision_pdb.PowerDelivery.Reading.{PdReading, no_reading}
use tankervision_pdb.PowerDelivery.Bus.{
  Wire, PowerDelivery, System, M, continue, no_error, read, asks,
}
use tankervision_pdb.PowerDelivery.Bus
use tankervision_pdb.PowerDelivery.Budget.{sample, keep_sample, poll}
use tankervision_pdb.PowerDelivery.Frame.{
  but_error, but_error-reading, Keeps, bind-Keeps, read-Keeps,
}

-- The object up to its reading and its error.
unfoldable pub but_reading : PowerDelivery → PowerDelivery
but_reading d = record d { reading = no_reading; error = no_error }

but_error-but_reading :
    (d d' : PowerDelivery) → but_error d ≡ but_error d' → but_reading d ≡ but_reading d'
unfolding but_error but_reading
but_error-but_reading d d' e =
    ap {A = PowerDelivery} {B = PowerDelivery} (λ x. record x { reading = no_reading }) e

pub but_reading-result :
    (d d' : PowerDelivery) → but_reading d ≡ but_reading d' → d.result ≡ d'.result
unfolding but_reading
but_reading-result d d' e = ap (λ x. x.result) e

module _ (W : Wire) where
  sample-Keeps : Keeps W (sample W)
  unfolding sample
  sample-Keeps = bind-Keeps W (read W 0x0000 1) _ (read-Keeps W 0x0000 1) (λ _.
      bind-Keeps W (read W 0x0002 2) _ (read-Keeps W 0x0002 2) (λ _.
        bind-Keeps W (read W 0x0010 16) _ (read-Keeps W 0x0010 16) (λ _.
          bind-Keeps W (read W 0x1008 4) _ (read-Keeps W 0x1008 4) (λ _.
            bind-Keeps W (read W 0x100c 1) _ (read-Keeps W 0x100c 1) (λ _.
              bind-Keeps W (read W 0x1010 4) _ (read-Keeps W 0x1010 4) (λ _.
                bind-Keeps W (read W 0x1014 4) _ (read-Keeps W 0x1014 4) (λ _.
                  bind-Keeps W (read W 0x0006 1) _ (read-Keeps W 0x0006 1) (λ _.
                    bind-Keeps W (read W 0x1400 4) _ (read-Keeps W 0x1400 4)
                      (λ _. bind-Keeps W (asks W W.millis) _ (λ s. refl) (λ _ s. refl))))))))))

  -- A reading that a method returns is marked valid.
  abbrev AllValid : M W PdReading → Type 0
  AllValid m = (s : System W) (r : PdReading) → (m s).0 ≡ some r → r.valid ≡ true

  continue-AllValid :
      {A : Type 0} (f : A → M W PdReading)
      → ((a : A) → AllValid (f a))
      → (o : Option A) (t : System W) (r : PdReading) → (continue W f (o, t)).0 ≡ some r
      → r.valid ≡ true
  unfolding continue
  continue-AllValid f k none t r e = ground arith
  continue-AllValid f k (some a) t r e = k a t r e

  bind-AllValid :
      {A : Type 0} (m : M W A) (f : A → M W PdReading)
      → ((a : A) → AllValid (f a))
      → AllValid (Bus.◌>>=◌ W m f)
  bind-AllValid m f k s r e = continue-AllValid f k (m s).0 (m s).1 r e

  sample-AllValid : AllValid (sample W)
  unfolding sample
  sample-AllValid = bind-AllValid _ _ (λ _. bind-AllValid _ _ (λ _. bind-AllValid _ _ (λ _.
      bind-AllValid _ _ (λ _. bind-AllValid _ _ (λ _. bind-AllValid _ _ (λ _.
        bind-AllValid _ _ (λ _. bind-AllValid _ _ (λ _.
          bind-AllValid _ _
            (λ _. bind-AllValid (asks W W.millis) _ (λ now s r e. ground arith))))))))))

  keep_sample-valid :
      (o : Option PdReading) (t : System W)
      → ((r : PdReading) → o ≡ some r → r.valid ≡ true)
      → (o ≡ none → t.pd.reading.valid ≡ false)
      → (keep_sample W (o, t)).0 ≡ (keep_sample W (o, t)).1.pd.reading.valid
  unfolding keep_sample
  keep_sample-valid none t k l = ground (arith, l)
  keep_sample-valid (some r) t k l = ground (arith, k r)

  keep_sample-but_reading :
      (o : Option PdReading) (t : System W)
      → but_reading (keep_sample W (o, t)).1.pd ≡ but_reading t.pd
  unfolding keep_sample but_reading
  keep_sample-but_reading none t = refl
  keep_sample-but_reading (some r) t = refl

  invalid : System W → System W
  invalid s = record s { pd = record (s.pd) { reading = record (s.pd.reading) { valid = false } } }

  invalid-but_reading : (s : System W) → but_reading (invalid s).pd ≡ but_reading s.pd
  unfolding invalid but_reading
  invalid-but_reading s = refl

  -- `poll` succeeds exactly where it leaves a valid reading.
  pub poll-valid : (b : Bool) (s : System W) → (poll W b s).0 ≡ (poll W b s).1.pd.reading.valid
  unfolding poll invalid
  poll-valid b s =
      elim (not s.pd.begun || not b)
        as (λ c.
          let r = if c then (false, invalid s) else keep_sample W (sample W (invalid s)) in
          r.0 ≡ r.1.pd.reading.valid) [
            | true ↦ refl
            | false ↦
                keep_sample-valid (sample W (invalid s)).0 (sample W (invalid s)).1
                  (sample-AllValid (invalid s))
                  (λ _. ap (λ r. r.valid) (but_error-reading _ _ (sample-Keeps (invalid s))))
          ]

  -- Whatever the bus does, `poll` changes nothing but the reading and the error.
  pub poll-but_reading :
      (b : Bool) (s : System W) → but_reading (poll W b s).1.pd ≡ but_reading s.pd
  unfolding poll invalid
  poll-but_reading b s =
      elim (not s.pd.begun || not b)
        as (λ c.
          let r = if c then (false, invalid s) else keep_sample W (sample W (invalid s)) in
          but_reading r.1.pd ≡ but_reading s.pd) [
            | true ↦ invalid-but_reading s
            | false ↦
                keep_sample-but_reading (sample W (invalid s)).0 (sample W (invalid s)).1
                ∙ but_error-but_reading _ _ (sample-Keeps (invalid s))
                ∙ invalid-but_reading s
          ]
