-- ===== src/PowerDelivery/Frame.antt =====
-- What the transactions on the bus leave alone in the object.
use tankervision_pdb.Common.{
  ℕ, zero, suc, Bool, true, false, ◌≡◌, ◌∙◌, refl, ap, List, length, Option, none, some, ◌==◌,
  if◌then◌else◌,
}
use tankervision_pdb.PowerDelivery.Bus.{
  Wire, PowerDelivery, System, M, continue, PdError, no_error, fail, read, write, point_at,
  read_loop, keep_byte, read_counted, drain, pure, asks, does, guard, i2c_pointer_failed,
  i2c_read_failed, i2c_short_read, i2c_buffer_failed, i2c_write_failed,
}
use tankervision_pdb.PowerDelivery.Bus

-- The object up to its error.
unfoldable pub but_error : PowerDelivery → PowerDelivery
but_error d = record d { error = no_error }

pub but_error-reading : (d d' : PowerDelivery) → but_error d ≡ but_error d' → d.reading ≡ d'.reading
unfolding but_error
but_error-reading d d' e = ap (λ x. x.reading) e

pub but_error-result : (d d' : PowerDelivery) → but_error d ≡ but_error d' → d.result ≡ d'.result
unfolding but_error
but_error-result d d' e = ap (λ x. x.result) e

module _ (W : Wire) where
  abbrev pub Keeps : {A : Type 0} → M W A → Type 0
  Keeps m = (s : System W) → but_error (m s).1.pd ≡ but_error s.pd

  continue-Keeps :
      {A B : Type 0} (f : A → M W B)
      → ((a : A) → Keeps (f a))
      → (s : System W) (r : Option A) (t : System W) → but_error t.pd ≡ but_error s.pd
      → but_error (continue W f (r, t)).1.pd ≡ but_error s.pd
  unfolding continue
  continue-Keeps f l s none t e = e
  continue-Keeps f l s (some a) t e = l a t ∙ e

  pub bind-Keeps :
      {A B : Type 0} (m : M W A) (f : A → M W B)
      → Keeps m
      → ((a : A) → Keeps (f a))
      → Keeps (Bus.◌>>=◌ W m f)
  bind-Keeps m f k l s = continue-Keeps f l s (m s).0 (m s).1 (k s)

  fail-Keeps : (A : Type 0) (e : PdError) → Keeps (fail W {A = A} e)
  unfolding fail but_error
  fail-Keeps A e s = refl

  guard-Keeps : (b : Bool) (e : PdError) → Keeps (guard W b e)
  guard-Keeps true e s = refl
  guard-Keeps false e s = fail-Keeps _ e s

  point_at-Keeps : (address : ℕ) → Keeps (point_at W address)
  unfolding point_at continue
  point_at-Keeps address s = refl

  keep_byte-Keeps :
      (rest : M W (List ℕ)) → Keeps rest → (value : Option ℕ) → Keeps (keep_byte W rest value)
  unfolding keep_byte
  keep_byte-Keeps rest k none = fail-Keeps (List ℕ) i2c_short_read
  keep_byte-Keeps rest k (some b) = bind-Keeps rest _ k (λ bs s. refl)

  read_loop-Keeps : (n : ℕ) → Keeps (read_loop W n)
  unfolding read_loop
  read_loop-Keeps zero = λ s. refl
  read_loop-Keeps (suc n) =
      bind-Keeps (asks W W.read_byte) _ (λ s. refl) (keep_byte-Keeps _ (read_loop-Keeps n))

  read_counted-Keeps : (n count : ℕ) → Keeps (read_counted W n count)
  unfolding read_counted
  read_counted-Keeps n count =
      elim (count == n)
        as (λ b. Keeps (
          if b
          then read_loop W n
          else (Bus.◌>>=◌ W (does W (drain W)) (λ _. fail W i2c_read_failed)))) [
            | true ↦ read_loop-Keeps n
            | false ↦
                bind-Keeps (does W (drain W)) _ (λ s. refl)
                  (λ _. fail-Keeps (List ℕ) i2c_read_failed)
          ]

  pub read-Keeps : (address n : ℕ) → Keeps (read W address n)
  unfolding read
  read-Keeps address n = bind-Keeps (point_at W address) _ (point_at-Keeps address) (λ _.
      bind-Keeps (asks W (W.end_transmission false)) _ (λ s. refl)
        (λ code.
          bind-Keeps (guard W (code == 0) i2c_pointer_failed) _
            (guard-Keeps (code == 0) i2c_pointer_failed)
            (λ _.
              bind-Keeps (asks W (W.request_from 0x08 n)) _ (λ s. refl)
                (λ count. read_counted-Keeps n count))))

  pub write-Keeps : (address : ℕ) (bytes : List ℕ) → Keeps (write W address bytes)
  unfolding write
  write-Keeps address bytes = bind-Keeps (point_at W address) _ (point_at-Keeps address) (λ _.
      bind-Keeps (asks W (W.write_bytes bytes)) _ (λ s. refl)
        (λ count.
          bind-Keeps (guard W (count == length bytes) i2c_buffer_failed) _
            (guard-Keeps _ i2c_buffer_failed)
            (λ _.
              bind-Keeps (asks W (W.end_transmission true)) _ (λ s. refl)
                (λ code. guard-Keeps (code == 0) i2c_write_failed))))
