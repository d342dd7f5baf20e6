-- ===== src/PowerDelivery/Tests.antt =====
-- A controller with fixed registers, and the budget on it.
use tankervision_pdb.Common.{
  ℕ, true, false, ◌≡◌, ◌+◌, ◌*◌, ◌^◌, ◌==◌, if◌then◌else◌, List, [], ◌∷◌, ◌++◌, length, take,
  replicate, get_or, Option, none, some, refl,
}
use tankervision_pdb.PowerDelivery.Reading.{PdReading, no_reading, le, put, sensible}
use tankervision_pdb.PowerDelivery.Bus.{
  Wire, PowerDelivery, System, running, succeeded, no_error, read, read_loop, read_counted,
  point_at, fail, keep_byte, continue, idle,
}
use tankervision_pdb.PowerDelivery.Budget.{
  service, run_stage, sample_stage, poll, keep_sample, sample, judge, hold, matches,
}
use tankervision_pdb.PowerDelivery.Poll.{poll-but_reading, but_reading}
use tankervision_pdb.PowerDelivery.Contract.{Settled, Sound, service-succeeded}

record Board : Type 0 where
  clock : ℕ
  pointer : List ℕ
  answer : List ℕ

abbrev pdo : ℕ
pdo = 400 * 2 ^ 10 + 300

abbrev rdo : ℕ
rdo = 1 * 2 ^ 28 + 300 * 2 ^ 10 + 300

-- The registers by their address.
abbrev memory : ℕ → List ℕ
memory a =
    if a == 0x0000
    then 0x95 ∷ []
    else if a == 0x0002
    then 0x04 ∷ 0x20 ∷ []
    else if a == 0x100c
    then 1 ∷ []
    else if a == 0x1010
    then put pdo
    else if a == 0x1014
    then put rdo
    else if a == 0x1400
    then put 2
    else replicate 16 0

abbrev pop : List ℕ → Option ℕ
pop [] = none
pop (x ∷ xs) = some x

abbrev rest : List ℕ → List ℕ
rest [] = []
rest (x ∷ xs) = xs

abbrev bus : Wire
bus = record {
  World = Board;
  begin_bus = λ w. (true, w);
  begin_transmission = λ a w. record w { pointer = [] };
  write_byte = λ b w. record w { pointer = w.pointer ++ (b ∷ []) };
  write_bytes = λ bs w. (length bs, w);
  end_transmission = λ stop w. (0, w);
  request_from = λ a n w. (
    n,
    record w { answer = take n (memory (get_or w.pointer 0 0 + get_or w.pointer 1 0 * 2 ^ 8)) },
  );
  available = λ w. length w.answer;
  read_byte = λ w. (pop w.answer, record w { answer = rest w.answer });
  millis = λ w. (w.clock, w);
}

abbrev pd : PowerDelivery
pd = record {
  reading = no_reading;
  begun = true;
  wrote = true;
  response_ok = false;
  stable = true;
  stage = 2;
  start_at = 100;
  sample_at = 1000;
  stable_at = 1000;
  original_pdo = pdo;
  original_object = 1;
  result = running;
  error = no_error;
}

abbrev at_clock : ℕ → System bus
at_clock t = record { pd = pd; world = record { clock = t; pointer = []; answer = [] } }

abbrev before : System bus
before = at_clock 2000

abbrev after : System bus
after = service bus before

service_done : (service bus before).pd.result ≡ succeeded
unfolding service run_stage sample_stage poll keep_sample sample judge hold matches read read_loop
    read_counted point_at fail keep_byte continue put le sensible
service_done = refl

service-succeeded_example : Settled (service bus before).pd × Sound (service bus before).pd.reading
service-succeeded_example = service-succeeded bus before refl service_done

poll-but_reading_example : but_reading (poll bus true (at_clock 2000)).1.pd ≡ but_reading pd
poll-but_reading_example = poll-but_reading bus true (at_clock 2000)

-- What the controller's registers read as.
abbrev measured : PdReading
measured = record {
  valid = true;
  at_ms = 2000;
  status = 0;
  pdo = pdo;
  rdo = rdo;
  response = 2;
  mode = 0x95;
  type_c = 1;
  interrupt = 0;
  versions = replicate 16 0;
  silicon = 0x2004;
}

-- A bus on which each look at the clock takes 600 ms.
abbrev slow_bus : Wire
slow_bus = record bus { millis = λ w. (w.clock, record w { clock = w.clock + 600 }) }

abbrev ready : System slow_bus
ready = record {
  pd = record pd { reading = measured; result = idle };
  world = record { clock = 2000; pointer = []; answer = [] };
}
