-- ===== src/Service/Receive/Tests.antt =====
-- The receiving loop at a concrete stream.
use xmqtt.Prelude.{[], ◌∷◌, ◌≡◌, ◌≢◌, ◌⊎◌, refl, arith, none, done, panicked, false}
use xmqtt.Toy.{toy_packets, bare}
use xmqtt.Message.{publish, pingreq}
use xmqtt.Service.State.{no_reason}
use xmqtt.Service.Wire.{Reader, eof}
use xmqtt.Service.Wire.Size.{length_digits}
use xmqtt.Service.Process.{World}
use xmqtt.Service.Receive.{receiver_data, Ending, unfinished}
use xmqtt.Service.Receive.Stream.{Sent, stream, serve, receiver_data-serve}
use xmqtt.Service.Receive.Ends.{receiver_data_ends}

abbrev quiet : World toy_packets
quiet = (
  record {
    product_key = 1 ∷ [];
    device_name = 2 ∷ [];
    conn = none;
    sess = none;
    timers = [];
    cancelled = [];
    heartbeats = [];
    ended = false;
    rmsgs = [];
    reason = no_reason;
  },
  [],
)

-- A PINGREQ and a PUBLISH.
abbrev first : Sent toy_packets
first = record { head = 192; body = []; msg = bare pingreq 192 }

abbrev second : Sent toy_packets
second = record { head = 50; body = 1 ∷ 2 ∷ []; msg = bare publish 50 }

receiver_data-serve_example :
    receiver_data toy_packets 100
      (record { bytes = stream toy_packets (first ∷ second ∷ []); ending = eof })
      quiet
    ≡ serve toy_packets eof (first ∷ second ∷ []) quiet
unfolding length_digits
receiver_data-serve_example = receiver_data-serve toy_packets 100 eof (first ∷ second ∷ []) quiet (
  record { encodable = omega arith; allowed = omega arith; decoded = refl },
  (record { encodable = omega arith; allowed = omega arith; decoded = refl }, tt),
)

receiver_data_ends_example :
    let r : Reader = record { bytes = 192 ∷ 0 ∷ 50 ∷ []; ending = eof } in
    (receiver_data toy_packets 100 r quiet ≡ panicked)
    ⊎ ((w' : World toy_packets) × (e : Ending) × (receiver_data toy_packets 100 r quiet
          ≡ done (w', e))
        × (e ≢ unfinished))
receiver_data_ends_example =
    receiver_data_ends toy_packets 100 (record { bytes = 192 ∷ 0 ∷ 50 ∷ []; ending = eof }) quiet
