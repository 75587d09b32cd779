-- ===== src/Service/SendRecv/Tests.antt =====
-- Runs over concrete rings.
use xmqtt.Prelude.{length, true, Bytes, [], ◌∷◌, ◌≡◌, refl, arith, some, none, false, drop, take}
use xmqtt.Toy.{toy_packets, bare}
use xmqtt.Message.{pingreq, publish}
use xmqtt.Service.State.{no_reason}
use xmqtt.Service.Buffer.{Buffer, fresh, write, wait_for_write_space, power_of_two64}
use xmqtt.Service.Buffer.Fifo.{Contains}
use xmqtt.Service.Buffer.Fifo.Written.{write-Whole}
use xmqtt.Service.Buffer.Fifo.Trace.{fresh-Contains}
use xmqtt.Service.Wire.{get_peek_message_size}
use xmqtt.Service.Wire.Size.{length_digits}
use xmqtt.Service.Process.{World}
use xmqtt.Service.Receive.{decode_code}
use xmqtt.Service.Receive.Stream.{Sent}
use xmqtt.Service.SendRecv.{peek_message_size, processor, write_in_ring, read_message, of_decode}
use xmqtt.Service.SendRecv.Peeked.{on_ring, reader_of, peek_message_size-get_peek_message_size}
use xmqtt.Service.SendRecv.Served.{processor-serve_all, serve_all, without_ring}
use xmqtt.Service.Wire.{reset}
use xmqtt.Service.SendRecv.Loops.{read_from, network, receiver-processor}
use xmqtt.Service.SendRecv.Sender.{write_to, Emptied, write_to-Emptied}
use xmqtt.Service.SendRecv.Sent.{SendsWhole, write_in_ring-SendsWhole}
use xmqtt.Service.SendRecv.Overread.{read_message_overreads}

-- A PINGREQ and a PUBLISH.
abbrev ping : Sent toy_packets
ping = record { head = 192; body = []; msg = bare pingreq 192 }

abbrev news : Sent toy_packets
news = record { head = 50; body = 1 ∷ 2 ∷ []; msg = bare publish 50 }

abbrev both : Bytes
both = 192 ∷ 0 ∷ 50 ∷ 2 ∷ 1 ∷ 2 ∷ []

abbrev empty_ring : Buffer
empty_ring = fresh 8

abbrev ring : Buffer
ring = (write both empty_ring).0

empty_ring-Contains : Contains empty_ring []
unfolding power_of_two64
empty_ring-Contains = fresh-Contains 8 refl

ring-Contains : Contains ring both
unfolding write fresh wait_for_write_space
ring-Contains = (write-Whole both empty_ring [] empty_ring-Contains).1

abbrev quiet : World toy_packets
quiet = (
  record {
    product_key = 1 ∷ [];
    device_name = 2 ∷ [];
    conn = none;
    sess = none;
    timers = [];
    cancelled = [];
    heartbeats = [];
    ended = false;
    rmsgs = [];
    reason = no_reason;
  },
  [],
)

peek_message_size-get_peek_message_size_example :
    (t : Bytes) × (peek_message_size (some ring) ≡ (
      some (record ring { tmp = t }),
      on_ring ring.closed (get_peek_message_size (reader_of both)),
    ))
unfolding write fresh
peek_message_size-get_peek_message_size_example =
    peek_message_size-get_peek_message_size ring both ring-Contains (omega arith)

processor-serve_all_example :
    without_ring toy_packets (processor toy_packets (some ring) quiet)
    ≡ serve_all toy_packets ring.closed (ping ∷ news ∷ []) quiet
unfolding write fresh length_digits
processor-serve_all_example =
    processor-serve_all toy_packets ring (ping ∷ news ∷ []) quiet ring-Contains (omega arith) (
      record { encodable = omega arith; allowed = omega arith; decoded = refl },
      (record { encodable = omega arith; allowed = omega arith; decoded = refl }, tt),
    )

write_in_ring-SendsWhole_example :
    SendsWhole 2 both (7 ∷ 0 ∷ []) (write_in_ring toy_packets (bare pingreq 7) ring)
write_in_ring-SendsWhole_example =
    write_in_ring-SendsWhole toy_packets (bare pingreq 7) (bare pingreq 7) (7 ∷ 0 ∷ []) ring both
      ring-Contains refl (omega arith)

-- The PINGREQ is read, and the first byte of the PUBLISH is lost.
read_message_overreads_example :
    ((read_message toy_packets 12 2 (0 ∷ 0 ∷ 0 ∷ []) ring).2
      ≡ of_decode toy_packets (decode_code toy_packets 12 (take 2 both)))
    × Contains (read_message toy_packets 12 2 (0 ∷ 0 ∷ 0 ∷ []) ring).0 (drop 3 both)
unfolding write fresh
read_message_overreads_example =
    read_message_overreads toy_packets 12 2 (0 ∷ 0 ∷ 0 ∷ []) ring both ring-Contains (omega arith)
      (omega arith) (omega arith) (omega arith)

abbrev large_ring : Buffer
large_ring = fresh 16384

large_ring-Contains : Contains large_ring []
unfolding power_of_two64
large_ring-Contains = fresh-Contains 16384 refl

receiver-processor_example :
    let got = read_from (λ k. 2) (record { bytes = both; ending = reset }) large_ring in
    (got.2 ≡ network reset)
    × (without_ring toy_packets (processor toy_packets (some got.0) quiet)
        ≡ serve_all toy_packets true (ping ∷ news ∷ []) quiet)
unfolding fresh length_digits
receiver-processor_example =
    receiver-processor toy_packets (λ k. 2) large_ring (ping ∷ news ∷ []) reset quiet
      large_ring-Contains refl (omega arith) (omega arith)
      (
        record { encodable = omega arith; allowed = omega arith; decoded = refl },
        (record { encodable = omega arith; allowed = omega arith; decoded = refl }, tt),
      )

abbrev filled_ring : Buffer
filled_ring = (write both large_ring).0

filled_ring-Contains : Contains filled_ring both
unfolding write fresh wait_for_write_space
filled_ring-Contains = (write-Whole both large_ring [] large_ring-Contains).1

write_to-Emptied_example : Emptied both (write_to (λ k p. some (length p)) filled_ring)
unfolding write fresh wait_for_write_space
write_to-Emptied_example =
    write_to-Emptied (λ k p. some (length p)) (λ k p. refl) filled_ring both filled_ring-Contains
      refl (omega arith)
