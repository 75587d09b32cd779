-- ===== src/Sessions/Tests.antt =====
-- The theorems at concrete sessions and queues.
use xmqtt.Prelude.{ℕ, false, none, some, [], ◌∷◌, ◌≡◌, refl}
use xmqtt.Prelude.{zero, suc, replicate, get_elem?, ap, arith, ◌++◌, ◌+◌, ◌%◌}
use xmqtt.Prelude.{done}
use xmqtt.Toy.{toy_messages}
use xmqtt.Message.{MessageType, subscribe, suback}
use xmqtt.Sessions.AckQueue.{AckQueue, AckMsg, new_ackqueue, find_id, no_ackmsg, get_bytes, full}
use xmqtt.Sessions.AckQueue.Cleared.{clear_tick-Holds, unexpired}
use xmqtt.Sessions.AckQueue.Grown.{grow-Holds}
use xmqtt.Sessions.AckQueue.Order.{Holds}
use xmqtt.Sessions.AckQueue.Finished.{acked-Holds, answered, finished, unfinished}
use xmqtt.Sessions.AckQueue.Enqueued.{insert-Holds}
use xmqtt.Sessions.AckQueue.Places.{Tracks, spot, place, shift}
use xmqtt.Sessions.AckQueue.Answered.{ack-Holds, answered_by}
use xmqtt.Sessions.AckQueue.Methods.{ack, acked, insert, waiting, grow, clear_tick}

abbrev request : MessageType × ℕ
request = (subscribe, 9)

-- Two messages wait: the first is acknowledged, the second is not.
abbrev first : AckMsg
first = record no_ackmsg { mtype = subscribe; state = suback; pktid = 1 }

abbrev second : AckMsg
second = record no_ackmsg { mtype = subscribe; pktid = 2 }

-- The pool holds a buffer of two bytes.
abbrev busy : AckQueue
busy = record (new_ackqueue 16 false) {
  count = 2;
  tail = 2;
  ring = some first ∷ some second ∷ replicate 14 none;
  emap = (1, 0) ∷ (2, 1) ∷ [];
  pool = record { width = 8192; free = (0 ∷ 0 ∷ []) ∷ []; has_new = false };
}

busy-Holds : Holds busy (first ∷ second ∷ [])
unfolding new_ackqueue
busy-Holds = record {
  bits = 4;
  power = refl;
  masked = refl;
  sized = refl;
  inside = omega arith;
  counted = refl;
  fits = omega arith;
  ends = refl;
  stands = stands;
}
  where
    stands :
        (j : ℕ) (m : AckMsg)
        → get_elem? (first ∷ second ∷ []) j ≡ some m
        → get_elem? busy.ring ((0 + j) % 16) ≡ some (some m)
    stands zero m e = ap some e
    stands (suc zero) m e = ap some e
    stands (suc (suc j)) m e = ground arith

acked-Holds_example :
    (q : AckQueue) × (acked busy ≡ done q)
    × (q.ackdone ≡ answered busy.ping ++ finished (first ∷ second ∷ []))
    × Holds q (unfinished (first ∷ second ∷ []))
acked-Holds_example = acked-Holds busy (first ∷ second ∷ []) busy-Holds

insert-Holds_example :
    (q : AckQueue) × (insert toy_messages 0 request 1 busy ≡ done (q, none))
    × Holds q (first ∷ second ∷ (waiting toy_messages 0 request 1 (0 ∷ 0 ∷ []) ∷ []))
unfolding new_ackqueue find_id get_bytes
insert-Holds_example =
    insert-Holds toy_messages 0 request 1 busy (first ∷ second ∷ []) (0 ∷ 0 ∷ []) (0 ∷ 0 ∷ [])
      (record { width = 8192; free = []; has_new = false }) busy-Holds refl refl refl refl

tracked : Tracks busy (first ∷ second ∷ [])
unfolding new_ackqueue find_id spot
tracked = record { found = found; distinct = ground arith }
  where
    found : (p : ℕ) → find_id p busy.emap ≡ shift (place busy) (spot p (first ∷ second ∷ []))
    found p = ground arith

ack-Holds_example :
    (q' : AckQueue) × (ack toy_messages (suback, 2) busy ≡ done (q', none))
    × Holds q' (first ∷ answered_by toy_messages (suback, 2) (0 ∷ 0 ∷ []) second ∷ [])
    × Tracks q' (first ∷ answered_by toy_messages (suback, 2) (0 ∷ 0 ∷ []) second ∷ [])
unfolding new_ackqueue get_bytes spot
ack-Holds_example =
    ack-Holds toy_messages (suback, 2) busy (first ∷ second ∷ []) 1 second (0 ∷ 0 ∷ []) (0 ∷ 0 ∷ [])
      (record { width = 8192; free = []; has_new = false }) busy-Holds tracked refl refl refl refl
      refl

clear_tick-Holds_example :
    (q : AckQueue) × (clear_tick 2 6 busy ≡ done q) × Holds q (unexpired 6 (first ∷ second ∷ []))
clear_tick-Holds_example = clear_tick-Holds 6 (first ∷ second ∷ []) busy busy-Holds

-- The same messages in a full ring.
abbrev packed : AckQueue
packed = record busy { size = 2; mask = 1; tail = 0; ring = some first ∷ some second ∷ [] }

packed-Holds : Holds packed (first ∷ second ∷ [])
unfolding new_ackqueue
packed-Holds = record {
  bits = 1;
  power = refl;
  masked = refl;
  sized = refl;
  inside = omega arith;
  counted = refl;
  fits = omega arith;
  ends = refl;
  stands = stands;
}
  where
    stands :
        (j : ℕ) (m : AckMsg)
        → get_elem? (first ∷ second ∷ []) j ≡ some m
        → get_elem? packed.ring ((0 + j) % 2) ≡ some (some m)
    stands zero m e = ap some e
    stands (suc zero) m e = ap some e
    stands (suc (suc j)) m e = ground arith

grow-Holds_example :
    (q : AckQueue) × (grow packed ≡ done q)
    × Holds q (first ∷ second ∷ [])
    × Tracks q (first ∷ second ∷ [])
    × (q.size ≡ 4)
    × (full q ≡ false)
unfolding new_ackqueue spot
grow-Holds_example =
    grow-Holds packed (first ∷ second ∷ []) packed-Holds refl (omega arith) (refl, (refl, tt))
