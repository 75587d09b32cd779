-- ===== src/Sessions/AckQueue/Pool.antt =====
-- The buffer pool of a queue that is no "Pub1ack".
use xmqtt.Prelude.{ℕ, true, false, none, [], ◌≡◌, ◌≢◌, ltb, arith, panicked, ◌⊎◌}
use xmqtt.Message.{MessageLib, publish, subscribe, unsubscribe}
use xmqtt.Sessions.AckQueue.{AckQueue, full, find_id, get_bytes}
use xmqtt.Sessions.AckQueue.Methods.{wait, enqueue}

module _ (lib : MessageLib) where
  open lib use {Message, mtype, packet_id, qos, len}

  -- Where the pool has no New function and holds no buffer, to wait for a message that has to be
  -- stored panics: a PUBLISH of QoS 1 or 2, a SUBSCRIBE or an UNSUBSCRIBE, shorter than the pool's
  -- buffers, whose packet identifier is not waiting, on a queue that is not full.
  pub wait_panics :
      (now : ℕ) (msg : Message) (oc : ℕ) (q : AckQueue)
      → ((mtype msg ≡ publish) × (qos msg ≢ 0))
        ⊎ (mtype msg ≡ subscribe)
        ⊎ (mtype msg ≡ unsubscribe)
      → q.pool.has_new ≡ false
      → q.pool.free ≡ []
      → ltb (len msg) q.pool.width ≡ true
      → full q ≡ false
      → find_id (packet_id msg) q.emap ≡ none
      → wait lib now msg oc q ≡ panicked
  unfolding wait enqueue get_bytes
  wait_panics now msg oc q m n f l nf id = ground arith
