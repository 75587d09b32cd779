-- ===== src/Service/Process/Acknowledged.antt =====
-- A message that a service publishes, and its acknowledgement.
use xmqtt.Prelude.{ℕ, Bytes, true, false, Option, none, some, List, [], ◌∷◌, ◌++◌}
use xmqtt.Prelude.{◌≡◌, refl, ap, ◌∙◌, subst, arith, done}
use xmqtt.Message.{PacketLib, publish as publish_type, puback}
use xmqtt.Sessions.AckQueue.{AckQueue, AckMsg, BytesPool, get_bytes, find_id, delete_id, full}
use xmqtt.Sessions.AckQueue.Methods.{ack, acked, waiting}
use xmqtt.Sessions.AckQueue.Order.{Holds}
use xmqtt.Sessions.AckQueue.Places.{Tracks, find_id-put_id, find_id-delete_id, at_tail-Tracks, spot}
use xmqtt.Sessions.AckQueue.Enqueued.{at_tail, at_tail-Holds, insert-at_tail}
use xmqtt.Sessions.AckQueue.Answered.{ack-replaced, replaced, replaced-Holds, answered_by}
use xmqtt.Sessions.AckQueue.Finished.{acked-Holds, answered, finished, unfinished}
use xmqtt.Sessions.Session.{Session}
use xmqtt.Service.State.{Service, ServiceError, Conn, put_queue, pub1ack}
use xmqtt.Service.Publish.{publish, own_complete, on_complete}
use xmqtt.Service.Process.{process_incoming, finish_all, Upload, give_back}
use xmqtt.Service.Process.Steps.{
  wait-insert, launched, publish-launched, completes-done, finish-puback, on_complete-puback,
  process_incoming-puback, pooled-Holds,
}

module _ (lib : PacketLib) where
  open lib use {messages, connects, wire, decode}
  open messages use {Message, mtype, packet_id, qos, len, encode}

  -- The service's state after a message is acknowledged: its timer is gone, and nothing waits in the
  -- queue for PUBACK.
  abbrev pub Settled : ℕ → ℕ → List ℕ → Service lib → Type 0
  Settled task id before s =
      (find_id id s.timers ≡ none)
      × (s.cancelled ≡ before ++ (task ∷ []))
      × (x : Session connects) × (s.sess ≡ some x)
      × (q : AckQueue) × (x.pub1ack ≡ some q)
      × Holds q []

  module _ (client : ℕ → Message → Option ServiceError) (now task : ℕ)
      (msg msg' puback_msg m got : Message) (b buf written buf2 written2 : Bytes)
      (rest rest2 : BytesPool) (s : Service lib) (c : Conn) (x : Session connects) (q : AckQueue)
      (u : List (Upload lib)) where
    abbrev waits : AckMsg
    waits = waiting messages now msg' own_complete written

    abbrev enqueued : AckQueue
    enqueued = at_tail waits (packet_id msg') rest q

    abbrev noted : AckMsg
    noted = answered_by messages puback_msg written2 waits

    -- A message of QoS 1 that a service publishes, on a connection that works and with nothing else
    -- waiting, is sent and waits with its timer; the PUBACK with its packet identifier then settles it:
    -- the timer is cancelled, and the queue is empty again. The library reads back what it wrote, and
    -- the pool has a buffer for each of the two messages.
    pub publish-puback :
        s.conn ≡ some c
        → c.broken ≡ false
        → s.sess ≡ some x
        → x.pub1ack ≡ some q
        → Holds q []
        → Tracks q []
        → answered q.ping ≡ []
        → wire msg ≡ some (msg', b)
        → mtype msg' ≡ publish_type
        → qos msg' ≡ 1
        → get_bytes (len msg') q.pool ≡ done (buf, rest)
        → encode msg' buf ≡ (written, true)
        → mtype puback_msg ≡ puback
        → packet_id puback_msg ≡ packet_id msg'
        → get_bytes (len puback_msg) rest ≡ done (buf2, rest2)
        → encode puback_msg buf2 ≡ (written2, true)
        → decode publish_type written ≡ some m
        → decode puback written2 ≡ some got
        → mtype got ≡ puback
        → packet_id got ≡ packet_id msg'
        → (s1 : Service lib) × (publish lib client now task msg own_complete s ≡ done (s1, none))
          × (s1.conn ≡ some (record c { written = c.written ++ (b ∷ []) }))
          × (find_id (packet_id msg') s1.timers ≡ some task)
          × (s2 : Service lib) × (process_incoming lib puback_msg (s1, u) ≡ done ((s2, u), none))
          × Settled task (packet_id msg') s.cancelled s2
    unfolding launched spot finished unfinished at_tail replaced
    publish-puback ec eb es eq w t np ew et eo g1 n1 pt pi g2 n2 d1 d2 gt gi = (
      s1,
      publish-launched lib client now task own_complete msg msg' b s c x q enqueued ec eb es eq ew
          eo
          (wait-insert lib now msg' own_complete q enqueued et eo
            (insert-at_tail messages now msg' own_complete q [] buf written rest w nf fresh g1 n1)),
      refl,
      find_id-put_id (packet_id msg') (packet_id msg') task s.timers ∙ ground arith,
      s2,
      process_incoming-puback lib puback_msg (s1, u) pt
          ∙ completes-done lib puback_msg s1 u (record x { pub1ack = some enqueued }) enqueued q2 q3
              _ refl refl acks done_all.1 finishes
          ∙ ap (λ s'. done ((put_queue lib pub1ack q4 s', u), none)) settles,
      (cleared, refl, _, refl, q4, refl, pooled-Holds lib q3 [] _ emptied),
    )
      where
        nf : full q ≡ false
        nf = ground (arith, w.counted, w.inside)

        fresh : find_id (packet_id msg') q.emap ≡ none
        fresh = t.found (packet_id msg')

        s1 : Service lib
        s1 = launched lib task (packet_id msg') b c x enqueued s

        w1 : Holds enqueued (waits ∷ [])
        w1 = at_tail-Holds q [] waits (packet_id msg') rest w nf

        at : spot (packet_id puback_msg) (waits ∷ []) ≡ some 0
        at = ground (arith, pi)

        q2 : AckQueue
        q2 = replaced 0 noted rest2 enqueued

        acks : ack messages puback_msg enqueued ≡ done (q2, none)
        acks =
            ack-replaced messages puback_msg enqueued (waits ∷ []) 0 waits buf2 written2 rest2 w1
              (at_tail-Tracks q [] waits rest w t fresh) (rw pt refl) at refl g2 n2

        done_all :
            (q' : AckQueue) × (acked q2 ≡ done q')
            × (q'.ackdone ≡ answered q2.ping ++ finished (noted ∷ []))
            × Holds q' (unfinished (noted ∷ []))
        done_all =
            acked-Holds q2 (noted ∷ [])
              (replaced-Holds enqueued (waits ∷ []) 0 noted rest2 w1 (omega arith))

        q3 : AckQueue
        q3 = done_all.0

        out : q3.ackdone ≡ noted ∷ []
        out = done_all.2 ∙ rw (np, pt) refl

        emptied : Holds q3 []
        emptied = subst (Holds q3) (rw pt refl) done_all.3

        s3 : Service lib
        s3 = put_queue lib pub1ack q3 s1

        s4 : Service lib
        s4 = record s3 {
          timers = delete_id (packet_id got) s3.timers;
          cancelled = s3.cancelled ++ (task ∷ []);
        }

        q4 : AckQueue
        q4 = record q3 { pool = give_back lib noted q3.pool }

        s2 : Service lib
        s2 = put_queue lib pub1ack q4 s4

        waiting_id : find_id (packet_id got) s3.timers ≡ some task
        waiting_id =
            find_id-put_id (packet_id got) (packet_id msg') task s.timers ∙ ground (arith, gi)

        settles : (on_complete lib got s3).0 ≡ s4
        settles = on_complete-puback lib got s3 task gt waiting_id

        finishes :
            finish_all lib q3.ackdone (s3, q3.pool)
            ≡ done ((on_complete lib got s3).0, give_back lib noted q3.pool)
        finishes =
            ap (λ ams. finish_all lib ams (s3, q3.pool)) out
            ∙ finish-puback lib noted s3 q3.pool m got pt refl (rw et d1) d2

        cleared : find_id (packet_id msg') s4.timers ≡ none
        cleared = find_id-delete_id (packet_id msg') (packet_id got) s3.timers ∙ ground (arith, gi)
