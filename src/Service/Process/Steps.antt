-- ===== src/Service/Process/Steps.antt =====
-- The steps of publishing a message and taking its PUBACK.
use xmqtt.Prelude.{ℕ, Bytes, false, Option, none, some, List, [], ◌∷◌, ◌++◌}
use xmqtt.Prelude.{◌≡◌, sym, subst, arith, done}
use xmqtt.Message.{PacketLib, publish as publish_type, puback}
use xmqtt.Sessions.AckQueue.{AckQueue, AckMsg, BytesPool, find_id, put_id, delete_id}
use xmqtt.Sessions.AckQueue.Methods.{wait, insert, ack, acked}
use xmqtt.Sessions.AckQueue.Order.{Holds}
use xmqtt.Sessions.Session.{Session}
use xmqtt.Service.State.{Service, ServiceError, Conn, send_data, put_queue, pub1ack}
use xmqtt.Service.Publish.{publish, publish_once, wait_on, own_complete, on_complete}
use xmqtt.Service.Process.{
  process_incoming, process_acked, ack_on, finish, finish_all, completes, Upload, give_back,
}

module _ (lib : PacketLib) where
  open lib use {messages, connects, wire, decode}
  open messages use {Message, mtype, packet_id, qos, len, encode}

  pub wait-insert :
      (now : ℕ) (msg : Message) (oc : ℕ) (q q' : AckQueue)
      → mtype msg ≡ publish_type
      → qos msg ≡ 1
      → insert messages now msg oc q ≡ done (q', none)
      → wait messages now msg oc q ≡ done (q', none)
  unfolding wait
  wait-insert now msg oc q q' t o e = ground (arith, t, o, e)

  -- The service after it has sent a message on its connection `c` and stored the timer.
  unfoldable pub launched :
      ℕ → ℕ → Bytes → Conn → Session connects → AckQueue → Service lib → Service lib
  launched task id b c x q s = record s {
    conn = some (record c { written = c.written ++ (b ∷ []) });
    timers = put_id id task s.timers;
    sess = some (record x { pub1ack = some q });
  }

  pub publish-launched :
      (client : ℕ → Message → Option ServiceError) (now task oc : ℕ) (msg msg' : Message)
      (b : Bytes) (s : Service lib) (c : Conn) (x : Session connects) (q q' : AckQueue)
      → s.conn ≡ some c
      → c.broken ≡ false
      → s.sess ≡ some x
      → x.pub1ack ≡ some q
      → wire msg ≡ some (msg', b)
      → qos msg' ≡ 1
      → wait messages now msg' oc q ≡ done (q', none)
      → publish lib client now task msg oc s
        ≡ done (launched task (packet_id msg') b c x q' s, none)
  unfolding publish publish_once wait_on send_data launched
  publish-launched client now task oc msg msg' b s c x q q' ec eb es eq ew eo e =
      ground (arith, ec, eb, es, eq, ew, eo, e)

  -- An acknowledgement on a queue, and what is complete in it.
  pub completes-done :
      (msg : Message) (s : Service lib) (u : List (Upload lib)) (x : Session connects)
      (q q' q'' : AckQueue) (w : Service lib × BytesPool)
      → s.sess ≡ some x
      → x.pub1ack ≡ some q
      → ack messages msg q ≡ done (q', none)
      → acked q' ≡ done q''
      → finish_all lib q''.ackdone (put_queue lib pub1ack q'' s, q''.pool) ≡ done w
      → completes lib pub1ack msg (s, u)
        ≡ done ((put_queue lib pub1ack (record q'' { pool = w.1 }) w.0, u), none)
  unfolding completes ack_on process_acked
  completes-done msg s u x q q' q'' w es eq ea ed ef = ground (arith, es, eq, ea, ed, ef)

  -- A message whose acknowledgement is a PUBACK: its own callback runs, and the buffers go back.
  pub finish-puback :
      (am : AckMsg) (s : Service lib) (p : BytesPool) (m got : Message)
      → am.state ≡ puback
      → am.on_complete ≡ own_complete
      → decode am.mtype am.msgbuf ≡ some m
      → decode puback am.ackbuf ≡ some got
      → finish_all lib (am ∷ []) (s, p) ≡ done ((on_complete lib got s).0, give_back lib am p)
  unfolding finish_all finish
  finish-puback am s p m got e o d f =
      ground (arith, e, o, d, subst (λ t. decode t am.ackbuf ≡ some got) (sym e) f)

  pub on_complete-puback :
      (got : Message) (s : Service lib) (task : ℕ)
      → mtype got ≡ puback
      → find_id (packet_id got) s.timers ≡ some task
      → (on_complete lib got s).0 ≡ record s {
        timers = delete_id (packet_id got) s.timers;
        cancelled = s.cancelled ++ (task ∷ []);
      }
  unfolding on_complete
  on_complete-puback got s task e f = ground (arith, e, f)

  pub process_incoming-puback :
      (msg : Message) (w : Service lib × List (Upload lib))
      → mtype msg ≡ puback
      → process_incoming lib msg w ≡ completes lib pub1ack msg w
  unfolding process_incoming
  process_incoming-puback msg w e = ground (arith, e)

  pub pooled-Holds :
      (q : AckQueue) (ms : List AckMsg) (p : BytesPool)
      → Holds q ms
      → Holds (record q { pool = p }) ms
  pooled-Holds q ms p w = record {
    bits = w.bits;
    power = w.power;
    masked = w.masked;
    sized = w.sized;
    inside = w.inside;
    counted = w.counted;
    fits = w.fits;
    ends = w.ends;
    stands = w.stands;
  }
