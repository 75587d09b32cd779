-- ===== src/Service/Process/Sending.antt =====
-- A live service stays live while it publishes.
use xmqtt.Prelude.{ℕ, Bytes, Option, List, ◌≡◌, ◌∙◌, arith, false}
use xmqtt.Prelude.{Returns->>=}
use xmqtt.Message.{PacketLib}
use xmqtt.Sessions.AckQueue.{AckQueue, AckError, put_id}
use xmqtt.Sessions.AckQueue.Methods.{wait}
use xmqtt.Sessions.AckQueue.Open.{wait-KeepsFlag}
use xmqtt.Service.State.{Service, ServiceError, Line, send_data, the_queue}
use xmqtt.Service.State
use xmqtt.Service.Publish.{publish, publish_once, wait_on, Done}
use xmqtt.Service.Process.Alive.{Lives, Leaves, send_data-Lives, put_queue-Lives, the_queue-open}

module _ (lib : PacketLib) (pk dn : Bytes) where
  open lib use {messages}
  open messages use {Message, packet_id, qos}

  abbrev LeavesLive : Done lib → Type 0
  LeavesLive = Leaves lib pk dn (λ (r : Service lib × Option ServiceError). r.0)

  wait_on-Lives :
      (l : Line) (now : ℕ) (msg : Message) (oc : ℕ) (s : Service lib)
      → Lives lib pk dn s
      → LeavesLive (wait_on lib l now msg oc s)
  unfolding wait_on
  wait_on-Lives l now msg oc s w =
      Returns->>= (λ (q : AckQueue). q.closed ≡ false)
        (λ (r : Service lib × Option ServiceError). Lives lib pk dn r.0) (the_queue lib l s) _
        (the_queue-open lib pk dn l s w)
        λ q e.
          Returns->>= (λ (r : AckQueue × Option AckError). r.0.closed ≡ q.closed)
            (λ (r : Service lib × Option ServiceError). Lives lib pk dn r.0)
            (wait messages now msg oc q) _ (wait-KeepsFlag messages now msg oc q)
            λ r f. put_queue-Lives lib pk dn l r.0 s w (f ∙ e)

  Lives-timed :
      (ts : List (ℕ × ℕ)) (s : Service lib)
      → Lives lib pk dn s
      → Lives lib pk dn (record s { timers = ts })
  Lives-timed ts s w = record {
    product = w.product;
    device = w.device;
    running = w.running;
    conn = w.conn;
    connected = w.connected;
    session = w.session;
    opened = w.opened;
    queues = w.queues;
  }

  publish_once-Lives :
      (now task : ℕ) (msg : Message) (oc : ℕ) (s : Service lib)
      → Lives lib pk dn s
      → LeavesLive (publish_once lib now task msg oc s)
  unfolding publish_once
  publish_once-Lives now task msg oc s w =
      let s' : Service lib = record s { timers = put_id (packet_id msg) task s.timers } in
      let w' = Lives-timed (put_id (packet_id msg) task s.timers) s w in
      let waited = wait_on-Lives State.pub1ack now msg oc s' w' in grind (arith, w', waited)

  -- Whatever `publish` meets, if it returns, it leaves a live service live.
  pub publish-Lives :
      (client : ℕ → Message → Option ServiceError) (now task : ℕ) (msg : Message) (oc : ℕ)
      (s : Service lib)
      → Lives lib pk dn s
      → LeavesLive (publish lib client now task msg oc s)
  unfolding publish
  publish-Lives client now task msg oc s w =
      let sent = send_data-Lives lib pk dn msg s w in
      grind (arith, sent, wait_on-Lives, publish_once-Lives)
