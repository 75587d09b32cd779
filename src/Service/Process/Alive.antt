-- ===== src/Service/Process/Alive.antt =====
-- A live service stays live while it handles messages.
pub mod Handled
use xmqtt.Prelude.{ℕ, Bytes, false, Option, none, some, List, [], ◌∷◌, ◌≡◌, refl, ap, ◌∙◌, arith}
use xmqtt.Prelude.{
  Outcome, done, Returns, Returns->>=, if_both, ◌⊎◌, inl, inr, ◌≢◌, Option-cases, ◌==◌, ◌++◌,
}
use xmqtt.Message.{PacketLib}
use xmqtt.Sessions.AckQueue.{AckQueue, AckMsg, BytesPool, AckError}
use xmqtt.Sessions.AckQueue.Methods.{ack, acked}
use xmqtt.Sessions.AckQueue.Open.{acked-closed, ack-KeepsFlag}
use xmqtt.Sessions.Session.{Session}
use xmqtt.Service.State.{
  Service, ServiceError, Conn, Line, send_data, queue_of, with_queue, the_queue, put_queue,
}
use xmqtt.Service.Publish.{on_complete, own_complete}
use xmqtt.Service.Process.Steady.{Steady, process_incoming-Keeps}
use xmqtt.Service.Process.{World, process_incoming, beat, clamp, Number}
use xmqtt.Service.Process.{finish, finish_all, process_acked, ack_on, call_back}

module _ (lib : PacketLib) where
  open lib use {messages, connects}
  open messages use {Message}

  -- Every queue of the session is there and open.
  abbrev pub AllOpen : Session connects → Type 0
  AllOpen x = (l : Line) → (q : AckQueue) × (queue_of lib l x ≡ some q) × (q.closed ≡ false)

  -- A service that runs, with a connection and a session whose queues are open; its names are the
  -- ones given.
  pub record Lives (pk dn : Bytes) (s : Service lib) : Type 0 where
    pub product : s.product_key ≡ pk
    pub device : s.device_name ≡ dn
    pub running : s.ended ≡ false
    pub conn : Conn
    pub connected : s.conn ≡ some conn
    pub session : Session connects
    pub opened : s.sess ≡ some session
    pub queues : AllOpen session

  with_queue-cases :
      (l k : Line) (q : AckQueue) (x : Session connects)
      → (queue_of lib k (with_queue lib l q x) ≡ some q)
        ⊎ (queue_of lib k (with_queue lib l q x) ≡ queue_of lib k x)
  with_queue-cases l k q x = ground arith

  with_queue-AllOpen :
      (l : Line) (q : AckQueue) (x : Session connects)
      → AllOpen x
      → q.closed ≡ false
      → AllOpen (with_queue lib l q x)
  with_queue-AllOpen l q x h e k = elim (with_queue-cases l k q x) [
    | inl same ↦ (q, same, e)
    | inr other ↦ let (r, f, c) = h k in (r, other ∙ f, c)
  ]

  pub willed_queue :
      (l : Line) (x : Session connects) (c : connects.Connect)
      → queue_of lib l (record x { cmsg = some c }) ≡ queue_of lib l x
  willed_queue l x c = ground arith

  -- A service with the names, the flag and the session of another, and a connection if that has one.
  pub record Like (s s' : Service lib) : Type 0 where
    product : s'.product_key ≡ s.product_key
    device : s'.device_name ≡ s.device_name
    running : s'.ended ≡ s.ended
    session : s'.sess ≡ s.sess
    connected : (s.conn ≢ none) → s'.conn ≢ none

  send_data-Like : (msg : Message) (s : Service lib) → Like s (send_data lib msg s).0
  unfolding send_data
  send_data-Like msg s = record {
    product = ground arith;
    device = ground arith;
    running = ground arith;
    session = ground arith;
    connected = ground arith;
  }

  pub on_complete-Like : (msg : Message) (s : Service lib) → Like s (on_complete lib msg s).0
  unfolding on_complete
  on_complete-Like msg s = record {
    product = ground arith;
    device = ground arith;
    running = ground arith;
    session = ground arith;
    connected = ground arith;
  }

  module _ (pk dn : Bytes) where
    pub Like-Lives : (s s' : Service lib) → Like s s' → Lives pk dn s → Lives pk dn s'
    Like-Lives s s' l w = elim (Option-cases s'.conn) [
      | inl e ↦ absurd (l.connected (λ f. ground (arith, f, w.connected)) e)
      | inr (c, e) ↦ record {
        product = l.product ∙ w.product;
        device = l.device ∙ w.device;
        running = l.running ∙ w.running;
        conn = c;
        connected = e;
        session = w.session;
        opened = l.session ∙ w.opened;
        queues = w.queues;
      }
    ]

    pub send_data-Lives :
        (msg : Message) (s : Service lib) → Lives pk dn s → Lives pk dn (send_data lib msg s).0
    send_data-Lives msg s w = Like-Lives s (send_data lib msg s).0 (send_data-Like msg s) w

    pub put_queue-Lives :
        (l : Line) (q : AckQueue) (s : Service lib)
        → Lives pk dn s
        → q.closed ≡ false
        → Lives pk dn (put_queue lib l q s)
    put_queue-Lives l q s w e =
        rw (w.opened, put_queue)
          (record {
            product = w.product;
            device = w.device;
            running = w.running;
            conn = w.conn;
            connected = w.connected;
            session = with_queue lib l q w.session;
            opened = refl;
            queues = with_queue-AllOpen l q w.session w.queues e;
          })

    -- The queue of a live service is there and open.
    pub the_queue-open :
        (l : Line) (s : Service lib)
        → Lives pk dn s
        → Returns (λ (q : AckQueue). q.closed ≡ false) (the_queue lib l s)
    the_queue-open l s w = let (q, e, c) = w.queues l in rw (w.opened) (rw (e) c)

    -- What a call that returns a service leaves.
    abbrev pub Leaves {ℓ} : {A : Type ℓ} → (A → Service lib) → Outcome A → Type 0
    Leaves f = Returns (λ a. Lives pk dn (f a))
