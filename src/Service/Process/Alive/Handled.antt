-- ===== src/Service/Process/Alive/Handled.antt =====
-- The handlers of `processIncoming` keep a live service live.
use xmqtt.Prelude.{ℕ, Bytes, false, Option, some, List, [], ◌∷◌, ◌≡◌, refl, ap, ◌∙◌, arith}
use xmqtt.Prelude.{done, Returns, Returns->>=, if_both, ◌==◌, ◌++◌}
use xmqtt.Message.{PacketLib}
use xmqtt.Sessions.AckQueue.{AckQueue, AckMsg, BytesPool, AckError}
use xmqtt.Sessions.AckQueue.Methods.{ack, acked}
use xmqtt.Sessions.AckQueue.Open.{acked-closed, ack-KeepsFlag}
use xmqtt.Sessions.Session.{Session}
use xmqtt.Service.State.{Service, ServiceError, Line, queue_of, the_queue, put_queue}
use xmqtt.Service.Publish.{on_complete, own_complete}
use xmqtt.Service.Process.Steady.{Steady, process_incoming-Keeps}
use xmqtt.Service.Process.{World, process_incoming, beat, clamp, Number}
use xmqtt.Service.Process.{finish, finish_all, process_acked, ack_on, call_back}
use xmqtt.Service.Process.Alive.{
  Lives, Leaves, willed_queue, on_complete-Like, Like-Lives, send_data-Lives, put_queue-Lives,
  the_queue-open,
}

module _ (lib : PacketLib) where
  open lib use {messages, connects}
  open messages use {Message}

  module _ (pk dn : Bytes) where
    call_back-Lives :
        (am : AckMsg) (got : Message) (s : Service lib)
        → Lives lib pk dn s
        → Lives lib pk dn (call_back lib am got s)
    call_back-Lives am got s w =
        if_both (Lives lib pk dn) (am.on_complete == own_complete)
          (Like-Lives lib pk dn s (on_complete lib got s).0 (on_complete-Like lib got s) w) w

    finish-Lives :
        (am : AckMsg) (s : Service lib) (p : BytesPool)
        → Lives lib pk dn s
        → Leaves lib pk dn (λ (w : Service lib × BytesPool). w.0) (finish lib am (s, p))
    unfolding finish
    finish-Lives am s p w = grind (arith, call_back-Lives)

    finish_all-Lives :
        (ams : List AckMsg) (s : Service lib) (p : BytesPool)
        → Lives lib pk dn s
        → Leaves lib pk dn (λ (w : Service lib × BytesPool). w.0) (finish_all lib ams (s, p))
    unfolding finish_all
    finish_all-Lives [] s p w = w
    finish_all-Lives (am ∷ ams) s p w =
        Returns->>= (λ (v : Service lib × BytesPool). Lives lib pk dn v.0)
          (λ (v : Service lib × BytesPool). Lives lib pk dn v.0) (finish lib am (s, p))
          (λ v. finish_all lib ams v) (finish-Lives am s p w)
          (λ v h. finish_all-Lives ams v.0 v.1 h)

    process_acked-Lives :
        (l : Line) (s : Service lib)
        → Lives lib pk dn s
        → Returns (Lives lib pk dn) (process_acked lib l s)
    unfolding process_acked
    process_acked-Lives l s w =
        Returns->>= (λ (q : AckQueue). q.closed ≡ false) (Lives lib pk dn) (the_queue lib l s) _
          (the_queue-open lib pk dn l s w)
          λ q e.
            Returns->>= (λ (r : AckQueue). r.closed ≡ q.closed) (Lives lib pk dn) (acked q) _
              (acked-closed q)
              λ q' f.
                Returns->>= (λ (v : Service lib × BytesPool). Lives lib pk dn v.0) (Lives lib pk dn)
                  (finish_all lib q'.ackdone (put_queue lib l q' s, q'.pool)) _
                  (finish_all-Lives q'.ackdone (put_queue lib l q' s) q'.pool
                    (put_queue-Lives lib pk dn l q' s w (f ∙ e)))
                  λ v h. put_queue-Lives lib pk dn l (record q' { pool = v.1 }) v.0 h (f ∙ e)

    ack_on-Lives :
        (l : Line) (msg : Message) (s : Service lib)
        → Lives lib pk dn s
        → Leaves lib pk dn (λ (r : Service lib × Option ServiceError). r.0) (ack_on lib l msg s)
    unfolding ack_on
    ack_on-Lives l msg s w =
        Returns->>= (λ (q : AckQueue). q.closed ≡ false)
          (λ (r : Service lib × Option ServiceError). Lives lib pk dn r.0) (the_queue lib l s) _
          (the_queue-open lib pk dn l s w)
          λ q e.
            Returns->>= (λ (r : AckQueue × Option AckError). r.0.closed ≡ q.closed)
              (λ (r : Service lib × Option ServiceError). Lives lib pk dn r.0) (ack messages msg q)
              _ (ack-KeepsFlag messages msg q) λ r f. put_queue-Lives lib pk dn l r.0 s w (f ∙ e)

    abbrev LivesHere : World lib → Type 0
    LivesHere w = Lives lib pk dn w.0

    -- What was heard and what is kept for the topics do not count.
    Lives-noted :
        (hs : List ℕ) (ms : List Message) (s : Service lib)
        → Lives lib pk dn s
        → Lives lib pk dn (record s { heartbeats = hs; rmsgs = ms })
    Lives-noted hs ms s w = record {
      product = w.product;
      device = w.device;
      running = w.running;
      conn = w.conn;
      connected = w.connected;
      session = w.session;
      opened = w.opened;
      queues = w.queues;
    }

    Lives-willed :
        (x : Session connects) (c : connects.Connect) (s : Service lib)
        → s.sess ≡ some x
        → Lives lib pk dn s
        → Lives lib pk dn (record s { sess = some (record x { cmsg = some c }) })
    Lives-willed x c s e w = record {
      product = w.product;
      device = w.device;
      running = w.running;
      conn = w.conn;
      connected = w.connected;
      session = record x { cmsg = some c };
      opened = refl;
      queues = λ l.
          let (q, f, o) = w.queues l in
          (q, willed_queue lib l x c ∙ ap (queue_of lib l) same ∙ f, o);
    }
      where
        same : x ≡ w.session
        same = ground (arith, e, w.opened)

    beat-Lives :
        (n : Number) (s : Service lib)
        → Lives lib pk dn s
        → Returns (Lives lib pk dn) (beat lib (clamp n) s)
    beat-Lives n s w =
        if_both (Returns (Lives lib pk dn)) s.ended tt
          (Lives-noted (s.heartbeats ++ (clamp n ∷ [])) s.rmsgs s w)

    lives-Steady : Steady lib LivesHere
    lives-Steady = record {
      answers = λ msg w h. send_data-Lives lib pk dn msg w.0 h;
      acks = λ l msg s u h. ack_on-Lives l msg s h;
      finishes = λ l s u h. process_acked-Lives l s h;
      clears = λ s u h. Lives-noted s.heartbeats [] s h;
      beats = λ n s u h. beat-Lives n s h;
      uploads = λ msg w h. h;
      wills = λ s u x c e h. Lives-willed x c s e h;
    }

    -- A live service that handles a message, and is not stopped meanwhile by a panic, is live after it.
    pub process_incoming-Lives :
        (msg : Message) (w w' : World lib) (e : Option ServiceError)
        → Lives lib pk dn w.0
        → process_incoming lib msg w ≡ done (w', e)
        → Lives lib pk dn w'.0
    process_incoming-Lives msg w w' e h f =
        process_incoming-Keeps lib LivesHere lives-Steady msg w w' e h f
