-- ===== src/Service/Process/Same.antt =====
-- What the acknowledgements of a service leave alone: the heartbeats that were set.
use xmqtt.Prelude.{Option, List, [], ◌∷◌}
use xmqtt.Prelude.{◌≡◌, refl, ◌∙◌, arith}
use xmqtt.Prelude.{Returns, Returns->>=, Returns-any, Returns-mono}
use xmqtt.Message.{PacketLib}
use xmqtt.Sessions.AckQueue.{AckQueue, AckMsg, BytesPool}
use xmqtt.Sessions.AckQueue.Methods.{ack, acked}
use xmqtt.Service.State.{Service, ServiceError, Line, send_data, the_queue, put_queue}
use xmqtt.Service.Publish.{on_complete}
use xmqtt.Service.Process.{finish, finish_all, process_acked, ack_on}
use xmqtt.Service.Process.{call_back}

module _ (lib : PacketLib) where
  open lib use {messages}
  open messages use {Message, mtype, packet_id, qos}

  -- A service with the heartbeats of another.
  abbrev pub Same : Service lib → Service lib → Type 0
  Same s s' = s'.heartbeats ≡ s.heartbeats

  pub send_data-Same : (msg : Message) (s : Service lib) → Same s (send_data lib msg s).0
  unfolding send_data
  send_data-Same msg s = ground arith

  put_queue-Same : (l : Line) (q : AckQueue) (s : Service lib) → Same s (put_queue lib l q s)
  put_queue-Same l q s = ground arith

  on_complete-Same : (msg : Message) (s : Service lib) → Same s (on_complete lib msg s).0
  unfolding on_complete
  on_complete-Same msg s = ground arith

  call_back-Same : (am : AckMsg) (got : Message) (s : Service lib) → Same s (call_back lib am got s)
  call_back-Same am got s = ground (arith, on_complete-Same got s)

  finish-Same :
      (am : AckMsg) (s : Service lib) (p : BytesPool)
      → Returns (λ (w : Service lib × BytesPool). Same s w.0) (finish lib am (s, p))
  unfolding finish
  finish-Same am s p = grind (arith, call_back-Same)

  finish_all-Same :
      (ams : List AckMsg) (s : Service lib) (p : BytesPool)
      → Returns (λ (w : Service lib × BytesPool). Same s w.0) (finish_all lib ams (s, p))
  unfolding finish_all
  finish_all-Same [] s p = refl
  finish_all-Same (am ∷ ams) s p =
      Returns->>= (λ (w : Service lib × BytesPool). Same s w.0)
        (λ (w : Service lib × BytesPool). Same s w.0) (finish lib am (s, p))
        (λ w. finish_all lib ams w) (finish-Same am s p)
        (λ w h.
          Returns-mono (λ (v : Service lib × BytesPool). Same w.0 v.0)
            (λ (v : Service lib × BytesPool). Same s v.0) (finish_all lib ams w) (λ v k. k ∙ h)
            (finish_all-Same ams w.0 w.1))

  pub process_acked-Same : (l : Line) (s : Service lib) → Returns (Same s) (process_acked lib l s)
  unfolding process_acked
  process_acked-Same l s =
      Returns->>= (λ q. Unit {0}) (Same s) (the_queue lib l s) _ (Returns-any (the_queue lib l s))
        λ q _.
          Returns->>= (λ q. Unit {0}) (Same s) (acked q) _ (Returns-any (acked q))
            λ q' _.
              Returns->>= (λ (w : Service lib × BytesPool). Same (put_queue lib l q' s) w.0)
                (Same s) (finish_all lib q'.ackdone (put_queue lib l q' s, q'.pool)) _
                (finish_all-Same q'.ackdone (put_queue lib l q' s) q'.pool)
                λ w h. put_queue-Same l (record q' { pool = w.1 }) w.0 ∙ h ∙ put_queue-Same l q' s

  pub ack_on-Same :
      (l : Line) (msg : Message) (s : Service lib)
      → Returns (λ (r : Service lib × Option ServiceError). Same s r.0) (ack_on lib l msg s)
  unfolding ack_on
  ack_on-Same l msg s =
      Returns->>= (λ q. Unit {0}) (λ (r : Service lib × Option ServiceError). Same s r.0)
        (the_queue lib l s) _ (Returns-any (the_queue lib l s))
        λ q _.
          Returns->>= (λ q. Unit {0}) (λ (r : Service lib × Option ServiceError). Same s r.0)
            (ack messages msg q) _ (Returns-any (ack messages msg q)) λ r _. put_queue-Same l r.0 s
