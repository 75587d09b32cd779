-- ===== src/Service/Server/Handled.antt =====
-- A server whose services handle messages.
use xmqtt.Prelude.{
  ℕ, Bytes, Option, none, some, false, ◌≡◌, refl, sym, ap, subst, ◌∙◌, arith, inl, inr,
}
use xmqtt.Prelude.{Outcome, done, must, ◌>>=◌, ◌==◌, Bool-cases}
use xmqtt.Message.{PacketLib}
use xmqtt.Sessions.AckQueue.{AckQueue}
use xmqtt.Sessions.AckQueue.Methods.{stop as stop_queue}
use xmqtt.Sessions.Session.{Session, stop}
use xmqtt.Service.State.{Service, queue_of, pub1ack, pub2in, pub2out, suback, unsuback, pingack}
use xmqtt.Service.Process.Alive.{Lives, AllOpen}
use xmqtt.Service.Server.{Server, put_service, device_key}
use xmqtt.Service.Server.Leaving.{IsLive}
use xmqtt.Service.Server.Kept.{IsSound, moved}

module _ (lib : PacketLib) where
  open lib use {messages, connects}

  abbrev Present : Option AckQueue → Type 0
  Present o = (q : AckQueue) × (o ≡ some q) × (q.closed ≡ false)

  -- One of the six stops of `Stop`, with what follows it.
  abbrev then_stop : Option AckQueue → Outcome (Session connects) → Outcome (Session connects)
  then_stop o k = must o >>= λ a. stop_queue a >>= λ _. k

  one_stop :
      (o : Option AckQueue) (k : Outcome (Session connects)) (y : Session connects)
      → then_stop o k ≡ done y
      → Present o × (k ≡ done y)
  unfolding stop_queue
  one_stop none k y e = absurd (ground (arith, e))
  one_stop (some q) k y e = elim (Bool-cases q.closed) [
    | inl c ↦ absurd (ground (arith, c, e))
    | inr c ↦ ((q, refl, c), ground (arith, c, e))
  ]

  stop_one : (o : Option AckQueue) (k : Outcome (Session connects)) → Present o → then_stop o k ≡ k
  unfolding stop_queue
  stop_one o k (q, e, c) = rw (e) (ground (arith, c))

  -- A session that can be stopped has its queues, and they are open.
  stop-AllOpen : (x y : Session connects) → stop connects x ≡ done y → AllOpen lib x
  unfolding stop
  stop-AllOpen x y e =
      let (a, e1) = one_stop x.pub1ack _ y e in
      let (b, e2) = one_stop x.pingack _ y e1 in
      let (c, e3) = one_stop x.pub2out _ y e2 in
      let (d, e4) = one_stop x.pub2in _ y e3 in
      let (f, e5) = one_stop x.unsuback _ y e4 in
      let (g, e6) = one_stop x.suback _ y e5 in
      λ l. elim l as (λ l. Present (queue_of lib l x)) [
        | pub1ack ↦ a
        | pub2in ↦ d
        | pub2out ↦ c
        | suback ↦ g
        | unsuback ↦ f
        | pingack ↦ b
      ]

  AllOpen-stop :
      (x : Session connects) → AllOpen lib x → (y : Session connects) × (stop connects x ≡ done y)
  unfolding stop
  AllOpen-stop x h = (
    _,
    stop_one x.pub1ack _ (h pub1ack)
        ∙ stop_one x.pingack _ (h pingack)
        ∙ stop_one x.pub2out _ (h pub2out)
        ∙ stop_one x.pub2in _ (h pub2in)
        ∙ stop_one x.unsuback _ (h unsuback)
        ∙ stop_one x.suback _ (h suback),
  )

  IsLive-Lives :
      (srv : Server lib) (k : Bytes) (i : ℕ) (l : IsLive lib srv k i)
      → Lives lib l.it.product_key l.it.device_name l.it
  IsLive-Lives srv k i l = record {
    product = refl;
    device = refl;
    running = l.running;
    conn = l.conn;
    connected = l.connected;
    session = l.session;
    opened = l.opened;
    queues = stop-AllOpen l.session l.stopped l.stops;
  }

  Lives-IsLive :
      (srv : Server lib) (k pk dn : Bytes) (i : ℕ) (s : Service lib)
      → device_key pk dn ≡ k
      → Lives lib pk dn s
      → IsLive lib (put_service lib i s srv) k i
  Lives-IsLive srv k pk dn i s e w = record {
    it = s;
    here = ground arith;
    keyed = ap (λ p. device_key p s.device_name) w.product ∙ ap (device_key pk) w.device ∙ e;
    running = w.running;
    conn = w.conn;
    connected = w.connected;
    session = w.session;
    opened = w.opened;
    stopped = (AllOpen-stop w.session w.queues).0;
    stops = (AllOpen-stop w.session w.queues).1;
  }

  module _ (srv : Server lib) (i : ℕ) (s s' : Service lib) (here : srv.services i ≡ some s)
      (keeps : (pk dn : Bytes) → Lives lib pk dn s → Lives lib pk dn s') where
    still_live : (k : Bytes) → IsLive lib srv k i → IsLive lib (put_service lib i s' srv) k i
    still_live k l = Lives-IsLive srv k l.it.product_key l.it.device_name i s' l.keyed (
        keeps l.it.product_key l.it.device_name
          (subst (Lives lib l.it.product_key l.it.device_name) same (IsLive-Lives srv k i l)))
      where
        same : l.it ≡ s
        same = ground (arith, l.here, here)

    -- A service that is put back as a live one, where it was live before.
    pub put_service-IsSound : IsSound lib srv → IsSound lib (put_service lib i s' srv)
    put_service-IsSound w = record {
      live = λ k j e. elim (Bool-cases (j == i)) [
        | inl same ↦
            let p : i ≡ j = ground (arith, same) in
            subst (IsLive lib (put_service lib i s' srv) k) p
              (still_live k (subst (IsLive lib srv k) (sym p) (w.live k j e)))
        | inr other ↦
            moved lib srv (put_service lib i s' srv) k j (ground (arith, other)) (w.live k j e)
      ];
      known = w.known;
    }
