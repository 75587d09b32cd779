-- ===== src/Service/Process/Limits.antt =====
-- What stays within bounds whatever messages come: the heartbeats and the channel of uploads.
use xmqtt.Prelude.{Option, some, List, [], ◌∷◌}
use xmqtt.Prelude.{◌≡◌, refl, arith, length-append}
use xmqtt.Prelude.{done, if_both}
use xmqtt.Message.{PacketLib}
use xmqtt.Service.State.{Service, ServiceError}
use xmqtt.Service.Process.{World, Upload, clamp, Number}
use xmqtt.Service.Process.{beat}
use xmqtt.Service.Process.{process_incoming, upload}
use xmqtt.Prelude.{Returns, Returns-mono}
use xmqtt.Service.Process.Steady.{Steady, process_incoming-Keeps}
use xmqtt.Service.Process.Same.{Same, ack_on-Same, process_acked-Same}
use xmqtt.Service.Process.{ack_on, process_acked}
use xmqtt.Service.Process.Bounded.{
  clamp-range, All-snoc, IsBounded, Same-IsBounded, answer-IsBounded,
}

module _ (lib : PacketLib) where
  open lib use {messages}
  open messages use {Message, mtype, packet_id, qos}

  upload-IsBounded :
      (msg : Message) (w : World lib) → IsBounded lib w → IsBounded lib (upload lib msg w)
  upload-IsBounded msg (s, u) b =
      let it : Upload lib = record {
        msg = msg;
        device_name = s.product_key;
        product_key = s.device_name;
      } in
      record { beats = b.beats; uploads = ground (arith, b.uploads, length-append u (it ∷ [])) }

  beat-Keeps :
      (n : Number) (s : Service lib) (u : List (Upload lib))
      → IsBounded lib (s, u)
      → Returns (λ s'. IsBounded lib (s', u)) (beat lib (clamp n) s)
  beat-Keeps n s u b = if_both (Returns (λ s'. IsBounded lib (s', u))) s.ended tt (record {
    beats = All-snoc s.heartbeats (clamp n) b.beats (clamp-range n);
    uploads = b.uploads;
  })

  bounds-Steady : Steady lib (IsBounded lib)
  bounds-Steady = record {
    answers = answer-IsBounded lib;
    acks = λ l msg s u b.
        Returns-mono (λ (r : Service lib × Option ServiceError). Same lib s r.0)
          (λ r. IsBounded lib (r.0, u)) (ack_on lib l msg s) (λ r h. Same-IsBounded lib s r.0 u h b)
          (ack_on-Same lib l msg s);
    finishes = λ l s u b.
        Returns-mono (Same lib s) (λ s'. IsBounded lib (s', u)) (process_acked lib l s)
          (λ s' h. Same-IsBounded lib s s' u h b) (process_acked-Same lib l s);
    clears = λ s u b. Same-IsBounded lib s (record s { rmsgs = [] }) u refl b;
    beats = beat-Keeps;
    uploads = upload-IsBounded;
    wills = λ s u x c e b.
        Same-IsBounded lib s (record s { sess = some (record x { cmsg = some c }) }) u refl b;
  }

  -- Whatever message comes in, after it every heartbeat that was set is between a second and two hours,
  -- and the channel of uploads holds no more than it has room for, if that was so before.
  pub process_incoming-IsBounded :
      (msg : Message) (w w' : World lib) (e : Option ServiceError)
      → IsBounded lib w
      → process_incoming lib msg w ≡ done (w', e)
      → IsBounded lib w'
  process_incoming-IsBounded msg w w' e b h =
      process_incoming-Keeps lib (IsBounded lib) bounds-Steady msg w w' e b h
