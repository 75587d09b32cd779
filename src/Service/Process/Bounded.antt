-- ===== src/Service/Process/Bounded.antt =====
-- The bounds on the heartbeats and on the channel of uploads, and what keeps them.
use xmqtt.Prelude.{ℕ, List, [], ◌∷◌, ◌++◌, All, length}
use xmqtt.Prelude.{sym, subst, arith, ◌≤◌, ◌*◌}
use xmqtt.Message.{PacketLib}
use xmqtt.Service.State.{Service, send_data}
use xmqtt.Service.Process.{World, Upload, clamp, Number, plus, minus}
use xmqtt.Service.Process.{answer}
use xmqtt.Service.Process.{upload_capacity}
use xmqtt.Service.Process.Same.{Same, send_data-Same}

abbrev pub InRange : ℕ → Type 0
InRange n = (1 ≤ n) × (n ≤ 2 * 3600)

pub clamp-range : (n : Number) → InRange (clamp n)
unfolding clamp
clamp-range (plus n) = ground arith
clamp-range (minus n) = ground arith

pub All-snoc : (xs : List ℕ) (x : ℕ) → All InRange xs → InRange x → All InRange (xs ++ (x ∷ []))
All-snoc [] x h k = (k, tt)
All-snoc (y ∷ xs) x h k = (h.0, All-snoc xs x h.1 k)

module _ (lib : PacketLib) where
  open lib use {messages}
  open messages use {Message, mtype, packet_id, qos}

  -- Every heartbeat that was set is between a second and two hours, and the channel of uploads holds
  -- no more than it has room for.
  pub record IsBounded (w : World lib) : Type 0 where
    pub beats : All InRange w.0.heartbeats
    pub uploads : length w.1 ≤ upload_capacity

  pub Same-IsBounded :
      (s s' : Service lib) (u : List (Upload lib))
      → Same lib s s'
      → IsBounded (s, u)
      → IsBounded (s', u)
  Same-IsBounded s s' u e b = record {
    beats = subst (All InRange) (sym e) b.beats;
    uploads = b.uploads;
  }

  pub answer-IsBounded :
      (msg : Message) (w : World lib) → IsBounded w → IsBounded (answer lib msg w).0
  answer-IsBounded msg (s, u) b =
      Same-IsBounded s (send_data lib msg s).0 u (send_data-Same lib msg s) b
