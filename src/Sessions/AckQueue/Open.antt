-- ===== src/Sessions/AckQueue/Open.antt =====
-- The methods of `Ackqueue` other than `Stop` leave it open, or closed.
use xmqtt.Prelude.{
  ℕ, zero, suc, Option, Bool, ◌++◌, [], ◌∷◌, false, true, ◌≡◌, refl, ◌∙◌, arith, if_both,
  if◌then◌else◌,
}
use xmqtt.Prelude.{Outcome, done, must, ◌>>=◌, Returns, Returns->>=, Returns-any, Returns-mono}
use xmqtt.Message.{MessageLib}
use xmqtt.Sessions.AckQueue.{AckQueue, AckMsg, AckError, empty, cell, full}
use xmqtt.Sessions.AckQueue.Methods.{
  Reply, remove_head, is_acked, acked_loop, acked, collect_ping, ack, ack_id, ack_at, grow, enqueue,
  insert, wait,
}

-- The result of a method that returns has the queue's flag.
abbrev pub KeepsFlag : AckQueue → Reply → Type 0
KeepsFlag q = Returns (λ (r : AckQueue × Option AckError). r.0.closed ≡ q.closed)

remove_head-KeepsFlag : (q : AckQueue) → KeepsFlag q (remove_head q)
unfolding remove_head
remove_head-KeepsFlag q = ground arith

collect_ping-closed : (q : AckQueue) → (collect_ping q).closed ≡ q.closed
unfolding collect_ping
collect_ping-closed q = ground arith

grow-closed : (q : AckQueue) → Returns (λ (r : AckQueue). r.closed ≡ q.closed) (grow q)
unfolding grow
grow-closed q = ground arith

-- A state with the queue's flag.
abbrev SameFlag : AckQueue → Outcome AckQueue → Type 0
SameFlag q = Returns (λ (r : AckQueue). r.closed ≡ q.closed)

abbrev with_done : AckMsg → AckQueue → AckQueue
with_done it q = record q { ackdone = q.ackdone ++ (it ∷ []) }

-- A round of the loop, if the later rounds keep the flag.
acked_round :
    (q : AckQueue) (k : AckQueue → Outcome AckQueue) (it : AckMsg) (b : Bool)
    → ((r : AckQueue) → SameFlag r (k r))
    → SameFlag q (elim b as (λ _. Outcome AckQueue) [
      | false ↦ done q
      | true ↦ remove_head (with_done it q) >>= λ r. k r.0
    ])
acked_round q k it false h = refl
acked_round q k it true h =
    Returns->>= (λ (r : AckQueue × Option AckError). r.0.closed ≡ q.closed)
      (λ (r : AckQueue). r.closed ≡ q.closed) (remove_head (with_done it q)) (λ r. k r.0)
      (remove_head-KeepsFlag (with_done it q))
      (λ r e.
        Returns-mono (λ (v : AckQueue). v.closed ≡ r.0.closed) (λ v. v.closed ≡ q.closed) (k r.0)
          (λ v f. f ∙ e) (h r.0))

acked_loop-closed : (n : ℕ) (q : AckQueue) → SameFlag q (acked_loop n q)
unfolding acked_loop
acked_loop-closed zero q = refl
acked_loop-closed (suc n) q = if_both (SameFlag q) (empty q) refl (
    Returns->>= (λ c. Unit {0}) (λ (r : AckQueue). r.closed ≡ q.closed) (cell q.ring q.head) _
      (Returns-any (cell q.ring q.head))
      (λ c _.
        Returns->>= (λ it. Unit {0}) (λ (r : AckQueue). r.closed ≡ q.closed) (must c) _
          (Returns-any (must c))
          (λ it _. acked_round q (acked_loop n) it (is_acked it.state) (acked_loop-closed n))))

pub acked-closed : (q : AckQueue) → Returns (λ (r : AckQueue). r.closed ≡ q.closed) (acked q)
unfolding acked
acked-closed q =
    Returns-mono (λ (r : AckQueue). r.closed ≡ (collect_ping q).closed) (λ r. r.closed ≡ q.closed)
      (acked_loop q.count (collect_ping q)) (λ r h. h ∙ collect_ping-closed q)
      (acked_loop-closed q.count (collect_ping q))

module _ (lib : MessageLib) where
  open lib use {Message}

  ack_at-KeepsFlag : (msg : Message) (i : ℕ) (q : AckQueue) → KeepsFlag q (ack_at lib msg i q)
  unfolding ack_at
  ack_at-KeepsFlag msg i q = ground arith

  pub ack-KeepsFlag : (msg : Message) (q : AckQueue) → KeepsFlag q (ack lib msg q)
  unfolding ack ack_id
  ack-KeepsFlag msg q = grind (arith, ack_at-KeepsFlag)

  enqueue-KeepsFlag :
      (now : ℕ) (msg : Message) (oc : ℕ) (q : AckQueue) → KeepsFlag q (enqueue lib now msg oc q)
  unfolding enqueue
  enqueue-KeepsFlag now msg oc q = ground arith

  insert-KeepsFlag :
      (now : ℕ) (msg : Message) (oc : ℕ) (q : AckQueue) → KeepsFlag q (insert lib now msg oc q)
  unfolding insert
  insert-KeepsFlag now msg oc q =
      Returns->>= (λ (r : AckQueue). r.closed ≡ q.closed)
        (λ (r : AckQueue × Option AckError). r.0.closed ≡ q.closed)
        (if full q then grow q else done q) _ (if_both (SameFlag q) (full q) (grow-closed q) refl)
        (λ q' e. grind (arith, e, enqueue-KeepsFlag))

  pub wait-KeepsFlag :
      (now : ℕ) (msg : Message) (oc : ℕ) (q : AckQueue) → KeepsFlag q (wait lib now msg oc q)
  unfolding wait
  wait-KeepsFlag now msg oc q = grind (arith, insert-KeepsFlag)
