-- ===== src/Sessions/AckQueue/Methods.antt =====
-- The methods of `Ackqueue`.
use xmqtt.Prelude.{ℕ, zero, suc, Bytes, Bool, true, false, Option, none, some, List, [], ◌∷◌, ◌++◌}
use xmqtt.Prelude.{◌==◌, ltb, if◌then◌else◌, length, take, drop, replicate, set}
use xmqtt.Prelude.{◌+◌, ◌-◌, ◌*◌, ◌^◌, Outcome, done, panicked, must, ◌>>=◌}
use xmqtt.Message.{MessageType, MessageLib}
use xmqtt.Message.{reserved, publish, puback, pubrec, pubrel, pubcomp}
use xmqtt.Message.{subscribe, suback, unsubscribe, unsuback, pingreq, pingresp}
use xmqtt.Sessions.AckQueue.{AckError, queue_empty, invalid_wait, invalid_ack, encode_failed}
use xmqtt.Sessions.AckQueue.{duplicate_id, duplicate_publish, AckMsg, no_ackmsg}
use xmqtt.Sessions.AckQueue.{get_bytes, put_bytes, AckQueue, full, empty, increment}
use xmqtt.Sessions.AckQueue.{find_id, put_id, delete_id, cell}

abbrev pub Reply : Type 0
Reply = Outcome (AckQueue × Option AckError)

-- The last loop of `grow`: the map is built anew from the front of the ring.
unfoldable pub remap : List (Option AckMsg) → ℕ → ℕ → List (ℕ × ℕ) → Outcome (List (ℕ × ℕ))
remap r zero i m = done m
remap [] (suc n) i m = panicked
remap (none ∷ r) (suc n) i m = panicked
remap (some am ∷ r) (suc n) i m = remap r n (i + 1) (put_id am.pktid i m)

-- `copy` into a slice of nils.
unfoldable pub copied : ℕ → List (Option AckMsg) → List (Option AckMsg)
copied n r = take n (r ++ replicate (n - length r) none)

unfoldable pub grow : AckQueue → Outcome AckQueue
unfolding remap copied
grow q =
    if ltb (2 ^ 62 - 1) q.size
    then panicked
    else (let size' = q.size * 2 in
        let moved =
          if ltb q.head q.tail
          then take (q.tail - q.head) (drop q.head q.ring)
          else take (q.size - q.head) (drop q.head q.ring) ++ take q.tail q.ring in
        let ring' = copied size' moved in
        (remap ring' q.count 0 [] >>= λ m. done (record q {
          size = size';
          mask = size' - 1;
          ring = ring';
          head = 0;
          tail = q.count;
          emap = m;
        })))

unfoldable pub remove_head : AckQueue → Reply
remove_head q =
    if empty q
    then done (q, some queue_empty)
    else (cell q.ring q.head >>= λ c. must c >>= λ it. done (
      record q {
        ring = set q.ring q.head none;
        head = increment q q.head;
        count = q.count - 1;
        emap = delete_id it.pktid q.emap;
      },
      none,
    ))

-- The body of the loop of `Acked`: whether the state completes an acknowledgement cycle.
abbrev pub is_acked : MessageType → Bool
is_acked puback = true
is_acked pubrel = true
is_acked pubcomp = true
is_acked suback = true
is_acked unsuback = true
is_acked _ = false

-- The loop of `Acked`; `fuel` bounds its rounds, and the count of messages is enough.
unfoldable pub acked_loop : ℕ → AckQueue → Outcome AckQueue
unfolding remove_head
acked_loop zero q = done q
acked_loop (suc fuel) q =
    let next = cell q.ring q.head >>= λ c. must c >>= λ it. elim (is_acked it.state) [
      | false ↦ done q
      | true ↦
          remove_head (record q { ackdone = q.ackdone ++ (it ∷ []) }) >>= λ r. acked_loop fuel r.0
    ] in
    if empty q then done q else next

abbrev pub is_pingresp : MessageType → Bool
is_pingresp pingresp = true
is_pingresp _ = false

abbrev pub is_pingreq : MessageType → Bool
is_pingreq pingreq = true
is_pingreq _ = false

-- The first part of `Acked`: the list is emptied, and an answered ping is put into it.
unfoldable pub collect_ping : AckQueue → AckQueue
collect_ping q = elim q.ping [
  | none ↦ record q { ackdone = [] }
  | some p ↦
      if is_pingresp p.state
      then record q { ackdone = p ∷ []; ping = some no_ackmsg }
      else record q { ackdone = [] }
]

-- The result is the field `ackdone`.
unfoldable pub acked : AckQueue → Outcome AckQueue
unfolding acked_loop collect_ping
acked q = acked_loop q.count (collect_ping q)

-- The head's buffers go back to the pool, and the head leaves the ring.
unfoldable pub drop_head : AckMsg → AckQueue → AckQueue
drop_head am q = record q {
  pool = put_bytes am.ackbuf (put_bytes am.msgbuf q.pool);
  ring = set q.ring q.head none;
  head = increment q q.head;
  count = q.count - 1;
  emap = delete_id am.pktid q.emap;
}

-- A tick of `Clear` at the time `now`: messages that are older than five seconds leave, from the
-- head on. The code's own index `i` is the head all along.
unfoldable pub clear_tick : ℕ → ℕ → AckQueue → Outcome AckQueue
unfolding drop_head
clear_tick zero now q = done q
clear_tick (suc fuel) now q =
    let next = cell q.ring q.head >>= λ c. elim c [
      | none ↦ done q
      | some am ↦ elim (ltb (am.timestamp + 5) now) [
        | true ↦ clear_tick fuel now (drop_head am q)
        | false ↦ done q
      ]
    ] in
    if length q.ring == 0 then done q else if ltb 0 q.count then next else done q

-- The other case of `Clear`, when `Done` is closed: every message leaves.
unfoldable pub clear_done : ℕ → AckQueue → Outcome AckQueue
unfolding drop_head
clear_done zero q = done q
clear_done (suc fuel) q =
    let next = cell q.ring q.head >>= λ c. elim c [
      | none ↦ done q
      | some am ↦ clear_done fuel (drop_head am q)
    ] in
    if length q.ring == 0 then done q else if ltb 0 q.count then next else done q

-- `Stop`; closing `Done` twice panics. It takes no mutex: a call that overlaps with another method is
-- not modelled.
unfoldable pub stop : AckQueue → Outcome AckQueue
stop q =
    if q.closed
    then panicked
    else done (record q { ping = none; ring = []; ackdone = []; emap = []; closed = true })

module _ (lib : MessageLib) where
  open lib use {Message, mtype, packet_id, qos, dup, len, encode}

  abbrev pub waiting : ℕ → Message → ℕ → Bytes → AckMsg
  waiting now msg oc written = record {
    mtype = mtype msg;
    state = reserved;
    pktid = packet_id msg;
    msgbuf = written;
    ackbuf = [];
    on_complete = oc;
    timestamp = now;
  }

  -- The new message at the tail of the ring.
  unfoldable pub enqueue : ℕ → Message → ℕ → AckQueue → Reply
  enqueue now msg oc q = get_bytes (len msg) q.pool >>= λ got.
      let (written, good) = encode msg got.0 in
      if good
      then (cell q.ring q.tail >>= λ _. done (
        record q {
          ring = set q.ring q.tail (some (waiting now msg oc written));
          emap = put_id (packet_id msg) q.tail q.emap;
          tail = increment q q.tail;
          count = q.count + 1;
          pool = got.1;
        },
        none,
      ))
      else done (record q { pool = got.1 }, some encode_failed)

  abbrev pub is_publish : MessageType → Bool
  is_publish publish = true
  is_publish _ = false

  -- A packet identifier that waits already.
  abbrev pub duplicate : Message → Option AckError
  duplicate msg =
      if is_publish (mtype msg)
      then (if dup msg then some duplicate_publish else none)
      else some duplicate_id

  unfoldable pub insert : ℕ → Message → ℕ → AckQueue → Reply
  unfolding grow enqueue
  insert now msg oc q = (if full q then grow q else done q) >>= λ q'.
      elim (find_id (packet_id msg) q'.emap) [
        | none ↦ enqueue now msg oc q'
        | some i ↦ done (q', duplicate msg)
      ]

  abbrev pub inserted : ℕ → Message → ℕ → AckQueue → Reply
  inserted now msg oc q = insert now msg oc q >>= λ r. done (r.0, none)

  -- `Wait`: what `insert` returns is not looked at.
  unfoldable pub wait : ℕ → Message → ℕ → AckQueue → Reply
  unfolding insert
  wait now msg oc q = elim (mtype msg) [
    | publish ↦ if qos msg == 0 then done (q, some invalid_wait) else inserted now msg oc q
    | subscribe ↦ inserted now msg oc q
    | unsubscribe ↦ inserted now msg oc q
    | pingreq ↦
        done
          (record q { ping = some (record no_ackmsg { mtype = pingreq; on_complete = oc }) }, none)
    | _ ↦ done (q, some invalid_wait)
  ]

  -- The message at a place of the ring takes the state and the bytes of its acknowledgement.
  unfoldable pub ack_at : Message → ℕ → AckQueue → Reply
  ack_at msg i q = cell q.ring i >>= λ c. must c >>= λ it. get_bytes (len msg) q.pool >>= λ got.
      let (written, good) = encode msg got.0 in
      let it' = record it { state = mtype msg; ackbuf = written } in
      done (
        record q { ring = set q.ring i (some it'); pool = got.1 },
        if good then none else some encode_failed,
      )

  unfoldable pub ack_id : Message → AckQueue → Reply
  unfolding ack_at
  ack_id msg q = elim (find_id (packet_id msg) q.emap) [
    | none ↦ done (q, none)
    | some i ↦ ack_at msg i q
  ]

  unfoldable pub ack : Message → AckQueue → Reply
  unfolding ack_id
  ack msg q = elim (mtype msg) [
    | puback ↦ ack_id msg q
    | pubrec ↦ ack_id msg q
    | pubrel ↦ ack_id msg q
    | pubcomp ↦ ack_id msg q
    | suback ↦ ack_id msg q
    | unsuback ↦ ack_id msg q
    | pingresp ↦ must q.ping >>= λ p. done (
      (if is_pingreq p.mtype then record q { ping = some (record p { state = pingresp }) } else q),
      none,
    )
    | _ ↦ done (q, some invalid_ack)
  ]
