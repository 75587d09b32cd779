-- ===== src/Sessions/AckQueue.antt =====
-- `Ackqueue` of sessions/ackqueue.go: the state, the ring's arithmetic and the buffer pool.
-- The mutex makes each method one step. An int64 of the code is never negative here.
pub mod Methods
pub mod Pool
pub mod Order
pub mod Places
pub mod Answered
pub mod Open
pub mod Grown
pub mod Cleared
pub mod Finished
pub mod Enqueued
use Prim.Native.Nat.{bit_and, bit_or}
use xmqtt.Prelude.{ℕ, zero, suc, Bytes, Bool, true, false, Option, none, some, List, [], ◌∷◌, ◌++◌}
use xmqtt.Prelude.{
  ◌==◌, ltb, if◌then◌else◌, ◌&&◌, not, length, take, drop, replicate, set, get_elem?,
}
use xmqtt.Prelude.{◌+◌, ◌-◌, ◌*◌, ◌/◌, ◌^◌, Outcome, done, panicked, must, ◌>>=◌}
use xmqtt.Message.{MessageType, reserved}

pub data AckError : Type 0 where
  queue_empty invalid_wait invalid_ack encode_failed : AckError
  duplicate_id duplicate_publish : AckError

-- `ackmsg`. A nil buffer is empty; the callback is a token.
pub record AckMsg : Type 0 where
  pub mtype : MessageType
  pub state : MessageType
  pub pktid : ℕ
  pub msgbuf : Bytes
  pub ackbuf : Bytes
  pub on_complete : ℕ
  pub timestamp : ℕ

-- `&ackmsg{}`
abbrev pub no_ackmsg : AckMsg
no_ackmsg = record {
  mtype = reserved;
  state = reserved;
  pktid = 0;
  msgbuf = [];
  ackbuf = [];
  on_complete = 0;
  timestamp = 0;
}

-- `BytesPool` over a sync.Pool: the buffers that were put back, and whether the pool has a New
-- function, which only `init` sets.
pub record BytesPool : Type 0 where
  pub width : ℕ
  pub free : List Bytes
  pub has_new : Bool

abbrev pub pool_width : ℕ
pool_width = 8192

-- With nothing to hand out and no New, `pool.Get` is nil, and the type assertion on it panics. `free`
-- is what the pool still hands out: a sync.Pool may let buffers go at any time, which is a pool with
-- fewer of them before the call.
unfoldable pub get_bytes : ℕ → BytesPool → Outcome (Bytes × BytesPool)
get_bytes n p =
    if ltb n p.width
    then elim p.free [
      | b ∷ rest ↦ done (b, record p { free = rest })
      | [] ↦ if p.has_new then done (replicate pool_width 0, p) else panicked
    ]
    else done (replicate n 0, p)

pub put_bytes : Bytes → BytesPool → BytesPool
put_bytes b p = if length b == p.width then record p { free = b ∷ p.free } else p

pub record AckQueue : Type 0 where
  pub size : ℕ
  pub mask : ℕ
  pub count : ℕ
  pub head : ℕ
  pub tail : ℕ
  pub ping : Option AckMsg
  pub ring : List (Option AckMsg)
  pub emap : List (ℕ × ℕ)
  pub ackdone : List AckMsg
  pub pool : BytesPool
  pub closed : Bool

-- `powerOfTwo64` and `roundUpPowerOfTwo64`; 0 stays 0, since `-1 >> k` is -1.
pub power_of_two64 : ℕ → Bool
power_of_two64 n = not (n == 0) && bit_and n (n - 1) == 0

abbrev spread : ℕ → ℕ → ℕ
spread k n = bit_or n (n / 2 ^ k)

pub round_up_power_of_two64 : ℕ → ℕ
round_up_power_of_two64 n =
    if n == 0
    then 0
    else spread 32 (spread 16 (spread 8 (spread 4 (spread 2 (spread 1 (n - 1)))))) + 1

-- `newAckqueue`; `pub1` is `t == "Pub1ack"`.
unfoldable pub new_ackqueue : ℕ → Bool → AckQueue
unfolding power_of_two64 round_up_power_of_two64
new_ackqueue n pub1 =
    let m = if power_of_two64 n then n else round_up_power_of_two64 n in
    record {
      size = m;
      mask = m - 1;
      count = 0;
      head = 0;
      tail = 0;
      ping = some no_ackmsg;
      ring = replicate m none;
      emap = [];
      ackdone = [];
      pool = record { width = pool_width; free = []; has_new = pub1 };
      closed = false;
    }

abbrev pub full : AckQueue → Bool
full q = q.count == q.size

abbrev pub empty : AckQueue → Bool
empty q = q.count == 0

abbrev pub index : AckQueue → ℕ → ℕ
index q n = bit_and n q.mask

abbrev pub increment : AckQueue → ℕ → ℕ
increment q n = index q (n + 1)

-- The map from packet identifiers to places in the ring.
unfoldable pub find_id : ℕ → List (ℕ × ℕ) → Option ℕ
find_id p [] = none
find_id p ((k, i) ∷ m) = if p == k then some i else find_id p m

unfoldable pub put_id : ℕ → ℕ → List (ℕ × ℕ) → List (ℕ × ℕ)
put_id p i [] = (p, i) ∷ []
put_id p i ((k, j) ∷ m) = if p == k then (k, i) ∷ m else (k, j) ∷ put_id p i m

unfoldable pub delete_id : ℕ → List (ℕ × ℕ) → List (ℕ × ℕ)
delete_id p [] = []
delete_id p ((k, j) ∷ m) = let rest = delete_id p m in if p == k then rest else (k, j) ∷ rest

abbrev pub cell : List (Option AckMsg) → ℕ → Outcome (Option AckMsg)
cell r i = must (get_elem? r i)
