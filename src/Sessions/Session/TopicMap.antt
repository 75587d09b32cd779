-- ===== src/Sessions/Session/TopicMap.antt =====
-- The topics that a session keeps, and its life from `Init` to `Stop`.
use xmqtt.Prelude.{ℕ, Bytes, true, false, Option, none, some, List, if◌then◌else◌, ◌≡◌, arith}
use xmqtt.Prelude.{
  done, panicked, find_key, put_key, bytes_eq, find_key-put_key, find_key-delete_key,
}
use xmqtt.Message.{ConnectLib}
use xmqtt.Sessions.Session.{
  Session, already_initialized, add_topic, remove_topic, init, stop, copy_connect,
}

module _ (lib : ConnectLib) where
  open lib use {Connect}

  -- The QoS kept for a topic.
  abbrev pub qos_of : Bytes → Session lib → Option ℕ
  qos_of t s = elim s.topics [ none ↦ none | some m ↦ find_key t m ]

  -- On an initialized session with a topic map, adding a topic succeeds, keeps its QoS, and leaves
  -- the QoS of every other topic; removing it afterwards succeeds and leaves the other topics as
  -- they were at first.
  pub remove_topic-add_topic :
      (t : Bytes) (q : ℕ) (s : Session lib) (m : List (Bytes × ℕ))
      → s.initted ≡ true
      → s.topics ≡ some m
      → (s' : Session lib) × (add_topic lib t q s ≡ done (s', none))
        × ((k : Bytes) → qos_of k s' ≡ (if bytes_eq k t then some q else qos_of k s))
        × ((remove_topic lib t s').1 ≡ none)
        × ((k : Bytes)
            → qos_of k (remove_topic lib t s').0 ≡ (if bytes_eq k t then none else qos_of k s))
  unfolding add_topic remove_topic
  remove_topic-add_topic t q s m i e = (
    record s { topics = some (put_key t q m) },
    ground arith,
    (λ k. ground (arith, find_key-put_key k t q m)),
    ground arith,
    (λ k. ground (arith, find_key-delete_key k t (put_key t q m), find_key-put_key k t q m)),
  )

  -- After a session is stopped, an attempt to add a topic to it panics, if it had been initialized:
  -- it still counts as initialized, and its map is nil.
  pub add_topic-stop :
      (t : Bytes) (q : ℕ) (s s' : Session lib)
      → s.initted ≡ true
      → stop lib s ≡ done s'
      → add_topic lib t q s' ≡ panicked
  unfolding add_topic stop
  add_topic-stop t q s s' i e = ground arith

  -- A session that `Init` has initialized refuses a second `Init` and stays as it is.
  pub init_twice :
      (c d : Connect) (s s' : Session lib)
      → s.initted ≡ false
      → init lib c s ≡ (s', none)
      → init lib d s' ≡ (s', some already_initialized)
  unfolding init copy_connect
  init_twice c d s s' i e = ground arith
