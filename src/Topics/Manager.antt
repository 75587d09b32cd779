-- ===== src/Topics/Manager.antt =====
-- `TopicsProvider`, its registry and `Manager` of topics/topics.go, and the provider of
-- topics/memtopics.go as one.
use xmqtt.Prelude.{ℕ, Bytes, Bool, Option, List, Outcome}
use xmqtt.Message.{PublishLib}
use xmqtt.Topics.Level.{TopicError}
use xmqtt.Topics.Subscriber.{Subscriber}
use xmqtt.Topics.Tree.{Matched}
use xmqtt.Topics.Retained.{Found}
use xmqtt.Topics.Provider.{MemTopics}
use xmqtt.Topics.Provider as Mem
use xmqtt.Sessions.Provider as Registry

module _ (lib : PublishLib) where
  open lib use {Publish}

  -- The methods of a provider.
  pub record TopicsProvider : Type 1 where
    pub State : Type 0
    pub subscribe : Bytes → ℕ → Subscriber → State → State × ℕ × Option TopicError
    pub unsubscribe : Bytes → Subscriber → State → State × Option TopicError
    pub subscribers : Bytes → ℕ → State → Matched
    pub retain : Publish → State → State × Option TopicError
    pub retained : Bytes → State → Found Publish
    pub close : State → State

  -- `valid` is `message.ValidQos`, and `pick` the random choice of a group's member.
  abbrev pub mem_topics : (Bytes → List Subscriber → ℕ) → (ℕ → Bool) → TopicsProvider
  mem_topics pick valid = record {
    State = MemTopics lib;
    subscribe = λ t q sub m. Mem.subscribe lib valid t q sub m;
    unsubscribe = λ t sub m. Mem.unsubscribe lib t sub m;
    subscribers = λ t q m. Mem.subscribers lib pick valid t q m;
    retain = λ msg m. Mem.retain lib msg m;
    retained = λ t m. Mem.retained lib t m;
    close = λ m. Mem.close lib m;
  }

  -- The registered providers are named by numbers, a nil one is none.
  abbrev pub register : Bytes → Option ℕ → List (Bytes × ℕ) → Outcome (List (Bytes × ℕ))
  register name p m = Registry.register ℕ name p m

  abbrev pub unregister : Bytes → List (Bytes × ℕ) → List (Bytes × ℕ)
  unregister name m = Registry.unregister ℕ name m

  abbrev pub new_manager : Bytes → List (Bytes × ℕ) → Option ℕ
  new_manager name m = Registry.new_manager ℕ name m

  -- A manager's methods call those of its provider.
  module _ (p : TopicsProvider) where
    open p use {State}

    abbrev pub subscribe : Bytes → ℕ → Subscriber → State → State × ℕ × Option TopicError
    subscribe t q sub st = p.subscribe t q sub st

    abbrev pub unsubscribe : Bytes → Subscriber → State → State × Option TopicError
    unsubscribe t sub st = p.unsubscribe t sub st

    abbrev pub subscribers : Bytes → ℕ → State → Matched
    subscribers t q st = p.subscribers t q st

    abbrev pub retain : Publish → State → State × Option TopicError
    retain msg st = p.retain msg st

    abbrev pub retained : Bytes → State → Found Publish
    retained t st = p.retained t st

    abbrev pub close : State → State
    close st = p.close st
