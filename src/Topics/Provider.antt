-- ===== src/Topics/Provider.antt =====
-- The methods of `memTopics`, the in-memory TopicsProvider of topics/memtopics.go.
pub mod Publishing
pub mod Retain
mod Tests
use xmqtt.Prelude.{ℕ, Bytes, Bool, true, false, Option, none, some, List, [], ◌∷◌, length, not, ltb}
use xmqtt.Prelude.{if◌then◌else◌, ◌==◌}
use xmqtt.Message.{PublishLib}
use xmqtt.Topics.Level.{
  TopicError, invalid_qos, nil_subscriber, nil_root, get_group_name, err, ok, next_topic_level,
}
use xmqtt.Topics.Subscriber.{Subscriber, nil, is_nil}
use xmqtt.Topics.Tree.{SNode, new_snode, sinsert, sremove, smatch, Matched}
use xmqtt.Topics.Retained.{RNode, new_rnode, rinsert, rremove, rmatch, Found}

-- QosFailure and MaxQosAllowed.
abbrev pub qos_failure : ℕ
qos_failure = 0x80

abbrev pub max_qos_allowed : ℕ
max_qos_allowed = 2

-- `none` is a root that `Close` has set to nil. A method of a nil node takes the first level off the
-- topic, and returns its error, before it reads the node, which panics: `nil_root`.
abbrev pub at_nil_root : Bytes → TopicError
at_nil_root [] = nil_root
at_nil_root (c ∷ t) = elim (next_topic_level (c ∷ t)) [ err e ↦ e | ok r ↦ nil_root ]

module _ (lib : PublishLib) where
  open lib use {Publish, topic, payload}

  pub record MemTopics : Type 0 where
    pub sroot : Option SNode
    pub rroot : Option (RNode Publish)

  abbrev pub new_mem_provider : MemTopics
  new_mem_provider = record { sroot = some new_snode; rroot = some new_rnode }

  -- `valid` is `message.ValidQos`.
  pub subscribe :
      (ℕ → Bool) → Bytes → ℕ → Subscriber → MemTopics → MemTopics × ℕ × Option TopicError
  subscribe valid t q sub m =
      if not (valid q)
      then (m, qos_failure, some invalid_qos)
      else if is_nil sub
      then (m, qos_failure, some nil_subscriber)
      else (let granted = if ltb max_qos_allowed q then max_qos_allowed else q in
          let (group, filter) = get_group_name t in
          elim m.sroot [
            | none ↦ (m, qos_failure, some (at_nil_root filter))
            | some root ↦
                let (root', e) = sinsert (length filter) group granted sub root filter in
                let m' = record m { sroot = some root' } in
                elim e [ none ↦ (m', granted, none) | some x ↦ (m', qos_failure, some x) ]
          ])

  pub unsubscribe : Bytes → Subscriber → MemTopics → MemTopics × Option TopicError
  unsubscribe t sub m =
      let (group, filter) = get_group_name t in
      elim m.sroot [
        | none ↦ (m, some (at_nil_root filter))
        | some root ↦
            let (root', e) = sremove (length filter) group sub root filter in
            (record m { sroot = some root' }, e)
      ]

  -- The slices that are passed in are emptied first, so the result is what `smatch` appends.
  pub subscribers : (Bytes → List Subscriber → ℕ) → (ℕ → Bool) → Bytes → ℕ → MemTopics → Matched
  subscribers pick valid t q m =
      if not (valid q)
      then ([], some invalid_qos)
      else elim m.sroot [ none ↦ ([], some (at_nil_root t)) | some root ↦ smatch pick q root t ]

  pub retain : Publish → MemTopics → MemTopics × Option TopicError
  retain msg m = elim m.rroot [
    | none ↦ (m, some (at_nil_root (topic msg)))
    | some root ↦
        let t = topic msg in
        if length (payload msg) == 0
        then (let (root', e) = rremove (length t) root t in (record m { rroot = some root' }, e))
        else (let (root', e) = rinsert lib (length t) msg root t in
            (record m { rroot = some root' }, e))
  ]

  pub retained : Bytes → MemTopics → Found Publish
  retained t m = elim m.rroot [ none ↦ ([], some (at_nil_root t)) | some root ↦ rmatch root t ]

  pub close : MemTopics → MemTopics
  close m = record { sroot = none; rroot = none }
