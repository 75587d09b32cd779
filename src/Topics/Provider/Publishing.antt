-- ===== src/Topics/Provider/Publishing.antt =====
-- What a subscription promises to a publisher, through the whole provider.
use xmqtt.Prelude.{ℕ, Bytes, Bool, true, false, none, some, List, [], length, min}
use xmqtt.Prelude.{◌≡◌, refl, ◌∙◌, arith, Within}
use xmqtt.Message.{PublishLib}
use xmqtt.Topics.Level.{get_group_name}
use xmqtt.Topics.Level.Accept.{Levels}
use xmqtt.Topics.Subscriber.{Subscriber, insert_here, is_nil}
use xmqtt.Topics.Subscriber.Laws.{insert_here_delivers}
use xmqtt.Topics.Tree.{SNode, sinsert}
use xmqtt.Topics.Tree.Paths.{holdings_at, paths_eq_iff}
use xmqtt.Topics.Tree.Insert.{sinsert-Levels}
use xmqtt.Topics.Tree.Remove.{IsPaired}
use xmqtt.Topics.Tree.Match.{matches, smatch_lem}
use xmqtt.Topics.Tree.Found.{smatch_found}
use xmqtt.Topics.Provider.{MemTopics, subscribe, subscribers}

module _ (lib : PublishLib) where
  -- What a successful `Subscribe` to a topic outside any group does.
  subscribe_lem :
      (valid : ℕ → Bool) (t : Bytes) (q : ℕ) (sub : Subscriber) (m : MemTopics lib) (root : SNode)
      (ls : List Bytes)
      → m.sroot ≡ some root
      → valid q ≡ true
      → is_nil sub ≡ false
      → get_group_name t ≡ ([], t)
      → Levels t ls
      → subscribe lib valid t q sub m
        ≡ (record m { sroot = some (sinsert (length t) [] (min q 2) sub root t).0 }, min q 2, none)
  unfolding subscribe
  subscribe_lem valid t q sub m root ls r v s g lv =
      ground (arith, sinsert-Levels [] (min q 2) sub (length t) root t ls lv (omega arith))

  -- A subscription of a subscriber that is not nil, with a valid QoS, to a filter outside any group
  -- ends without an error and grants the lower of the QoS asked for and 2. If the filter matches a
  -- topic, both with legal levels, `Subscribers` then ends without an error for that topic and a
  -- valid QoS, and gives the subscriber, with the lower of the QoS of the publication and the one
  -- granted. In the tree before, every subscriber has its QoS.
  pub subscribers-subscribe :
      (pick : Bytes → List Subscriber → ℕ) (valid : ℕ → Bool) (t : Bytes) (q : ℕ) (sub : Subscriber)
      (m : MemTopics lib) (root : SNode) (name : Bytes) (p : ℕ) (fs ls : List Bytes)
      → m.sroot ≡ some root
      → IsPaired root
      → valid q ≡ true
      → valid p ≡ true
      → is_nil sub ≡ false
      → get_group_name t ≡ ([], t)
      → Levels t fs
      → Levels name ls
      → matches fs ls ≡ true
      → let (m', granted, e) = subscribe lib valid t q sub m in
        (e ≡ none)
        × (granted ≡ min q 2)
        × ((subscribers lib pick valid name p m').1 ≡ none)
        × Within (sub, min p (min q 2)) (subscribers lib pick valid name p m').0
  subscribers-subscribe pick valid t q sub m root name p fs ls r pr v vp s g lf ln h =
      rw (subscribe_lem valid t q sub m root fs r v s g lf) (refl, refl, ends, delivered)
    where
      after : SNode
      after = (sinsert (length t) [] (min q 2) sub root t).0

      held : holdings_at fs after ≡ insert_here [] (min q 2) sub (holdings_at fs root)
      held =
          (sinsert-Levels [] (min q 2) sub (length t) root t fs lf (omega arith)).1 fs
          ∙ rw ((paths_eq_iff fs fs).1 refl)

      ends : (subscribers lib pick valid name p (record m { sroot = some after })).1 ≡ none
      ends = unfold subscribers in rw (vp, smatch_lem pick p after name ls ln) refl

      delivered :
          Within
            (sub, min p (min q 2))
            (subscribers lib pick valid name p (record m { sroot = some after })).0
      delivered =
          unfold subscribers in
          rw vp (
            smatch_found pick p (sub, min p (min q 2)) after name ls fs ln h
              (rw held (insert_here_delivers pick p (min q 2) sub (holdings_at fs root) (pr fs))))
