-- ===== src/Topics/Tree.antt =====
-- The subscription tree of topics/memtopics.go: `snode` with `sinsert`, `sremove` and `smatch`.
pub mod Paths
pub mod Insert
pub mod Remove
pub mod Match
pub mod Found
use xmqtt.Prelude.{ℕ, zero, suc, Bytes, Bool, true, false, Option, none, some, List, [], ◌∷◌, ◌++◌}
use xmqtt.Prelude.{if◌then◌else◌, ◌&&◌, ◌||◌, bytes_eq}
use xmqtt.Topics.Level.{TopicError, no_fuel, no_topic, no_subscriber, ok, err, next_topic_level}
use xmqtt.Topics.Level.{swc, mwc}
use xmqtt.Topics.Subscriber.{Subscriber, Holdings, no_holdings, insert_here, remove_here}
use xmqtt.Topics.Subscriber.{Delivery, match_qos}

-- A node, and its `snodes` map: the entries in the order in which a `range` visits them.
mutual
  pub data SNode : Type 0 where
    node : Holdings → SNodes → SNode

  pub data SNodes : Type 0 where
    no_nodes : SNodes
    branch : Bytes → SNode → SNodes → SNodes

abbrev pub new_snode : SNode
new_snode = node no_holdings no_nodes

abbrev pub holdings : SNode → Holdings
holdings (node h cs) = h

unfoldable pub find_child : Bytes → SNodes → Option SNode
find_child k no_nodes = none
find_child k (branch j n cs) = if bytes_eq k j then some n else find_child k cs

unfoldable pub put_child : Bytes → SNode → SNodes → SNodes
put_child k n no_nodes = branch k n no_nodes
put_child k n (branch j m cs) =
    if bytes_eq k j then branch j n cs else branch j m (put_child k n cs)

unfoldable pub delete_child : Bytes → SNodes → SNodes
delete_child k no_nodes = no_nodes
delete_child k (branch j m cs) =
    let rest = delete_child k cs in if bytes_eq k j then rest else branch j m rest

abbrev pub child_or_new : Bytes → SNodes → SNode
child_or_new k cs = elim (find_child k cs) [ none ↦ new_snode | some n ↦ n ]

-- The fuel bounds the recursion; the length of the topic is enough. With an error the nodes that
-- were created on the way stay in the tree.
pub sinsert : ℕ → Bytes → ℕ → Subscriber → SNode → Bytes → SNode × Option TopicError
sinsert fuel group q sub (node h cs) [] = (node (insert_here group q sub h) cs, none)
sinsert zero group q sub n (c ∷ topic) = (n, some no_fuel)
sinsert (suc fuel) group q sub (node h cs) (c ∷ topic) = elim (next_topic_level (c ∷ topic)) [
  | err e ↦ (node h cs, some e)
  | ok (level, rem) ↦
      let (n, e) = sinsert fuel group q sub (child_or_new level cs) rem in
      (node h (put_child level n cs), e)
]

abbrev is_empty {ℓ} : {A : Type ℓ} → List A → Bool
is_empty [] = true
is_empty (x ∷ xs) = false

abbrev has_no_nodes : SNodes → Bool
has_no_nodes no_nodes = true
has_no_nodes (branch k n cs) = false

-- No group, no subscriber and no node below.
abbrev pub is_bare : SNode → Bool
is_bare (node h cs) = is_empty h.groups && is_empty h.subs && has_no_nodes cs

-- If nothing is left in the next node, it is deleted.
pub prune : SNode → Bytes → SNodes → SNodes
prune n level cs = if is_bare n then delete_child level cs else put_child level n cs

-- What the caller does after the recursive call.
abbrev pub after_remove :
    Holdings → SNodes → Bytes → SNode × Option TopicError → SNode × Option TopicError
after_remove h cs level (n, some e) = (node h (put_child level n cs), some e)
after_remove h cs level (n, none) = (node h (prune n level cs), none)

pub sremove : ℕ → Bytes → Subscriber → SNode → Bytes → SNode × Option TopicError
unfolding prune
sremove fuel group sub (node h cs) [] = elim (remove_here group sub h) [
  | none ↦ (node h cs, some no_subscriber)
  | some h' ↦ (node h' cs, none)
]
sremove zero group sub n (c ∷ topic) = (n, some no_fuel)
sremove (suc fuel) group sub (node h cs) (c ∷ topic) = elim (next_topic_level (c ∷ topic)) [
  | err e ↦ (node h cs, some e)
  | ok (level, rem) ↦ elim (find_child level cs) [
    | none ↦ (node h cs, some no_topic)
    | some m ↦ let r = sremove fuel group sub m rem in after_remove h cs level r
  ]
]

-- The result slices of one call, and its error.
abbrev pub Matched : Type 0
Matched = List Delivery × Option TopicError

-- What a call appends before what the loop appends after it; an error ends the loop.
abbrev pub and_then : Matched → Matched → Matched
and_then (ds, none) (es, e) = (ds ++ es, e)
and_then (ds, some x) later = (ds, some x)

-- `smatch`; the second function is its loop over the map.
module _ (pick : Bytes → List Subscriber → ℕ) (q : ℕ) where
  mutual
    pub smatch : SNode → Bytes → Matched
    smatch (node h cs) [] = (match_qos pick q h, none)
    smatch (node h cs) (c ∷ topic) = elim (next_topic_level (c ∷ topic)) [
      | err e ↦ ([], some e)
      | ok (level, rem) ↦ smatch_nodes cs level rem
    ]

    pub smatch_nodes : SNodes → Bytes → Bytes → Matched
    smatch_nodes no_nodes level rem = ([], none)
    smatch_nodes (branch k n cs) level rem =
        let later = smatch_nodes cs level rem in
        let deeper = smatch n rem in
        if bytes_eq k mwc
        then and_then (match_qos pick q (holdings n), none) later
        else if bytes_eq k swc || bytes_eq k level
        then and_then deeper later
        else later
