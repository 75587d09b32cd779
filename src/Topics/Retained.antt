-- ===== src/Topics/Retained.antt =====
-- The tree of retained messages of topics/memtopics.go: `rnode` with `rinsert`, `rremove`, `rmatch`
-- and `allRetained`.
pub mod Paths
pub mod Insert
pub mod Prune
pub mod Remove
pub mod Match
pub mod Find
use xmqtt.Prelude.{ℕ, zero, suc, Bytes, Bool, true, false, Option, none, some, List, [], ◌∷◌, ◌++◌}
use xmqtt.Prelude.{if◌then◌else◌, bytes_eq, length, take, drop, replicate, ltb}
use xmqtt.Message.{PublishLib}
use xmqtt.Topics.Level.{TopicError, no_fuel, no_topic, codec_failed, ok, err, next_topic_level}
use xmqtt.Topics.Level.{swc, mwc}

-- A node: the message, the array behind its buffer, and the `rnodes` map in the order in which a
-- `range` visits it.
mutual
  pub data RNode (M : Type 0) : Type 0 where
    rnode : Option M → Bytes → RNodes M → RNode M

  pub data RNodes (M : Type 0) : Type 0 where
    no_rnodes : RNodes M
    rbranch : Bytes → RNode M → RNodes M → RNodes M

abbrev pub Found : Type 0 → Type 0
Found M = List M × Option TopicError

module _ {M : Type 0} where
  abbrev pub new_rnode : RNode M
  new_rnode = rnode none [] no_rnodes

  unfoldable pub find_rnode : Bytes → RNodes M → Option (RNode M)
  find_rnode k no_rnodes = none
  find_rnode k (rbranch j n cs) = if bytes_eq k j then some n else find_rnode k cs

  unfoldable pub put_rnode : Bytes → RNode M → RNodes M → RNodes M
  put_rnode k n no_rnodes = rbranch k n no_rnodes
  put_rnode k n (rbranch j m cs) =
      if bytes_eq k j then rbranch j n cs else rbranch j m (put_rnode k n cs)

  unfoldable pub delete_rnode : Bytes → RNodes M → RNodes M
  delete_rnode k no_rnodes = no_rnodes
  delete_rnode k (rbranch j m cs) =
      let rest = delete_rnode k cs in if bytes_eq k j then rest else rbranch j m rest

  abbrev pub rnode_or_new : Bytes → RNodes M → RNode M
  rnode_or_new k cs = elim (find_rnode k cs) [ none ↦ new_rnode | some n ↦ n ]

  abbrev pub has_no_rnodes : RNode M → Bool
  has_no_rnodes (rnode m b no_rnodes) = true
  has_no_rnodes (rnode m b (rbranch k n cs)) = false

  -- The message is not looked at: a node with no node below is deleted.
  abbrev pub prune : RNode M → Bytes → RNodes M → RNodes M
  prune n level cs = if has_no_rnodes n then delete_rnode level cs else put_rnode level n cs

  abbrev pub after_remove :
      Option M
      → Bytes
      → RNodes M
      → Bytes
      → RNode M × Option TopicError
      → RNode M × Option TopicError
  after_remove m b cs level (n, some e) = (rnode m b (put_rnode level n cs), some e)
  after_remove m b cs level (n, none) = (rnode m b (prune n level cs), none)

  pub rremove : ℕ → RNode M → Bytes → RNode M × Option TopicError
  rremove fuel (rnode m b cs) [] = (rnode none [] cs, none)
  rremove zero n (c ∷ topic) = (n, some no_fuel)
  rremove (suc fuel) (rnode m b cs) (c ∷ topic) = elim (next_topic_level (c ∷ topic)) [
    | err e ↦ (rnode m b cs, some e)
    | ok (level, rem) ↦ elim (find_rnode level cs) [
      | none ↦ (rnode m b cs, some no_topic)
      | some n ↦ let r = rremove fuel n rem in after_remove m b cs level r
    ]
  ]

  abbrev pub message_list : Option M → List M
  message_list none = []
  message_list (some m) = m ∷ []

  mutual
    pub all_retained : RNode M → List M
    all_retained (rnode m b cs) = message_list m ++ all_retained_nodes cs

    pub all_retained_nodes : RNodes M → List M
    all_retained_nodes no_rnodes = []
    all_retained_nodes (rbranch k n cs) = all_retained n ++ all_retained_nodes cs

  -- What a call appends before what the loop appends after it; an error ends the loop.
  abbrev pub and_then : Found M → Found M → Found M
  and_then (ms, none) (ks, e) = (ms ++ ks, e)
  and_then (ms, some x) later = (ms, some x)

  -- `rmatch`; the others are its loop over the map, and its call at a key.
  mutual
    pub rmatch : RNode M → Bytes → Found M
    rmatch (rnode m b cs) [] = (message_list m, none)
    rmatch (rnode m b cs) (c ∷ topic) = elim (next_topic_level (c ∷ topic)) [
      | err e ↦ ([], some e)
      | ok (level, rem) ↦
          let every = rmatch_each cs rem in
          let one = rmatch_key cs level rem in
          if bytes_eq level mwc
          then (all_retained (rnode m b cs), none)
          else if bytes_eq level swc
          then every
          else one
    ]

    pub rmatch_each : RNodes M → Bytes → Found M
    rmatch_each no_rnodes rem = ([], none)
    rmatch_each (rbranch k n cs) rem =
        let later = rmatch_each cs rem in let deeper = rmatch n rem in and_then deeper later

    pub rmatch_key : RNodes M → Bytes → Bytes → Found M
    rmatch_key no_rnodes level rem = ([], none)
    rmatch_key (rbranch k n cs) level rem =
        let other = rmatch_key cs level rem in
        let here = rmatch n rem in if bytes_eq level k then here else other

module _ (lib : PublishLib) where
  open lib use {Publish, new_publish, len, encode, decode}

  -- The node's message, or a new one.
  abbrev pub reused : Option Publish → Publish
  reused none = new_publish
  reused (some m) = m

  -- The array behind the buffer: a new one, if `len` bytes do not fit.
  abbrev pub room : ℕ → Bytes → Bytes
  room l b = if ltb (length b) l then replicate l 0 else b

  -- `rinsert` at the last level: `b` is the whole array, of which the code slices `len` bytes.
  pub store : Publish → Option Publish → Bytes → RNodes Publish → RNode Publish × Option TopicError
  store msg m b cs =
      let l = len msg in
      let buf = room l b in
      let (written, good) = encode msg (take l buf) in
      let array = written ++ drop l buf in
      if good
      then (let (m', fine) = decode (reused m) written in
          (rnode (some m') array cs, if fine then none else some codec_failed))
      else (rnode m array cs, some codec_failed)

  pub rinsert : ℕ → Publish → RNode Publish → Bytes → RNode Publish × Option TopicError
  unfolding store
  rinsert fuel msg (rnode m b cs) [] = store msg m b cs
  rinsert zero msg n (c ∷ topic) = (n, some no_fuel)
  rinsert (suc fuel) msg (rnode m b cs) (c ∷ topic) = elim (next_topic_level (c ∷ topic)) [
    | err e ↦ (rnode m b cs, some e)
    | ok (level, rem) ↦
        let (n, e) = rinsert fuel msg (rnode_or_new level cs) rem in
        (rnode m b (put_rnode level n cs), e)
  ]
