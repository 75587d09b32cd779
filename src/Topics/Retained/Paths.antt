-- ===== src/Topics/Retained/Paths.antt =====
-- The tree as a map from a topic's levels to the message retained there.
use xmqtt.Prelude.{Bytes, Option, none, some, List, [], ◌∷◌}
use xmqtt.Prelude.{if◌then◌else◌, bytes_eq, bytes_eq_iff, arith, ◌≡◌, refl}
use xmqtt.Topics.Retained.{
  RNode, RNodes, rnode, no_rnodes, rbranch, new_rnode, find_rnode, put_rnode,
}
use xmqtt.Topics.Retained.{delete_rnode, rnode_or_new}

module _ {M : Type 0} where
  -- The message retained at a path of levels.
  unfoldable pub retained_at : List Bytes → RNode M → Option M
  retained_at [] (rnode m b cs) = m
  retained_at (l ∷ ls) (rnode m b cs) = retained_at ls (rnode_or_new l cs)

  pub retained_at_tail :
      (k : Bytes) (ks : List Bytes) (m : Option M) (b : Bytes) (cs : RNodes M)
      → retained_at (k ∷ ks) (rnode m b cs) ≡ retained_at ks (rnode_or_new k cs)
  unfolding retained_at
  retained_at_tail k ks m b cs = refl

  pub find_rnode-put_rnode :
      (k l : Bytes) (n : RNode M) (cs : RNodes M)
      → find_rnode k (put_rnode l n cs) ≡ (if bytes_eq k l then some n else find_rnode k cs)
  unfolding find_rnode put_rnode
  find_rnode-put_rnode k l n no_rnodes = refl
  find_rnode-put_rnode k l n (rbranch j m cs) =
      ground
        (arith, bytes_eq_iff l j, bytes_eq_iff k j, bytes_eq_iff k l, find_rnode-put_rnode k l n cs)

  pub find_rnode-delete_rnode :
      (k l : Bytes) (cs : RNodes M)
      → find_rnode k (delete_rnode l cs) ≡ (if bytes_eq k l then none else find_rnode k cs)
  unfolding find_rnode delete_rnode
  find_rnode-delete_rnode k l no_rnodes = ground arith
  find_rnode-delete_rnode k l (rbranch j m cs) =
      ground (
        arith,
        bytes_eq_iff l j,
        bytes_eq_iff k j,
        bytes_eq_iff k l,
        find_rnode-delete_rnode k l cs,
      )

  pub rnode_or_new-put_rnode :
      (k l : Bytes) (n : RNode M) (cs : RNodes M)
      → rnode_or_new k (put_rnode l n cs) ≡ (if bytes_eq k l then n else rnode_or_new k cs)
  rnode_or_new-put_rnode k l n cs = ground (arith, find_rnode-put_rnode k l n cs)

  pub rnode_or_new-delete_rnode :
      (k l : Bytes) (cs : RNodes M)
      → rnode_or_new k (delete_rnode l cs) ≡ (if bytes_eq k l then new_rnode else rnode_or_new k cs)
  rnode_or_new-delete_rnode k l cs = ground (arith, find_rnode-delete_rnode k l cs)

  pub rnode_or_new_found :
      (l : Bytes) (cs : RNodes M) (n : RNode M) → find_rnode l cs ≡ some n → rnode_or_new l cs ≡ n
  rnode_or_new_found l cs n e = rw (e, rnode_or_new)

  pub retained_at_new : (ls : List Bytes) → retained_at ls (new_rnode {M = M}) ≡ none
  unfolding retained_at find_rnode
  retained_at_new [] = refl
  retained_at_new (l ∷ ls) = retained_at_new ls

  -- Writing back the node that was found changes nothing.
  pub put_rnode_found :
      (k : Bytes) (n : RNode M) (cs : RNodes M) → find_rnode k cs ≡ some n → put_rnode k n cs ≡ cs
  unfolding find_rnode put_rnode
  put_rnode_found k n no_rnodes e = cc
  put_rnode_found k n (rbranch j m cs) e = ground (arith, bytes_eq_iff k j, put_rnode_found k n cs)
