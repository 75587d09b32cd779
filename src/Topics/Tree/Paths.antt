-- ===== src/Topics/Tree/Paths.antt =====
-- The tree as a map from a filter's levels to what the node there holds.
use xmqtt.Prelude.{Bytes, Bool, true, false, none, some, List, [], ◌∷◌}
use xmqtt.Prelude.{if◌then◌else◌, ◌&&◌, bytes_eq, bytes_eq_iff, arith, ◌≡◌, ◌↔◌, refl}
use xmqtt.Topics.Tree.{SNode, SNodes, node, no_nodes, branch, find_child, put_child, delete_child}
use xmqtt.Topics.Tree.{new_snode, child_or_new}
use xmqtt.Topics.Subscriber.{Holdings, no_holdings}

unfoldable pub paths_eq : List Bytes → List Bytes → Bool
paths_eq [] [] = true
paths_eq [] (l ∷ ls) = false
paths_eq (k ∷ ks) [] = false
paths_eq (k ∷ ks) (l ∷ ls) = bytes_eq k l && paths_eq ks ls

pub paths_eq_iff : (ks ls : List Bytes) → (paths_eq ks ls ≡ true) ↔ (ks ≡ ls)
unfolding paths_eq
paths_eq_iff [] [] = ground arith
paths_eq_iff [] (l ∷ ls) = ground arith
paths_eq_iff (k ∷ ks) [] = ground arith
paths_eq_iff (k ∷ ks) (l ∷ ls) = ground (arith, bytes_eq_iff k l, paths_eq_iff ks ls)

-- What the node at a path of levels holds: nothing, where there is no node.
unfoldable pub holdings_at : List Bytes → SNode → Holdings
holdings_at [] (node h cs) = h
holdings_at (l ∷ ls) (node h cs) = holdings_at ls (child_or_new l cs)

pub find_child-put_child :
    (k l : Bytes) (n : SNode) (cs : SNodes)
    → find_child k (put_child l n cs) ≡ (if bytes_eq k l then some n else find_child k cs)
unfolding find_child put_child
find_child-put_child k l n no_nodes = refl
find_child-put_child k l n (branch j m cs) =
    ground
      (arith, bytes_eq_iff l j, bytes_eq_iff k j, bytes_eq_iff k l, find_child-put_child k l n cs)

pub find_child-delete_child :
    (k l : Bytes) (cs : SNodes)
    → find_child k (delete_child l cs) ≡ (if bytes_eq k l then none else find_child k cs)
unfolding find_child delete_child
find_child-delete_child k l no_nodes = ground arith
find_child-delete_child k l (branch j m cs) =
    ground
      (arith, bytes_eq_iff l j, bytes_eq_iff k j, bytes_eq_iff k l, find_child-delete_child k l cs)

pub child_or_new-put_child :
    (k l : Bytes) (n : SNode) (cs : SNodes)
    → child_or_new k (put_child l n cs) ≡ (if bytes_eq k l then n else child_or_new k cs)
child_or_new-put_child k l n cs = ground (arith, find_child-put_child k l n cs)

pub child_or_new-delete_child :
    (k l : Bytes) (cs : SNodes)
    → child_or_new k (delete_child l cs) ≡ (if bytes_eq k l then new_snode else child_or_new k cs)
child_or_new-delete_child k l cs = ground (arith, find_child-delete_child k l cs)

-- Writing back the node that was found changes nothing.
pub put_child_found :
    (k : Bytes) (n : SNode) (cs : SNodes) → find_child k cs ≡ some n → put_child k n cs ≡ cs
unfolding find_child put_child
put_child_found k n no_nodes e = cc
put_child_found k n (branch j m cs) e = ground (arith, bytes_eq_iff k j, put_child_found k n cs)

pub holdings_at_new : (ls : List Bytes) → holdings_at ls new_snode ≡ no_holdings
unfolding holdings_at find_child
holdings_at_new [] = refl
holdings_at_new (l ∷ ls) = holdings_at_new ls
