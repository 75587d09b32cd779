-- ===== src/Topics/Tree/Match.antt =====
-- `smatch` against the filter table of the tree.
use xmqtt.Prelude.{ℕ, Bytes, Bool, true, false, none, List, [], ◌∷◌, ◌++◌}
use xmqtt.Prelude.{if◌then◌else◌, ◌&&◌, ◌||◌, arith, ◌≡◌, refl, ◌∙◌, bytes_eq}
use xmqtt.Prelude.{append-nil, append_assoc}
use xmqtt.Topics.Level.{swc, mwc, ok, next_topic_level}
use xmqtt.Topics.Level.Accept.{Levels, end, level}
use xmqtt.Topics.Tree.{SNode, SNodes, node, no_nodes, branch, holdings}
use xmqtt.Topics.Tree.{smatch, smatch_nodes}
use xmqtt.Topics.Subscriber.{Subscriber, Holdings, Delivery, match_qos}

abbrev is_empty {ℓ} : {A : Type ℓ} → List A → Bool
is_empty [] = true
is_empty (x ∷ xs) = false

-- Whether a filter's levels match a topic's levels: "#" matches one level or more, "+" just one.
unfoldable pub matches : List Bytes → List Bytes → Bool
matches [] [] = true
matches [] (l ∷ ls) = false
matches (k ∷ ks) [] = false
matches (k ∷ ks) (l ∷ ls) =
    let rest = matches ks ls in
    if bytes_eq k mwc then is_empty ks else (bytes_eq k swc || bytes_eq k l) && rest

-- The nodes of a tree, with the path of each.
abbrev pub Table : Type 0
Table = List (List Bytes × Holdings)

unfoldable pub under : Bytes → Table → Table
under k [] = []
under k ((p, h) ∷ t) = (k ∷ p, h) ∷ under k t

unfoldable mutual
  pub table : SNode → Table
  table (node h cs) = ([], h) ∷ table_nodes cs

  pub table_nodes : SNodes → Table
  table_nodes no_nodes = []
  table_nodes (branch k n cs) = under k (table n) ++ table_nodes cs

module _ (pick : Bytes → List Subscriber → ℕ) (q : ℕ) where
  -- What the rows of a table deliver whose filters match.
  unfoldable pub deliver : List Bytes → Table → List Delivery
  deliver ls [] = []
  deliver ls ((p, h) ∷ t) =
      let rest = deliver ls t in if matches p ls then match_qos pick q h ++ rest else rest

  deliver-append :
      (ls : List Bytes) (s t : Table) → deliver ls (s ++ t) ≡ deliver ls s ++ deliver ls t
  unfolding deliver
  deliver-append ls [] t = refl
  deliver-append ls ((p, h) ∷ s) t = ground (
    arith,
    deliver-append ls s t,
    append_assoc (match_qos pick q h) (deliver ls s) (deliver ls t),
  )

  deliver-under_nil : (k : Bytes) (t : Table) → deliver [] (under k t) ≡ []
  unfolding deliver under matches
  deliver-under_nil k [] = refl
  deliver-under_nil k ((p, h) ∷ t) = deliver-under_nil k t

  deliver-table_nodes_nil : (cs : SNodes) → deliver [] (table_nodes cs) ≡ []
  unfolding table_nodes
  deliver-table_nodes_nil no_nodes = unfold deliver in refl
  deliver-table_nodes_nil (branch k n cs) =
      deliver-append [] (under k (table n)) (table_nodes cs)
      ∙ rw (deliver-under_nil, deliver-table_nodes_nil cs)

  deliver-table_nil : (n : SNode) → deliver [] (table n) ≡ match_qos pick q (holdings n)
  deliver-table_nil (node h cs) =
      unfold table deliver matches in rw (deliver-table_nodes_nil cs, append-nil)

  is_empty-matches : (p l : List Bytes) → is_empty p ≡ matches p []
  is_empty-matches [] l = unfold matches in refl
  is_empty-matches (k ∷ p) l = unfold matches in refl

  deliver-under :
      (k l : Bytes) (ls : List Bytes) (t : Table)
      → deliver (l ∷ ls) (under k t) ≡ (
          if bytes_eq k mwc
          then deliver [] t
          else if bytes_eq k swc || bytes_eq k l
          then deliver ls t
          else [])
  unfolding deliver under matches
  deliver-under k l ls [] = ground arith
  deliver-under k l ls ((p, h) ∷ t) = ground (arith, deliver-under k l ls t, is_empty-matches p [])

  smatch_nil : (n : SNode) → smatch pick q n [] ≡ (match_qos pick q (holdings n), none)
  unfolding smatch
  smatch_nil (node h cs) = refl

  smatch_level :
      (h : Holdings) (cs : SNodes) (c : ℕ) (t l rest : Bytes)
      → next_topic_level (c ∷ t) ≡ ok (l, rest)
      → smatch pick q (node h cs) (c ∷ t) ≡ smatch_nodes pick q cs l rest
  unfolding smatch
  smatch_level h cs c t l rest e = ground (arith, e)

  deliver_node :
      (h : Holdings) (cs : SNodes) (l : Bytes) (ls : List Bytes)
      → deliver (l ∷ ls) (table_nodes cs) ≡ deliver (l ∷ ls) (table (node h cs))
  unfolding table deliver matches
  deliver_node h cs l ls = refl

  smatch_nodes_nil :
      (l rest : Bytes) (ls : List Bytes)
      → smatch_nodes pick q no_nodes l rest ≡ (deliver (l ∷ ls) (table_nodes no_nodes), none)
  unfolding smatch_nodes table_nodes deliver
  smatch_nodes_nil l rest ls = refl

  smatch_branch :
      (k : Bytes) (n : SNode) (cs : SNodes) (l rest : Bytes) (ls : List Bytes)
      → smatch pick q n rest ≡ (deliver ls (table n), none)
      → smatch_nodes pick q cs l rest ≡ (deliver (l ∷ ls) (table_nodes cs), none)
      → smatch_nodes pick q (branch k n cs) l rest
        ≡ (deliver (l ∷ ls) (table_nodes (branch k n cs)), none)
  unfolding smatch_nodes table_nodes
  smatch_branch k n cs l rest ls e f =
      rw
        (
          deliver-append (l ∷ ls) (under k (table n)) (table_nodes cs),
          deliver-under k l ls (table n),
          deliver-table_nil n,
        )
        (ground (arith, e, f))

  mutual
    smatch-table :
        (n : SNode) (topic : Bytes) (ls : List Bytes)
        → Levels topic ls
        → smatch pick q n topic ≡ (deliver ls (table n), none)
    smatch-table (node h cs) topic ls end =
        smatch_nil (node h cs) ∙ rw (deliver-table_nil (node h cs))
    smatch-table (node h cs) topic ls (level c t l rest ks e lv) =
        smatch_level h cs c t l rest e
        ∙ smatch_nodes_table cs l rest ks lv
        ∙ rw (deliver_node h cs l ks)

    smatch_nodes_table :
        (cs : SNodes) (l rest : Bytes) (ls : List Bytes)
        → Levels rest ls
        → smatch_nodes pick q cs l rest ≡ (deliver (l ∷ ls) (table_nodes cs), none)
    smatch_nodes_table no_nodes l rest ls lv = smatch_nodes_nil l rest ls
    smatch_nodes_table (branch k n cs) l rest ls lv =
        smatch_branch k n cs l rest ls (smatch-table n rest ls lv)
          (smatch_nodes_table cs l rest ls lv)

  -- `smatch` on a topic whose levels are legal ends without an error, and delivers what the nodes
  -- hold whose filter matches the topic's levels: each such node once, in the order of the table,
  -- and no other node.
  pub smatch_lem :
      (n : SNode) (topic : Bytes) (ls : List Bytes)
      → Levels topic ls
      → smatch pick q n topic ≡ (deliver ls (table n), none)
  smatch_lem n topic ls lv = smatch-table n topic ls lv
