-- ===== src/Topics/Tree/Remove.antt =====
-- `sremove`: what it changes, what it prunes, and that it ends.
use xmqtt.Prelude.{ℕ, zero, suc, Bytes, true, Option, none, some, List, [], ◌∷◌, inl, inr, ◌≤◌}
use xmqtt.Prelude.{if◌then◌else◌, arith, ◌≡◌, ◌≢◌, refl, length, ◌∙◌, bytes_eq, Bool-cases, ap}
use xmqtt.Prelude.{bytes_eq_iff, Option-cases, subst}
use xmqtt.Topics.Level.{TopicError, no_fuel, no_topic, no_subscriber, ok, err, next_topic_level}
use xmqtt.Topics.Level.Split.{next_topic_level_shorter, next_topic_level-ne-no_fuel, Result-cases}
use xmqtt.Topics.Level.Accept.{Levels, end, level}
use xmqtt.Topics.Tree.{SNode, SNodes, node, no_nodes, branch, put_child, child_or_new}
use xmqtt.Topics.Tree.{find_child, sremove, sinsert, is_bare, prune, after_remove}
use xmqtt.Topics.Tree.Paths.{
  paths_eq, holdings_at, child_or_new-put_child, child_or_new-delete_child,
}
use xmqtt.Topics.Tree.Paths.{put_child_found, holdings_at_new}
use xmqtt.Topics.Tree.Insert.{ChangedAt, sinsert_outcome, failed, inserted}
use xmqtt.Topics.Subscriber.{Subscriber, Holdings, remove_here, no_holdings}
use xmqtt.Topics.Subscriber.Laws.{Paired, insert_here-Paired, remove_here-Paired}

-- In every node `subs` and `qos` have one length.
abbrev pub IsPaired : SNode → Type 0
IsPaired n = (ks : List Bytes) → Paired (holdings_at ks n)

bare_holdings : (h : Holdings) → Paired h → h.groups ≡ [] → h.subs ≡ [] → h ≡ no_holdings
bare_holdings h p g s = ground (arith, nil_of_length h.qos (omega (arith, ap length s)))
  where
    nil_of_length : (xs : List ℕ) → length xs ≡ 0 → xs ≡ []
    nil_of_length [] e = refl
    nil_of_length (x ∷ xs) e = absurd (omega arith)

-- A node that is pruned holds nothing, and nothing stands below it.
bare_holdings_at :
    (n : SNode) (ks : List Bytes)
    → Paired (holdings_at [] n)
    → is_bare n ≡ true
    → holdings_at ks n ≡ no_holdings
unfolding holdings_at find_child
bare_holdings_at (node h no_nodes) [] p b = bare_holdings h p (ground arith) (ground arith)
bare_holdings_at (node h no_nodes) (k ∷ ks) p b = holdings_at_new ks
bare_holdings_at (node h (branch j m cs)) ks p b = ground arith

holdings_at-prune :
    (h : Holdings) (cs : SNodes) (n : SNode) (k l : Bytes) (ks : List Bytes)
    → Paired (holdings_at [] n)
    → holdings_at (k ∷ ks) (node h (prune n l cs))
      ≡ (if bytes_eq k l then holdings_at ks n else holdings_at ks (child_or_new k cs))
holdings_at-prune h cs n k l ks p = elim (Bool-cases (is_bare n)) [
  | inl b ↦
      unfold prune holdings_at in
      ground
        (arith, child_or_new-delete_child k l cs, holdings_at_new ks, bare_holdings_at n ks p b)
  | inr b ↦ unfold prune holdings_at in ground (arith, child_or_new-put_child k l n cs)
]

ChangedAt-prune :
    (l : Bytes) (ls : List Bytes) (g : Holdings → Holdings) (h : Holdings) (cs : SNodes) (n : SNode)
    → Paired (holdings_at [] n)
    → ChangedAt ls g (child_or_new l cs) n
    → ChangedAt (l ∷ ls) g (node h cs) (node h (prune n l cs))
ChangedAt-prune l ls g h cs n p c [] = unfold holdings_at paths_eq in refl
ChangedAt-prune l ls g h cs n p c (k ∷ ks) =
    holdings_at-prune h cs n k l ks p
    ∙ unfold holdings_at paths_eq in ground (arith, bytes_eq_iff k l, c ks)

ChangedAt-root : (h h' : Holdings) (cs : SNodes) → ChangedAt [] (λ _. h') (node h cs) (node h' cs)
unfolding holdings_at paths_eq
ChangedAt-root h h' cs [] = refl
ChangedAt-root h h' cs (k ∷ ks) = refl

child_or_new_found :
    (l : Bytes) (cs : SNodes) (m : SNode) → find_child l cs ≡ some m → child_or_new l cs ≡ m
child_or_new_found l cs m f = rw (f, child_or_new)

after_remove-some :
    (h : Holdings) (cs : SNodes) (l : Bytes) (r : SNode × Option TopicError) (x : TopicError)
    → r.1 ≡ some x
    → after_remove h cs l r ≡ (node h (put_child l r.0 cs), some x)
after_remove-some h cs l (n, some y) x e = cc
after_remove-some h cs l (n, none) x e = cc

after_remove-none :
    (h : Holdings) (cs : SNodes) (l : Bytes) (r : SNode × Option TopicError)
    → r.1 ≡ none
    → after_remove h cs l r ≡ (node h (prune r.0 l cs), none)
after_remove-none h cs l (n, some y) e = cc
after_remove-none h cs l (n, none) e = refl

IsPaired-child :
    (h : Holdings) (cs : SNodes) (l : Bytes) (m : SNode)
    → find_child l cs ≡ some m
    → IsPaired (node h cs)
    → IsPaired m
IsPaired-child h cs l m f p ks =
    subst (λ x. Paired (holdings_at ks x)) (child_or_new_found l cs m f)
      (unfold holdings_at in p (l ∷ ks))

module _ (group : Bytes) (sub : Subscriber) where
  sremove_step :
      (fuel : ℕ) (h : Holdings) (cs : SNodes) (c : ℕ) (topic l rest : Bytes) (m : SNode)
      → next_topic_level (c ∷ topic) ≡ ok (l, rest)
      → find_child l cs ≡ some m
      → sremove (suc fuel) group sub (node h cs) (c ∷ topic)
        ≡ after_remove h cs l (sremove fuel group sub m rest)
  unfolding sremove
  sremove_step fuel h cs c topic l rest m e f = rw (e, sremove) (rw (f, sremove))

  -- What `sremove` has done: it failed and the tree is as it was; or the topic has levels, the node
  -- there held the subscriber, and only that node has changed.
  pub data RemoveOutcome (n : SNode) (topic : Bytes) (r : SNode × Option TopicError) : Type 0 where
    refused : (e : TopicError) → r.1 ≡ some e → e ≢ no_fuel → r.0 ≡ n → RemoveOutcome n topic r
    removed :
        (ls : List Bytes) (h' : Holdings)
        → Levels topic ls
        → r.1 ≡ none
        → remove_here group sub (holdings_at ls n) ≡ some h'
        → ChangedAt ls (λ _. h') n r.0
        → RemoveOutcome n topic r

  RemoveOutcome-here :
      (fuel : ℕ) (h : Holdings) (cs : SNodes)
      → RemoveOutcome (node h cs) [] (sremove fuel group sub (node h cs) [])
  RemoveOutcome-here fuel h cs = elim (Option-cases (remove_here group sub h)) [
    | inl e ↦ unfold sremove in rw (e, sremove) (refused no_subscriber refl (λ f. cc) refl)
    | inr (h', e) ↦
        unfold sremove holdings_at paths_eq in
        rw (e, sremove) (removed [] h' end refl e (ChangedAt-root h h' cs))
  ]

  Paired-root :
      (n : SNode) (ls : List Bytes) (h' : Holdings) (m : SNode)
      → IsPaired m
      → remove_here group sub (holdings_at ls m) ≡ some h'
      → ChangedAt ls (λ _. h') m n
      → Paired (holdings_at [] n)
  Paired-root n ls h' m p g s = elim (Bool-cases (paths_eq [] ls)) [
    | inl e ↦ rw (s []) (rw e (remove_here-Paired group sub (holdings_at ls m) h' (p ls) g))
    | inr e ↦ rw (s []) (rw e (p []))
  ]

  RemoveOutcome-deeper :
      (h : Holdings) (cs : SNodes) (c : ℕ) (topic l rest : Bytes) (m : SNode)
      (r : SNode × Option TopicError)
      → next_topic_level (c ∷ topic) ≡ ok (l, rest)
      → find_child l cs ≡ some m
      → IsPaired m
      → RemoveOutcome m rest r
      → RemoveOutcome (node h cs) (c ∷ topic) (after_remove h cs l r)
  RemoveOutcome-deeper h cs c topic l rest m r e f p (refused x k n s) =
      rw (after_remove-some h cs l r x k)
        (refused x refl n (ap (node h) (ap (λ y. put_child l y cs) s ∙ put_child_found l m cs f)))
  RemoveOutcome-deeper h cs c topic l rest m r e f p (removed ls h' lv k g s) =
      rw (after_remove-none h cs l r k) (
        removed (l ∷ ls) h' (level c topic l rest ls e lv) refl
          (unfold holdings_at in rw (child_or_new_found l cs m f) g)
          (ChangedAt-prune l ls (λ _. h') h cs r.0 (Paired-root r.0 ls h' m p g s)
            (rw (child_or_new_found l cs m f) s)))

  -- On a tree whose nodes are paired, `sremove` with the topic's length as fuel always ends; it
  -- either fails and leaves the tree as it was, or takes the subscriber out of the node of the
  -- topic's levels. Pruning the nodes that this leaves bare changes what is held at no other path.
  pub sremove_outcome :
      (fuel : ℕ) (n : SNode) (topic : Bytes)
      → IsPaired n
      → length topic ≤ fuel
      → RemoveOutcome n topic (sremove fuel group sub n topic)
  sremove_outcome fuel (node h cs) [] p lt = RemoveOutcome-here fuel h cs
  sremove_outcome zero n (c ∷ topic) p lt = absurd (omega arith)
  sremove_outcome (suc fuel) (node h cs) (c ∷ topic) p lt =
      elim (Result-cases (next_topic_level (c ∷ topic))) [
        | inr (x, e) ↦
            unfold sremove in
            rw (e, sremove)
              (refused x refl (λ f. next_topic_level-ne-no_fuel (c ∷ topic) (e ∙ ap err f)) refl)
        | inl ((l, rest), e) ↦ elim (Option-cases (find_child l cs)) [
          | inl f ↦
              unfold sremove in
              rw (e, sremove) (rw (f, sremove) (refused no_topic refl (λ x. cc) refl))
          | inr (m, f) ↦ rw (sremove_step fuel h cs c topic l rest m e f) (
              RemoveOutcome-deeper h cs c topic l rest m _ e f (IsPaired-child h cs l m f p) (
                sremove_outcome fuel m rest (IsPaired-child h cs l m f p)
                  (omega (arith, next_topic_level_shorter c topic l rest e))))
        ]
      ]

-- Subscribing and unsubscribing keep the two slices of every node in step, whether they succeed or
-- fail.
pub IsPaired-kept :
    (group : Bytes) (q fuel gas : ℕ) (sub leaver : Subscriber) (n : SNode) (topic filter : Bytes)
    → IsPaired n
    → length topic ≤ fuel
    → length filter ≤ gas
    → IsPaired (sinsert fuel group q sub n topic).0 × IsPaired (sremove gas group leaver n filter).0
IsPaired-kept group q fuel gas sub leaver n topic filter p lt gt = (inserting, removing)
  where
    inserting : IsPaired (sinsert fuel group q sub n topic).0
    inserting = elim (sinsert_outcome group q sub fuel n topic lt) [
      | failed e _ _ same ↦ λ ks. rw (same ks) (p ks)
      | inserted ls _ _ change ↦ λ ks. elim (Bool-cases (paths_eq ks ls)) [
        | inl e ↦ rw (change ks) (rw e (insert_here-Paired group q sub (holdings_at ks n) (p ks)))
        | inr e ↦ rw (change ks) (rw e (p ks))
      ]
    ]

    removing : IsPaired (sremove gas group leaver n filter).0
    removing = elim (sremove_outcome group leaver gas n filter p gt) [
      | refused e _ _ same ↦ rw same p
      | removed ls h' _ _ g change ↦ λ ks. elim (Bool-cases (paths_eq ks ls)) [
        | inl e ↦
            rw (change ks) (rw e (remove_here-Paired group leaver (holdings_at ls n) h' (p ls) g))
        | inr e ↦ rw (change ks) (rw e (p ks))
      ]
    ]
