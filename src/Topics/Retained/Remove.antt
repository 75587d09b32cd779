-- ===== src/Topics/Retained/Remove.antt =====
-- `rremove`: what it deletes, and that it deletes the message of a parent too.
use xmqtt.Prelude.{ℕ, zero, suc, Bytes, Option, none, some, List, [], ◌∷◌, ◌++◌, inl, inr, ◌≤◌}
use xmqtt.Prelude.{true, arith, ◌≡◌, ◌≢◌, refl, length, ◌∙◌, ap}
use xmqtt.Prelude.{bytes_eq_refl, Option-cases}
use xmqtt.Topics.Level.{TopicError, no_fuel, no_topic, ok, err, next_topic_level}
use xmqtt.Topics.Level.Split.{next_topic_level_shorter, next_topic_level-ne-no_fuel, Result-cases}
use xmqtt.Topics.Level.Accept.{Levels, end, level}
use xmqtt.Topics.Retained.{
  RNode, RNodes, rnode, no_rnodes, rbranch, put_rnode, delete_rnode, find_rnode,
}
use xmqtt.Topics.Retained.{rnode_or_new, rremove, prune, after_remove, has_no_rnodes}
use xmqtt.Topics.Retained.Prune.{gone, Dropped, Dropped-deeper, Dropped-root, pruned}
use xmqtt.Topics.Retained.Paths.{retained_at, put_rnode_found}

module _ {M : Type 0} where
  rremove_step :
      (fuel : ℕ) (m : Option M) (b : Bytes) (cs : RNodes M) (c : ℕ) (t l rest : Bytes) (n : RNode M)
      → next_topic_level (c ∷ t) ≡ ok (l, rest)
      → find_rnode l cs ≡ some n
      → rremove (suc fuel) (rnode m b cs) (c ∷ t) ≡ after_remove m b cs l (rremove fuel n rest)
  unfolding rremove
  rremove_step fuel m b cs c t l rest n e f = rw (e, rremove) (rw (f, rremove))

  -- What `rremove` has done: it failed and the tree is as it was, or the topic has levels and what
  -- was retained there is dropped.
  pub data DropOutcome (n : RNode M) (t : Bytes) (r : RNode M × Option TopicError) : Type 0 where
    failed : (e : TopicError) → r.1 ≡ some e → e ≢ no_fuel → r.0 ≡ n → DropOutcome n t r
    dropped : (ls : List Bytes) → Levels t ls → r.1 ≡ none → Dropped ls n r.0 → DropOutcome n t r

  after_some :
      (m : Option M) (b : Bytes) (cs : RNodes M) (l : Bytes) (r : RNode M × Option TopicError)
      (x : TopicError)
      → r.1 ≡ some x
      → after_remove m b cs l r ≡ (rnode m b (put_rnode l r.0 cs), some x)
  after_some m b cs l (n, some y) x e = cc
  after_some m b cs l (n, none) x e = cc

  after_none :
      (m : Option M) (b : Bytes) (cs : RNodes M) (l : Bytes) (r : RNode M × Option TopicError)
      → r.1 ≡ none
      → after_remove m b cs l r ≡ (rnode m b (prune r.0 l cs), none)
  after_none m b cs l (n, some y) e = cc
  after_none m b cs l (n, none) e = refl

  DropOutcome-deeper :
      (m : Option M) (b : Bytes) (cs : RNodes M) (c : ℕ) (t l rest : Bytes) (n : RNode M)
      (r : RNode M × Option TopicError)
      → next_topic_level (c ∷ t) ≡ ok (l, rest)
      → find_rnode l cs ≡ some n
      → DropOutcome n rest r
      → DropOutcome (rnode m b cs) (c ∷ t) (after_remove m b cs l r)
  DropOutcome-deeper m b cs c t l rest n r e f (failed x k g s) =
      rw (after_some m b cs l r x k)
        (failed x refl g (ap (rnode m b) (ap (λ y. put_rnode l y cs) s ∙ put_rnode_found l n cs f)))
  DropOutcome-deeper m b cs c t l rest n r e f (dropped ls lv k s) =
      rw (after_none m b cs l r k)
        (dropped (l ∷ ls) (level c t l rest ls e lv) refl (Dropped-deeper l ls m b cs n r.0 f s))

  DropOutcome-here :
      (fuel : ℕ) (m : Option M) (b : Bytes) (cs : RNodes M)
      → DropOutcome (rnode m b cs) [] (rremove fuel (rnode m b cs) [])
  unfolding rremove
  DropOutcome-here fuel m b cs = dropped [] end refl (Dropped-root m b cs)

  -- With the topic's length as fuel `rremove` always ends: it fails and leaves the tree as it was,
  -- or nothing is retained at the topic's levels any more. Messages at other paths stay, but one at
  -- a path that leads to the removed one may be lost.
  pub rremove_outcome :
      (fuel : ℕ) (n : RNode M) (t : Bytes) → length t ≤ fuel → DropOutcome n t (rremove fuel n t)
  rremove_outcome fuel (rnode m b cs) [] lt = DropOutcome-here fuel m b cs
  rremove_outcome zero n (c ∷ t) lt = absurd (omega arith)
  rremove_outcome (suc fuel) (rnode m b cs) (c ∷ t) lt =
      elim (Result-cases (next_topic_level (c ∷ t))) [
        | inr (x, e) ↦
            unfold rremove in
            rw (e, rremove)
              (failed x refl (λ f. next_topic_level-ne-no_fuel (c ∷ t) (e ∙ ap err f)) refl)
        | inl ((l, rest), e) ↦ elim (Option-cases (find_rnode l cs)) [
          | inl f ↦
              unfold rremove in
              rw (e, rremove) (rw (f, rremove) (failed no_topic refl (λ x. cc) refl))
          | inr (n, f) ↦ rw (rremove_step fuel m b cs c t l rest n e f) (
              DropOutcome-deeper m b cs c t l rest n _ e f (
                rremove_outcome fuel n rest (omega (arith, next_topic_level_shorter c t l rest e))))
        ]
      ]

  find_first : (k : Bytes) (n : RNode M) (cs : RNodes M) → find_rnode k (rbranch k n cs) ≡ some n
  unfolding find_rnode
  find_first k n cs = rw (bytes_eq_refl k)

  delete_lone : (k : Bytes) (n : RNode M) → delete_rnode k (rbranch k n no_rnodes) ≡ no_rnodes
  unfolding delete_rnode
  delete_lone k n = rw (bytes_eq_refl k)

  -- The two calls on the way down to the lower message.
  inner_call :
      (fuel d : ℕ) (u j : Bytes) (upper : M) (lower : Option M) (b b'' : Bytes)
      → next_topic_level (d ∷ u) ≡ ok (j, [])
      → rremove
          (suc fuel)
          (rnode (some upper) b'' (rbranch j (rnode lower b no_rnodes) no_rnodes))
          (d ∷ u)
        ≡ (rnode (some upper) b'' no_rnodes, none)
  inner_call fuel d u j upper lower b b'' e =
      rremove_step fuel (some upper) b'' _ d u j [] (rnode lower b no_rnodes) e
        (find_first j (rnode lower b no_rnodes) no_rnodes)
      ∙ unfold rremove in
        ap (λ x. (rnode (some upper) b'' x, none)) (delete_lone j (rnode lower b no_rnodes))

  -- The node at a path of levels.
  unfoldable pub node_at : List Bytes → RNode M → Option (RNode M)
  node_at [] n = some n
  node_at (k ∷ ks) (rnode m b cs) = elim (find_rnode k cs) [ none ↦ none | some n ↦ node_at ks n ]

  retained_at-node_at :
      (ks : List Bytes) (n : RNode M) (m : Option M) (b : Bytes) (cs : RNodes M)
      → node_at ks n ≡ some (rnode m b cs)
      → retained_at ks n ≡ m
  unfolding node_at retained_at
  retained_at-node_at [] n m b cs e =
      let same : n ≡ rnode m b cs = ground (arith, e) in rw same refl
  retained_at-node_at (k ∷ ks) (rnode m' b' ds) m b cs e = elim (Option-cases (find_rnode k ds)) [
    | inl f ↦ absurd (ground (arith, rw (f, node_at) at e))
    | inr (n, f) ↦ rw (f, rnode_or_new) (retained_at-node_at ks n m b cs (rw (f, node_at) at e))
  ]

  -- What a removal below the node at a path leaves there: a node with no nodes below it, or nothing.
  abbrev Emptied : List Bytes → RNode M → Type 0
  Emptied [] n = has_no_rnodes n ≡ true
  Emptied (k ∷ ks) n = retained_at (k ∷ ks) n ≡ none

  Emptied-deeper :
      (ks : List Bytes) (m : Option M) (b k : Bytes) (cs : RNodes M) (n n' : RNode M)
      → find_rnode k cs ≡ some n
      → Emptied ks n'
      → retained_at (k ∷ ks) (rnode m b (prune n' k cs)) ≡ none
  Emptied-deeper [] m b k cs n n' f h = pruned m b cs n' k k [] h ∙ rw (bytes_eq_refl k)
  Emptied-deeper (l ∷ ks) m b k cs n n' f h = gone k (l ∷ ks) m b cs n n' f h

  rremove-Emptied :
      (fuel : ℕ) (n : RNode M) (t : Bytes) (ks : List Bytes) (j : Bytes) (upper : M)
      (lower : Option M) (b b'' : Bytes)
      → Levels t (ks ++ (j ∷ []))
      → length t ≤ fuel
      → node_at ks n ≡ some (rnode (some upper) b'' (rbranch j (rnode lower b no_rnodes) no_rnodes))
      → ((rremove fuel n t).1 ≡ none) × Emptied ks (rremove fuel n t).0
  rremove-Emptied zero n t [] j upper lower b b'' (level c u _ _ _ e lv) lt h = absurd (omega arith)
  rremove-Emptied zero n t (k ∷ ks) j upper lower b b'' (level c u _ _ _ e lv) lt h =
      absurd (omega arith)
  rremove-Emptied (suc fuel) n t [] j upper lower b b'' (level c u _ _ _ e end) lt h =
      let same : n ≡ rnode (some upper) b'' (rbranch j (rnode lower b no_rnodes) no_rnodes) =
        unfold node_at in ground (arith, h) in
      rw (same, inner_call fuel c u j upper lower b b'' e) (refl, refl)
  rremove-Emptied (suc fuel) (rnode m a cs) t (k ∷ ks) j upper lower b b'' (level c u _ rest _ e lv)
        lt h =
      elim (Option-cases (find_rnode k cs)) [
        | inl f ↦ absurd (unfold node_at in ground (arith, h, f))
        | inr (n, f) ↦
            let (good, left) =
              rremove-Emptied fuel n rest ks j upper lower b b'' lv
                (omega (arith, lt, next_topic_level_shorter c u k rest e))
                (unfold node_at in ground (arith, h, f)) in
            rw
              (
                rremove_step fuel m a cs c u k rest n e f,
                after_none m a cs k (rremove fuel n rest) good,
              )
              (refl, Emptied-deeper ks m a k cs n (rremove fuel n rest).0 f left)
      ]

  -- Deleting a message that is retained one level below another, at any depth, where the upper topic
  -- has no other topic below it and the lower one none, succeeds and deletes the upper message as well.
  pub rremove_loses_parent :
      (fuel : ℕ) (n : RNode M) (t k j : Bytes) (ks : List Bytes) (upper : M) (lower : Option M)
      (b b'' : Bytes)
      → Levels t ((k ∷ ks) ++ (j ∷ []))
      → length t ≤ fuel
      → node_at (k ∷ ks) n
        ≡ some (rnode (some upper) b'' (rbranch j (rnode lower b no_rnodes) no_rnodes))
      → (retained_at (k ∷ ks) n ≡ some upper)
        × ((rremove fuel n t).1 ≡ none)
        × (retained_at (k ∷ ks) (rremove fuel n t).0 ≡ none)
  rremove_loses_parent fuel n t k j ks upper lower b b'' lv lt h =
      let (good, lost) = rremove-Emptied fuel n t (k ∷ ks) j upper lower b b'' lv lt h in
      (
        retained_at-node_at (k ∷ ks) n (some upper) b''
            (rbranch j (rnode lower b no_rnodes) no_rnodes) h,
        good,
        lost,
      )
