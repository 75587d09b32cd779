-- ===== src/Topics/Tree/Insert.antt =====
-- `sinsert`: what it changes, and that it ends.
use xmqtt.Prelude.{ℕ, zero, suc, Bytes, Option, none, some, List, [], ◌∷◌, inl, inr, ◌≤◌}
use xmqtt.Prelude.{if◌then◌else◌, arith, ◌≡◌, ◌≢◌, refl, length, ◌∙◌, subst, ap}
use xmqtt.Prelude.{bytes_eq_iff}
use xmqtt.Topics.Level.{TopicError, no_fuel, ok, err, next_topic_level}
use xmqtt.Topics.Level.Split.{next_topic_level_shorter, next_topic_level-ne-no_fuel, Result-cases}
use xmqtt.Topics.Level.Accept.{Levels, end, level, Levels-unique}
use xmqtt.Topics.Tree.{SNode, SNodes, node, put_child, child_or_new, sinsert}
use xmqtt.Topics.Tree.Paths.{paths_eq, holdings_at, child_or_new-put_child}
use xmqtt.Topics.Subscriber.{Subscriber, Holdings, insert_here}

-- No node's holdings differ.
abbrev pub SameHoldings : SNode → SNode → Type 0
SameHoldings n n' = (ks : List Bytes) → holdings_at ks n' ≡ holdings_at ks n

-- The holdings differ at one path alone, and there by the function.
abbrev pub ChangedAt : List Bytes → (Holdings → Holdings) → SNode → SNode → Type 0
ChangedAt ls g n n' =
    (ks : List Bytes)
    → holdings_at ks n' ≡ (if paths_eq ks ls then g (holdings_at ks n) else holdings_at ks n)

ChangedAt-node :
    (l : Bytes) (ls : List Bytes) (g : Holdings → Holdings) (h : Holdings) (cs : SNodes) (n : SNode)
    → ChangedAt ls g (child_or_new l cs) n
    → ChangedAt (l ∷ ls) g (node h cs) (node h (put_child l n cs))
unfolding holdings_at paths_eq
ChangedAt-node l ls g h cs n c [] = refl
ChangedAt-node l ls g h cs n c (k ∷ ks) =
    ground (arith, child_or_new-put_child k l n cs, bytes_eq_iff k l, c ks)

pub SameHoldings-node :
    (l : Bytes) (h : Holdings) (cs : SNodes) (n : SNode)
    → SameHoldings (child_or_new l cs) n
    → SameHoldings (node h cs) (node h (put_child l n cs))
unfolding holdings_at
SameHoldings-node l h cs n c [] = refl
SameHoldings-node l h cs n c (k ∷ ks) =
    ground (arith, child_or_new-put_child k l n cs, bytes_eq_iff k l, c ks)

ChangedAt-root :
    (g : Holdings → Holdings) (h : Holdings) (cs : SNodes)
    → ChangedAt [] g (node h cs) (node (g h) cs)
unfolding holdings_at paths_eq
ChangedAt-root g h cs [] = refl
ChangedAt-root g h cs (k ∷ ks) = refl

module _ (group : Bytes) (q : ℕ) (sub : Subscriber) where
  sinsert_step :
      (fuel : ℕ) (h : Holdings) (cs : SNodes) (c : ℕ) (topic l rest : Bytes)
      → next_topic_level (c ∷ topic) ≡ ok (l, rest)
      → sinsert (suc fuel) group q sub (node h cs) (c ∷ topic) ≡ (
          let (n, e) = sinsert fuel group q sub (child_or_new l cs) rest in
          (node h (put_child l n cs), e))
  unfolding sinsert
  sinsert_step fuel h cs c topic l rest e = rw (e, sinsert)

  -- What `sinsert` has done: it failed and no node's holdings differ, or the topic has levels and
  -- only the node at these levels has changed, by `insert_here`.
  pub data InsertOutcome (n : SNode) (topic : Bytes) (r : SNode × Option TopicError) : Type 0 where
    failed :
        (e : TopicError) → r.1 ≡ some e → e ≢ no_fuel → SameHoldings n r.0 → InsertOutcome n topic r
    inserted :
        (ls : List Bytes)
        → Levels topic ls
        → r.1 ≡ none
        → ChangedAt ls (insert_here group q sub) n r.0
        → InsertOutcome n topic r

  InsertOutcome_deeper :
      (h : Holdings) (cs : SNodes) (c : ℕ) (topic l rest : Bytes) (r : SNode × Option TopicError)
      → next_topic_level (c ∷ topic) ≡ ok (l, rest)
      → InsertOutcome (child_or_new l cs) rest r
      → InsertOutcome (node h cs) (c ∷ topic) (node h (put_child l r.0 cs), r.1)
  InsertOutcome_deeper h cs c topic l rest r e (failed x k f s) =
      failed x k f (SameHoldings-node l h cs r.0 s)
  InsertOutcome_deeper h cs c topic l rest r e (inserted ls lv k s) =
      inserted (l ∷ ls) (level c topic l rest ls e lv) k
        (ChangedAt-node l ls (insert_here group q sub) h cs r.0 s)

  -- With the topic's length as fuel `sinsert` always ends, and it either fails and changes no
  -- node's holdings, or adds the subscriber at the node of the topic's levels and changes no other.
  pub sinsert_outcome :
      (fuel : ℕ) (n : SNode) (topic : Bytes)
      → length topic ≤ fuel
      → InsertOutcome n topic (sinsert fuel group q sub n topic)
  sinsert_outcome fuel (node h cs) [] lt =
      unfold sinsert in inserted [] end refl (ChangedAt-root (insert_here group q sub) h cs)
  sinsert_outcome zero n (c ∷ topic) lt = absurd (omega arith)
  sinsert_outcome (suc fuel) (node h cs) (c ∷ topic) lt =
      elim (Result-cases (next_topic_level (c ∷ topic))) [
        | inr (x, e) ↦
            unfold sinsert in
            rw (e, sinsert)
              (failed x refl (λ f. next_topic_level-ne-no_fuel (c ∷ topic) (e ∙ ap err f))
                (λ ks. refl))
        | inl ((l, rest), e) ↦ rw (sinsert_step fuel h cs c topic l rest e) (
            InsertOutcome_deeper h cs c topic l rest _ e (
              sinsert_outcome fuel (child_or_new l cs) rest
                (omega (arith, next_topic_level_shorter c topic l rest e))))
      ]

  sinsert_ends :
      (fuel : ℕ) (n : SNode) (topic : Bytes) (ls : List Bytes)
      → Levels topic ls
      → length topic ≤ fuel
      → (sinsert fuel group q sub n topic).1 ≡ none
  sinsert_ends fuel (node h cs) topic ls end lt = unfold sinsert in refl
  sinsert_ends zero n topic ls (level c t l rest ks e lv) lt = absurd (omega arith)
  sinsert_ends (suc fuel) (node h cs) topic ls (level c t l rest ks e lv) lt =
      ap (λ r. r.1) (sinsert_step fuel h cs c t l rest e)
      ∙ sinsert_ends fuel (child_or_new l cs) rest ks lv
          (omega (arith, next_topic_level_shorter c t l rest e))

  -- At a topic whose levels are legal `sinsert` succeeds and adds the subscriber at these levels.
  pub sinsert-Levels :
      (fuel : ℕ) (n : SNode) (topic : Bytes) (ls : List Bytes)
      → Levels topic ls
      → length topic ≤ fuel
      → ((sinsert fuel group q sub n topic).1 ≡ none)
        × ChangedAt ls (insert_here group q sub) n (sinsert fuel group q sub n topic).0
  sinsert-Levels fuel n topic ls lv lt =
      let good = sinsert_ends fuel n topic ls lv lt in
      (
        good,
        elim (sinsert_outcome fuel n topic lt) [
          | failed x k _ _ ↦ absurd (cc)
          | inserted js lv' _ change ↦
              subst
                (λ x. ChangedAt x (insert_here group q sub) n (sinsert fuel group q sub n topic).0)
                (Levels-unique topic js ls lv' lv) change
        ],
      )
