-- ===== src/Topics/Tree/Found.antt =====
-- From a path's holdings to what `smatch` delivers.
use xmqtt.Prelude.{ℕ, Bytes, true, List, [], ◌∷◌, inl, inr, bytes_eq, bytes_eq_iff, Bool-cases}
use xmqtt.Prelude.{◌≡◌, ◌≢◌, refl, Within, Within-append_left, Within-append_right, subst}
use xmqtt.Topics.Level.Accept.{Levels}
use xmqtt.Topics.Tree.{SNode, SNodes, node, no_nodes, branch, smatch, find_child, child_or_new}
use xmqtt.Topics.Tree.Paths.{holdings_at, holdings_at_new}
use xmqtt.Topics.Tree.Match.{matches, Table, table, table_nodes, under, deliver, smatch_lem}
use xmqtt.Topics.Subscriber.{
  Subscriber, Holdings, no_holdings, Delivery, match_qos, match_subs, match_groups,
}

under_present :
    (k : Bytes) (p : List Bytes) (h : Holdings) (t : Table)
    → Within (p, h) t
    → Within (k ∷ p, h) (under k t)
under_present k p h [] w = elim w [ ]
under_present k p h ((r, g) ∷ t) (inl e) = unfold under in inl (λ i. (k ∷ (e i).0, (e i).1))
under_present k p h ((r, g) ∷ t) (inr w) = let w' = under_present k p h t w in later w'
  where
    later : Within (k ∷ p, h) (under k t) → Within (k ∷ p, h) (under k ((r, g) ∷ t))
    later w' = unfold under in inr w'

below_present :
    (k : Bytes) (p : List Bytes) (cs : SNodes)
    → ((n : SNode) → holdings_at p n ≢ no_holdings → Within (p, holdings_at p n) (table n))
    → holdings_at p (child_or_new k cs) ≢ no_holdings
    → Within (k ∷ p, holdings_at p (child_or_new k cs)) (table_nodes cs)
unfolding find_child table_nodes
below_present k p no_nodes here ne = absurd (ne (holdings_at_new p))
below_present k p (branch j n cs) here ne = elim (Bool-cases (bytes_eq k j)) [
  | inl e ↦
      let q : k ≡ j = (bytes_eq_iff k j).0 e in
      rw (e, child_or_new)
        (Within-append_left _ _ _ (
          subst (λ x. Within (k ∷ p, holdings_at p n) (under x (table n))) q
            (under_present k p (holdings_at p n) (table n) (here n (rw (e, child_or_new) at ne)))))
  | inr e ↦
      rw (e, child_or_new)
        (Within-append_right _ _ _ (below_present k p cs here (rw (e, child_or_new) at ne)))
]

-- Every holding that is found at a path stands in the table under it.
table_present :
    (p : List Bytes) (n : SNode)
    → holdings_at p n ≢ no_holdings
    → Within (p, holdings_at p n) (table n)
unfolding holdings_at table
table_present [] (node h cs) ne = inl refl
table_present (k ∷ p) (node h cs) ne = inr (below_present k p cs (table_present p) ne)

module _ (pick : Bytes → List Subscriber → ℕ) (q : ℕ) where
  deliver_row :
      (d : Delivery) (ls p : List Bytes) (h : Holdings) (t : Table)
      → Within (p, h) t
      → matches p ls ≡ true
      → Within d (match_qos pick q h)
      → Within d (deliver pick q ls t)
  unfolding deliver
  deliver_row d ls p h [] w m i = elim w [ ]
  deliver_row d ls p h ((r, g) ∷ t) (inl e) m i =
      rw (subst (λ (x : List Bytes × Holdings). matches x.0 ls ≡ true) e m) (
        Within-append_left _ _ _
          (subst (λ (x : List Bytes × Holdings). Within d (match_qos pick q x.1)) e i))
  deliver_row d ls p h ((r, g) ∷ t) (inr w) m i = elim (Bool-cases (matches r ls)) [
    | inl e ↦ rw e (Within-append_right _ _ _ (deliver_row d ls p h t w m i))
    | inr e ↦ rw e (deliver_row d ls p h t w m i)
  ]

  match_qos_none : (d : Delivery) (h : Holdings) → Within d (match_qos pick q h) → h ≢ no_holdings
  unfolding match_qos match_subs match_groups
  match_qos_none d h w e = subst (λ x. Within d (match_qos pick q x)) e w

  -- Whatever the node at a filter's levels delivers is delivered for each topic that the filter
  -- matches.
  pub smatch_found :
      (d : Delivery) (n : SNode) (topic : Bytes) (ls p : List Bytes)
      → Levels topic ls
      → matches p ls ≡ true
      → Within d (match_qos pick q (holdings_at p n))
      → Within d (smatch pick q n topic).0
  smatch_found d n topic ls p lv m w = rw (smatch_lem pick q n topic ls lv) (
      deliver_row d ls p (holdings_at p n) (table n)
        (table_present p n (match_qos_none d (holdings_at p n) w)) m w)
