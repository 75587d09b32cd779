-- ===== src/Topics/Retained/Prune.antt =====
-- What pruning the tree of retained messages loses: the way from one level to the next.
use xmqtt.Prelude.{Bytes, Bool, true, false, Option, none, some, List, [], ◌∷◌, ◌⊎◌, inl, inr}
use xmqtt.Prelude.{if◌then◌else◌, ◌&&◌, arith, ◌≡◌, refl, sym, ◌∙◌, bytes_eq, Bool-cases, ap}
use xmqtt.Prelude.{bytes_eq_iff, bytes_eq_refl, subst}
use xmqtt.Topics.Retained.{
  RNode, RNodes, rnode, no_rnodes, rbranch, put_rnode, delete_rnode, find_rnode,
}
use xmqtt.Topics.Retained.{prune, has_no_rnodes}
use xmqtt.Topics.Retained.Paths.{retained_at, retained_at_tail, retained_at_new, rnode_or_new_found}
use xmqtt.Topics.Retained.Paths.{rnode_or_new-put_rnode, rnode_or_new-delete_rnode}

unfoldable pub is_prefix : List Bytes → List Bytes → Bool
is_prefix [] ls = true
is_prefix (k ∷ ks) [] = false
is_prefix (k ∷ ks) (l ∷ ls) = bytes_eq k l && is_prefix ks ls

is_prefix_same :
    (l : Bytes) (ks ls : List Bytes) → is_prefix ks ls ≡ true → is_prefix (l ∷ ks) (l ∷ ls) ≡ true
unfolding is_prefix
is_prefix_same l ks ls e = rw (bytes_eq_refl l) e

module _ {M : Type 0} where
  -- After the removal nothing is retained at the path. What is retained elsewhere stays, but that it
  -- may be lost at a path that leads to the removed one.
  pub record Dropped (ls : List Bytes) (n n' : RNode M) : Type 0 where
    pub here : retained_at ls n' ≡ none
    pub elsewhere :
        (ks : List Bytes)
        → (retained_at ks n' ≡ retained_at ks n)
          ⊎ ((retained_at ks n' ≡ none) × (is_prefix ks ls ≡ true))

  leaf_retained :
      (k : Bytes) (ks : List Bytes) (n : RNode M)
      → has_no_rnodes n ≡ true
      → retained_at (k ∷ ks) n ≡ none
  unfolding retained_at find_rnode
  leaf_retained k ks (rnode m b no_rnodes) e = retained_at_new ks
  leaf_retained k ks (rnode m b (rbranch j n cs)) e = cc

  prune_leaf :
      (n : RNode M) (l : Bytes) (cs : RNodes M)
      → has_no_rnodes n ≡ true
      → prune n l cs ≡ delete_rnode l cs
  prune_leaf n l cs e = rw e

  prune_inner :
      (n : RNode M) (l : Bytes) (cs : RNodes M)
      → has_no_rnodes n ≡ false
      → prune n l cs ≡ put_rnode l n cs
  prune_inner n l cs e = rw e

  module _ (m : Option M) (b : Bytes) (cs : RNodes M) (n : RNode M) (j l : Bytes)
      (ks : List Bytes) where
    pub pruned :
        has_no_rnodes n ≡ true
        → retained_at (j ∷ ks) (rnode m b (prune n l cs))
          ≡ (if bytes_eq j l then none else retained_at (j ∷ ks) (rnode m b cs))
    pruned e =
        ap (λ x. retained_at (j ∷ ks) (rnode m b x)) (prune_leaf n l cs e)
        ∙ ground (
          arith,
          retained_at_tail j ks m b (delete_rnode l cs),
          retained_at_tail j ks m b cs,
          rnode_or_new-delete_rnode j l cs,
          retained_at_new {M = M} ks,
        )

    put_back :
        has_no_rnodes n ≡ false
        → retained_at (j ∷ ks) (rnode m b (prune n l cs))
          ≡ (if bytes_eq j l then retained_at ks n else retained_at (j ∷ ks) (rnode m b cs))
    put_back e =
        ap (λ x. retained_at (j ∷ ks) (rnode m b x)) (prune_inner n l cs e)
        ∙ ground (
          arith,
          retained_at_tail j ks m b (put_rnode l n cs),
          retained_at_tail j ks m b cs,
          rnode_or_new-put_rnode j l n cs,
        )

    other_level :
        bytes_eq j l ≡ false
        → retained_at (j ∷ ks) (rnode m b (prune n l cs)) ≡ retained_at (j ∷ ks) (rnode m b cs)
    other_level h = elim (Bool-cases (has_no_rnodes n)) [
      | inl e ↦ pruned e ∙ rw h
      | inr e ↦ put_back e ∙ rw h
    ]

  -- At one path: kept, or lost on the way to the removed path.
  abbrev pub KeptOrLost : List Bytes → List Bytes → RNode M → RNode M → Type 0
  KeptOrLost ks ls n n' =
      (retained_at ks n' ≡ retained_at ks n)
      ⊎ ((retained_at ks n' ≡ none) × (is_prefix ks ls ≡ true))

  module _ (l : Bytes) (ls : List Bytes) (m : Option M) (b : Bytes) (cs : RNodes M) (n n' : RNode M)
      (f : find_rnode l cs ≡ some n) where
    own : (ks : List Bytes) → retained_at (l ∷ ks) (rnode m b cs) ≡ retained_at ks n
    own ks = retained_at_tail l ks m b cs ∙ ap (retained_at ks) (rnode_or_new_found l cs n f)

    under_leaf :
        (ks : List Bytes)
        → has_no_rnodes n' ≡ true
        → KeptOrLost ks ls n n'
        → KeptOrLost (l ∷ ks) (l ∷ ls) (rnode m b cs) (rnode m b (prune n' l cs))
    under_leaf [] e d = inr (
      pruned m b cs n' l l [] e ∙ rw (bytes_eq_refl l),
      is_prefix_same l [] ls (unfold is_prefix in refl),
    )
    under_leaf (k ∷ ks) e (inl h) = inl (
        pruned m b cs n' l l (k ∷ ks) e
        ∙ rw (bytes_eq_refl l, own (k ∷ ks), ← h, leaf_retained k ks n' e))
    under_leaf (k ∷ ks) e (inr (z, p)) =
        inr (pruned m b cs n' l l (k ∷ ks) e ∙ rw (bytes_eq_refl l), is_prefix_same l (k ∷ ks) ls p)

    under_inner :
        (ks : List Bytes)
        → has_no_rnodes n' ≡ false
        → KeptOrLost ks ls n n'
        → KeptOrLost (l ∷ ks) (l ∷ ls) (rnode m b cs) (rnode m b (prune n' l cs))
    under_inner ks e (inl h) = inl (put_back m b cs n' l l ks e ∙ rw (bytes_eq_refl l, own ks) h)
    under_inner ks e (inr (z, p)) =
        inr (put_back m b cs n' l l ks e ∙ rw (bytes_eq_refl l) z, is_prefix_same l ks ls p)

    same_level :
        (ks : List Bytes)
        → KeptOrLost ks ls n n'
        → KeptOrLost (l ∷ ks) (l ∷ ls) (rnode m b cs) (rnode m b (prune n' l cs))
    same_level ks d = elim (Bool-cases (has_no_rnodes n')) [
      | inl e ↦ under_leaf ks e d
      | inr e ↦ under_inner ks e d
    ]

    pub gone : retained_at ls n' ≡ none → retained_at (l ∷ ls) (rnode m b (prune n' l cs)) ≡ none
    gone z = elim (Bool-cases (has_no_rnodes n')) [
      | inl e ↦ pruned m b cs n' l l ls e ∙ rw (bytes_eq_refl l)
      | inr e ↦ put_back m b cs n' l l ls e ∙ rw (bytes_eq_refl l) z
    ]

    pub Dropped-deeper :
        Dropped ls n n' → Dropped (l ∷ ls) (rnode m b cs) (rnode m b (prune n' l cs))
    Dropped-deeper d = record { here = gone d.here; elsewhere = each }
      where
        each : (ks : List Bytes) → KeptOrLost ks (l ∷ ls) (rnode m b cs) (rnode m b (prune n' l cs))
        each [] = inl (unfold retained_at in refl)
        each (j ∷ ks) = elim (Bool-cases (bytes_eq j l)) [
          | inl e ↦
              subst (λ x. KeptOrLost (x ∷ ks) (l ∷ ls) (rnode m b cs) (rnode m b (prune n' l cs)))
                (sym ((bytes_eq_iff j l).0 e)) (same_level ks (d.elsewhere ks))
          | inr e ↦ inl (other_level m b cs n' j l ks e)
        ]

  pub Dropped-root :
      (m : Option M) (b : Bytes) (cs : RNodes M) → Dropped [] (rnode m b cs) (rnode none [] cs)
  Dropped-root m b cs = record { here = unfold retained_at in refl; elsewhere = each }
    where
      each : (ks : List Bytes) → KeptOrLost ks [] (rnode m b cs) (rnode none [] cs)
      each [] = unfold retained_at is_prefix in inr (refl, refl)
      each (k ∷ ks) = unfold retained_at in inl refl
