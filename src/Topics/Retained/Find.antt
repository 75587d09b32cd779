-- ===== src/Topics/Retained/Find.antt =====
-- `rmatch` finds every retained message whose topic the filter matches.
use xmqtt.Prelude.{Bytes, Bool, true, false, Option, none, some, List, [], ◌∷◌, ◌++◌, inl, inr, ◌⊎◌}
use xmqtt.Prelude.{◌&&◌, ◌||◌, arith, ◌≡◌, refl, bytes_eq, bytes_eq_iff, Bool-cases, Within}
use xmqtt.Prelude.{Within-append_left, Within-append_right, subst, sym}
use xmqtt.Topics.Level.{swc, mwc}
use xmqtt.Topics.Level.Accept.{Levels}
use xmqtt.Topics.Retained.{RNode, RNodes, rnode, no_rnodes, rbranch, find_rnode, rnode_or_new}
use xmqtt.Topics.Retained.{message_list, all_retained, all_retained_nodes, rmatch}
use xmqtt.Topics.Retained.Match.{collect, collect_each, collect_key, rmatch-collect}
use xmqtt.Topics.Retained.Paths.{retained_at, retained_at_new, retained_at_tail}

-- Whether a filter's levels match a topic's levels: here "#" also matches no level at all.
unfoldable pub filter_matches : List Bytes → List Bytes → Bool
filter_matches [] [] = true
filter_matches [] (k ∷ p) = false
filter_matches (f ∷ fs) [] = bytes_eq f mwc
filter_matches (f ∷ fs) (k ∷ p) =
    let rest = filter_matches fs p in bytes_eq f mwc || ((bytes_eq f swc || bytes_eq f k) && rest)

module _ (f : Bytes) (fs : List Bytes) (k : Bytes) (p : List Bytes) where
  rest_matches :
      bytes_eq f mwc ≡ false → filter_matches (f ∷ fs) (k ∷ p) ≡ true → filter_matches fs p ≡ true
  unfolding filter_matches
  rest_matches a h = ground arith

  same_level :
      bytes_eq f mwc ≡ false
      → bytes_eq f swc ≡ false
      → filter_matches (f ∷ fs) (k ∷ p) ≡ true
      → f ≡ k
  unfolding filter_matches
  same_level a s h = ground (arith, bytes_eq_iff f k)

module _ {M : Type 0} where
  message_list_has : (m : M) (o : Option M) → o ≡ some m → Within m (message_list o)
  message_list_has m none e = cc
  message_list_has m (some k) e = inl (cc)

  -- A loop over the map meets the node at a key, if that retains something.
  each_has :
      (A : RNode M → List M) (loop : RNodes M → List M) (k : Bytes) (p : List Bytes) (m : M)
      (cs : RNodes M)
      → ((j : Bytes) (n : RNode M) (ds : RNodes M) → loop (rbranch j n ds) ≡ A n ++ loop ds)
      → ((n : RNode M) → retained_at p n ≡ some m → Within m (A n))
      → retained_at p (rnode_or_new k cs) ≡ some m
      → Within m (loop cs)
  unfolding find_rnode
  each_has A loop k p m no_rnodes eq here e = absurd (cc (retained_at_new {M = M} p))
  each_has A loop k p m (rbranch j n ds) eq here e =
      rw (eq j n ds) (elim (Bool-cases (bytes_eq k j)) [
        | inl h ↦ Within-append_left _ _ _ (here n (rw (h, rnode_or_new) at e))
        | inr h ↦
            Within-append_right _ _ _ (each_has A loop k p m ds eq here (rw (h, rnode_or_new) at e))
      ])

  all_retained_has :
      (p : List Bytes) (m : M) (n : RNode M) → retained_at p n ≡ some m → Within m (all_retained n)
  unfolding all_retained retained_at
  all_retained_has [] m (rnode o b cs) e = Within-append_left _ _ _ (message_list_has m o e)
  all_retained_has (k ∷ p) m (rnode o b cs) e =
      Within-append_right _ _ _ (
        each_has all_retained all_retained_nodes k p m cs (λ j n ds. refl) (all_retained_has p m) e)

  key_has :
      (k : Bytes) (ls p : List Bytes) (m : M) (cs : RNodes M)
      → ((n : RNode M) → retained_at p n ≡ some m → Within m (collect ls n))
      → retained_at p (rnode_or_new k cs) ≡ some m
      → Within m (collect_key k ls cs)
  unfolding find_rnode collect_key
  key_has k ls p m no_rnodes here e = absurd (cc (retained_at_new {M = M} p))
  key_has k ls p m (rbranch j n ds) here e = elim (Bool-cases (bytes_eq k j)) [
    | inl h ↦ rw h (here n (rw (h, rnode_or_new) at e))
    | inr h ↦ rw h (key_has k ls p m ds here (rw (h, rnode_or_new) at e))
  ]

  collect_has :
      (fs p : List Bytes) (m : M) (n : RNode M)
      → retained_at p n ≡ some m
      → filter_matches fs p ≡ true
      → Within m (collect fs n)
  collect_has [] [] m (rnode o b cs) e h = unfold collect retained_at in message_list_has m o e
  collect_has [] (k ∷ p) m n e h = unfold filter_matches in cc
  collect_has (f ∷ fs) [] m (rnode o b cs) e h =
      unfold collect filter_matches in rw h (all_retained_has [] m (rnode o b cs) e)
  collect_has (f ∷ fs) (k ∷ p) m (rnode o b cs) e h =
      deeper (Bool-cases (bytes_eq f mwc)) (Bool-cases (bytes_eq f swc)) (collect_has fs p m)
    where
      deeper :
          (bytes_eq f mwc ≡ true) ⊎ (bytes_eq f mwc ≡ false)
          → (bytes_eq f swc ≡ true) ⊎ (bytes_eq f swc ≡ false)
          → ((n : RNode M)
              → retained_at p n ≡ some m
              → filter_matches fs p ≡ true
              → Within m (collect fs n))
          → Within m (collect (f ∷ fs) (rnode o b cs))
      deeper (inl a) s ih = unfold collect in rw a (all_retained_has (k ∷ p) m (rnode o b cs) e)
      deeper (inr a) (inl s) ih =
          unfold collect in
          rw (a, s)
            (each_has (collect fs) (collect_each fs) k p m cs
              (λ j n ds. unfold collect_each in refl) (λ n r. ih n r (rest_matches f fs k p a h))
              (rw retained_at_tail at e))
      deeper (inr a) (inr s) ih =
          unfold collect in
          rw (a, s)
            (subst (λ x. Within m (collect_key x fs cs)) (sym (same_level f fs k p a s h))
              (key_has k fs p m cs (λ n r. ih n r (rest_matches f fs k p a h))
                (rw retained_at_tail at e)))

  -- A filter with legal levels finds every message that is retained at levels which it matches, and
  -- ends without an error.
  pub rmatch_found :
      (m : M) (n : RNode M) (filter : Bytes) (fs p : List Bytes)
      → Levels filter fs
      → filter_matches fs p ≡ true
      → retained_at p n ≡ some m
      → Within m (rmatch n filter).0 × ((rmatch n filter).1 ≡ none)
  rmatch_found m n filter fs p lv h e =
      rw (rmatch-collect n filter fs lv) (collect_has fs p m n e h, refl)
