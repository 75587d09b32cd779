-- ===== src/Topics/Retained/Match.antt =====
-- `rmatch` as a walk over the filter's levels.
use xmqtt.Prelude.{ℕ, Bytes, Option, none, List, [], ◌∷◌, ◌++◌}
use xmqtt.Prelude.{if◌then◌else◌, arith, ◌≡◌, refl, bytes_eq}
use xmqtt.Topics.Level.{swc, mwc, ok, next_topic_level}
use xmqtt.Topics.Level.Accept.{Levels, end, level}
use xmqtt.Topics.Retained.{RNode, RNodes, rnode, no_rnodes, rbranch}
use xmqtt.Topics.Retained.{message_list, all_retained, rmatch, rmatch_each, rmatch_key}

module _ {M : Type 0} where
  -- `rmatch` over the levels of the filter.
  unfoldable mutual
    pub collect : List Bytes → RNode M → List M
    collect [] (rnode m b cs) = message_list m
    collect (l ∷ ls) (rnode m b cs) =
        let every = collect_each ls cs in
        let one = collect_key l ls cs in
        if bytes_eq l mwc
        then all_retained (rnode m b cs)
        else if bytes_eq l swc
        then every
        else one

    pub collect_each : List Bytes → RNodes M → List M
    collect_each ls no_rnodes = []
    collect_each ls (rbranch k n cs) = collect ls n ++ collect_each ls cs

    pub collect_key : Bytes → List Bytes → RNodes M → List M
    collect_key l ls no_rnodes = []
    collect_key l ls (rbranch k n cs) =
        let here = collect ls n in
        let other = collect_key l ls cs in if bytes_eq l k then here else other

  rmatch_nil : (n : RNode M) → rmatch n [] ≡ (collect [] n, none)
  unfolding rmatch collect
  rmatch_nil (rnode m b cs) = refl

  rmatch_level :
      (m : Option M) (b : Bytes) (cs : RNodes M) (c : ℕ) (t l rest : Bytes) (ls : List Bytes)
      → next_topic_level (c ∷ t) ≡ ok (l, rest)
      → rmatch_each cs rest ≡ (collect_each ls cs, none)
      → rmatch_key cs l rest ≡ (collect_key l ls cs, none)
      → rmatch (rnode m b cs) (c ∷ t) ≡ (collect (l ∷ ls) (rnode m b cs), none)
  unfolding rmatch collect
  rmatch_level m b cs c t l rest ls e f g = ground (arith, e, f, g)

  each_nil :
      (ls : List Bytes) (rest : Bytes)
      → rmatch_each {M = M} no_rnodes rest ≡ (collect_each ls no_rnodes, none)
  unfolding rmatch_each collect_each
  each_nil ls rest = refl

  key_nil :
      (l : Bytes) (ls : List Bytes) (rest : Bytes)
      → rmatch_key {M = M} no_rnodes l rest ≡ (collect_key l ls no_rnodes, none)
  unfolding rmatch_key collect_key
  key_nil l ls rest = refl

  each_branch :
      (k : Bytes) (n : RNode M) (cs : RNodes M) (rest : Bytes) (ls : List Bytes)
      → rmatch n rest ≡ (collect ls n, none)
      → rmatch_each cs rest ≡ (collect_each ls cs, none)
      → rmatch_each (rbranch k n cs) rest ≡ (collect_each ls (rbranch k n cs), none)
  unfolding rmatch_each collect_each
  each_branch k n cs rest ls e f = ground (arith, e, f)

  key_branch :
      (k l : Bytes) (n : RNode M) (cs : RNodes M) (rest : Bytes) (ls : List Bytes)
      → rmatch n rest ≡ (collect ls n, none)
      → rmatch_key cs l rest ≡ (collect_key l ls cs, none)
      → rmatch_key (rbranch k n cs) l rest ≡ (collect_key l ls (rbranch k n cs), none)
  unfolding rmatch_key collect_key
  key_branch k l n cs rest ls e f = ground (arith, e, f)

  mutual
    pub rmatch-collect :
        (n : RNode M) (t : Bytes) (ls : List Bytes)
        → Levels t ls
        → rmatch n t ≡ (collect ls n, none)
    rmatch-collect (rnode m b cs) t ls end = rmatch_nil (rnode m b cs)
    rmatch-collect (rnode m b cs) t ls (level c u l rest ks e lv) =
        rmatch_level m b cs c u l rest ks e (each_collect cs rest ks lv)
          (key_collect cs l rest ks lv)

    each_collect :
        (cs : RNodes M) (rest : Bytes) (ls : List Bytes)
        → Levels rest ls
        → rmatch_each cs rest ≡ (collect_each ls cs, none)
    each_collect no_rnodes rest ls lv = each_nil ls rest
    each_collect (rbranch k n cs) rest ls lv =
        each_branch k n cs rest ls (rmatch-collect n rest ls lv) (each_collect cs rest ls lv)

    key_collect :
        (cs : RNodes M) (l rest : Bytes) (ls : List Bytes)
        → Levels rest ls
        → rmatch_key cs l rest ≡ (collect_key l ls cs, none)
    key_collect no_rnodes l rest ls lv = key_nil l ls rest
    key_collect (rbranch k n cs) l rest ls lv =
        key_branch k l n cs rest ls (rmatch-collect n rest ls lv) (key_collect cs l rest ls lv)
