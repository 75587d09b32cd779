-- ===== src/Topics/Retained/Insert.antt =====
-- `rinsert`: the message is kept at its topic's levels, and no other is touched.
use xmqtt.Prelude.{
  ℕ, zero, suc, Bytes, true, Option, none, some, List, [], ◌∷◌, ◌++◌, inl, inr, ◌≤◌,
}
use xmqtt.Prelude.{
  if◌then◌else◌, arith, ◌≡◌, ◌≢◌, refl, length, take, drop, replicate, ◌∙◌, subst, bytes_eq,
  Bool-cases, ap,
}
use xmqtt.Prelude.{bytes_eq_iff, bytes_eq_refl, length-take, length-replicate, ltb}
use xmqtt.Message.{PublishLib}
use xmqtt.Topics.Level.{TopicError, no_fuel, ok, err, next_topic_level}
use xmqtt.Topics.Level.Split.{next_topic_level_shorter, next_topic_level-ne-no_fuel, Result-cases}
use xmqtt.Topics.Level.Accept.{Levels, end, level, Levels-unique}
use xmqtt.Topics.Retained.{
  RNode, RNodes, rnode, put_rnode, room, reused, rnode_or_new, rinsert, store,
}
use xmqtt.Topics.Retained.Paths.{retained_at, retained_at_tail, rnode_or_new-put_rnode}
use xmqtt.Topics.Tree.Paths.{paths_eq}

module _ (lib : PublishLib) where
  open lib use {Publish, topic, payload, len, encode, decode}

  -- What the library promises of a message: a buffer of the message's length is filled, and what was
  -- written into one is read back into any message.
  pub record RoundTrips (msg : Publish) : Type 0 where
    pub encodes : (b : Bytes) → length b ≡ len msg → (encode msg b).1 ≡ true
    pub decodes :
        (m : Publish) (b : Bytes) → length b ≡ len msg → (decode m (encode msg b).0).1 ≡ true
    pub same_topic :
        (m : Publish) (b : Bytes)
        → length b ≡ len msg
        → topic (decode m (encode msg b).0).0 ≡ topic msg
    pub same_payload :
        (m : Publish) (b : Bytes)
        → length b ≡ len msg
        → payload (decode m (encode msg b).0).0 ≡ payload msg

  -- The kept message is a copy with the same topic and payload.
  abbrev pub IsCopy : Publish → Option Publish → Type 0
  IsCopy msg kept =
      (m : Publish) × (kept ≡ some m) × (topic m ≡ topic msg) × (payload m ≡ payload msg)

  -- A copy is kept at one path, and at each other path what was kept before.
  pub record Kept (msg : Publish) (ls : List Bytes) (n n' : RNode Publish) : Type 0 where
    pub here : IsCopy msg (retained_at ls n')
    pub elsewhere :
        (ks : List Bytes)
        → retained_at ks n' ≡ (if paths_eq ks ls then retained_at ls n' else retained_at ks n)

  pub data RetainOutcome (msg : Publish) (n : RNode Publish) (t : Bytes)
      (r : RNode Publish × Option TopicError) : Type 0 where
    failed :
        (e : TopicError)
        → r.1 ≡ some e
        → e ≢ no_fuel
        → ((ks : List Bytes) → retained_at ks r.0 ≡ retained_at ks n)
        → RetainOutcome msg n t r
    kept :
        (ls : List Bytes) → Levels t ls → r.1 ≡ none → Kept msg ls n r.0 → RetainOutcome msg n t r

  length-room : (b : Bytes) (l : ℕ) → length (take l (room lib l b)) ≡ l
  length-room b l = elim (Bool-cases (ltb (length b) l)) [
    | inl e ↦
        let zeros : Bytes = replicate l 0 in
        let full : length zeros ≡ l = length-replicate {A = ℕ} l 0 in
        rw e (omega (arith, length-take l zeros, full))
    | inr e ↦ rw e (ground (arith, length-take l b))
  ]

  -- The copy that `store` keeps.
  copy : Publish → Option Publish → Bytes → Publish
  copy msg m b = (decode (reused lib m) (encode msg (take (len msg) (room lib (len msg) b))).0).0

  store_lem :
      (msg : Publish) (m : Option Publish) (b : Bytes) (cs : RNodes Publish)
      → RoundTrips msg
      → (array : Bytes) × (store lib msg m b cs ≡ (rnode (some (copy msg m b)) array cs, none))
  unfolding store copy
  store_lem msg m b cs rt =
      let buf = room lib (len msg) b in
      let part = take (len msg) buf in
      (
        (encode msg part).0 ++ drop (len msg) buf,
        rw (
          rt.encodes part (length-room b (len msg)),
          rt.decodes (reused lib m) part (length-room b (len msg)),
        ),
      )

  IsCopy-copy :
      (msg : Publish) (m : Option Publish) (b : Bytes)
      → RoundTrips msg
      → IsCopy msg (some (copy msg m b))
  unfolding copy
  IsCopy-copy msg m b rt = (
    _,
    refl,
    rt.same_topic _ _ (length-room b (len msg)),
    rt.same_payload _ _ (length-room b (len msg)),
  )

  Kept-root :
      (msg : Publish) (m : Option Publish) (k : Publish) (b array : Bytes) (cs : RNodes Publish)
      → IsCopy msg (some k)
      → Kept msg [] (rnode m b cs) (rnode (some k) array cs)
  unfolding retained_at paths_eq
  Kept-root msg m k b array cs c = record { here = c; elsewhere = same }
    where
      same :
          (ks : List Bytes)
          → retained_at ks (rnode (some k) array cs)
            ≡ (if paths_eq ks [] then some k else retained_at ks (rnode m b cs))
      same [] = refl
      same (l ∷ ls) = refl

  retained_at_put :
      (l k : Bytes) (ks : List Bytes) (m : Option Publish) (b : Bytes) (cs : RNodes Publish)
      (n : RNode Publish)
      → retained_at (k ∷ ks) (rnode m b (put_rnode l n cs))
        ≡ (if bytes_eq k l then retained_at ks n else retained_at ks (rnode_or_new k cs))
  unfolding retained_at
  retained_at_put l k ks m b cs n = ground (arith, rnode_or_new-put_rnode k l n cs)

  Kept-deeper :
      (msg : Publish) (l : Bytes) (ls : List Bytes) (m : Option Publish) (b : Bytes)
      (cs : RNodes Publish) (n : RNode Publish)
      → Kept msg ls (rnode_or_new l cs) n
      → Kept msg (l ∷ ls) (rnode m b cs) (rnode m b (put_rnode l n cs))
  Kept-deeper msg l ls m b cs n k = record { here = rw own k.here; elsewhere = same }
    where
      own : retained_at (l ∷ ls) (rnode m b (put_rnode l n cs)) ≡ retained_at ls n
      own = retained_at_put l l ls m b cs n ∙ rw (bytes_eq_refl l)

      same :
          (ks : List Bytes)
          → retained_at ks (rnode m b (put_rnode l n cs)) ≡ (
              if paths_eq ks (l ∷ ls)
              then retained_at (l ∷ ls) (rnode m b (put_rnode l n cs))
              else retained_at ks (rnode m b cs))
      same [] = unfold retained_at paths_eq in refl
      same (j ∷ ks) = rw own (
          unfold paths_eq in
          ground (
            arith,
            retained_at_put l j ks m b cs n,
            retained_at_tail j ks m b cs,
            bytes_eq_iff j l,
            k.elsewhere ks,
          ))

  rinsert_step :
      (fuel : ℕ) (msg : Publish) (m : Option Publish) (b : Bytes) (cs : RNodes Publish) (c : ℕ)
      (t l rest : Bytes)
      → next_topic_level (c ∷ t) ≡ ok (l, rest)
      → rinsert lib (suc fuel) msg (rnode m b cs) (c ∷ t) ≡ (
          let (n, e) = rinsert lib fuel msg (rnode_or_new l cs) rest in
          (rnode m b (put_rnode l n cs), e))
  unfolding rinsert
  rinsert_step fuel msg m b cs c t l rest e = rw (e, rinsert)

  RetainOutcome-deeper :
      (msg : Publish) (m : Option Publish) (b : Bytes) (cs : RNodes Publish) (c : ℕ)
      (t l rest : Bytes) (r : RNode Publish × Option TopicError)
      → next_topic_level (c ∷ t) ≡ ok (l, rest)
      → RetainOutcome msg (rnode_or_new l cs) rest r
      → RetainOutcome msg (rnode m b cs) (c ∷ t) (rnode m b (put_rnode l r.0 cs), r.1)
  RetainOutcome-deeper msg m b cs c t l rest r e (failed x k f s) = failed x k f same
    where
      same :
          (ks : List Bytes)
          → retained_at ks (rnode m b (put_rnode l r.0 cs)) ≡ retained_at ks (rnode m b cs)
      same [] = unfold retained_at in refl
      same (j ∷ ks) = ground (
        arith,
        retained_at_put l j ks m b cs r.0,
        retained_at_tail j ks m b cs,
        bytes_eq_iff j l,
        s ks,
      )
  RetainOutcome-deeper msg m b cs c t l rest r e (kept ls lv k s) =
      kept (l ∷ ls) (level c t l rest ls e lv) k (Kept-deeper msg l ls m b cs r.0 s)

  RetainOutcome-here :
      (fuel : ℕ) (msg : Publish) (m : Option Publish) (b : Bytes) (cs : RNodes Publish)
      → RoundTrips msg
      → RetainOutcome msg (rnode m b cs) [] (rinsert lib fuel msg (rnode m b cs) [])
  unfolding rinsert
  RetainOutcome-here fuel msg m b cs rt =
      let (array, e) = store_lem msg m b cs rt in
      rw e (kept [] end refl (Kept-root msg m (copy msg m b) b array cs (IsCopy-copy msg m b rt)))

  pub rinsert_outcome :
      (fuel : ℕ) (msg : Publish) (n : RNode Publish) (t : Bytes)
      → RoundTrips msg
      → length t ≤ fuel
      → RetainOutcome msg n t (rinsert lib fuel msg n t)
  rinsert_outcome fuel msg (rnode m b cs) [] rt lt = RetainOutcome-here fuel msg m b cs rt
  rinsert_outcome zero msg n (c ∷ t) rt lt = absurd (omega arith)
  rinsert_outcome (suc fuel) msg (rnode m b cs) (c ∷ t) rt lt =
      elim (Result-cases (next_topic_level (c ∷ t))) [
        | inr (x, e) ↦
            unfold rinsert in
            rw (e, rinsert)
              (failed x refl (λ f. next_topic_level-ne-no_fuel (c ∷ t) (e ∙ ap err f)) (λ ks. refl))
        | inl ((l, rest), e) ↦ rw (rinsert_step fuel msg m b cs c t l rest e) (
            RetainOutcome-deeper msg m b cs c t l rest _ e (
              rinsert_outcome fuel msg (rnode_or_new l cs) rest rt
                (omega (arith, next_topic_level_shorter c t l rest e))))
      ]

  store_ends :
      (fuel : ℕ) (msg : Publish) (m : Option Publish) (b : Bytes) (cs : RNodes Publish)
      → RoundTrips msg
      → (rinsert lib fuel msg (rnode m b cs) []).1 ≡ none
  unfolding rinsert
  store_ends fuel msg m b cs rt = let (array, e) = store_lem msg m b cs rt in ap (λ r. r.1) e

  rinsert_ends :
      (fuel : ℕ) (msg : Publish) (n : RNode Publish) (t : Bytes) (ls : List Bytes)
      → RoundTrips msg
      → Levels t ls
      → length t ≤ fuel
      → (rinsert lib fuel msg n t).1 ≡ none
  rinsert_ends fuel msg (rnode m b cs) t ls rt end lt = store_ends fuel msg m b cs rt
  rinsert_ends zero msg n t ls rt (level c u l rest ks e lv) lt = absurd (omega arith)
  rinsert_ends (suc fuel) msg (rnode m b cs) t ls rt (level c u l rest ks e lv) lt =
      ap (λ r. r.1) (rinsert_step fuel msg m b cs c u l rest e)
      ∙ rinsert_ends fuel msg (rnode_or_new l cs) rest ks rt lv
          (omega (arith, next_topic_level_shorter c u l rest e))

  -- At a topic whose levels are legal `rinsert` succeeds and keeps a copy there.
  pub rinsert-Levels :
      (fuel : ℕ) (msg : Publish) (n : RNode Publish) (t : Bytes) (ls : List Bytes)
      → RoundTrips msg
      → Levels t ls
      → length t ≤ fuel
      → ((rinsert lib fuel msg n t).1 ≡ none) × Kept msg ls n (rinsert lib fuel msg n t).0
  rinsert-Levels fuel msg n t ls rt lv lt =
      let good = rinsert_ends fuel msg n t ls rt lv lt in
      (
        good,
        elim (rinsert_outcome fuel msg n t rt lt) [
          | failed x k _ _ ↦ absurd (cc)
          | kept js lv' _ k ↦
              subst (λ x. Kept msg x n (rinsert lib fuel msg n t).0) (Levels-unique t js ls lv' lv)
                k
        ],
      )
