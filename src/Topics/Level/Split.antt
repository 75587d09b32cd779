-- ===== src/Topics/Level/Split.antt =====
-- Where `nextTopicLevel` cuts a topic.
use xmqtt.Prelude.{ℕ, Bytes, ◌≡◌, ◌≢◌, ◌⊎◌, inl, inr, refl, [], ◌∷◌, ◌++◌, arith, All, ◌<◌}
use xmqtt.Prelude.{append-nil, append_assoc, length, length-append, Bool, sym, subst}
use xmqtt.Prelude.{ap, ◌∙◌, if◌then◌else◌}
use xmqtt.Topics.Level.{Result, ok, err, next_topic_level, level_loop, judge, swc, LevelState, chr}
use xmqtt.Topics.Level.{Verdict, fail, separator, next, is_empty, TopicError, no_fuel, Result}

abbrev pub NoSlash : Bytes → Type 0
NoSlash bs = All (λ c. c ≢ b'/') bs

NoSlash-snoc : (bs : Bytes) (c : ℕ) → NoSlash bs → c ≢ b'/' → NoSlash (bs ++ (c ∷ []))
NoSlash-snoc [] c h n = (n, tt)
NoSlash-snoc (b ∷ bs) c h n = (h.0, NoSlash-snoc bs c h.1 n)

-- How a level and what follows it make up the topic: the topic is the level alone; the topic begins
-- with the separator, and the level is read as "+"; or a separator stands behind the level.
pub data Cut (topic level rest : Bytes) : Type 0 where
  whole : topic ≡ level → rest ≡ [] → NoSlash level → Cut topic level rest
  leading : topic ≡ b'/' ∷ rest → level ≡ swc → Cut topic level rest
  inner : topic ≡ level ++ (b'/' ∷ rest) → level ≢ [] → NoSlash level → Cut topic level rest

judge_next : (s s' : LevelState) (first : Bool) (c : ℕ) → judge s first c ≡ next s' → c ≢ b'/'
unfolding judge
judge_next s s' first c e = ground arith

judge_separator : (s : LevelState) (first : Bool) (c : ℕ) → judge s first c ≡ separator → c ≡ b'/'
unfolding judge
judge_separator s first c e = ground arith

pub Verdict-cases :
    (v : Verdict)
    → ((e : TopicError) × (v ≡ fail e)) ⊎ (v ≡ separator) ⊎ ((s : LevelState) × (v ≡ next s))
Verdict-cases (fail e) = inl (e, refl)
Verdict-cases separator = inr (inl refl)
Verdict-cases (next s) = inr (inr (s, refl))

-- One round of the loop, by its verdict.
module _ (s : LevelState) (before : Bytes) (c : ℕ) (rest : Bytes) where
  pub level_loop-fail :
      {e : TopicError}
      → judge s (is_empty before) c ≡ fail e
      → level_loop s before (c ∷ rest) ≡ err e
  unfolding level_loop
  level_loop-fail h = rw (h, level_loop)

  pub level_loop-separator :
      judge s (is_empty before) c ≡ separator
      → level_loop s before (c ∷ rest) ≡ ok (if is_empty before then swc else before, rest)
  unfolding level_loop
  level_loop-separator h = rw (h, level_loop)

  pub level_loop-next :
      {s' : LevelState}
      → judge s (is_empty before) c ≡ next s'
      → level_loop s before (c ∷ rest) ≡ level_loop s' (before ++ (c ∷ [])) rest
  unfolding level_loop
  level_loop-next h = rw (h, level_loop)

Cut-at_separator :
    (before rest l r : Bytes)
    → NoSlash before
    → ◌≡◌ {A = Result (Bytes × Bytes)}
        (ok (if is_empty before then swc else before, rest))
        (ok (l, r))
    → Cut (before ++ (b'/' ∷ rest)) l r
Cut-at_separator [] rest l r n e = leading (cc) (cc)
Cut-at_separator (b ∷ bs) rest l r n e =
    let p : (b ∷ bs) ≡ l = cc in
    let q : rest ≡ r = cc in inner (rw (← p, ← q)) (λ z. cc) (subst NoSlash p n)

level_loop-Cut :
    (ts : Bytes) (s : LevelState) (before l r : Bytes)
    → NoSlash before
    → level_loop s before ts ≡ ok (l, r)
    → Cut (before ++ ts) l r
level_loop-Cut [] s before l r n e =
    let p : before ≡ l = unfold level_loop in cc in
    let q : r ≡ [] = unfold level_loop in cc in whole (rw append-nil p) q (subst NoSlash p n)
level_loop-Cut (c ∷ ts) s before l r n e = elim (Verdict-cases (judge s (is_empty before) c)) [
  | inl (x, h) ↦ absurd (cc (level_loop-fail s before c ts h))
  | inr (inl h) ↦
      rw (judge_separator s _ c h)
        (Cut-at_separator before ts l r n (sym (level_loop-separator s before c ts h) ∙ e))
  | inr (inr (s', h)) ↦
      subst (λ t. Cut t l r) (append_assoc before (c ∷ []) ts)
        (level_loop-Cut ts s' (before ++ (c ∷ [])) l r
          (NoSlash-snoc before c n (judge_next s s' _ c h))
          (sym (level_loop-next s before c ts h) ∙ e))
]

-- Whatever level `nextTopicLevel` returns, level and rest make up the topic: nothing is lost but
-- the separator, and the level holds none. Only before a leading separator is the level "+",
-- which does not stand in the topic.
pub next_topic_level-Cut :
    (topic level rest : Bytes) → next_topic_level topic ≡ ok (level, rest) → Cut topic level rest
unfolding next_topic_level
next_topic_level-Cut topic level rest e = level_loop-Cut topic chr [] level rest tt e

Cut-shorter :
    (c : ℕ) (topic level rest : Bytes)
    → Cut (c ∷ topic) level rest
    → length rest < length (c ∷ topic)
Cut-shorter c topic level rest (whole e f _) = rw f (omega arith)
Cut-shorter c topic level rest (leading e _) = omega (arith, ap length e)
Cut-shorter c topic level rest (inner e _ _) =
    omega (arith, ap length e, length-append level (b'/' ∷ rest))

-- The rest is shorter than the topic.
pub next_topic_level_shorter :
    (c : ℕ) (topic level rest : Bytes)
    → next_topic_level (c ∷ topic) ≡ ok (level, rest)
    → length rest < length (c ∷ topic)
next_topic_level_shorter c topic level rest e =
    Cut-shorter c topic level rest (next_topic_level-Cut (c ∷ topic) level rest e)

judge-ne-no_fuel : (s : LevelState) (first : Bool) (c : ℕ) → judge s first c ≢ fail no_fuel
unfolding judge
judge-ne-no_fuel s first c = ground arith

level_loop-ne-no_fuel :
    (ts : Bytes) (s : LevelState) (before : Bytes) → level_loop s before ts ≢ err no_fuel
level_loop-ne-no_fuel [] s before e = unfold level_loop in cc
level_loop-ne-no_fuel (c ∷ ts) s before e = elim (Verdict-cases (judge s (is_empty before) c)) [
  | inl (x, h) ↦
      judge-ne-no_fuel s (is_empty before) c
        (h ∙ ap fail (let z : x ≡ no_fuel = cc (level_loop-fail s before c ts h) in z))
  | inr (inl h) ↦ cc (level_loop-separator s before c ts h)
  | inr (inr (s', h)) ↦
      level_loop-ne-no_fuel ts s' (before ++ (c ∷ [])) (cc (level_loop-next s before c ts h))
]

pub next_topic_level-ne-no_fuel : (topic : Bytes) → next_topic_level topic ≢ err no_fuel
unfolding next_topic_level
next_topic_level-ne-no_fuel topic = level_loop-ne-no_fuel topic chr []

pub Result-cases {ℓ} :
    {A : Type ℓ} (r : Result A) → ((a : A) × (r ≡ ok a)) ⊎ ((e : TopicError) × (r ≡ err e))
Result-cases (ok a) = inl (a, refl)
Result-cases (err e) = inr (e, refl)
