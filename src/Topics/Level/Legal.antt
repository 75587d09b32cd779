-- ===== src/Topics/Level/Legal.antt =====
-- Which levels `nextTopicLevel` accepts.
use xmqtt.Prelude.{ℕ, Bytes, ◌≡◌, ◌≢◌, ◌⊎◌, inl, inr, refl, [], ◌∷◌, ◌++◌, arith, All, sym, ◌∙◌}
use xmqtt.Prelude.{append-nil, append_assoc, true, false, subst, if◌then◌else◌}
use xmqtt.Topics.Level.{Result, ok, next_topic_level, level_loop, judge, swc, mwc}
use xmqtt.Topics.Level.{LevelState, chr, mwc_seen, swc_seen}
use xmqtt.Topics.Level.{separator, next, is_empty}
use xmqtt.Topics.Level.Split.{Verdict-cases, level_loop-fail, level_loop-separator, level_loop-next}

-- A byte that the scanner gives no meaning.
abbrev pub IsOrdinary : ℕ → Type 0
IsOrdinary c = (c ≢ b'/') × (c ≢ b'#') × (c ≢ b'+')

-- A level that is no wildcard: it is not empty, and does not begin with '$'.
abbrev pub IsPlain : Bytes → Type 0
IsPlain [] = ⊥
IsPlain (c ∷ cs) = (c ≢ b'$') × IsOrdinary c × All IsOrdinary cs

-- A level and what stands behind it in the topic.
pub data Legal (level rest : Bytes) : Type 0 where
  plain : IsPlain level → Legal level rest
  single : level ≡ swc → Legal level rest
  multi : level ≡ mwc → rest ≡ [] → Legal level rest

abbrev pub NoDollar : Bytes → Type 0
NoDollar bs = All (λ c. c ≢ b'$') bs

-- What the loop has read when it is in a state.
data Scanned : LevelState → Bytes → Type 0 where
  start : Scanned chr []
  hash : Scanned mwc_seen mwc
  plus : Scanned swc_seen swc
  word : (c : ℕ) (cs : Bytes) → IsPlain (c ∷ cs) → Scanned chr (c ∷ cs)

All-snoc : (cs : Bytes) (c : ℕ) → All IsOrdinary cs → IsOrdinary c → All IsOrdinary (cs ++ (c ∷ []))
All-snoc [] c h o = (o, tt)
All-snoc (b ∷ bs) c h o = (h.0, All-snoc bs c h.1 o)

judge_word :
    (s' : LevelState) (c : ℕ) → judge chr false c ≡ next s' → c ≢ b'$' → IsOrdinary c × (s' ≡ chr)
unfolding judge
judge_word s' c e d = ground arith

judge_first :
    (s' : LevelState) (c : ℕ)
    → judge chr true c ≡ next s'
    → ((c ≡ b'#') × (s' ≡ mwc_seen))
      ⊎ ((c ≡ b'+') × (s' ≡ swc_seen))
      ⊎ ((c ≢ b'$') × IsOrdinary c × (s' ≡ chr))
unfolding judge
judge_first s' c e = ground arith

judge_stuck :
    (s' : LevelState) (c : ℕ)
    → c ≢ b'$'
    → (judge mwc_seen false c ≢ next s') × (judge swc_seen false c ≢ next s')
unfolding judge
judge_stuck s' c d = ground arith

judge_hash : (c : ℕ) → judge mwc_seen false c ≢ separator
unfolding judge
judge_hash c = ground arith

Scanned-next :
    (s s' : LevelState) (before : Bytes) (c : ℕ)
    → Scanned s before
    → c ≢ b'$'
    → judge s (is_empty before) c ≡ next s'
    → Scanned s' (before ++ (c ∷ []))
Scanned-next s s' before c start d e = elim (judge_first s' c e) [
  | inl (h, k) ↦ rw (h, k) hash
  | inr (inl (h, k)) ↦ rw (h, k) plus
  | inr (inr (n, o, k)) ↦ rw k (word c [] (n, o, tt))
]
Scanned-next s s' before c hash d e = absurd ((judge_stuck s' c d).0 e)
Scanned-next s s' before c plus d e = absurd ((judge_stuck s' c d).1 e)
Scanned-next s s' before c (word b bs (n, o, h)) d e =
    let (p, k) = judge_word s' c e d in rw k (word b (bs ++ (c ∷ [])) (n, o, All-snoc bs c h p))

Scanned-separator :
    (s : LevelState) (before : Bytes) (c : ℕ) (rest : Bytes)
    → Scanned s before
    → judge s (is_empty before) c ≡ separator
    → Legal (if is_empty before then swc else before) rest
Scanned-separator s before c rest start e = single refl
Scanned-separator s before c rest hash e = absurd (judge_hash c e)
Scanned-separator s before c rest plus e = single refl
Scanned-separator s before c rest (word b bs h) e = plain h

Scanned-end : (s : LevelState) (before : Bytes) → Scanned s before → before ≢ [] → Legal before []
Scanned-end s before start n = absurd (n refl)
Scanned-end s before hash n = multi refl refl
Scanned-end s before plus n = single refl
Scanned-end s before (word b bs h) n = plain h

snoc-ne-nil : (bs : Bytes) (c : ℕ) (cs : Bytes) → bs ++ (c ∷ cs) ≢ []
snoc-ne-nil [] c cs e = cc
snoc-ne-nil (b ∷ bs) c cs e = cc

ok_parts :
    {l r l' r' : Bytes}
    → ◌≡◌ {A = Result (Bytes × Bytes)} (ok (l, r)) (ok (l', r'))
    → (l ≡ l') × (r ≡ r')
ok_parts e = (cc, cc)

level_loop-Legal :
    (ts : Bytes) (s : LevelState) (before l r : Bytes)
    → NoDollar ts
    → before ++ ts ≢ []
    → Scanned s before
    → level_loop s before ts ≡ ok (l, r)
    → Legal l r
level_loop-Legal [] s before l r d n sc e =
    let (p, q) = ok_parts {l = before} {r = []} {l' = l} {r' = r} (unfold level_loop in e) in
    subst (λ x. Legal x r) p
      (subst (λ x. Legal before x) q (Scanned-end s before sc (rw append-nil at n)))
level_loop-Legal (c ∷ ts) s before l r d n sc e =
    elim (Verdict-cases (judge s (is_empty before) c)) [
      | inl (x, h) ↦ absurd (cc (level_loop-fail s before c ts h))
      | inr (inl h) ↦
          let (p, q) = ok_parts (sym (level_loop-separator s before c ts h) ∙ e) in
          subst (λ x. Legal x r) p
            (subst (λ x. Legal (if is_empty before then swc else before) x) q
              (Scanned-separator s before c ts sc h))
      | inr (inr (s', h)) ↦
          level_loop-Legal ts s' (before ++ (c ∷ [])) l r d.1
            (rw append_assoc (snoc-ne-nil before c ts)) (Scanned-next s s' before c sc d.0 h)
            (sym (level_loop-next s before c ts h) ∙ e)
    ]

-- From a topic that is not empty and holds no '$', `nextTopicLevel` returns only legal levels: a
-- plain one, "+", or "#" with nothing behind it.
pub next_topic_level-Legal :
    (topic level rest : Bytes)
    → NoDollar topic
    → topic ≢ []
    → next_topic_level topic ≡ ok (level, rest)
    → Legal level rest
unfolding next_topic_level
next_topic_level-Legal topic level rest d n e = level_loop-Legal topic chr [] level rest d n start e
