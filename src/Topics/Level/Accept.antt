-- ===== src/Topics/Level/Accept.antt =====
-- Which topics `nextTopicLevel` takes apart, and into which levels.
use xmqtt.Prelude.{ℕ, Bytes, ◌≡◌, ◌≢◌, ◌⊎◌, inl, inr, refl, List, [], ◌∷◌, ◌++◌, arith, All}
use xmqtt.Prelude.{append-nil, append_assoc, Bool, true, false, ◌==◌, if◌then◌else◌, ◌∙◌}
use xmqtt.Prelude.{subst, sym}
use xmqtt.Topics.Level.{ok, next_topic_level, level_loop, judge, swc, mwc}
use xmqtt.Topics.Level.{LevelState, chr, mwc_seen, swc_seen, sys}
use xmqtt.Topics.Level.{separator, next, is_wildcard}
use xmqtt.Topics.Level.Split.{level_loop-separator, level_loop-next}
use xmqtt.Topics.Level.Legal.{IsOrdinary, IsPlain}

-- What may stand behind a level, with the rest that it leaves.
pub data End : Bytes → Bytes → Type 0 where
  nothing : End [] []
  more : (rest : Bytes) → End (b'/' ∷ rest) rest

judge_ordinary :
    (s : LevelState) (c : ℕ)
    → is_wildcard s ≡ false
    → IsOrdinary c
    → (s' : LevelState) × (judge s false c ≡ next s') × (is_wildcard s' ≡ false)
unfolding judge
judge_ordinary s c w o = (if c == b'$' then sys else chr, ground arith, ground arith)

judge_slash : (s : LevelState) (first : Bool) → s ≢ mwc_seen → judge s first b'/' ≡ separator
unfolding judge
judge_slash s first n = ground arith

judge_first_plain : (c : ℕ) → c ≢ b'$' → IsOrdinary c → judge chr true c ≡ next chr
unfolding judge
judge_first_plain c d o = ground arith

-- From a state that holds no wildcard the loop takes ordinary bytes up to the end of the level.
word_loop :
    (cs : Bytes) (s : LevelState) (b : ℕ) (bs : Bytes) {tail rest : Bytes}
    → is_wildcard s ≡ false
    → All IsOrdinary cs
    → End tail rest
    → level_loop s (b ∷ bs) (cs ++ tail) ≡ ok ((b ∷ bs) ++ cs, rest)
word_loop [] s b bs w o nothing = unfold level_loop in rw append-nil
word_loop [] s b bs w o (more rest) =
    level_loop-separator s (b ∷ bs) _ rest (judge_slash s false (λ e. cc)) ∙ rw append-nil
word_loop (c ∷ cs) s b bs {tail} w o e =
    let (s', h, w') = judge_ordinary s c w o.0 in
    level_loop-next s (b ∷ bs) c (cs ++ tail) h
    ∙ word_loop cs s' b (bs ++ (c ∷ [])) w' o.1 e
    ∙ rw append_assoc

plain_level :
    (l : Bytes) {tail rest : Bytes}
    → IsPlain l
    → End tail rest
    → next_topic_level (l ++ tail) ≡ ok (l, rest)
unfolding next_topic_level
plain_level [] h e = absurd h
plain_level (c ∷ cs) {tail} h e =
    level_loop-next chr [] c (cs ++ tail) (judge_first_plain c h.0 h.1)
    ∙ word_loop cs chr c [] refl h.2 e

single_level : {tail rest : Bytes} → End tail rest → next_topic_level (swc ++ tail) ≡ ok (swc, rest)
unfolding next_topic_level level_loop judge
single_level nothing = refl
single_level (more rest) = refl

multi_level : next_topic_level mwc ≡ ok (mwc, [])
unfolding next_topic_level level_loop judge
multi_level = refl

-- The levels that repeated calls of `nextTopicLevel` take off a topic.
pub data Levels : Bytes → List Bytes → Type 0 where
  end : Levels [] []
  level :
      (c : ℕ) (topic l rest : Bytes) (ls : List Bytes)
      → next_topic_level (c ∷ topic) ≡ ok (l, rest)
      → Levels rest ls
      → Levels (c ∷ topic) (l ∷ ls)

pub Levels-unique : (t : Bytes) (ls ks : List Bytes) → Levels t ls → Levels t ks → ls ≡ ks
Levels-unique t ls ks end end = refl
Levels-unique t ls ks (level c u l r js e h) (level _ _ l' r' js' e' h') =
    let p : l ≡ l' = cc in
    let q : r ≡ r' = cc in
    let z : js ≡ js' = Levels-unique r js js' h (subst (λ x. Levels x js') (sym q) h') in cc

-- Levels with a separator between any two.
unfoldable pub join : List Bytes → Bytes
join [] = []
join (l ∷ []) = l
join (l ∷ (k ∷ ls)) = l ++ (b'/' ∷ join (k ∷ ls))

-- A filter's levels: plain ones and "+", and "#" only at the end.
abbrev pub IsFilter : List Bytes → Type 0
IsFilter [] = Unit {0}
IsFilter (l ∷ []) = IsPlain l ⊎ (l ≡ swc) ⊎ (l ≡ mwc)
IsFilter (l ∷ (k ∷ ls)) = (IsPlain l ⊎ (l ≡ swc)) × IsFilter (k ∷ ls)

Levels-cons :
    (topic l rest : Bytes) (ls : List Bytes)
    → topic ≢ []
    → next_topic_level topic ≡ ok (l, rest)
    → Levels rest ls
    → Levels topic (l ∷ ls)
Levels-cons [] l rest ls n e h = absurd (n refl)
Levels-cons (c ∷ topic) l rest ls n e h = level c topic l rest ls e h

IsPlain-ne-nil : (l tail : Bytes) → IsPlain l → l ++ tail ≢ []
IsPlain-ne-nil [] tail h e = absurd h
IsPlain-ne-nil (c ∷ l) tail h e = cc

Levels-last : (l : Bytes) → IsPlain l ⊎ (l ≡ swc) ⊎ (l ≡ mwc) → Levels l (l ∷ [])
Levels-last l (inl h) =
    Levels-cons l l [] [] (rw append-nil at (IsPlain-ne-nil l [] h))
      (rw append-nil at (plain_level l h nothing)) end
Levels-last l (inr (inl h)) = rw h (Levels-cons swc swc [] [] (λ e. cc) (single_level nothing) end)
Levels-last l (inr (inr h)) = rw h (Levels-cons mwc mwc [] [] (λ e. cc) multi_level end)

Levels-more :
    (l rest : Bytes) (ls : List Bytes)
    → IsPlain l ⊎ (l ≡ swc)
    → Levels rest ls
    → Levels (l ++ (b'/' ∷ rest)) (l ∷ ls)
Levels-more l rest ls (inl h) k =
    Levels-cons _ l rest ls (IsPlain-ne-nil l (b'/' ∷ rest) h) (plain_level l h (more rest)) k
Levels-more l rest ls (inr h) k =
    rw h (Levels-cons (swc ++ (b'/' ∷ rest)) swc rest ls (λ e. cc) (single_level (more rest)) k)

-- Every filter of legal levels, written with separators, is taken apart into those levels again,
-- by as many calls of `nextTopicLevel` as it has levels.
pub Levels-join : (ls : List Bytes) → IsFilter ls → Levels (join ls) ls
unfolding join
Levels-join [] h = end
Levels-join (l ∷ []) h = Levels-last l h
Levels-join (l ∷ (k ∷ ls)) h = Levels-more l (join (k ∷ ls)) (k ∷ ls) h.0 (Levels-join (k ∷ ls) h.1)

judge_dollar : (s : LevelState) → judge s false b'$' ≡ next sys
unfolding judge
judge_dollar s = ground arith

-- A '$' behind a wildcard hides it: a level that begins with '#' or '+', goes on with '$' and ends
-- with ordinary bytes is accepted, also before a separator.
pub next_topic_level_dollar :
    (w : ℕ) (cs rest : Bytes)
    → (w ≡ b'#') ⊎ (w ≡ b'+')
    → All IsOrdinary cs
    → next_topic_level (w ∷ (b'$' ∷ (cs ++ (b'/' ∷ rest)))) ≡ ok (w ∷ (b'$' ∷ cs), rest)
unfolding next_topic_level judge
next_topic_level_dollar w cs rest h o =
    first h
    ∙ level_loop-next _ (w ∷ []) b'$' (cs ++ (b'/' ∷ rest))
        (judge_dollar (if w == b'#' then mwc_seen else swc_seen))
    ∙ word_loop cs sys w (b'$' ∷ []) refl o (more rest)
  where
    first :
        (w ≡ b'#') ⊎ (w ≡ b'+')
        → level_loop chr [] (w ∷ (b'$' ∷ (cs ++ (b'/' ∷ rest))))
          ≡ level_loop
              (if w == b'#' then mwc_seen else swc_seen)
              (w ∷ [])
              (b'$' ∷ (cs ++ (b'/' ∷ rest)))
    first k = level_loop-next chr [] w _ (ground arith)
