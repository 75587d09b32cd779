-- ===== src/Topics/Level.antt =====
-- `nextTopicLevel` and `getGroupName` of topics/memtopics.go.
-- A topic is a list of bytes.
pub mod Split
pub mod Legal
pub mod Accept
use xmqtt.Prelude.{ℕ, Bytes, Bool, true, false, Option, none, some, List, [], ◌∷◌, ◌++◌}
use xmqtt.Prelude.{◌==◌, if◌then◌else◌, length, take, drop, bytes_eq}

-- The errors of the package. `nil_root` stands for the panic of a call after `Close`, and
-- `no_fuel` is no Go value: a model's recursion ran out of fuel.
pub data TopicError : Type 0 where
  invalid_qos nil_subscriber no_subscriber no_topic codec_failed : TopicError
  mwc_not_last hash_not_whole plus_not_whole dollar_first wildcard_not_whole : TopicError
  nil_root no_fuel : TopicError

pub data Result {ℓ} (A : Type ℓ) : Type ℓ where
  ok : A → Result A
  err : TopicError → Result A

-- "+", "#" and the bytes that the scanner looks for.
abbrev pub swc : Bytes
swc = b'+' ∷ []

abbrev pub mwc : Bytes
mwc = b'#' ∷ []

-- stateCHR, stateMWC, stateSWC and stateSYS; stateSEP is never assigned.
pub data LevelState : Type 0 where
  chr mwc_seen swc_seen sys : LevelState

abbrev is_mwc : LevelState → Bool
is_mwc mwc_seen = true
is_mwc _ = false

abbrev is_wildcard : LevelState → Bool
is_wildcard mwc_seen = true
is_wildcard swc_seen = true
is_wildcard _ = false

-- What one round of the loop does with its byte.
pub data Verdict : Type 0 where
  fail : TopicError → Verdict
  separator : Verdict
  next : LevelState → Verdict

-- The `switch c`; `first` is `i == 0`.
unfoldable pub judge : LevelState → Bool → ℕ → Verdict
judge s first c =
    if c == b'/'
    then (if is_mwc s then fail mwc_not_last else separator)
    else if c == b'#'
    then (if first then next mwc_seen else fail hash_not_whole)
    else if c == b'+'
    then (if first then next swc_seen else fail plus_not_whole)
    else if c == b'$'
    then (if first then fail dollar_first else next sys)
    else if is_wildcard s
    then fail wildcard_not_whole
    else next chr

abbrev is_empty : Bytes → Bool
is_empty [] = true
is_empty (b ∷ bs) = false

-- The loop: `before` is topic[:i], the list is topic[i:].
unfoldable pub level_loop : LevelState → Bytes → Bytes → Result (Bytes × Bytes)
level_loop s before [] = ok (before, [])
level_loop s before (c ∷ rest) = elim (judge s (is_empty before) c) [
  | fail e ↦ err e
  | separator ↦ ok (if is_empty before then swc else before, rest)
  | next s' ↦ level_loop s' (before ++ (c ∷ [])) rest
]

unfoldable pub next_topic_level : Bytes → Result (Bytes × Bytes)
next_topic_level topic = level_loop chr [] topic

-- GroupPrefix, "$group/".
abbrev pub group_prefix : Bytes
group_prefix = b'$' ∷ b'g' ∷ b'r' ∷ b'o' ∷ b'u' ∷ b'p' ∷ b'/' ∷ []

-- strings.HasPrefix, with what follows the prefix.
strip_prefix : Bytes → Bytes → Option Bytes
strip_prefix [] t = some t
strip_prefix (p ∷ ps) [] = none
strip_prefix (p ∷ ps) (c ∷ cs) = if p == c then strip_prefix ps cs else none

-- strings.Index(s, "/"): topic[:idx] and topic[idx:].
split_slash : Bytes → Option (Bytes × Bytes)
split_slash [] = none
split_slash (c ∷ cs) =
    if c == b'/'
    then some ([], c ∷ cs)
    else elim (split_slash cs) [ none ↦ none | some (a, b) ↦ some (c ∷ a, b) ]

-- The group's name, empty for none, and the topic to subscribe to.
unfoldable pub get_group_name : Bytes → Bytes × Bytes
unfolding strip_prefix split_slash
get_group_name topic = elim (strip_prefix group_prefix topic) [
  | none ↦ ([], topic)
  | some sub_topic ↦ elim (split_slash sub_topic) [
    | none ↦ ([], topic)
    | some (name, rest) ↦ (name, rest)
  ]
]
