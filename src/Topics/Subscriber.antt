-- ===== src/Topics/Subscriber.antt =====
-- `equal` of topics/memtopics.go, and what a node of the subscription tree holds: `matchQos` and
-- the leaf branches of `sinsert` and `sremove`.
pub mod Laws
use xmqtt.Prelude.{ℕ, zero, suc, Bytes, Bool, true, false, Option, none, some, List, [], ◌∷◌, ◌++◌}
use xmqtt.Prelude.{
  ◌==◌, leb, ltb, if◌then◌else◌, ◌&&◌, length, take, drop, set, get_or, ◌+◌, bytes_eq,
}
use xmqtt.Prelude.{find_key, put_key, delete_key}

-- A value in an interface: nil, or a dynamic type with a content; function values stand apart.
pub data Subscriber : Type 0 where
  nil : Subscriber
  value : ℕ → ℕ → Subscriber
  func : ℕ → ℕ → Subscriber

-- Two function values are never equal: the code compares the addresses of its two parameters.
-- The type switch below `k1 == k2` compares the same contents once more.
unfoldable pub equal : Subscriber → Subscriber → Bool
equal nil nil = true
equal (value t x) (value u y) = t == u && x == y
equal _ _ = false

-- The subs, qos and groupSubs fields of `snode`. A map is a list of its entries, in the order in
-- which a `range` visits them.
pub record Holdings : Type 0 where
  pub subs : List Subscriber
  pub qos : List ℕ
  pub groups : List (Bytes × List Subscriber)

abbrev pub no_holdings : Holdings
no_holdings = record { subs = []; qos = []; groups = [] }

pub index_of : Subscriber → List Subscriber → Option ℕ
index_of sub [] = none
index_of sub (s ∷ ss) =
    let later = elim (index_of sub ss) as (λ _. Option ℕ) [ none ↦ none | some i ↦ some (suc i) ] in
    if equal s sub then some zero else later

abbrev delete_at {ℓ} : {A : Type ℓ} → ℕ → List A → List A
delete_at i xs = take i xs ++ drop (i + 1) xs

members : Bytes → List (Bytes × List Subscriber) → List Subscriber
unfolding find_key
members g m = elim (find_key g m) [ none ↦ [] | some ss ↦ ss ]

-- `sinsert` at the last level.
pub insert_here : Bytes → ℕ → Subscriber → Holdings → Holdings
unfolding put_key members
insert_here group q sub h =
    if bytes_eq group []
    then elim (index_of sub h.subs) [
      | some i ↦ record h { qos = set h.qos i q }
      | none ↦ record h { subs = h.subs ++ (sub ∷ []); qos = h.qos ++ (q ∷ []) }
    ]
    else record h { groups = put_key group (members group h.groups ++ (sub ∷ [])) h.groups }

abbrev pub is_nil : Subscriber → Bool
is_nil nil = true
is_nil _ = false

remove_member : Bytes → Subscriber → Holdings → List Subscriber → Option Holdings
unfolding put_key delete_key
remove_member group sub h gsubs = elim (index_of sub gsubs) [
  | none ↦ none
  | some i ↦
      let temp = delete_at i gsubs in
      some (record h {
        groups =
            if ltb 0 (length temp) then put_key group temp h.groups else delete_key group h.groups;
      })
]

-- `sremove` at the last level; `none` is the error "No topic found for subscriber".
pub remove_here : Bytes → Subscriber → Holdings → Option Holdings
unfolding find_key remove_member
remove_here group sub h =
    if is_nil sub
    then some no_holdings
    else if bytes_eq group []
    then elim (index_of sub h.subs) [
      | none ↦ none
      | some i ↦ some (record h { subs = delete_at i h.subs; qos = delete_at i h.qos })
    ]
    else elim (find_key group h.groups) [
      | none ↦ none
      | some gsubs ↦ remove_member group sub h gsubs
    ]

-- An element of the two result slices, which grow together.
abbrev pub Delivery : Type 0
Delivery = Subscriber × ℕ

-- The first loop of `matchQos`. Where `qos` is shorter than `subs` the code panics.
unfoldable pub match_subs : ℕ → List Subscriber → List ℕ → List Delivery
match_subs q [] gs = []
match_subs q (s ∷ ss) [] = []
match_subs q (s ∷ ss) (g ∷ gs) = (if leb q g then (s, q) else (s, g)) ∷ match_subs q ss gs

-- `pick` stands for `rand.Intn`: the index that is drawn for a group with these members.
module _ (pick : Bytes → List Subscriber → ℕ) where
  unfoldable pub match_groups : List (Bytes × List Subscriber) → List Delivery
  match_groups [] = []
  match_groups ((g, ss) ∷ m) =
      (if length ss == 1 then get_or ss 0 nil else get_or ss (pick g ss) nil, 1) ∷ match_groups m

  unfoldable pub match_qos : ℕ → Holdings → List Delivery
  unfolding match_subs match_groups
  match_qos q h = match_subs q h.subs h.qos ++ match_groups h.groups
