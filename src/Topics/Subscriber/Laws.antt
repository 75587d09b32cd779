-- ===== src/Topics/Subscriber/Laws.antt =====
-- The slices of a node keep one length, and a subscriber that is added is found.
use xmqtt.Prelude.{ℕ, zero, suc, Bytes, true, some, List, [], ◌∷◌, ◌++◌}
use xmqtt.Prelude.{leb, if◌then◌else◌, length, set, arith, ◌≡◌, refl, Within, min, ◌<◌, inl, inr}
use xmqtt.Prelude.{
  length-append, length-set, length-take, length-drop, Option-cases, take, drop, ◌+◌,
}
use xmqtt.Prelude.{Within-append_left, Bool-cases, bytes_eq, sym, get_elem?}
use xmqtt.Topics.Subscriber.{Subscriber, nil, value, func, equal, Holdings, index_of, insert_here}
use xmqtt.Topics.Subscriber.{remove_here, remove_member, Delivery, match_subs, match_qos, delete_at}

-- The invariant of a node: `subs` and `qos` run together.
abbrev pub Paired : Holdings → Type 0
Paired h = length h.subs ≡ length h.qos

pub equal→eq : (k j : Subscriber) → equal k j ≡ true → k ≡ j
unfolding equal
equal→eq nil nil e = refl
equal→eq nil (value t x) e = cc
equal→eq nil (func t x) e = cc
equal→eq (value t x) nil e = cc
equal→eq (value t x) (value u y) e = ground arith
equal→eq (value t x) (func u y) e = cc
equal→eq (func t x) nil e = cc
equal→eq (func t x) (value u y) e = cc
equal→eq (func t x) (func u y) e = cc

pub index_of-lt :
    (sub : Subscriber) (ss : List Subscriber) (i : ℕ) → index_of sub ss ≡ some i → i < length ss
unfolding index_of
index_of-lt sub [] i e = cc
index_of-lt sub (s ∷ ss) i e = elim (Option-cases (index_of sub ss)) [
  | inl h ↦ ground arith
  | inr (j, h) ↦ ground (arith, index_of-lt sub ss j h)
]

length-delete_at {ℓ} :
    {A : Type ℓ} (i : ℕ) (xs : List A) → i < length xs → length (delete_at i xs) + 1 ≡ length xs
length-delete_at i xs h =
    omega
      (arith, length-append (take i xs) (drop (i + 1) xs), length-take i xs, length-drop (i + 1) xs)

pub insert_here-Paired :
    (group : Bytes) (q : ℕ) (sub : Subscriber) (h : Holdings)
    → Paired h
    → Paired (insert_here group q sub h)
unfolding insert_here
insert_here-Paired group q sub h p = elim (Option-cases (index_of sub h.subs)) [
  | inl e ↦ ground (arith, length-append h.subs (sub ∷ []), length-append h.qos (q ∷ []))
  | inr (i, e) ↦ ground (arith, length-set h.qos i q)
]

pub remove_here-Paired :
    (group : Bytes) (sub : Subscriber) (h h' : Holdings)
    → Paired h
    → remove_here group sub h ≡ some h'
    → Paired h'
unfolding remove_here remove_member
remove_here-Paired group sub h h' p e = elim (Option-cases (index_of sub h.subs)) [
  | inl k ↦ ground arith
  | inr (i, k) ↦
      let lt = index_of-lt sub h.subs i k in
      ground (arith, length-delete_at i h.subs lt, length-delete_at i h.qos (omega arith))
]

index_of-get_elem? :
    (sub : Subscriber) (ss : List Subscriber) (i : ℕ)
    → index_of sub ss ≡ some i
    → get_elem? ss i ≡ some sub
unfolding index_of
index_of-get_elem? sub [] i e = cc
index_of-get_elem? sub (s ∷ ss) zero e = elim (Bool-cases (equal s sub)) [
  | inl h ↦ cc (equal→eq s sub h)
  | inr h ↦ ground arith
]
index_of-get_elem? sub (s ∷ ss) (suc i) e = elim (Option-cases (index_of sub ss)) [
  | inl h ↦ ground arith
  | inr (j, h) ↦ ground (arith, index_of-get_elem? sub ss j h)
]

grant :
    (q g : ℕ) (s : Subscriber)
    → ◌≡◌ {A = Delivery} (if leb q g then (s, q) else (s, g)) (s, min q g)
grant q g s = ground arith

match_subs-set :
    (q g : ℕ) (sub : Subscriber) (ss : List Subscriber) (gs : List ℕ) (i : ℕ)
    → get_elem? ss i ≡ some sub
    → length ss ≡ length gs
    → Within (sub, min q g) (match_subs q ss (set gs i g))
unfolding match_subs
match_subs-set q g sub [] gs i e p = cc
match_subs-set q g sub (s ∷ ss) [] i e p = absurd (omega arith)
match_subs-set q g sub (s ∷ ss) (k ∷ gs) zero e p =
    let h : s ≡ sub = cc in inl (rw h (sym (grant q g sub)))
match_subs-set q g sub (s ∷ ss) (k ∷ gs) (suc i) e p =
    inr (match_subs-set q g sub ss gs i e (omega arith))

match_subs_snoc :
    (q g : ℕ) (sub : Subscriber) (ss : List Subscriber) (gs : List ℕ)
    → length ss ≡ length gs
    → Within (sub, min q g) (match_subs q (ss ++ (sub ∷ [])) (gs ++ (g ∷ [])))
unfolding match_subs
match_subs_snoc q g sub [] [] p = inl (sym (grant q g sub))
match_subs_snoc q g sub [] (k ∷ gs) p = absurd (omega arith)
match_subs_snoc q g sub (s ∷ ss) [] p = absurd (omega arith)
match_subs_snoc q g sub (s ∷ ss) (k ∷ gs) p = inr (match_subs_snoc q g sub ss gs (omega arith))

-- Once added to no group, a subscriber is delivered to, with the lower of the two QoS.
pub insert_here_delivers :
    (pick : Bytes → List Subscriber → ℕ) (q g : ℕ) (sub : Subscriber) (h : Holdings)
    → Paired h
    → Within (sub, min q g) (match_qos pick q (insert_here [] g sub h))
unfolding insert_here match_qos bytes_eq
insert_here_delivers pick q g sub h p = elim (Option-cases (index_of sub h.subs)) [
  | inl e ↦ rw e (Within-append_left _ _ _ (match_subs_snoc q g sub h.subs h.qos p))
  | inr (i, e) ↦ rw e (
      Within-append_left _ _ _
        (match_subs-set q g sub h.subs h.qos i (index_of-get_elem? sub h.subs i e) p))
]
