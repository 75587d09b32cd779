-- ===== src/Service/Connection.antt =====
-- `connectivityStateManager` of service/connection.go.
mod Tests
use xmqtt.Prelude.{
  ℕ, Bool, true, false, Option, none, some, List, [], ◌∷◌, ◌≡◌, refl, ap, ◌∙◌, arith,
}
use xmqtt.Prelude.{
  if◌then◌else◌, ◌==◌, ltb, ◌&&◌, ◌||◌, not, ◌+◌, ◌<◌, All, if_both, Bool-cases, inl, inr,
}

-- A `State` is an int; the code's are Idle, Connecting, Ready, TransientFailure and Shutdown, from 0.
abbrev pub shutdown : ℕ
shutdown = 4

-- Channels are numbered as they are made, `made` of them so far; `closed` lists those that were closed.
pub record StateManager : Type 0 where
  pub state : ℕ
  pub notify_chan : Option ℕ
  pub made : ℕ
  pub closed : List ℕ

abbrev pub new_manager : StateManager
new_manager = record { state = 0; notify_chan = none; made = 0; closed = [] }

unfoldable pub update_state : ℕ → StateManager → StateManager
update_state s m =
    if m.state == shutdown then m else if m.state == s then m else elim m.notify_chan [
      | none ↦ record m { state = s }
      | some c ↦ record m { state = s; notify_chan = none; closed = c ∷ m.closed }
    ]

unfoldable pub get_notify_chan : StateManager → StateManager × ℕ
get_notify_chan m = elim m.notify_chan [
  | some c ↦ (m, c)
  | none ↦ (record m { notify_chan = some m.made; made = m.made + 1 }, m.made)
]

-- The calls that goroutines make on one manager, in any order; each holds its lock throughout.
pub data Call : Type 0 where
  update : ℕ → Call
  watch : Call

unfoldable pub call : Call → StateManager → StateManager
unfolding update_state get_notify_chan
call (update s) m = update_state s m
call watch m = (get_notify_chan m).0

unfoldable pub calls : List Call → StateManager → StateManager
unfolding call
calls [] m = m
calls (c ∷ cs) m = calls cs (call c m)

unfoldable pub is_in : ℕ → List ℕ → Bool
is_in c [] = false
is_in c (d ∷ ds) = c == d || is_in c ds

-- Whether a call asks for another state than `s`.
unfoldable pub asks_other : ℕ → List Call → Bool
asks_other s [] = false
asks_other s (watch ∷ cs) = asks_other s cs
asks_other s (update t ∷ cs) = not (s == t) || asks_other s cs

abbrev Watched : Option ℕ → List ℕ → ℕ → Type 0
Watched none ds n = Unit {0}
Watched (some c) ds n = (is_in c ds ≡ false) × (c < n)

abbrev Below : ℕ → List ℕ → Type 0
Below n ds = All (λ d. d < n) ds

-- The channel that is watched is open, and channels are numbered below `made`.
record IsSound (m : StateManager) : Type 0 where
  pub watched : Watched m.notify_chan m.closed m.made
  pub numbered : Below m.made m.closed

Below-is_in : (n : ℕ) (ds : List ℕ) → Below n ds → is_in n ds ≡ false
unfolding is_in
Below-is_in n [] h = refl
Below-is_in n (d ∷ ds) h = ground (arith, h.0, Below-is_in n ds h.1)

Below-mono : (n : ℕ) (ds : List ℕ) → Below n ds → Below (n + 1) ds
Below-mono n [] h = tt
Below-mono n (d ∷ ds) h = (omega (arith, h.0), Below-mono n ds h.1)

-- What `update` and `watch` make of the manager's fields.
update-IsSound :
    (s t : ℕ) (o : Option ℕ) (n : ℕ) (ds : List ℕ)
    → Watched o ds n
    → Below n ds
    → IsSound (update_state s (record { state = t; notify_chan = o; made = n; closed = ds }))
unfolding update_state
update-IsSound s t none n ds w b =
    if_both IsSound (t == shutdown) keep
      (if_both IsSound (t == s) keep (record { watched = tt; numbered = b }))
  where
    keep : IsSound (record { state = t; notify_chan = none; made = n; closed = ds })
    keep = record { watched = tt; numbered = b }
update-IsSound s t (some c) n ds w b =
    if_both IsSound (t == shutdown) keep
      (if_both IsSound (t == s) keep (record { watched = tt; numbered = (w.1, b) }))
  where
    keep : IsSound (record { state = t; notify_chan = some c; made = n; closed = ds })
    keep = record { watched = w; numbered = b }

watch-IsSound :
    (t : ℕ) (o : Option ℕ) (n : ℕ) (ds : List ℕ)
    → Watched o ds n
    → Below n ds
    → IsSound (get_notify_chan (record { state = t; notify_chan = o; made = n; closed = ds })).0
unfolding get_notify_chan
watch-IsSound t none n ds w b = record {
  watched = (Below-is_in n ds b, omega arith);
  numbered = Below-mono n ds b;
}
watch-IsSound t (some c) n ds w b = record { watched = w; numbered = b }

calls-IsSound : (cs : List Call) (m : StateManager) → IsSound m → IsSound (calls cs m)
unfolding calls call
calls-IsSound [] m w = w
calls-IsSound (update s ∷ cs) m w =
    calls-IsSound cs _ (update-IsSound s m.state m.notify_chan m.made m.closed w.watched w.numbered)
calls-IsSound (watch ∷ cs) m w =
    calls-IsSound cs _ (watch-IsSound m.state m.notify_chan m.made m.closed w.watched w.numbered)

-- A closed channel stays closed.
stays_closed :
    (d : ℕ) (cs : List Call) (m : StateManager)
    → is_in d m.closed ≡ true
    → is_in d (calls cs m).closed ≡ true
unfolding calls call update_state get_notify_chan is_in
stays_closed d [] m e = e
stays_closed d (update s ∷ cs) m e = stays_closed d cs _ (ground (arith, e))
stays_closed d (watch ∷ cs) m e = stays_closed d cs _ (ground (arith, e))

-- What becomes of a channel that is watched.
fate :
    (d : ℕ) (cs : List Call) (m : StateManager)
    → m.notify_chan ≡ some d
    → is_in d m.closed ≡ false
    → is_in d (calls cs m).closed ≡ (not (m.state == shutdown) && asks_other m.state cs)
unfolding calls call update_state get_notify_chan is_in asks_other
fate d [] m n e = ground (arith, e)
fate d (watch ∷ cs) m n e =
    fate d cs _ (ground (arith, n)) (ground (arith, n, e)) ∙ ground (arith, n)
fate d (update s ∷ cs) m n e = elim (Bool-cases (not (m.state == shutdown) && not (m.state == s))) [
  | inl p ↦ stays_closed d cs _ (ground (arith, n, p)) ∙ ground (arith, p)
  | inr p ↦ fate d cs _ (ground (arith, n, p)) (ground (arith, n, p, e)) ∙ ground (arith, n, p)
]

-- A manager that a channel was just taken from.
handed_out :
    (t : ℕ) (o : Option ℕ) (n : ℕ) (ds : List ℕ)
    → Watched o ds n
    → Below n ds
    → let (m, c) = get_notify_chan (record { state = t; notify_chan = o; made = n; closed = ds }) in
      (m.notify_chan ≡ some c) × (is_in c m.closed ≡ false)
unfolding get_notify_chan
handed_out t none n ds w b = (refl, Below-is_in n ds b)
handed_out t (some c) n ds w b = (refl, w.0)

new-IsSound : IsSound new_manager
new-IsSound = record { watched = tt; numbered = tt }

-- A channel that `getNotifyChan` hands out, whatever was called on the manager before, is closed by
-- later calls exactly if the manager was not shut down then and one of them asks for another state
-- than it had.
pub get_notify_chan-calls :
    (before after : List Call)
    → let (m, c) = get_notify_chan (calls before new_manager) in
      is_in c (calls after m).closed ≡ (not (m.state == shutdown) && asks_other m.state after)
get_notify_chan-calls before after =
    let b = calls before new_manager in
    let sound = calls-IsSound before new_manager new-IsSound in
    let out = handed_out b.state b.notify_chan b.made b.closed sound.watched sound.numbered in
    fate (get_notify_chan b).1 after (get_notify_chan b).0 out.0 out.1
