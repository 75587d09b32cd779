-- ===== src/Service/Server/Listen.antt =====
-- The listeners: `listenAndServe` of service/server.go and its two siblings of service/tls.go. What the
-- listener's `Accept` returns, one call after the other, is a list; after its end the call still waits.
use xmqtt.Prelude.{
  ℕ, zero, suc, Bool, true, false, Option, none, some, List, [], ◌∷◌, ◌≡◌, refl, ap, arith,
}
use xmqtt.Prelude.{
  sym, ◌+◌, All, ◌≤◌, get_elem?, length, take, subst, not, ◌==◌, ltb, if◌then◌else◌, ◌*◌, ◌^◌, min,
}
use native.Mathlib.Nat.{pow-suc, one-le-pow}

-- A connection, an error that calls itself temporary, or another one. Both are named by numbers.
pub data Accept : Type 0 where
  connection : ℕ → Accept
  temporary : Accept
  broken : ℕ → Accept

-- What the loop does: it sleeps for some milliseconds, or starts `handleConnection`.
pub data Act : Type 0 where
  sleeps : ℕ → Act
  handles : ℕ → Act

-- `tempDelay` after a temporary error.
unfoldable pub back_off : ℕ → ℕ
back_off delay =
    let longer = if delay == 0 then 5 else delay * 2 in if ltb 1000 longer then 1000 else longer

-- The loop from a `tempDelay` on: what it does, and the error that ends it.
unfoldable pub accept_loop : ℕ → List Accept → List Act × Option ℕ
unfolding back_off
accept_loop delay [] = ([], none)
accept_loop delay (connection c ∷ xs) =
    let (acts, e) = accept_loop delay xs in (handles c ∷ acts, e)
accept_loop delay (temporary ∷ xs) =
    let (acts, e) = accept_loop (back_off delay) xs in (sleeps (back_off delay) ∷ acts, e)
accept_loop delay (broken e ∷ xs) = ([], some e)

-- The loop of `listenAndServeTLS`, which goes on after every error and never returns.
unfoldable pub accept_loop_tls : List Accept → List Act
accept_loop_tls [] = []
accept_loop_tls (connection c ∷ xs) = handles c ∷ accept_loop_tls xs
accept_loop_tls (temporary ∷ xs) = accept_loop_tls xs
accept_loop_tls (broken e ∷ xs) = accept_loop_tls xs

-- How a call of `listenAndServe` is left: refused since another one runs, failed before the loop, ended
-- by an error of `Accept`, or still in the loop.
pub data Listening : Type 0 where
  already_running : Listening
  unprepared : Listening
  ended : ℕ → Listening
  accepting : Listening

-- `atomic.CompareAndSwapInt32`: the value after it, and whether it was swapped.
abbrev pub compare_and_swap : ℕ → ℕ → ℕ → ℕ × Bool
compare_and_swap old new v = if v == old then (new, true) else (v, false)

-- A call, with the flag `running` before it and after it. `ready` says whether the address is parsed
-- and listened on. The deferred swap is made whenever the call returns, also where it is refused.
abbrev pub listen_and_serve : Bool → List Accept → ℕ → ℕ × List Act × Listening
listen_and_serve ready xs running =
    let (flag, swapped) = compare_and_swap 0 1 running in
    let (returned, _) = compare_and_swap 1 0 flag in
    if not swapped
    then (returned, [], already_running)
    else if not ready
    then (returned, [], unprepared)
    else (let (acts, o) = accept_loop 0 xs in
        elim o [ some e ↦ (returned, acts, ended e) | none ↦ (flag, acts, accepting) ])

-- Temporary errors.
abbrev pub failures : List Accept → ℕ
failures [] = 0
failures (temporary ∷ xs) = suc (failures xs)
failures (_ ∷ xs) = failures xs

abbrev pub is_broken : Accept → Bool
is_broken (broken e) = true
is_broken _ = false

-- The `n`-th delay, from 1 on: twice as long each time, up to a second; none before the first error.
abbrev pub delay_at : ℕ → ℕ
delay_at zero = 0
delay_at (suc n) = min (5 * 2 ^ n) 1000

-- What the loop does about the answer that `Accept` gives after `k` others, `n` of them temporary
-- errors: its act after `k` others, or its end.
abbrev pub Answers : ℕ → Accept → ℕ → List Act × Option ℕ → Type 0
Answers n (connection c) k (acts, e) = get_elem? acts k ≡ some (handles c)
Answers n temporary k (acts, e) = get_elem? acts k ≡ some (sleeps (delay_at (suc n)))
Answers n (broken x) k (acts, e) = (length acts ≡ k) × (e ≡ some x)

back_off-delay_at : (n : ℕ) → back_off (delay_at n) ≡ delay_at (suc n)
unfolding back_off
back_off-delay_at zero = refl
back_off-delay_at (suc n) = ground (arith, pow-suc 2 n, one-le-pow n 2 (omega arith))

Answers-first :
    (n : ℕ) (a : Accept) (xs : List Accept) → Answers n a 0 (accept_loop (delay_at n) (a ∷ xs))
unfolding accept_loop
Answers-first n (connection c) xs = refl
Answers-first n temporary xs = ap (λ d. some (sleeps d)) (back_off-delay_at n)
Answers-first n (broken e) xs = (refl, refl)

Answers-later :
    (n : ℕ) (a : Accept) (k : ℕ) (act : Act) (r : List Act × Option ℕ)
    → Answers n a k r
    → Answers n a (suc k) (act ∷ r.0, r.1)
Answers-later n (connection c) k act r h = h
Answers-later n temporary k act r h = h
Answers-later n (broken e) k act r (l, h) = (omega (arith, l), h)

accept_loop-Answers :
    (n : ℕ) (xs : List Accept) (k : ℕ) (a : Accept)
    → get_elem? xs k ≡ some a
    → All (λ x. is_broken x ≡ false) (take k xs)
    → Answers (n + failures (take k xs)) a k (accept_loop (delay_at n) xs)
unfolding accept_loop
accept_loop-Answers n [] k a e h = absurd (ground (arith, e))
accept_loop-Answers n (x ∷ xs) zero a e h =
    subst (λ y. Answers (n + 0) y 0 (accept_loop (delay_at n) (x ∷ xs))) (ground (arith, e))
      (subst (λ m. Answers m x 0 (accept_loop (delay_at n) (x ∷ xs))) (omega arith)
        (Answers-first n x xs))
accept_loop-Answers n (connection c ∷ xs) (suc k) a e (f, h) =
    Answers-later (n + failures (take k xs)) a k (handles c) (accept_loop (delay_at n) xs)
      (accept_loop-Answers n xs k a e h)
accept_loop-Answers n (temporary ∷ xs) (suc k) a e (f, h) =
    Answers-later (n + suc (failures (take k xs))) a k (sleeps (back_off (delay_at n)))
      (accept_loop (back_off (delay_at n)) xs)
      (subst (λ d. Answers (n + suc (failures (take k xs))) a k (accept_loop d xs))
        (sym (back_off-delay_at n))
        (subst (λ m. Answers m a k (accept_loop (delay_at (suc n)) xs)) (omega arith)
          (accept_loop-Answers (suc n) xs k a e h)))
accept_loop-Answers n (broken x ∷ xs) (suc k) a e (f, h) = absurd (ground (arith, f))

length-accept_loop : (delay : ℕ) (xs : List Accept) → length (accept_loop delay xs).0 ≤ length xs
unfolding accept_loop
length-accept_loop delay [] = omega arith
length-accept_loop delay (connection c ∷ xs) = omega (arith, length-accept_loop delay xs)
length-accept_loop delay (temporary ∷ xs) = omega (arith, length-accept_loop (back_off delay) xs)
length-accept_loop delay (broken e ∷ xs) = omega arith

-- What the loop of `listenAndServe` does follows what `Accept` returns, one by one and in order, up to
-- the first error that is not temporary: it starts `handleConnection` for a connection; after a
-- temporary error it sleeps, 5 milliseconds after the first one since the loop began and twice as long
-- each time, up to a second, also where connections came in between; and with an error that is not
-- temporary it ends and returns that error. It does nothing else.
pub accept_loop_lem :
    (xs : List Accept) (k : ℕ) (a : Accept)
    → get_elem? xs k ≡ some a
    → All (λ x. is_broken x ≡ false) (take k xs)
    → Answers (failures (take k xs)) a k (accept_loop 0 xs)
      × (length (accept_loop 0 xs).0 ≤ length xs)
accept_loop_lem xs k a e h = (
  subst (λ m. Answers m a k (accept_loop 0 xs)) (omega arith) (accept_loop-Answers 0 xs k a e h),
  length-accept_loop 0 xs,
)
