-- ===== src/Sessions/AckQueue/Places.antt =====
-- The map `emap` of a queue in order: where the message with a packet identifier stands.
use xmqtt.Prelude.{ℕ, suc, true, false, Option, none, some, List, [], ◌∷◌, ◌++◌, ◌==◌}
use xmqtt.Prelude.{◌≡◌, ◌≢◌, refl, ap, subst, sym, ◌∙◌, arith, length, if◌then◌else◌}
use xmqtt.Prelude.{◌+◌, ◌%◌, inl, inr, Bool-cases, ==_iff}
use xmqtt.Sessions.AckQueue.{AckMsg, AckQueue, BytesPool, find_id, put_id, delete_id}
use xmqtt.Sessions.AckQueue.Order.{Holds, behind_head, increment-place}
use xmqtt.Sessions.AckQueue.Enqueued.{at_tail}

-- The laws of a map with numbers for keys.
pub find_id-put_id :
    (p k i : ℕ) (m : List (ℕ × ℕ))
    → find_id p (put_id k i m) ≡ (if p == k then some i else find_id p m)
unfolding find_id put_id
find_id-put_id p k i [] = refl
find_id-put_id p k i ((j, v) ∷ m) = ground (arith, find_id-put_id p k i m)

pub find_id-delete_id :
    (p k : ℕ) (m : List (ℕ × ℕ))
    → find_id p (delete_id k m) ≡ (if p == k then none else find_id p m)
unfolding find_id delete_id
find_id-delete_id p k [] = ground arith
find_id-delete_id p k ((j, v) ∷ m) = ground (arith, find_id-delete_id p k m)

-- How far from the head a message stands.
abbrev pub shift : (ℕ → ℕ) → Option ℕ → Option ℕ
shift f none = none
shift f (some j) = some (f j)

unfoldable pub spot : ℕ → List AckMsg → Option ℕ
spot p [] = none
spot p (m ∷ ms) = let later = shift suc (spot p ms) in if p == m.pktid then some 0 else later

-- No two messages have one packet identifier.
abbrev pub Distinct : List AckMsg → Type 0
Distinct [] = Unit {0}
Distinct (m ∷ ms) = (spot m.pktid ms ≡ none) × Distinct ms

abbrev pub place : AckQueue → ℕ → ℕ
place q j = (q.head + j) % q.size

-- `emap` finds exactly the messages that wait, at their places.
pub record Tracks (q : AckQueue) (ms : List AckMsg) : Type 0 where
  pub found : (p : ℕ) → find_id p q.emap ≡ shift (place q) (spot p ms)
  pub distinct : Distinct ms

shift-shift : (f g : ℕ → ℕ) (o : Option ℕ) → shift f (shift g o) ≡ shift (λ j. f (g j)) o
shift-shift f g none = refl
shift-shift f g (some j) = refl

shift-ext : (f g : ℕ → ℕ) (o : Option ℕ) → ((j : ℕ) → f j ≡ g j) → shift f o ≡ shift g o
shift-ext f g none h = refl
shift-ext f g (some j) h = ap some (h j)

spot-tail :
    (p : ℕ) (n : AckMsg) (ms : List AckMsg)
    → spot p (n ∷ ms) ≡ none
    → (p ≢ n.pktid) × (spot p ms ≡ none)
unfolding spot
spot-tail p n ms h = ground arith

spot-snoc :
    (p : ℕ) (ms : List AckMsg) (m : AckMsg)
    → spot m.pktid ms ≡ none
    → spot p (ms ++ (m ∷ [])) ≡ (if p == m.pktid then some (length ms) else spot p ms)
unfolding spot
spot-snoc p [] m h = refl
spot-snoc p (n ∷ ms) m h =
    let (other, later) = spot-tail m.pktid n ms h in ground (arith, spot-snoc p ms m later, other)

Distinct-snoc :
    (ms : List AckMsg) (m : AckMsg)
    → Distinct ms
    → spot m.pktid ms ≡ none
    → Distinct (ms ++ (m ∷ []))
unfolding spot
Distinct-snoc [] m d h = (refl, tt)
Distinct-snoc (n ∷ ms) m d h =
    let (other, later) = spot-tail m.pktid n ms h in
    (ground (arith, spot-snoc n.pktid ms m later, other, d.0), Distinct-snoc ms m d.1 later)

-- What `emap` does not find does not wait.
pub spot-none :
    (p : ℕ) (q : AckQueue) (ms : List AckMsg)
    → Tracks q ms
    → find_id p q.emap ≡ none
    → spot p ms ≡ none
spot-none p q ms t e = nothing (spot p ms) (sym (t.found p) ∙ e)
  where
    nothing : (o : Option ℕ) → shift (place q) o ≡ none → o ≡ none
    nothing none h = refl
    nothing (some j) h = cc

pub at_tail-Tracks :
    (q : AckQueue) (ms : List AckMsg) (m : AckMsg) (rest : BytesPool)
    → Holds q ms
    → Tracks q ms
    → find_id m.pktid q.emap ≡ none
    → Tracks (at_tail m m.pktid rest q) (ms ++ (m ∷ []))
unfolding at_tail
at_tail-Tracks q ms m rest w t fresh =
    let none_yet = spot-none m.pktid q ms t fresh in
    record {
      found = λ p. ground (
        arith,
        find_id-put_id p m.pktid q.tail q.emap,
        spot-snoc p ms m none_yet,
        t.found p,
        last,
      );
      distinct = Distinct-snoc ms m t.distinct none_yet;
    }
  where
    last : q.tail ≡ place q (length ms)
    last = w.ends ∙ ap (λ c. (q.head + c) % q.size) (sym w.counted)

pub behind_head-Tracks :
    (q : AckQueue) (m : AckMsg) (ms : List AckMsg)
    → Holds q (m ∷ ms)
    → Tracks q (m ∷ ms)
    → Tracks (behind_head m q) ms
unfolding behind_head spot
behind_head-Tracks q m ms w t = record { found = found; distinct = t.distinct.1 }
  where
    later :
        (p : ℕ)
        → shift (place q) (shift suc (spot p ms)) ≡ shift (place (behind_head m q)) (spot p ms)
    later p =
        shift-shift (place q) suc (spot p ms)
        ∙ shift-ext (λ j. place q (suc j)) (place (behind_head m q)) (spot p ms)
            (λ j. sym (increment-place q (m ∷ ms) w j))

    gone : (p : ℕ) → (p == m.pktid) ≡ true → spot p ms ≡ none
    gone p e = subst (λ k. spot k ms ≡ none) (sym ((==_iff p m.pktid).0 e)) t.distinct.0

    behind :
        (p : ℕ)
        → (p == m.pktid) ≡ false
        → shift (place q) (spot p (m ∷ ms)) ≡ shift (place q) (shift suc (spot p ms))
    behind p e = rw e refl

    found : (p : ℕ) → find_id p (behind_head m q).emap ≡ shift (place (behind_head m q)) (spot p ms)
    found p = elim (Bool-cases (p == m.pktid)) [
      | inl e ↦ rw (find_id-delete_id p m.pktid q.emap, e, gone p e) refl
      | inr e ↦ rw (find_id-delete_id p m.pktid q.emap, e) (t.found p ∙ behind p e ∙ later p)
    ]
