-- ===== src/Sessions/AckQueue/Cleared.antt =====
-- A tick of `Clear` on a queue in order.
use xmqtt.Prelude.{ℕ, suc, true, false, List, [], ◌∷◌}
use xmqtt.Prelude.{◌≡◌, refl, ap, sym, ◌∙◌, arith, inl, inr, length, ◌+◌, ltb}
use xmqtt.Prelude.{done, Bool-cases, if◌then◌else◌}
use xmqtt.Sessions.AckQueue.{AckMsg, AckQueue}
use xmqtt.Sessions.AckQueue.Methods.{drop_head, clear_tick}
use xmqtt.Sessions.AckQueue.Order.{Holds, behind_head, behind_head-Holds, head-stands}

-- What is left of the messages that wait when those of more than five seconds leave from the front.
unfoldable pub unexpired : ℕ → List AckMsg → List AckMsg
unexpired now [] = []
unexpired now (m ∷ ms) =
    let rest = unexpired now ms in if ltb (m.timestamp + 5) now then rest else m ∷ ms

drop_head-Holds :
    (q : AckQueue) (m : AckMsg) (ms : List AckMsg) → Holds q (m ∷ ms) → Holds (drop_head m q) ms
unfolding drop_head behind_head
drop_head-Holds q m ms w =
    let v = behind_head-Holds q m ms w in
    record {
      bits = v.bits;
      power = v.power;
      masked = v.masked;
      sized = v.sized;
      inside = v.inside;
      counted = v.counted;
      fits = v.fits;
      ends = v.ends;
      stands = v.stands;
    }

clear_tick-stop :
    (fuel now : ℕ) (q : AckQueue) (m : AckMsg) (ms : List AckMsg)
    → Holds q (m ∷ ms)
    → ltb (m.timestamp + 5) now ≡ false
    → clear_tick (suc fuel) now q ≡ done q
unfolding clear_tick
clear_tick-stop fuel now q m ms w e = ground (arith, head-stands q m ms w, e)

clear_tick-step :
    (fuel now : ℕ) (q : AckQueue) (m : AckMsg) (ms : List AckMsg)
    → Holds q (m ∷ ms)
    → ltb (m.timestamp + 5) now ≡ true
    → clear_tick (suc fuel) now q ≡ clear_tick fuel now (drop_head m q)
unfolding clear_tick
clear_tick-step fuel now q m ms w e =
    ground (arith, head-stands q m ms w, e, w.counted, w.sized, w.inside)

-- At a tick, with the number of messages that wait as fuel, `Clear` does not panic: the messages at
-- the front that are older than five seconds leave, and all from the first younger one on wait as
-- they did.
pub clear_tick-Holds :
    (now : ℕ) (ms : List AckMsg) (q : AckQueue)
    → Holds q ms
    → (q' : AckQueue) × (clear_tick q.count now q ≡ done q') × Holds q' (unexpired now ms)
unfolding clear_tick unexpired
clear_tick-Holds now ms q w =
    let (r, runs, left) = go ms q w in
    (r, ap (λ n. clear_tick n now q) (sym w.counted) ∙ runs, left)
  where
    go :
        (ms : List AckMsg) (q : AckQueue)
        → Holds q ms
        → (q' : AckQueue) × (clear_tick (length ms) now q ≡ done q') × Holds q' (unexpired now ms)
    go [] q w = (q, refl, w)
    go (m ∷ ms) q w = elim (Bool-cases (ltb (m.timestamp + 5) now)) [
      | inl e ↦
          let (r, runs, left) = go ms (drop_head m q) (drop_head-Holds q m ms w) in
          (r, clear_tick-step (length ms) now q m ms w e ∙ runs, rw e left)
      | inr e ↦ (q, clear_tick-stop (length ms) now q m ms w e, rw e w)
    ]
