-- ===== src/Sessions/AckQueue/Finished.antt =====
-- `Acked` on a queue in order.
use xmqtt.Prelude.{ℕ, suc, true, false, Option, none, some, List, [], ◌∷◌, ◌++◌}
use xmqtt.Prelude.{◌≡◌, refl, ap, sym, ◌∙◌, arith, inl, inr, length, append-nil, append_assoc}
use xmqtt.Prelude.{Outcome, done, Bool-cases, if◌then◌else◌}
use xmqtt.Sessions.AckQueue.{AckMsg, AckQueue, no_ackmsg}
use xmqtt.Sessions.AckQueue.Methods.{acked_loop, is_acked, is_pingresp, acked, collect_ping}
use xmqtt.Sessions.AckQueue.Order.{
  Holds, behind_head, behind_head-Holds, head-stands, remove_head-Holds,
}

-- The longest prefix of acknowledged messages, and what is left.
unfoldable pub finished : List AckMsg → List AckMsg
finished [] = []
finished (m ∷ ms) = let rest = finished ms in if is_acked m.state then m ∷ rest else []

unfoldable pub unfinished : List AckMsg → List AckMsg
unfinished [] = []
unfinished (m ∷ ms) = let rest = unfinished ms in if is_acked m.state then rest else m ∷ ms

-- The ping that waits, if it is answered.
unfoldable pub answered : Option AckMsg → List AckMsg
answered none = []
answered (some p) = if is_pingresp p.state then p ∷ [] else []

abbrev noted : Option AckMsg → List AckMsg → AckQueue → AckQueue
noted p d q = record q { ping = p; ackdone = d }

noted-Holds :
    (q : AckQueue) (ms : List AckMsg) (p : Option AckMsg) (d : List AckMsg)
    → Holds q ms
    → Holds (noted p d q) ms
noted-Holds q ms p d w = record {
  bits = w.bits;
  power = w.power;
  masked = w.masked;
  sized = w.sized;
  inside = w.inside;
  counted = w.counted;
  fits = w.fits;
  ends = w.ends;
  stands = w.stands;
}

-- What `Acked` promises: it ends, returns the messages `out`, and `left` waits after it.
abbrev Ends : Outcome AckQueue → List AckMsg → List AckMsg → Type 0
Ends r out left = (q : AckQueue) × (r ≡ done q) × (q.ackdone ≡ out) × Holds q left

acked_loop-stop :
    (fuel : ℕ) (q : AckQueue) (m : AckMsg) (ms : List AckMsg)
    → Holds q (m ∷ ms)
    → is_acked m.state ≡ false
    → acked_loop (suc fuel) q ≡ done q
unfolding acked_loop
acked_loop-stop fuel q m ms w e = ground (arith, head-stands q m ms w, e)

acked_loop-step :
    (fuel : ℕ) (q : AckQueue) (m : AckMsg) (ms : List AckMsg)
    → Holds q (m ∷ ms)
    → is_acked m.state ≡ true
    → acked_loop (suc fuel) q
      ≡ acked_loop fuel (behind_head m (noted q.ping (q.ackdone ++ (m ∷ [])) q))
unfolding acked_loop
acked_loop-step fuel q m ms w e =
    let removes =
      remove_head-Holds _ m ms (noted-Holds q (m ∷ ms) q.ping (q.ackdone ++ (m ∷ [])) w) in
    ground (arith, head-stands q m ms w, e, removes, w.counted)

acked_loop-Holds :
    (ms : List AckMsg) (q : AckQueue)
    → Holds q ms
    → Ends (acked_loop (length ms) q) (q.ackdone ++ finished ms) (unfinished ms)
unfolding acked_loop finished unfinished behind_head
acked_loop-Holds [] q w = (q, refl, sym (append-nil q.ackdone), w)
acked_loop-Holds (m ∷ ms) q w = elim (Bool-cases (is_acked m.state)) [
  | inl e ↦
      let q1 = noted q.ping (q.ackdone ++ (m ∷ [])) q in
      let (r, runs, out, left) =
        acked_loop-Holds ms (behind_head m q1)
          (behind_head-Holds q1 m ms (noted-Holds q (m ∷ ms) q.ping (q.ackdone ++ (m ∷ [])) w)) in
      (
        r,
        acked_loop-step (length ms) q m ms w e ∙ runs,
        rw e (out ∙ append_assoc q.ackdone (m ∷ []) (finished ms)),
        rw e left,
      )
  | inr e ↦ (q, acked_loop-stop (length ms) q m ms w e, rw e (sym (append-nil q.ackdone)), rw e w)
]

collected-Holds :
    (q : AckQueue) (ms : List AckMsg) (ping : Option AckMsg)
    → Holds q ms
    → let r = collect_ping (record q { ping = ping }) in
      Holds r ms × (r.ackdone ≡ answered ping) × (r.count ≡ q.count)
unfolding collect_ping answered
collected-Holds q ms none w = (noted-Holds q ms none [] w, refl, refl)
collected-Holds q ms (some p) w = elim (Bool-cases (is_pingresp p.state)) [
  | inl e ↦ rw e (noted-Holds q ms (some no_ackmsg) (p ∷ []) w, refl, refl)
  | inr e ↦ rw e (noted-Holds q ms (some p) [] w, refl, refl)
]

-- `Acked` on a queue in which the messages `ms` wait does not panic. It returns the answered ping, if
-- there is one, and then the longest prefix of `ms` that is acknowledged, in order; exactly the other
-- messages wait after it, in the order in which they did.
pub acked-Holds :
    (q : AckQueue) (ms : List AckMsg)
    → Holds q ms
    → (q' : AckQueue) × (acked q ≡ done q')
      × (q'.ackdone ≡ answered q.ping ++ finished ms)
      × Holds q' (unfinished ms)
unfolding acked
acked-Holds q ms w =
    let (kept, out, _) = collected-Holds q ms q.ping w in
    let (q', runs, got, left) = acked_loop-Holds ms (collect_ping q) kept in
    (
      q',
      ap (λ n. acked_loop n (collect_ping q)) (sym w.counted) ∙ runs,
      got ∙ ap (λ d. d ++ finished ms) out,
      left,
    )
