-- ===== src/Service/Receive/Ends.antt =====
-- The receiving loop ends.
use xmqtt.Prelude.{ℕ, zero, suc, Bytes, Bool, true, false, Option, none, some, [], ◌∷◌, length}
use xmqtt.Prelude.{◌≡◌, ◌≢◌, refl, arith, ◌<◌, ◌≤◌, ltb, drop, ◌⊎◌, inl, inr}
use xmqtt.Prelude.{done, panicked}
use xmqtt.Message.{PacketLib}
use xmqtt.Service.State.{ServiceError}
use xmqtt.Service.Wire.{Reader, Read, ok, err, get_peek_message_size, size_loop, get_peek_message}
use xmqtt.Service.Wire.Size.{get_peek_message_size_bounds}
use xmqtt.Service.Process.{World, process_incoming}
use xmqtt.Prelude.{Returns, Returns->>=, Returns-any}
use xmqtt.Service.Receive.{
  receive, receiver_data, Received, Ending, too_large, stopped, unfinished, go_on, take_up,
  decode_code,
}

-- A size is read only where bytes are left.
size-left :
    (r : Reader) (t total : ℕ) → get_peek_message_size r ≡ ok (t, total) → 1 ≤ length r.bytes
unfolding get_peek_message_size size_loop
size-left r t total e = ground (arith, e)

length-drop : (n : ℕ) (xs : Bytes) → 1 ≤ n → 1 ≤ length xs → length (drop n xs) < length xs
length-drop zero xs h k = absurd (omega arith)
length-drop (suc n) [] h k = absurd (omega arith)
length-drop (suc zero) (x ∷ xs) h k = omega arith
length-drop (suc (suc n)) (x ∷ []) h k = omega arith
length-drop (suc (suc n)) (x ∷ y ∷ xs) h k =
    omega (arith, length-drop (suc n) (y ∷ xs) (omega arith) (omega arith))

module _ (lib : PacketLib) where
  open lib use {messages}

  abbrev Ended : World lib × Ending → Type 0
  Ended p = p.1 ≢ unfinished

  go_on-Ended :
      (k : World lib → Received lib) (p : World lib × Option ServiceError)
      → ((w : World lib) → Returns Ended (k w))
      → Returns Ended (go_on lib k p)
  go_on-Ended k (w, some x) h = ground arith
  go_on-Ended k (w, none) h =
      elim w.0.ended
        as (λ b.
          Returns Ended
            (elim b as (λ _. Received lib) [ true ↦ done (w, stopped) | false ↦ k w ])) [
              | true ↦ (ground arith)
              | false ↦ h w
            ]

  take_up-Ended :
      (k : Reader → World lib → Received lib) (w : World lib) (g : Reader × Read messages.Message)
      → ((w' : World lib) → Returns Ended (k g.0 w'))
      → Returns Ended (take_up lib k w g)
  take_up-Ended k w (r', err e) h = ground arith
  take_up-Ended k w (r', ok msg) h =
      Returns->>= (λ p. Unit {0}) Ended (process_incoming lib msg w) _
        (Returns-any (process_incoming lib msg w)) (λ p _. go_on-Ended (k r') p h)

  module _ (max : ℕ) where
    peeked : ℕ → ℕ → Reader → Reader × Read messages.Message
    peeked t total r = get_peek_message (decode_code lib) t total r

    -- What a round makes of the size `o`.
    sized-Ended :
        (n : ℕ) (r : Reader) (w : World lib) (o : Read (ℕ × ℕ))
        → ((t total : ℕ) (w' : World lib)
            → o ≡ ok (t, total)
            → Returns Ended (receive lib max n (get_peek_message (decode_code lib) t total r).0 w'))
        → get_peek_message_size r ≡ o
        → Returns Ended (receive lib max (suc n) r w)
    unfolding receive
    sized-Ended n r w (err e) h s = rw (s, receive) (ground arith)
    sized-Ended n r w (ok (t, total)) h s = rw (s, receive) (chosen (ltb max total))
      where
        chosen :
            (b : Bool)
            → Returns Ended (elim b as (λ _. Received lib) [
              | true ↦ done (w, too_large)
              | false ↦
                  take_up lib (receive lib max n) w (get_peek_message (decode_code lib) t total r)
            ])
        chosen true = ground arith
        chosen false =
            take_up-Ended (receive lib max n) w (get_peek_message (decode_code lib) t total r)
              (λ w'. h t total w' refl)

    receive-Ended :
        (n : ℕ) (r : Reader) (w : World lib)
        → length r.bytes < n
        → Returns Ended (receive lib max n r w)
    unfolding get_peek_message
    receive-Ended zero r w l = absurd (omega arith)
    receive-Ended (suc n) r w l =
        sized-Ended n r w (get_peek_message_size r)
          (λ t total w' s.
            receive-Ended n (get_peek_message (decode_code lib) t total r).0 w' (shorter t total s))
          refl
      where
        shorter :
            (t total : ℕ)
            → get_peek_message_size r ≡ ok (t, total)
            → length (get_peek_message (decode_code lib) t total r).0.bytes < n
        shorter t total s = omega (
          arith,
          l,
          length-drop total r.bytes (omega (arith, (get_peek_message_size_bounds r t total s).0))
              (size-left r t total s),
        )

  returned :
      (o : Received lib)
      → Returns Ended o
      → (o ≡ panicked) ⊎ ((w : World lib) × (e : Ending) × (o ≡ done (w, e)) × (e ≢ unfinished))
  returned panicked h = inl refl
  returned (done (w, e)) h = inr (w, e, refl, h)

  -- The loop ends on everything that a connection can deliver before its error: it returns for one of
  -- the code's own reasons, or a handler panics. The fuel, a round for each byte and one more, suffices.
  pub receiver_data_ends :
      (max : ℕ) (r : Reader) (w : World lib)
      → (receiver_data lib max r w ≡ panicked)
        ⊎ ((w' : World lib) × (e : Ending) × (receiver_data lib max r w ≡ done (w', e))
            × (e ≢ unfinished))
  unfolding receiver_data
  receiver_data_ends max r w =
      returned (receiver_data lib max r w)
        (receive-Ended max (suc (length r.bytes)) r w (omega arith))
