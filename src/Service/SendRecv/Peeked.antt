-- ===== src/Service/SendRecv/Peeked.antt =====
-- The header that is peeked in a ring, against the one that is peeked on a connection.
use xmqtt.Prelude.{
  ℕ, zero, suc, Bytes, Bool, true, false, some, ◌≡◌, refl, ap, sym, ◌∙◌, arith, subst,
}
use xmqtt.Prelude.{◌+◌, ◌-◌, ◌<◌, ◌≤◌, length, take, leb, get_or, if◌then◌else◌}
use xmqtt.Message.{PacketLib}
use xmqtt.Service.Buffer.{Buffer, ok, eof}
use xmqtt.Service.Buffer.Fifo.{Contains}
use xmqtt.Service.Buffer.Fifo.Taken.{read_wait-cases, Contains-tmp}
use xmqtt.Service.Receive.{decode_code}
use xmqtt.Service.SendRecv.{
  Tried, got, failed, waits, malformed, ring, judged, size_in_ring, peek_message_size,
}
use xmqtt.Service.SendRecv.{peek_in_ring, decoded, of_decode}
use xmqtt.Service.Wire.{
  Reader, Read, WireError, malformed_length, timeout, size_loop, sized, get_peek_message_size, peek,
}
use xmqtt.Service.Wire

-- The end of the bytes is the closed ring's, and otherwise there is none yet.
abbrev pub at_ring_end {ℓ} : {A : Type ℓ} → Bool → Tried A
at_ring_end true = failed (ring eof)
at_ring_end false = waits

abbrev pub on_ring {ℓ} : {A : Type ℓ} → Bool → Read A → Tried A
on_ring c (Wire.ok a) = got a
on_ring c (Wire.err malformed_length) = failed malformed
on_ring c (Wire.err _) = at_ring_end c

-- The bytes of a ring, as a connection that has delivered them and no more so far.
abbrev pub reader_of : Bytes → Reader
reader_of bs = record { bytes = bs; ending = timeout }

abbrev Same {ℓ} : {A : Type ℓ} → Buffer → Read A → Buffer × Tried A → Type ℓ
Same {A} b o r = (t : Bytes) × (r ≡ (record b { tmp = t }, on_ring b.closed o))

Same-if {ℓ} :
    {A : Type ℓ} (b : Buffer) (c : Bool) {x y : Buffer × Tried A} (o p : Read A)
    → Same b o x
    → Same b p y
    → Same b (if c then o else p) (if c then x else y)
Same-if b true o p s u = s
Same-if b false o p s u = u

module _ (fuel cnt : ℕ) (bs : Bytes) where
  abbrev judgement : Read (ℕ × ℕ)
  judgement =
      if leb 0x80 (get_or (take cnt bs) (cnt - 1) 0)
      then size_loop fuel (cnt + 1) (reader_of bs)
      else Wire.ok (sized (take cnt bs))

  loop_short : length bs < cnt → size_loop (suc fuel) cnt (reader_of bs) ≡ Wire.err timeout
  unfolding size_loop
  loop_short h = ground arith

  loop_more : cnt ≤ length bs → size_loop (suc fuel) cnt (reader_of bs) ≡ judgement
  unfolding size_loop
  loop_more h = ground arith

size_in_ring-Same :
    (fuel cnt : ℕ) (b : Buffer) (bs : Bytes)
    → Contains b bs
    → cnt + fuel ≤ suc b.size
    → Same b (size_loop fuel cnt (reader_of bs)) (size_in_ring fuel cnt b)
unfolding size_loop size_in_ring
size_in_ring-Same zero cnt b bs w h = (b.tmp, refl)
size_in_ring-Same (suc fuel) cnt b bs w h =
    let later : (t : Bytes)
        → Same b (size_loop fuel (cnt + 1) (reader_of bs))
            (size_in_ring fuel (cnt + 1) (record b { tmp = t })) =
      λ t.
        size_in_ring-Same fuel (cnt + 1) (record b { tmp = t }) bs (Contains-tmp b bs w t)
          (omega (arith, h)) in
    read_wait-cases b bs w cnt
      (λ r.
        Same b (size_loop (suc fuel) cnt (reader_of bs))
          (judged (λ c. size_in_ring fuel (cnt + 1) c) cnt r))
      (λ l. absurd (omega (arith, l, h)))
      (λ l e. (b.tmp, ap (λ o. (b, o)) (ended (loop_short fuel cnt bs l) e)))
      (λ l e. (b.tmp, ap (λ o. (b, o)) (open_ (loop_short fuel cnt bs l) e)))
      (λ t l.
        subst
          (λ o. Same b o (
            judged (λ c. size_in_ring fuel (cnt + 1) c) cnt
              (record b { tmp = t }, ok (take cnt bs))))
          (sym (loop_more fuel cnt bs l))
          (Same-if b (leb 0x80 (get_or (take cnt bs) (cnt - 1) 0)) _ _ (later t) (t, refl)))
  where
    ended :
        {o : Read (ℕ × ℕ)} {c : Bool}
        → o ≡ Wire.err timeout
        → c ≡ true
        → failed (ring eof) ≡ on_ring c o
    ended e f = ap (λ c. on_ring {A = ℕ × ℕ} c (Wire.err timeout)) (sym f) ∙ ap (on_ring _) (sym e)

    open_ : {o : Read (ℕ × ℕ)} {c : Bool} → o ≡ Wire.err timeout → c ≡ false → waits ≡ on_ring c o
    open_ e f = ap (λ c. on_ring {A = ℕ × ℕ} c (Wire.err timeout)) (sym f) ∙ ap (on_ring _) (sym e)

-- On a ring with room for a header, `peekMessageSize` finds what `getPeekMessageSize` finds on a
-- connection that has delivered the ring's bytes: the same type and length, or the same malformed
-- length; where there are too few bytes it waits, and after `Close` it ends with io.EOF. It takes
-- nothing out of the ring: only `tmp` may change.
pub peek_message_size-get_peek_message_size :
    (b : Buffer) (bs : Bytes)
    → Contains b bs
    → 5 ≤ b.size
    → (t : Bytes) × (peek_message_size (some b)
        ≡ (some (record b { tmp = t }), on_ring b.closed (get_peek_message_size (reader_of bs))))
unfolding peek_message_size get_peek_message_size
peek_message_size-get_peek_message_size b bs w h =
    let (t, e) = size_in_ring-Same 4 2 b bs w (omega (arith, h)) in
    (t, ap (λ (r : Buffer × Tried (ℕ × ℕ)). (some r.0, r.1)) e)

pub size_in_ring-reader :
    (b : Buffer) (bs : Bytes)
    → Contains b bs
    → 5 ≤ b.size
    → (t : Bytes) × (size_in_ring 4 2 b
        ≡ (record b { tmp = t }, on_ring b.closed (get_peek_message_size (reader_of bs))))
unfolding get_peek_message_size
size_in_ring-reader b bs w h = size_in_ring-Same 4 2 b bs w (omega (arith, h))

module _ (lib : PacketLib) where
  -- A message that is all there is decoded from its own bytes.
  pub peek_in_ring-whole :
      (t total : ℕ) (b : Buffer) (bs : Bytes)
      → Contains b bs
      → total ≤ length bs
      → (tmp : Bytes) × (peek_in_ring lib t total b
          ≡ (record b { tmp = tmp }, of_decode lib (decode_code lib t (take total bs))))
  unfolding peek_in_ring
  peek_in_ring-whole t total b bs w h =
      read_wait-cases b bs w total
        (λ r.
          (tmp : Bytes) × (decoded lib t r
            ≡ (record b { tmp = tmp }, of_decode lib (decode_code lib t (take total bs)))))
        (λ l. absurd (omega (arith, l, h, w.fits))) (λ l e. absurd (omega (arith, l, h)))
        (λ l e. absurd (omega (arith, l, h))) (λ tmp l. (tmp, refl))
