-- ===== src/Service/SendRecv/Overread.antt =====
-- `readMessage` with a buffer from an earlier, longer message.
use xmqtt.Prelude.{
  ℕ, zero, suc, Bytes, [], ◌∷◌, ◌≡◌, refl, ap, sym, ◌∙◌, arith, subst, ltb, leb, if_each, replicate,
  if◌then◌else◌,
}
use xmqtt.Prelude.{◌+◌, ◌-◌, ◌<◌, ◌≤◌, ◌%◌, length, take, drop, length-take, take_part}
use xmqtt.Message.{PacketLib}
use xmqtt.Service.Buffer.{Buffer, copy_at}
use xmqtt.Service.Buffer.Reading.{read}
use xmqtt.Service.Buffer.Fifo.{Contains, Contains-consumed}
use xmqtt.Service.Buffer.Fifo.Taken.{read_straight}
use xmqtt.Service.Receive.{decode_code}
use xmqtt.Service.SendRecv.{got, of_decode, read_loop, read_message, whole_read, more_read}

copy_at_whole : (dst src : Bytes) → length src ≡ length dst → copy_at dst 0 src ≡ src
unfolding copy_at
copy_at_whole [] [] e = refl
copy_at_whole [] (x ∷ src) e = absurd (omega (arith, e))
copy_at_whole (d ∷ dst) [] e = absurd (omega (arith, e))
copy_at_whole (d ∷ dst) (x ∷ src) e = ap (λ r. x ∷ r) (copy_at_whole dst src (omega (arith, e)))

module _ (lib : PacketLib) where
  loop_done :
      (fuel total : ℕ) (intmp : Bytes) (l : ℕ) (b : Buffer)
      → total ≤ l
      → read_loop lib fuel total intmp l b ≡ (b, intmp, got tt)
  unfolding read_loop
  loop_done zero total intmp l b h = refl
  loop_done (suc fuel) total intmp l b h =
      if_each (λ r. r ≡ (b, intmp, got tt)) (leb total l) (λ e. refl)
        (λ e. absurd (ground (arith, e, h)))

  read_loop_first :
      (fuel total : ℕ) (intmp : Bytes) (b : Buffer)
      → 0 < total
      → read_loop lib (suc fuel) total intmp 0 b
        ≡ more_read lib (read_loop lib fuel total) intmp 0 (read (length intmp - 0) b)
  unfolding read_loop
  read_loop_first fuel total intmp b pos =
      let round = more_read lib (read_loop lib fuel total) intmp 0 (read (length intmp - 0) b) in
      if_each (λ r. r ≡ round) (leb total 0) (λ e. absurd (ground (arith, e, pos))) (λ e. refl)

  module _ (total : ℕ) (intmp : Bytes) (b : Buffer) (bs : Bytes) (w : Contains b bs)
      (pos : 0 < total) (h : total ≤ length intmp) (f : length intmp ≤ length bs)
      (g : b.cseq % b.size + length intmp ≤ b.size) where
    abbrev all_read : Bytes
    all_read = take (length intmp) bs

    long : length all_read ≡ length intmp
    long = omega (arith, length-take (length intmp) bs, f)

    abbrev after : Buffer
    after = record b { cseq = b.cseq + length all_read }

    overread : (fuel : ℕ) → read_loop lib (suc fuel) total intmp 0 b ≡ (after, all_read, got tt)
    overread fuel =
        read_loop_first fuel total intmp b pos
        ∙ ap (λ n. more_read lib (read_loop lib fuel total) intmp 0 (read n b))
            {x = length intmp - 0} {y = length intmp} (omega arith)
        ∙ ap (more_read lib (read_loop lib fuel total) intmp 0)
            (read_straight (length intmp) b bs w (omega (arith, pos, h)) f g)
        ∙ ap (λ q. read_loop lib fuel total q (0 + length all_read) after)
            (copy_at_whole intmp all_read long)
        ∙ loop_done fuel total all_read (0 + length all_read) after (omega (arith, long, h))

    kept_tmp : (if ltb (length intmp) total then replicate total 0 else intmp) ≡ intmp
    kept_tmp =
        if_each (λ q. q ≡ intmp) (ltb (length intmp) total) (λ e. absurd (ground (arith, e, h)))
          (λ e. refl)

    same_part : take total all_read ≡ take total bs
    same_part =
        take_part total (length intmp) bs
        ∙ ap (λ n. take n bs) (omega (arith, length-take total all_read, long, h))

    read_message_all :
        (t : ℕ)
        → read_message lib t total intmp b
          ≡ (after, all_read, of_decode lib (decode_code lib t (take total bs)))
    unfolding read_message
    read_message_all t =
        ap (λ q. whole_read lib t total (read_loop lib total total q 0 b)) kept_tmp
        ∙ ap (λ n. whole_read lib t total (read_loop lib n total intmp 0 b)) {x = total}
            {y = suc (total - 1)} (omega (arith, pos))
        ∙ ap (whole_read lib t total) (overread (total - 1))
        ∙ ap (λ p. (after, all_read, of_decode lib (decode_code lib t p))) same_part

  -- Where `intmp` is longer than the message, and that many bytes wait before the end of the ring,
  -- `readMessage` decodes the message from its own bytes, but takes as many bytes out of the ring as
  -- `intmp` is long, so that the next message starts too late.
  pub read_message_overreads :
      (t total : ℕ) (intmp : Bytes) (b : Buffer) (bs : Bytes)
      → Contains b bs
      → 0 < total
      → total ≤ length intmp
      → length intmp ≤ length bs
      → b.cseq % b.size + length intmp ≤ b.size
      → ((read_message lib t total intmp b).2 ≡ of_decode lib (decode_code lib t (take total bs)))
        × Contains (read_message lib t total intmp b).0 (drop (length intmp) bs)
  read_message_overreads t total intmp b bs w pos h f g =
      let all = read_message_all total intmp b bs w pos h f g t in
      (
        ap (λ r. r.2) all,
        subst (λ r. Contains r.0 (drop (length intmp) bs)) (sym all)
            (subst (λ n. Contains (record b { cseq = b.cseq + n }) (drop (length intmp) bs))
              (sym (long total intmp b bs w pos h f g))
              (Contains-consumed b bs w (length intmp) f)),
      )
