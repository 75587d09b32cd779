-- ===== src/Service/Buffer/Reading.antt =====
-- The consumer's side of `buffer`.
use Prim.Native.Nat.{bit_and}
use xmqtt.Prelude.{ℕ, Bytes, Bool, Option, none, some, ◌++◌}
use xmqtt.Prelude.{◌==◌, ltb, leb, if◌then◌else◌, ◌&&◌, length, take, drop, ◌+◌, ◌-◌}
use xmqtt.Service.Buffer.{Buffer, Io, ok, fail, blocks, eof, full, insufficient, write_failed, len}

-- `n` bytes of the ring from place `i` on, round the end: the code puts them together in `tmp`, the
-- part up to the end first.
abbrev pub in_two_parts : Buffer → ℕ → ℕ → Bytes
in_two_parts b i n = drop i b.buf ++ take (n - length (drop i b.buf)) b.buf

-- The slice from place `i`, of `n` bytes, with `tmp` where it goes round the end.
unfoldable pub slice : Buffer → ℕ → ℕ → Buffer × Bytes
slice b i n =
    if ltb b.size (i + n)
    then (record b { tmp = in_two_parts b i n }, in_two_parts b i n)
    else (b, take n (drop i b.buf))

-- `ReadPeek`: the bytes, and whether there were fewer than asked for.
unfoldable pub read_peek : ℕ → Buffer → Buffer × Io (Bytes × Bool)
unfolding slice
read_peek n b =
    if ltb b.size n
    then (b, fail full)
    else if leb b.pseq b.cseq
    then (if b.closed then (b, fail eof) else (record b { cwait = b.cwait + 1 }, blocks))
    else (let there = b.pseq - b.cseq in
        let m = if leb n there then n else there in
        let (b', p) = slice b (bit_and b.cseq b.mask) m in (b', ok (p, ltb there n)))

unfoldable pub read_wait : ℕ → Buffer → Buffer × Io Bytes
unfolding slice
read_wait n b =
    if ltb b.size n
    then (b, fail full)
    else if ltb b.pseq (b.cseq + n)
    then (if b.closed then (b, fail eof) else (b, blocks))
    else (let (b', p) = slice b (bit_and b.cseq b.mask) n in (b', ok p))

unfoldable pub read_commit : ℕ → Buffer → Buffer × Io ℕ
read_commit n b =
    if ltb b.size n
    then (b, fail full)
    else if leb (b.cseq + n) b.pseq
    then (record b { cseq = b.cseq + n }, ok n)
    else (b, fail insufficient)

abbrev pub consume : Buffer → Bytes → Buffer × Io Bytes
consume b p = (record b { cseq = b.cseq + length p }, ok p)

-- `Read` into a slice of `pl` bytes. It copies up to the end of the ring and not round it.
unfoldable pub read : ℕ → Buffer → Buffer × Io Bytes
unfolding len
read pl b =
    let cindex = bit_and b.cseq b.mask in
    let there = b.pseq - b.cseq in
    if b.closed && len b == 0
    then (b, fail eof)
    else if ltb (b.cseq + pl) b.pseq
    then consume b (take pl (drop cindex b.buf))
    else if ltb b.cseq b.pseq
    then (if ltb (cindex + there) b.size
        then consume b (take pl (take there (drop cindex b.buf)))
        else consume b (take pl (drop cindex b.buf)))
    else if b.closed
    then (b, fail eof)
    else (record b { cwait = b.cwait + 1 }, blocks)

unfoldable pub written_out : Option ℕ → Buffer → Buffer × Io ℕ
unfolding read_commit
written_out none b = (b, fail write_failed)
written_out (some n) b = read_commit n b

unfoldable pub handed : (Bytes → Option ℕ) → Buffer → Io (Bytes × Bool) → Buffer × Io ℕ
unfolding written_out
handed w b (fail e) = (b, fail e)
handed w b blocks = (b, blocks)
handed w b (ok (p, short)) = written_out (w p) b

-- One round of `WriteTo`: `w.Write` takes some of the bytes that are peeked, or fails.
unfoldable pub write_to_round : (Bytes → Option ℕ) → ℕ → Buffer → Buffer × Io ℕ
unfolding read_peek handed
write_to_round w block b =
    if b.closed then (b, fail eof) else (let (b', r) = read_peek block b in handed w b' r)
