-- ===== src/Topics/Provider/Tests.antt =====
-- The theorems at concrete topics, subscribers and messages.
use xmqtt.Prelude.{
  ℕ, zero, suc, Bytes, Bool, true, false, none, some, List, [], ◌∷◌, ◌++◌, inl, inr, length, take,
  drop, leb,
}
use xmqtt.Prelude.{◌≡◌, refl, sym, ap, ◌∙◌, if◌then◌else◌, ltb, arith, Within, ◌+◌, bytes_eq, min}
use xmqtt.Message.{PublishLib}
use xmqtt.Topics.Level.{swc, ok, next_topic_level, get_group_name, level_loop, judge}
use xmqtt.Topics.Level.Accept.{Levels, Levels-join, join}
use xmqtt.Topics.Level.Split.{Cut, next_topic_level-Cut}
use xmqtt.Topics.Level.Legal.{Legal, next_topic_level-Legal}
use xmqtt.Topics.Subscriber.{Subscriber, value, Holdings}
use xmqtt.Topics.Tree.{new_snode, sinsert, sremove, smatch}
use xmqtt.Topics.Tree.Paths.{holdings_at_new}
use xmqtt.Topics.Tree.Insert.{InsertOutcome, sinsert_outcome}
use xmqtt.Topics.Tree.Remove.{RemoveOutcome, sremove_outcome, IsPaired, IsPaired-kept}
use xmqtt.Topics.Tree.Match.{matches, deliver, table, smatch_lem}
use xmqtt.Topics.Retained.{find_rnode, RNode, new_rnode, rnode, rbranch, no_rnodes, rremove, rmatch}
use xmqtt.Topics.Retained.Paths.{retained_at}
use xmqtt.Topics.Retained.Insert.{RoundTrips}
use xmqtt.Topics.Retained.Remove.{node_at, DropOutcome, rremove_outcome, rremove_loses_parent}
use xmqtt.Topics.Retained.Find.{filter_matches, rmatch_found}
use xmqtt.Topics.Provider.{new_mem_provider, subscribe, subscribers, retain, retained}
use xmqtt.Topics.Provider.Publishing.{subscribers-subscribe}
use xmqtt.Topics.Provider.Retain.{retained-retain}

abbrev a : Bytes
a = b'a' ∷ []

abbrev b : Bytes
b = b'b' ∷ []

abbrev a_b : Bytes
a_b = b'a' ∷ b'/' ∷ b'b' ∷ []

abbrev a_any : Bytes
a_any = b'a' ∷ b'/' ∷ b'+' ∷ []

abbrev client : Subscriber
client = value 1 7

-- A library whose wire format is the topic's length, the topic and the payload. It refuses a buffer
-- that is too short, and leaves it as it is.
abbrev toy_encode : Bytes × Bytes → Bytes → Bytes × Bool
toy_encode (t, p) buf =
    let l = length t + length p + 1 in
    if ltb (length buf) l then (buf, false) else (length t ∷ (t ++ p) ++ drop l buf, true)

abbrev toy_decode : Bytes × Bytes → Bytes → (Bytes × Bytes) × Bool
toy_decode m [] = (m, false)
toy_decode m (n ∷ r) = ((take n r, drop n r), true)

abbrev toy_lib : PublishLib
toy_lib = record {
  Publish = Bytes × Bytes;
  new_publish = ([], []);
  topic = λ m. m.0;
  payload = λ m. m.1;
  len = λ m. length m.0 + length m.1 + 1;
  encode = toy_encode;
  decode = toy_decode;
}

abbrev note : Bytes × Bytes
note = (a_b, b'!' ∷ [])

none_left : (xs : Bytes) (n : ℕ) → length xs ≡ n → drop n xs ≡ []
none_left [] n e = ground (arith, e)
none_left (x ∷ xs) zero e = absurd (omega (arith, e))
none_left (x ∷ xs) (suc n) e = none_left xs n (omega (arith, e))

-- What is written into a buffer of five bytes.
note_written :
    (buf : Bytes)
    → length buf ≡ 5
    → toy_encode note buf ≡ (3 ∷ b'a' ∷ b'/' ∷ b'b' ∷ b'!' ∷ [], true)
note_written buf e = λ i.
    if ltb (e i) 5
    then (buf, false)
    else (3 ∷ b'a' ∷ b'/' ∷ b'b' ∷ b'!' ∷ none_left buf 5 e i, true)

note-RoundTrips : RoundTrips toy_lib note
note-RoundTrips = record {
  encodes = λ buf e. ap (λ r. r.1) (note_written buf e);
  decodes = λ m buf e. ap (λ r. (toy_decode m r.0).1) (note_written buf e);
  same_topic = λ m buf e. ap (λ r. (toy_decode m r.0).0.0) (note_written buf e);
  same_payload = λ m buf e. ap (λ r. (toy_decode m r.0).0.1) (note_written buf e);
}

abbrev pick_first : Bytes → List Subscriber → ℕ
pick_first g ss = 0

abbrev any_qos : ℕ → Bool
any_qos q = leb q 2

a_b-Levels : Levels a_b (a ∷ b ∷ [])
unfolding join
a_b-Levels = Levels-join (a ∷ b ∷ []) (inl (omega arith), inl (omega arith))

a_any-Levels : Levels a_any (a ∷ swc ∷ [])
unfolding join
a_any-Levels = Levels-join (a ∷ swc ∷ []) (inl (omega arith), inr (inl refl))

new_snode-IsPaired : IsPaired new_snode
new_snode-IsPaired ks =
    ap (λ (h : Holdings). length h.subs) (holdings_at_new ks)
    ∙ sym (ap (λ (h : Holdings). length h.qos) (holdings_at_new ks))

no_group : get_group_name a_any ≡ ([], a_any)
unfolding get_group_name
no_group = refl

a_any_matches : matches (a ∷ swc ∷ []) (a ∷ b ∷ []) ≡ true
unfolding matches bytes_eq
a_any_matches = refl

a_any_filter : filter_matches (a ∷ swc ∷ []) (a ∷ b ∷ []) ≡ true
unfolding filter_matches bytes_eq
a_any_filter = refl

subscribers-subscribe_example :
    let (m', granted, e) = subscribe toy_lib any_qos a_any 1 client (new_mem_provider toy_lib) in
    (e ≡ none)
    × (granted ≡ min 1 2)
    × ((subscribers toy_lib pick_first any_qos a_b 2 m').1 ≡ none)
    × Within (client, min 2 (min 1 2)) (subscribers toy_lib pick_first any_qos a_b 2 m').0
subscribers-subscribe_example =
    subscribers-subscribe toy_lib pick_first any_qos a_any 1 client (new_mem_provider toy_lib)
      new_snode a_b 2 (a ∷ swc ∷ []) (a ∷ b ∷ []) refl new_snode-IsPaired refl refl refl no_group
      a_any-Levels a_b-Levels a_any_matches

smatch_lem_example :
    smatch pick_first 1 new_snode a_b ≡ (deliver pick_first 1 (a ∷ b ∷ []) (table new_snode), none)
smatch_lem_example = smatch_lem pick_first 1 new_snode a_b (a ∷ b ∷ []) a_b-Levels

sinsert_outcome_example :
    InsertOutcome [] 1 client new_snode a_b (sinsert 3 [] 1 client new_snode a_b)
sinsert_outcome_example = sinsert_outcome [] 1 client 3 new_snode a_b (omega arith)

sremove_outcome_example : RemoveOutcome [] client new_snode a_b (sremove 3 [] client new_snode a_b)
sremove_outcome_example = sremove_outcome [] client 3 new_snode a_b new_snode-IsPaired (omega arith)

IsPaired-kept_example :
    IsPaired (sinsert 3 [] 1 client new_snode a_b).0
    × IsPaired (sremove 3 [] client new_snode a_any).0
IsPaired-kept_example =
    IsPaired-kept [] 1 3 3 client client new_snode a_b a_any new_snode-IsPaired (omega arith)
      (omega arith)

retained-retain_example :
    let (m', e) = retain toy_lib note (new_mem_provider toy_lib) in
    (e ≡ none)
    × ((retained toy_lib a_any m').1 ≡ none)
    × ((k : Bytes × Bytes) × Within k (retained toy_lib a_any m').0
        × (k.0 ≡ a_b)
        × (k.1 ≡ b'!' ∷ []))
retained-retain_example =
    retained-retain toy_lib note (new_mem_provider toy_lib) new_rnode a_any (a ∷ b ∷ [])
      (a ∷ swc ∷ []) refl (omega arith) note-RoundTrips a_b-Levels a_any-Levels a_any_filter

-- A message under "a" and one under "a/b", and the same below "a/b".
abbrev lone : RNode ℕ
lone =
    rnode none []
      (rbranch a (rnode (some 5) [] (rbranch b (rnode (some 6) [] no_rnodes) no_rnodes)) no_rnodes)

abbrev deep_lone : RNode ℕ
deep_lone = rnode none [] (
    rbranch b new_rnode (
      rbranch a
        (rnode none [] (
          rbranch b (rnode (some 5) [] (rbranch b (rnode (some 6) [] no_rnodes) no_rnodes))
            no_rnodes))
        no_rnodes))

abbrev a_b_b : Bytes
a_b_b = b'a' ∷ b'/' ∷ b'b' ∷ b'/' ∷ b'b' ∷ []

a_b_b-Levels : Levels a_b_b (a ∷ b ∷ b ∷ [])
unfolding join
a_b_b-Levels =
    Levels-join (a ∷ b ∷ b ∷ []) (inl (omega arith), (inl (omega arith), inl (omega arith)))

rremove_outcome_example : DropOutcome lone a_b (rremove 3 lone a_b)
rremove_outcome_example = rremove_outcome 3 lone a_b (omega arith)

rremove_loses_parent_example :
    (retained_at (a ∷ b ∷ []) deep_lone ≡ some 5)
    × ((rremove 5 deep_lone a_b_b).1 ≡ none)
    × (retained_at (a ∷ b ∷ []) (rremove 5 deep_lone a_b_b).0 ≡ none)
unfolding node_at find_rnode bytes_eq
rremove_loses_parent_example =
    rremove_loses_parent 5 deep_lone a_b_b a b (b ∷ []) 5 (some 6) [] [] a_b_b-Levels (omega arith)
      refl

rmatch_found_example : Within 6 (rmatch lone a_any).0 × ((rmatch lone a_any).1 ≡ none)
unfolding retained_at find_rnode bytes_eq
rmatch_found_example =
    rmatch_found 6 lone a_any (a ∷ swc ∷ []) (a ∷ b ∷ []) a_any-Levels a_any_filter refl

a_b_cut : next_topic_level a_b ≡ ok (a, b)
unfolding next_topic_level level_loop judge
a_b_cut = refl

next_topic_level-Cut_example : Cut a_b a b
next_topic_level-Cut_example = next_topic_level-Cut a_b a b a_b_cut

next_topic_level-Legal_example : Legal a b
next_topic_level-Legal_example = next_topic_level-Legal a_b a b (omega arith) (λ e. cc) a_b_cut

Levels-join_example : Levels a_b (a ∷ b ∷ [])
unfolding join
Levels-join_example = Levels-join (a ∷ b ∷ []) (inl (omega arith), inl (omega arith))
