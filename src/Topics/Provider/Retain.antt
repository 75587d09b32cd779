-- ===== src/Topics/Provider/Retain.antt =====
-- A retained message is found again, and lost again, through the whole provider.
use xmqtt.Prelude.{Bytes, true, none, some, List, length}
use xmqtt.Prelude.{◌≡◌, ◌≢◌, refl, arith, Within}
use xmqtt.Message.{PublishLib}
use xmqtt.Topics.Level.Accept.{Levels}
use xmqtt.Topics.Retained.{RNode, rinsert}
use xmqtt.Topics.Retained.Insert.{RoundTrips, rinsert-Levels}
use xmqtt.Topics.Retained.Paths.{retained_at}
use xmqtt.Topics.Retained.Find.{filter_matches, rmatch_found}
use xmqtt.Topics.Provider.{MemTopics, retain, retained}

module _ (lib : PublishLib) where
  open lib use {Publish, topic, payload}

  retain_lem :
      (msg : Publish) (m : MemTopics lib) (root : RNode Publish) (ls : List Bytes)
      → m.rroot ≡ some root
      → length (payload msg) ≢ 0
      → RoundTrips lib msg
      → Levels (topic msg) ls
      → retain lib msg m ≡ (
        record m { rroot = some (rinsert lib (length (topic msg)) msg root (topic msg)).0 },
        none,
      )
  unfolding retain
  retain_lem msg m root ls r n rt lv =
      ground
        (arith, rinsert-Levels lib (length (topic msg)) msg root (topic msg) ls rt lv (omega arith))

  -- A message with a payload, on a topic with legal levels, that the library reads back as it wrote
  -- it, is retained: every filter that matches the topic then finds a message with its topic and
  -- payload, and ends without an error.
  pub retained-retain :
      (msg : Publish) (m : MemTopics lib) (root : RNode Publish) (filter : Bytes)
      (ls fs : List Bytes)
      → m.rroot ≡ some root
      → length (payload msg) ≢ 0
      → RoundTrips lib msg
      → Levels (topic msg) ls
      → Levels filter fs
      → filter_matches fs ls ≡ true
      → let (m', e) = retain lib msg m in
        (e ≡ none)
        × ((retained lib filter m').1 ≡ none)
        × ((k : Publish) × Within k (retained lib filter m').0
            × (topic k ≡ topic msg)
            × (payload k ≡ payload msg))
  retained-retain msg m root filter ls fs r n rt lv lf h =
      rw (retain_lem msg m root ls r n rt lv) (refl, found.1, (copy.0, found.0, copy.2, copy.3))
    where
      after : RNode Publish
      after = (rinsert lib (length (topic msg)) msg root (topic msg)).0

      m' : MemTopics lib
      m' = record m { rroot = some after }

      copy :
          (k : Publish) × (retained_at ls after ≡ some k)
          × (topic k ≡ topic msg)
          × (payload k ≡ payload msg)
      copy =
          (rinsert-Levels lib (length (topic msg)) msg root (topic msg) ls rt lv
            (omega arith)).1.here

      found : Within copy.0 (retained lib filter m').0 × ((retained lib filter m').1 ≡ none)
      found = unfold retained in rmatch_found copy.0 after filter fs ls lf h copy.1
