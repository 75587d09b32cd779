-- ===== src/Service/Process/Refused.antt =====
-- The messages that a service answers with an error, and what it does with a PUBLISH.
use xmqtt.Prelude.{Bytes, false, none, some, List, [], ◌∷◌, ◌++◌, length}
use xmqtt.Prelude.{◌+◌, ◌≡◌, ◌≢◌, arith, if◌then◌else◌, ◌<◌, ltb, bytes_eq, done}
use xmqtt.Message.{PacketLib, publish, puback}
use xmqtt.Service.State.{Service, Conn, send_data, invalid_qos}
use xmqtt.Service.Process.{
  World, Upload, process_incoming, process_publish, heartbeat_topic, upload_capacity,
}

module _ (lib : PacketLib) where
  open lib use {messages, wire, topic, reply}
  open messages use {Message, mtype, packet_id, qos}

  -- A PUBLISH of QoS 0 or 2 to any topic but the heartbeat's is not delivered and not answered: it ends
  -- with an error, for which the connection is closed, and leaves the service and the uploads alone.
  pub process_incoming_other_qos :
      (msg : Message) (w : World lib)
      → mtype msg ≡ publish
      → qos msg ≢ 1
      → bytes_eq (topic msg) heartbeat_topic ≡ false
      → process_incoming lib msg w ≡ done (w, some invalid_qos)
  unfolding process_incoming process_publish
  process_incoming_other_qos msg w t o h = ground (arith, t, o, h)

  -- What comes of a PUBLISH of QoS 1 to any topic but the heartbeat's: exactly one message is written,
  -- the PUBACK with its packet identifier, nothing else of the service changes, and the message goes to
  -- the uploads where they have room and is dropped where they have none. The upload names the product
  -- key as the device and the device as the product key.
  pub process_incoming-upload :
      (msg puback_msg : Message) (b : Bytes) (s : Service lib) (u : List (Upload lib)) (c : Conn)
      → mtype msg ≡ publish
      → qos msg ≡ 1
      → bytes_eq (topic msg) heartbeat_topic ≡ false
      → s.conn ≡ some c
      → c.broken ≡ false
      → wire (reply puback (packet_id msg)) ≡ some (puback_msg, b)
      → (u' : List (Upload lib)) × (process_incoming lib msg (s, u)
          ≡ done
              ((record s { conn = some (record c { written = c.written ++ (b ∷ []) }) }, u'), none))
        × (length u < upload_capacity
            → u'
              ≡ u
                ++ (record { msg = msg; device_name = s.product_key; product_key = s.device_name }
                    ∷ []))
        × (upload_capacity < length u + 1 → u' ≡ u)
  unfolding process_incoming process_publish send_data
  process_incoming-upload msg puback_msg b s u c t o h ec eb ew = (
    (if ltb (length u) upload_capacity
        then u
          ++ (record { msg = msg; device_name = s.product_key; product_key = s.device_name } ∷ [])
        else u),
    ground (arith, t, o, h, ec, eb, ew),
    ground arith,
    ground arith,
  )
