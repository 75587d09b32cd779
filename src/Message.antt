-- ===== src/Message.antt =====
-- What the broker sees of the messages of utils/surgemq/message, a library that it only calls.
use xmqtt.Prelude.{ℕ, Bytes, Bool, Option, List}

-- The MQTT control packet types, in the order of their codes.
pub data MessageType : Type 0 where
  reserved connect connack publish puback pubrec pubrel pubcomp : MessageType
  subscribe suback unsubscribe unsuback pingreq pingresp disconnect reserved2 : MessageType

-- The calls that topics/ makes on a PUBLISH message. `encode` writes into the buffer and `decode`
-- reads one into the message; both return what they leave, and whether they succeeded.
pub record PublishLib : Type 1 where
  pub Publish : Type 0
  pub new_publish : Publish
  pub topic : Publish → Bytes
  pub payload : Publish → Bytes
  pub len : Publish → ℕ
  pub encode : Publish → Bytes → Bytes × Bool
  pub decode : Publish → Bytes → Publish × Bool

-- The calls that sessions/ and service/ make on a message of any type.
pub record MessageLib : Type 1 where
  pub Message : Type 0
  pub mtype : Message → MessageType
  pub packet_id : Message → ℕ
  pub qos : Message → ℕ
  pub dup : Message → Bool
  pub len : Message → ℕ
  pub encode : Message → Bytes → Bytes × Bool

-- The calls that a session makes on CONNECT and PUBLISH messages; the setters' errors are not looked
-- at.
pub record ConnectLib : Type 1 where
  pub Connect : Type 0
  pub Publish : Type 0
  pub new_connect : Connect
  pub new_publish : Publish
  pub connect_len : Connect → ℕ
  pub connect_encode : Connect → Bytes → Bytes × Bool
  pub connect_decode : Connect → Bytes → Connect × Bool
  pub publish_len : Publish → ℕ
  pub publish_encode : Publish → Bytes → Bytes × Bool
  pub publish_decode : Publish → Bytes → Publish × Bool
  pub client_id : Connect → Bytes
  pub will_flag : Connect → Bool
  pub will_qos : Connect → ℕ
  pub will_topic : Connect → Bytes
  pub will_message : Connect → Bytes
  pub will_retain : Connect → Bool
  pub set_qos : ℕ → Publish → Publish
  pub set_topic : Bytes → Publish → Publish
  pub set_payload : Bytes → Publish → Publish
  pub set_retain : Bool → Publish → Publish

-- The calls that service/ makes. `wire` is `Encode` into a new slice of `Len` bytes, cut to what is
-- written: the message after it, which may have been given a packet identifier, and the bytes.
-- `decode` is `New` of a type and `Decode`. `reply` makes a message of a type with a packet
-- identifier, `suback_of` one with return codes, `connack_of` one with a code, and `download` a
-- PUBLISH of QoS 1 with a topic and a payload.
pub record PacketLib : Type 1 where
  pub messages : MessageLib
  pub connects : ConnectLib
  pub wire : messages.Message → Option (messages.Message × Bytes)
  pub decode : MessageType → Bytes → Option messages.Message
  pub topic : messages.Message → Bytes
  pub payload : messages.Message → Bytes
  pub sub_topics : messages.Message → List Bytes
  pub sub_qos : messages.Message → List ℕ
  pub return_codes : messages.Message → List ℕ
  pub reply : MessageType → ℕ → messages.Message
  pub suback_of : ℕ → List ℕ → Option messages.Message
  pub connack_of : ℕ → messages.Message
  pub download : Bytes → Bytes → messages.Message
  pub clear_will : connects.Connect → connects.Connect
  pub username : connects.Connect → Bytes
  pub password : connects.Connect → Bytes
  pub keep_alive : connects.Connect → ℕ
  pub set_keep_alive : ℕ → connects.Connect → connects.Connect
  pub set_clean_id : Bytes → connects.Connect → connects.Connect
