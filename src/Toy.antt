-- ===== src/Toy.antt =====
-- Small message libraries, at which the theorems are tried.
use xmqtt.Prelude.{ℕ, Bytes, true, false, some, [], ◌∷◌, get_or}
use xmqtt.Message.{MessageLib, MessageType, ConnectLib, PacketLib, publish}

-- A message is its type and its packet identifier.
abbrev pub toy_messages : MessageLib
toy_messages = record {
  Message = MessageType × ℕ;
  mtype = λ m. m.0;
  packet_id = λ m. m.1;
  qos = λ m. 1;
  dup = λ m. false;
  len = λ m. 2;
  encode = λ m b. (b, true);
}

-- A CONNECT message is its client identifier.
abbrev pub toy_connect : ConnectLib
toy_connect = record {
  Connect = Bytes;
  Publish = ℕ;
  new_connect = [];
  new_publish = 0;
  connect_len = λ c. 1;
  connect_encode = λ c b. (c, true);
  connect_decode = λ c b. (b, true);
  publish_len = λ p. 1;
  publish_encode = λ p b. (b, true);
  publish_decode = λ p b. (p, true);
  client_id = λ c. c;
  will_flag = λ c. false;
  will_qos = λ c. 0;
  will_topic = λ c. [];
  will_message = λ c. [];
  will_retain = λ c. false;
  set_qos = λ q p. p;
  set_topic = λ t p. p;
  set_payload = λ t p. p;
  set_retain = λ r p. p;
}

-- A packet is its type, identifier, QoS, topic and payload; a password is the client identifier.
pub record Packet : Type 0 where
  pub kind : MessageType
  pub id : ℕ
  pub level : ℕ
  pub name : Bytes
  pub body : Bytes

abbrev pub bare : MessageType → ℕ → Packet
bare t n = record { kind = t; id = n; level = 1; name = []; body = [] }

-- On the wire a packet is its identifier and a zero.
abbrev pub toy_packets : PacketLib
toy_packets = record {
  messages = record {
    Message = Packet;
    mtype = λ m. m.kind;
    packet_id = λ m. m.id;
    qos = λ m. m.level;
    dup = λ m. false;
    len = λ m. 2;
    encode = λ m b. (m.id ∷ 0 ∷ [], true);
  };
  connects = toy_connect;
  wire = λ m. some (m, m.id ∷ 0 ∷ []);
  decode = λ t b. some (bare t (get_or b 0 0));
  topic = λ m. m.name;
  payload = λ m. m.body;
  sub_topics = λ m. m.name ∷ [];
  sub_qos = λ m. m.level ∷ [];
  return_codes = λ m. m.body;
  reply = bare;
  suback_of = λ n codes. some (bare publish n);
  connack_of = λ code. bare publish code;
  download = λ t p. record { kind = publish; id = 0; level = 1; name = t; body = p };
  clear_will = λ c. c;
  username = λ c. c;
  password = λ c. c;
  keep_alive = λ c. 0;
  set_keep_alive = λ n c. c;
  set_clean_id = λ b c. b;
}
