-- ===== src/Service/Server/Pushed.antt =====
-- What a server keeps when an upload is pushed.
use xmqtt.Prelude.{ℕ, Bytes, Bool, true, Option, none, some, ◌≡◌, subst, find_key, inl, inr}
use xmqtt.Prelude.{Outcome, done, panicked, ◌>>=◌, Returns, Returns->>=, Option-cases}
use xmqtt.Message.{PacketLib}
use xmqtt.Service.State.{Service, ServiceError}
use xmqtt.Service.Publish.{publish, own_complete}
use xmqtt.Service.Process.{Upload}
use xmqtt.Service.Process.Alive.{Lives}
use xmqtt.Service.Process.Sending.{publish-Lives}
use xmqtt.Service.Server.{Server, put_service, device_key}
use xmqtt.Service.Server.Kept.{IsSound}
use xmqtt.Service.Server.Handled.{put_service-IsSound}
use xmqtt.Service.Server.Accept.{split_by}
use xmqtt.Service.Server.Push.{push_msg, last_two, download_topic}

module _ (lib : PacketLib) (client : ℕ → lib.messages.Message → Option ServiceError) where
  open lib use {messages, topic, payload, download}

  abbrev Sounds : Outcome (Server lib × Bool) → Type 0
  Sounds = Returns (λ (r : Server lib × Bool). IsSound lib r.0)

  publish-Sounds :
      (now task i : ℕ) (msg : messages.Message) (srv : Server lib) (s : Service lib)
      → srv.services i ≡ some s
      → IsSound lib srv
      → Sounds (
          publish lib client now task msg own_complete s >>= λ r.
          done (put_service lib i r.0 srv, true))
  publish-Sounds now task i msg srv s here w =
      Returns->>= (λ (r : Service lib × Option ServiceError). Onward r.0)
        (λ (r : Server lib × Bool). IsSound lib r.0)
        (publish lib client now task msg own_complete s) _
        (onward (publish lib client now task msg own_complete s)
          (λ pk dn h. publish-Lives lib pk dn client now task msg own_complete s h))
        (λ r h. put_service-IsSound lib srv i s r.0 here h w)
    where
      Onward : Service lib → Type 0
      Onward s' = (pk dn : Bytes) → Lives lib pk dn s → Lives lib pk dn s'

      onward :
          (o : Outcome (Service lib × Option ServiceError))
          → ((pk dn : Bytes) → Lives lib pk dn s → Returns (λ r. Lives lib pk dn r.0) o)
          → Returns (λ (r : Service lib × Option ServiceError). Onward r.0) o
      onward panicked h = tt
      onward (done r) h = h

  push_msg-Sounds :
      (now task : ℕ) (it : Upload lib) (srv : Server lib)
      → IsSound lib srv
      → Sounds (push_msg lib client now task it srv)
  unfolding push_msg
  push_msg-Sounds now task it srv w =
      elim (Option-cases (last_two (split_by b'/' (topic it.msg)))) [
        | inl e ↦ rw (e, push_msg) w
        | inr ((pk, dn), e) ↦
            rw (e, push_msg) (found pk dn (find_key (device_key pk dn) srv.svc_map))
      ]
    where
      found :
          (pk dn : Bytes) (o : Option ℕ)
          → Sounds (elim o as (λ _. Outcome (Server lib × Bool)) [
            | none ↦ done (srv, true)
            | some i ↦ elim (srv.services i) [
              | none ↦ panicked
              | some s ↦
                  publish lib client now task
                    (download (download_topic pk dn) (payload it.msg))
                    own_complete
                    s
                  >>= λ r. done (put_service lib i r.0 srv, true)
            ]
          ])
      found pk dn none = w
      found pk dn (some i) = elim (Option-cases (srv.services i)) [
        | inl e ↦ rw (e) tt
        | inr (s, e) ↦
            rw (e) (
              publish-Sounds now task i (download (download_topic pk dn) (payload it.msg)) srv s e
                w)
      ]

  -- A push that returns leaves a sound server sound.
  pub push_msg-IsSound :
      (now task : ℕ) (it : Upload lib) (srv srv' : Server lib) (b : Bool)
      → push_msg lib client now task it srv ≡ done (srv', b)
      → IsSound lib srv
      → IsSound lib srv'
  push_msg-IsSound now task it srv srv' b e w = subst Sounds e (push_msg-Sounds now task it srv w)
