-- ===== src/Service/Server/Accept/Reached.antt =====
-- The states that a server reaches as connections come and go.
use xmqtt.Prelude.{ℕ, Bytes, Option, some, []}
use xmqtt.Prelude.{◌≡◌, ◌≢◌, arith}
use xmqtt.Prelude.{find_key, done}
use xmqtt.Message.{PacketLib}
use xmqtt.Prelude.{Bool, List}
use xmqtt.Service.State.{Service, ServiceError}
use xmqtt.Service.Process.{Upload, process_incoming}
use xmqtt.Service.Process.Alive.Handled.{process_incoming-Lives}
use xmqtt.Service.Server.{put_service}
use xmqtt.Service.Server.Push.{push_msg}
use xmqtt.Service.Server.Handled.{put_service-IsSound}
use xmqtt.Service.Server.Pushed.{push_msg-IsSound}
use xmqtt.Service.Server.Accept.Connected.{handle_connection-IsSound}
use xmqtt.Service.State.{Conn}
use xmqtt.Service.Server.{Server, Cause, exception_disconnect}
use xmqtt.Service.Server.Kept.{IsSound, Fewer-IsSound}
use xmqtt.Service.Server.Sound.{exception_disconnect-Fewer}
use xmqtt.Service.Server.Accept.{Incoming, handle_connection}

-- The servers that come about from one without services, as connections are handled, as the ones of
-- some services end, as services handle messages and as uploads are pushed. A call of
-- `handleConnection` or `exceptionDisconnect` that panics is recovered and leaves the state it had
-- reached; a handler of a message, or a push, that panics is no step.
pub data Reached (lib : PacketLib) : Server lib → Type 0 where
  initial : (srv : Server lib) → srv.svc_map ≡ [] → Reached lib srv
  connected :
      (srv : Server lib) (c : Conn) (inc : Incoming lib.connects.Connect)
      → Reached lib srv
      → Reached lib (handle_connection lib c inc srv).0
  disconnected :
      (srv : Server lib) (j : ℕ) (cause : Option Cause)
      → Reached lib srv
      → Reached lib (exception_disconnect lib j cause srv).0
  handled :
      (srv : Server lib) (i : ℕ) (s s' : Service lib) (u u' : List (Upload lib))
      (msg : lib.messages.Message) (e : Option ServiceError)
      → srv.services i ≡ some s
      → process_incoming lib msg (s, u) ≡ done ((s', u'), e)
      → Reached lib srv
      → Reached lib (put_service lib i s' srv)
  pushed :
      (srv srv' : Server lib) (client : ℕ → lib.messages.Message → Option ServiceError)
      (now task : ℕ) (it : Upload lib) (b : Bool)
      → push_msg lib client now task it srv ≡ done (srv', b)
      → Reached lib srv
      → Reached lib srv'

module _ (lib : PacketLib) where
  -- However connections come and end, with whatever CONNECT messages and errors, whatever messages the
  -- services handle and whatever uploads are pushed, every key of the server's map leads to a live
  -- service of that device: one with a connection that is not closed and a session that can be stopped,
  -- which was not stopped itself.
  pub Reached-IsSound : (srv : Server lib) → Reached lib srv → IsSound lib srv
  Reached-IsSound srv (initial srv' e) = record {
    live = λ k i h. absurd (nothing k i h);
    known = λ k i h. absurd (nothing k i h);
  }
    where
      nothing : (k : Bytes) (i : ℕ) → find_key k srv'.svc_map ≢ some i
      nothing k i = unfold find_key in ground (arith, e)
  Reached-IsSound srv (connected srv' c inc r) =
      handle_connection-IsSound lib c inc srv' (Reached-IsSound srv' r)
  Reached-IsSound srv (disconnected srv' j cause r) =
      Fewer-IsSound lib srv' (exception_disconnect lib j cause srv').0
        (exception_disconnect-Fewer lib srv' j cause (Reached-IsSound srv' r))
        (Reached-IsSound srv' r)
  Reached-IsSound srv (handled srv' i s s' u u' msg e here f r) =
      put_service-IsSound lib srv' i s s' here
        (λ pk dn w. process_incoming-Lives lib pk dn msg (s, u) (s', u') e w f)
        (Reached-IsSound srv' r)
  Reached-IsSound srv (pushed srv' c client now task it b f r) =
      push_msg-IsSound lib client now task it srv' srv b f (Reached-IsSound srv' r)
