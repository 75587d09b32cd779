-- ===== src/Service/Server/Sound.antt =====
-- Every entry of the server's map stands for a service that is live, whatever happens.
use xmqtt.Prelude.{ℕ, Option, none, some}
use xmqtt.Prelude.{◌≡◌, ◌≢◌, sym, ap, subst, arith, inl, inr}
use xmqtt.Prelude.{find_key, Outcome, done, panicked, Option-cases}
use xmqtt.Message.{PacketLib}
use xmqtt.Service.State.{Service, device_disconnect}
use xmqtt.Service.Server.{Server, Cause, at_end, peer_gone, other, key_of, exception_disconnect}
use xmqtt.Service.Server.Leaving.{IsLive}
use xmqtt.Service.Server.Leaving.{reason_why, exception_disconnect-unlisted}
use xmqtt.Service.Server.Kept.{IsSound, Fewer, refl-Fewer, drop_service-Fewer, unlisted-Fewer}

module _ (lib : PacketLib) where
  open lib use {messages, connects}

  at_end-Fewer :
      (srv : Server lib) (i j : ℕ) (this : Service lib)
      → IsSound lib srv
      → srv.services j ≡ some this
      → find_key (key_of lib this) srv.svc_map ≡ some i
      → Fewer lib srv (exception_disconnect lib j (some at_end) srv).0
  unfolding exception_disconnect
  at_end-Fewer srv i j this w ej e =
      rw (ej, exception_disconnect)
        (rw (e, exception_disconnect)
          (drop_service-Fewer lib srv (key_of lib this) i device_disconnect w e))

  other-Fewer :
      (srv : Server lib) (i j : ℕ) (this : Service lib) (c : Cause)
      → IsSound lib srv
      → srv.services j ≡ some this
      → find_key (key_of lib this) srv.svc_map ≡ some i
      → c ≢ at_end
      → Fewer lib srv (exception_disconnect lib j (some c) srv).0
  other-Fewer srv i j this c w ej e n =
      subst (λ (p : Server lib × Outcome (Unit {0})). Fewer lib srv p.0)
        (sym (exception_disconnect-unlisted lib srv i j this l.it c ej e l.here n))
        (unlisted-Fewer lib srv (key_of lib this) i (reason_why lib c) l.it w e l.here)
    where
      l : IsLive lib srv (key_of lib this) i
      l = w.live (key_of lib this) i e

  -- Where the service under the key of `this` is `i`.
  caused-Fewer :
      (srv : Server lib) (i j : ℕ) (this : Service lib) (c : Cause)
      → IsSound lib srv
      → srv.services j ≡ some this
      → find_key (key_of lib this) srv.svc_map ≡ some i
      → Fewer lib srv (exception_disconnect lib j (some c) srv).0
  caused-Fewer srv i j this at_end w ej e = at_end-Fewer srv i j this w ej e
  caused-Fewer srv i j this peer_gone w ej e =
      other-Fewer srv i j this peer_gone w ej e (ground arith)
  caused-Fewer srv i j this other w ej e = other-Fewer srv i j this other w ej e (ground arith)

  no_service :
      (srv : Server lib) (j : ℕ) (cause : Option Cause)
      → srv.services j ≡ none
      → exception_disconnect lib j cause srv ≡ (srv, panicked)
  unfolding exception_disconnect
  no_service srv j cause e = ground (arith, e)

  no_entry :
      (srv : Server lib) (j : ℕ) (this : Service lib) (cause : Option Cause)
      → srv.services j ≡ some this
      → find_key (key_of lib this) srv.svc_map ≡ none
      → exception_disconnect lib j cause srv ≡ (srv, done tt)
  unfolding exception_disconnect
  no_entry srv j this cause ej e = ground (arith, ej, e)

  nil_error :
      (srv : Server lib) (i j : ℕ) (this : Service lib)
      → srv.services j ≡ some this
      → find_key (key_of lib this) srv.svc_map ≡ some i
      → exception_disconnect lib j none srv ≡ (srv, panicked)
  unfolding exception_disconnect
  nil_error srv i j this ej e = ground (arith, ej, e)

  unchanged-Fewer :
      (srv : Server lib) (p : Server lib × Outcome (Unit {0})) → p.0 ≡ srv → Fewer lib srv p.0
  unchanged-Fewer srv p e = subst (Fewer lib srv) (sym e) (refl-Fewer lib srv)

  pub exception_disconnect-Fewer :
      (srv : Server lib) (j : ℕ) (cause : Option Cause)
      → IsSound lib srv
      → Fewer lib srv (exception_disconnect lib j cause srv).0
  exception_disconnect-Fewer srv j cause w = elim (Option-cases (srv.services j)) [
    | inl e ↦
        unchanged-Fewer srv (exception_disconnect lib j cause srv)
          (ap (λ p. p.0) (no_service srv j cause e))
    | inr (this, e) ↦ elim (Option-cases (find_key (key_of lib this) srv.svc_map)) [
      | inl f ↦
          unchanged-Fewer srv (exception_disconnect lib j cause srv)
            (ap (λ p. p.0) (no_entry srv j this cause e f))
      | inr (i, f) ↦ found this i e f cause
    ]
  ]
    where
      found :
          (this : Service lib) (i : ℕ)
          → srv.services j ≡ some this
          → find_key (key_of lib this) srv.svc_map ≡ some i
          → (cause : Option Cause) → Fewer lib srv (exception_disconnect lib j cause srv).0
      found this i e f none =
          unchanged-Fewer srv (exception_disconnect lib j none srv)
            (ap (λ p. p.0) (nil_error srv i j this e f))
      found this i e f (some c) = caused-Fewer srv i j this c w e f
