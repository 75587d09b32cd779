-- ===== src/Service/Server/Accept/Sound.antt =====
-- A connection that is handled keeps the server's map leading to live services.
use xmqtt.Prelude.{ℕ, Bytes, true, false, Option, none, some, replicate}
use xmqtt.Prelude.{
  ◌≡◌, ◌≢◌, refl, sym, ap, subst, ◌∙◌, arith, ◌≤◌, bytes_eq_iff, Bool-cases, inl, inr, ◌⊎◌,
}
use xmqtt.Prelude.{find_key, find_key-put_key, done, Option-cases}
use xmqtt.Message.{PacketLib}
use xmqtt.Sessions.Session.{Session, init, copy_connect, new_session, stop, SessionError}
use xmqtt.Sessions.Provider.{new}
use xmqtt.Service.State.{Service, Conn}
use xmqtt.Service.Server.{Server, put_service, key_of}
use xmqtt.Service.Server.Leaving.{IsLive}
use xmqtt.Service.Server.Kept.{IsSound, Fewer, Fewer-IsSound, moved}
use xmqtt.Service.Server.Accept.Admitted.{init-stop, admitted}
use xmqtt.Service.Server.Accept.{admit}
use xmqtt.Service.Server.Accept.{get_session, identified, write_connack}

module _ (lib : PacketLib) where
  open lib use {messages, connects, wire, connack_of, username, password}
  open connects use {Connect, client_id, new_connect, connect_len, connect_encode, connect_decode}

  init_stops :
      (msg : Connect) (id : Bytes) (x : Session connects)
      → init connects msg (new_session connects id) ≡ (x, none)
      → (x' : Session connects) × (stop connects x ≡ done x')
  unfolding init copy_connect
  init_stops msg id x h = elim (Bool-cases (connect_encode msg (replicate (connect_len msg) 0)).1) [
    | inl p ↦ elim (Bool-cases (connect_decode new_connect written).1) [
      | inl q ↦ good (
          init-stop lib msg (connect_decode new_connect written).0 written id
            (ap (λ b. (written, b)) p) (ap (λ b. ((connect_decode new_connect written).0, b)) q))
      | inr q ↦ absurd (ground (arith, p, q, h))
    ]
    | inr p ↦ absurd (ground (arith, p, h))
  ]
    where
      written : Bytes
      written = (connect_encode msg (replicate (connect_len msg) 0)).0

      good :
          (x2 x' : Session connects) × (init connects msg (new_session connects id) ≡ (x2, none))
            × (stop connects x2 ≡ done x')
          → (x' : Session connects) × (stop connects x ≡ done x')
      good (x2, x', e, f) =
          (x', subst (λ y. stop connects y ≡ done x') (ap (λ p. p.0) (sym e ∙ h)) f)

  -- A change of one service that has no entry.
  record Only (srv srv' : Server lib) (i : ℕ) : Type 0 where
    pub map_of : srv'.svc_map ≡ srv.svc_map
    pub kept : (j : ℕ) → j ≢ i → srv'.services j ≡ srv.services j
    pub made : srv'.made ≡ srv.made

  Only-Fewer :
      (srv srv' : Server lib) (i : ℕ)
      → ((k : Bytes) (j : ℕ) → find_key k srv.svc_map ≡ some j → j ≢ i)
      → Only srv srv' i
      → Fewer lib srv srv'
  Only-Fewer srv srv' i spare o = record {
    entry = λ k j e. back k j e;
    same = λ k j e. o.kept j (spare k j (back k j e));
    made = omega (arith, o.made);
  }
    where
      back :
          (k : Bytes) (j : ℕ) → find_key k srv'.svc_map ≡ some j → find_key k srv.svc_map ≡ some j
      back k j e = subst (λ m. find_key k m ≡ some j) o.map_of e

  -- The server once the new service has its session.
  abbrev with_session : ℕ → Service lib → Session connects → Bytes → Server lib → Server lib
  with_session i s x cid srv =
      put_service lib i (record s { sess = some x })
        (record srv { sessions = (new ℕ (λ k. i) cid srv.sessions).0 })

  module _ (c : Conn) (i : ℕ) (req : Connect) (srv : Server lib) (s : Service lib)
      (here : srv.services i ≡ some s) (closed : s.sess ≡ none) where
    abbrev cid : Bytes
    cid = client_id (identified lib i req)

    abbrev begun : Session connects × Option SessionError
    begun = init connects (identified lib i req) (new_session connects cid)

    admit_unmanaged : srv.managed ≡ false → (admit lib c i req srv).0 ≡ srv
    unfolding admit get_session
    admit_unmanaged m = ground (arith, here, closed, m)

    admit_failed :
        (e : SessionError)
        → srv.managed ≡ true
        → begun.1 ≡ some e
        → (admit lib c i req srv).0 ≡ with_session i s begun.0 cid srv
    unfolding admit get_session
    admit_failed e m f = ground (arith, here, closed, m, f)

    admit_unwritten :
        srv.managed ≡ true
        → begun.1 ≡ none
        → (write_connack lib 0 c).1 ≡ false
        → (admit lib c i req srv).0 ≡ with_session i s begun.0 cid srv
    unfolding admit get_session
    admit_unwritten m f g = ground (arith, here, closed, m, f, g)

    admit_written :
        srv.managed ≡ true
        → begun.1 ≡ none
        → (write_connack lib 0 c).1 ≡ true
        → (admit lib c i req srv).0 ≡ admitted lib i (write_connack lib 0 c).0 s begun.0 cid srv
    unfolding admit get_session admitted
    admit_written m f g = ground (arith, here, closed, m, f, g)

    module _ (spare : (k : Bytes) (j : ℕ) → find_key k srv.svc_map ≡ some j → j ≢ i)
        (le : i ≤ srv.made) (runs : s.ended ≡ false) where
      with_session-IsSound :
          (x : Session connects) → IsSound lib srv → IsSound lib (with_session i s x cid srv)
      with_session-IsSound x w =
          Fewer-IsSound lib srv (with_session i s x cid srv)
            (Only-Fewer srv (with_session i s x cid srv) i spare
              (record { map_of = refl; kept = λ j n. ground (arith, n); made = refl }))
            w

      admitted-live :
          (c' : Conn) (x x' : Session connects)
          → stop connects x ≡ done x'
          → IsLive lib (admitted lib i c' s x cid srv) (key_of lib s) i
      unfolding admitted
      admitted-live c' x x' e = record {
        it = record s { sess = some x; conn = some c' };
        here = ground arith;
        keyed = refl;
        running = runs;
        conn = c';
        connected = refl;
        session = x;
        opened = refl;
        stopped = x';
        stops = e;
      }

      -- An entry after the admission is the new one or an old one.
      entry_of :
          (c' : Conn) (x : Session connects) (k : Bytes) (j : ℕ)
          → find_key k (admitted lib i c' s x cid srv).svc_map ≡ some j
          → ((k ≡ key_of lib s) × (j ≡ i)) ⊎ (find_key k srv.svc_map ≡ some j)
      unfolding admitted
      entry_of c' x k j e =
          ground (
            arith,
            e,
            find_key-put_key k (key_of lib s) i srv.svc_map,
            bytes_eq_iff k (key_of lib s),
          )

      kept_service :
          (c' : Conn) (x : Session connects) (j : ℕ)
          → j ≢ i
          → (admitted lib i c' s x cid srv).services j ≡ srv.services j
      unfolding admitted
      kept_service c' x j n = ground (arith, n)

      same_made :
          (c' : Conn) (x : Session connects) → (admitted lib i c' s x cid srv).made ≡ srv.made
      unfolding admitted
      same_made c' x = refl

      admitted-IsSound :
          (c' : Conn) (x x' : Session connects)
          → stop connects x ≡ done x'
          → IsSound lib srv
          → IsSound lib (admitted lib i c' s x cid srv)
      admitted-IsSound c' x x' e w = record { live = live; known = known }
        where
          live :
              (k : Bytes) (j : ℕ)
              → find_key k (admitted lib i c' s x cid srv).svc_map ≡ some j
              → IsLive lib (admitted lib i c' s x cid srv) k j
          live k j f = elim (entry_of c' x k j f) [
            | inl (a, b) ↦
                subst (λ t. IsLive lib (admitted lib i c' s x cid srv) t j) (sym a)
                  (subst (IsLive lib (admitted lib i c' s x cid srv) (key_of lib s)) (sym b)
                    (admitted-live c' x x' e))
            | inr old ↦
                moved lib srv (admitted lib i c' s x cid srv) k j
                  (kept_service c' x j (spare k j old)) (w.live k j old)
          ]

          known :
              (k : Bytes) (j : ℕ)
              → find_key k (admitted lib i c' s x cid srv).svc_map ≡ some j
              → j ≤ (admitted lib i c' s x cid srv).made
          known k j f = elim (entry_of c' x k j f) [
            | inl (a, b) ↦ omega (arith, b, le, same_made c' x)
            | inr old ↦ omega (arith, w.known k j old, same_made c' x)
          ]

      pub admit-IsSound : IsSound lib srv → IsSound lib (admit lib c i req srv).0
      admit-IsSound w = elim (Bool-cases srv.managed) [
        | inr m ↦ subst (IsSound lib) (sym (admit_unmanaged m)) w
        | inl m ↦ elim (Option-cases begun.1) [
          | inr (e, f) ↦
              subst (IsSound lib) (sym (admit_failed e m f)) (with_session-IsSound begun.0 w)
          | inl f ↦ elim (Bool-cases (write_connack lib 0 c).1) [
            | inr g ↦
                subst (IsSound lib) (sym (admit_unwritten m f g)) (with_session-IsSound begun.0 w)
            | inl g ↦
                let (x', e) =
                  init_stops (identified lib i req) cid begun.0 (ap (λ o. (begun.0, o)) f) in
                subst (IsSound lib) (sym (admit_written m f g))
                  (admitted-IsSound (write_connack lib 0 c).0 begun.0 x' e w)
          ]
        ]
      ]
