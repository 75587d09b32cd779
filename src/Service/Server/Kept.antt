-- ===== src/Service/Server/Kept.antt =====
-- What a server keeps when a service leaves: the other entries and their services.
use xmqtt.Prelude.{ℕ, Bytes, true, false, some}
use xmqtt.Prelude.{
  ◌≡◌, ◌≢◌, refl, sym, ap, subst, ◌∙◌, arith, ◌≤◌, bytes_eq, bytes_eq_iff, Bool-cases, inl, inr,
}
use xmqtt.Prelude.{find_key, delete_key, find_key-delete_key, Outcome}
use xmqtt.Message.{PacketLib}
use xmqtt.Service.State.{Service, Reason}
use xmqtt.Service.Server.{Server, key_of, drop_service}
use xmqtt.Service.Server.Leaving.{IsLive, drop_service-Leaves, drop_service-unlisted}
use xmqtt.Service.Server.Leaving.{unlisted}

module _ (lib : PacketLib) where
  open lib use {messages, connects}

  -- An entry of the map leads to a live service of that key, which was made before.
  pub record IsSound (srv : Server lib) : Type 0 where
    pub live : (k : Bytes) (i : ℕ) → find_key k srv.svc_map ≡ some i → IsLive lib srv k i
    pub known : (k : Bytes) (i : ℕ) → find_key k srv.svc_map ≡ some i → i ≤ srv.made

  -- A server with fewer entries, whose services are as they were.
  pub record Fewer (srv srv' : Server lib) : Type 0 where
    pub entry :
        (k : Bytes) (i : ℕ) → find_key k srv'.svc_map ≡ some i → find_key k srv.svc_map ≡ some i
    pub same :
        (k : Bytes) (i : ℕ) → find_key k srv'.svc_map ≡ some i → srv'.services i ≡ srv.services i
    pub made : srv.made ≤ srv'.made

  pub moved :
      (srv srv' : Server lib) (k : Bytes) (i : ℕ)
      → srv'.services i ≡ srv.services i
      → IsLive lib srv k i
      → IsLive lib srv' k i
  moved srv srv' k i e l = record {
    it = l.it;
    here = e ∙ l.here;
    keyed = l.keyed;
    running = l.running;
    conn = l.conn;
    connected = l.connected;
    session = l.session;
    opened = l.opened;
    stopped = l.stopped;
    stops = l.stops;
  }

  pub Fewer-IsSound : (srv srv' : Server lib) → Fewer srv srv' → IsSound srv → IsSound srv'
  Fewer-IsSound srv srv' f w = record {
    live = λ k i e. moved srv srv' k i (f.same k i e) (w.live k i (f.entry k i e));
    known = λ k i e. omega (arith, w.known k i (f.entry k i e), f.made);
  }

  pub refl-Fewer : (srv : Server lib) → Fewer srv srv
  refl-Fewer srv = record { entry = λ k i e. e; same = λ k i e. refl; made = omega arith }

  -- The server without the entry of a live service, of which nothing else is asked.
  pub record Without (srv srv' : Server lib) (k : Bytes) (i : ℕ) : Type 0 where
    pub map_of : srv'.svc_map ≡ delete_key k srv.svc_map
    pub kept : (j : ℕ) → j ≢ i → srv'.services j ≡ srv.services j
    pub made : srv'.made ≡ srv.made

  -- Two keys do not share a live service.
  pub one_key :
      (srv : Server lib) (k l : Bytes) (i : ℕ) → IsLive lib srv k i → IsLive lib srv l i → k ≡ l
  one_key srv k l i a b = sym a.keyed ∙ ap (key_of lib) same ∙ b.keyed
    where
      same : a.it ≡ b.it
      same = ground (arith, a.here, b.here)

  pub Without-Fewer :
      (srv srv' : Server lib) (k : Bytes) (i : ℕ)
      → IsSound srv
      → find_key k srv.svc_map ≡ some i
      → Without srv srv' k i
      → Fewer srv srv'
  Without-Fewer srv srv' k i w e o = record {
    entry = λ l j h. (found l j h).1;
    same = λ l j h. o.kept j (apart l j h);
    made = omega (arith, o.made);
  }
    where
      found :
          (l : Bytes) (j : ℕ)
          → find_key l srv'.svc_map ≡ some j
          → (bytes_eq l k ≡ false) × (find_key l srv.svc_map ≡ some j)
      found l j h = ground (arith, h, o.map_of, find_key-delete_key l k srv.svc_map)

      apart : (l : Bytes) (j : ℕ) → find_key l srv'.svc_map ≡ some j → j ≢ i
      apart l j h s = ground (arith, (found l j h).0, bytes_eq_iff l k, one)
        where
          one : l ≡ k
          one =
              one_key srv l k i (subst (IsLive lib srv l) s (w.live l j (found l j h).1))
                (w.live k i e)

  pub unlisted-Without :
      (srv : Server lib) (k : Bytes) (i : ℕ) (r : Reason) (l : IsLive lib srv k i)
      → Without srv (unlisted lib i l.it r srv) k i
  unlisted-Without srv k i r l = record {
    map_of = ap (λ t. delete_key t srv.svc_map) l.keyed;
    kept = λ j n. ground (arith, n);
    made = refl;
  }

  pub drop_service-Without :
      (srv : Server lib) (k : Bytes) (i : ℕ) (r : Reason)
      → IsLive lib srv k i
      → Without srv (drop_service lib i r srv).0 k i
  drop_service-Without srv k i r l = elim (Bool-cases srv.managed) [
    | inl m ↦ managed m
    | inr m ↦ unmanaged m
  ]
    where
      managed : srv.managed ≡ true → Without srv (drop_service lib i r srv).0 k i
      managed m =
          let (srv', runs, leaves) = drop_service-Leaves lib srv k i r l m in
          subst (λ (p : Server lib × Outcome (Unit {0})). Without srv p.0 k i) (sym runs)
            (record { map_of = leaves.map_of; kept = leaves.kept; made = leaves.made })

      unmanaged : srv.managed ≡ false → Without srv (drop_service lib i r srv).0 k i
      unmanaged m =
          subst (λ (p : Server lib × Outcome (Unit {0})). Without srv p.0 k i)
            (sym (drop_service-unlisted lib srv k i r l m)) (unlisted-Without srv k i r l)

  pub drop_service-Fewer :
      (srv : Server lib) (k : Bytes) (i : ℕ) (r : Reason)
      → IsSound srv
      → find_key k srv.svc_map ≡ some i
      → Fewer srv (drop_service lib i r srv).0
  drop_service-Fewer srv k i r w e =
      Without-Fewer srv (drop_service lib i r srv).0 k i w e
        (drop_service-Without srv k i r (w.live k i e))

  pub unlisted-Fewer :
      (srv : Server lib) (k : Bytes) (i : ℕ) (r : Reason) (it : Service lib)
      → IsSound srv
      → find_key k srv.svc_map ≡ some i
      → srv.services i ≡ some it
      → Fewer srv (unlisted lib i it r srv)
  unlisted-Fewer srv k i r it w e h =
      Without-Fewer srv (unlisted lib i it r srv) k i w e
        (subst (λ s. Without srv (unlisted lib i s r srv) k i) same (unlisted-Without srv k i r l))
    where
      l : IsLive lib srv k i
      l = w.live k i e

      same : l.it ≡ it
      same = ground (arith, l.here, h)
