-- ===== src/Service/Server/Accept/Connected.antt =====
-- What a server keeps when a connection is handled.
use xmqtt.Prelude.{ℕ, Bytes, true, Option, none, some, length, if◌then◌else◌, ◌==◌}
use xmqtt.Prelude.{◌≡◌, ◌≢◌, refl, sym, ap, subst, ◌∙◌, arith, ◌+◌, inl, inr, if_both, not}
use xmqtt.Prelude.{find_key, Outcome, done, panicked, Option-cases}
use xmqtt.Message.{PacketLib}
use xmqtt.Service.State.{Conn, tick_off}
use xmqtt.Service.Server.{Server, device_key, drop_service, check_configuration, Ran}
use xmqtt.Service.Server.Kept.{
  IsSound, Fewer, Fewer-IsSound, drop_service-Fewer, drop_service-Without, Without,
}
use xmqtt.Service.Server.Accept.Admitted.{started}
use xmqtt.Service.Server.Accept.Sound.{admit-IsSound}
use xmqtt.Service.Server.Accept.{
  Answer, Incoming, request, bad_code, unreadable, handle_connection, with_request, take_in,
  once_dropped, admit,
}
use xmqtt.Service.Server.Accept.{
  fresh_service, kept_alive, two_parts, split_by, write_connack, refuse, bad_username, bad_password,
}
use xmqtt.Service.Server.Accept.{closing, unread_connect, not_written}

module _ (lib : PacketLib) where
  open lib use {messages, connects, username, password}
  open connects use {Connect}

  started-Fewer :
      (c : Conn) (dn pk : Bytes) (srv : Server lib)
      → IsSound lib srv
      → Fewer lib srv (started lib c dn pk srv)
  unfolding started
  started-Fewer c dn pk srv w = record {
    entry = λ k i e. e;
    same = λ k i e. ground (arith, w.known k i e);
    made = omega arith;
  }

  new_service :
      (c : Conn) (dn pk : Bytes) (srv : Server lib)
      → ((started lib c dn pk srv).services (srv.made + 1) ≡ some (fresh_service lib c pk dn))
        × ((started lib c dn pk srv).made ≡ srv.made + 1)
        × ((started lib c dn pk srv).svc_map ≡ srv.svc_map)
  unfolding started
  new_service c dn pk srv = (ground arith, refl, refl)

  module _ (c : Conn) (req : Connect) (dn pk : Bytes) (srv : Server lib) (w : IsSound lib srv) where
    abbrev new_id : ℕ
    new_id = srv.made + 1

    abbrev begun : Server lib
    begun = started lib c dn pk srv

    begun-IsSound : IsSound lib begun
    begun-IsSound = Fewer-IsSound lib srv begun (started-Fewer c dn pk srv w) w

    -- The new service has no entry yet, where a server has no other entries than before.
    spare :
        (srv' : Server lib)
        → Fewer lib begun srv'
        → (k : Bytes) (j : ℕ) → find_key k srv'.svc_map ≡ some j
        → j ≢ new_id
    spare srv' f k j e = omega (
      arith,
      w.known k j (subst (λ m. find_key k m ≡ some j) (new_service c dn pk srv).2 (f.entry k j e)),
    )

    take_in_free :
        find_key (device_key pk dn) srv.svc_map ≡ none
        → take_in lib c req pk dn srv ≡ admit lib c new_id req begun
    unfolding take_in started
    take_in_free e = rw (e, take_in) refl

    take_in_held :
        (j : ℕ)
        → find_key (device_key pk dn) srv.svc_map ≡ some j
        → take_in lib c req pk dn srv
          ≡ once_dropped lib c new_id req (drop_service lib j tick_off begun)
    unfolding take_in started
    take_in_held j e = rw (e, take_in) refl

    once_dropped-IsSound :
        (j : ℕ)
        → find_key (device_key pk dn) srv.svc_map ≡ some j
        → (p : Ran lib) → Fewer lib begun p.0
        → Without lib begun p.0 (device_key pk dn) j
        → IsSound lib (once_dropped lib c new_id req p).0
    once_dropped-IsSound j e (srv', panicked) f o = Fewer-IsSound lib begun srv' f begun-IsSound
    once_dropped-IsSound j e (srv', done t) f o =
        admit-IsSound lib c new_id req srv' (fresh_service lib c pk dn)
          (o.kept new_id (omega (arith, w.known (device_key pk dn) j e))
            ∙ (new_service c dn pk srv).0)
          refl (spare srv' f) (omega (arith, o.made, (new_service c dn pk srv).1)) refl
          (Fewer-IsSound lib begun srv' f begun-IsSound)

    take_in-IsSound : IsSound lib (take_in lib c req pk dn srv).0
    take_in-IsSound = elim (Option-cases (find_key (device_key pk dn) srv.svc_map)) [
      | inl e ↦
          subst (λ (p : Server lib × Outcome Answer). IsSound lib p.0) (sym (take_in_free e))
            (admit-IsSound lib c new_id req begun (fresh_service lib c pk dn)
              (new_service c dn pk srv).0 refl
              (λ k j f. omega (
                arith,
                w.known k j (subst (λ m. find_key k m ≡ some j) (new_service c dn pk srv).2 f),
              ))
              (omega (arith, (new_service c dn pk srv).1)) refl begun-IsSound)
      | inr (j, e) ↦
          subst (λ (p : Server lib × Outcome Answer). IsSound lib p.0) (sym (take_in_held j e))
            (once_dropped-IsSound j e (drop_service lib j tick_off begun)
              (drop_service-Fewer lib begun (device_key pk dn) j tick_off begun-IsSound
                (listed j e))
              (drop_service-Without lib begun (device_key pk dn) j tick_off
                (begun-IsSound.live (device_key pk dn) j (listed j e))))
    ]
      where
        listed :
            (j : ℕ)
            → find_key (device_key pk dn) srv.svc_map ≡ some j
            → find_key (device_key pk dn) begun.svc_map ≡ some j
        listed j e =
            subst (λ m. find_key (device_key pk dn) m ≡ some j) (sym (new_service c dn pk srv).2) e

  with_request-IsSound :
      (c : Conn) (req : Connect) (srv : Server lib)
      → IsSound lib srv
      → IsSound lib (with_request lib c req srv).0
  unfolding with_request
  with_request-IsSound c req srv w = named (two_parts (split_by b'&' (username req)))
    where
      named :
          (o : Option (Bytes × Bytes))
          → IsSound lib
              (elim o as (λ _. Server lib × Outcome Answer) [
                | none ↦ (srv, done (refuse lib bad_username c))
                | some (device_name, product_key) ↦
                    if length (password req) == 0
                    then (srv, done (refuse lib bad_password c))
                    else take_in lib c req product_key device_name srv
              ]).0
      named none = w
      named (some (dn, pk)) =
          if_both (λ (p : Server lib × Outcome Answer). IsSound lib p.0)
            (length (password req) == 0) w (take_in-IsSound c req dn pk srv w)

  check_configuration-Fewer : (srv : Server lib) → Fewer lib srv (check_configuration lib srv).0
  check_configuration-Fewer srv = record {
    entry = λ k i e. subst (λ m. find_key k m ≡ some i) same.0 e;
    same = λ k i e. ap (λ f. f i) same.1;
    made = omega (arith, same.2);
  }
    where
      same :
          ((check_configuration lib srv).0.svc_map ≡ srv.svc_map)
          × ((check_configuration lib srv).0.services ≡ srv.services)
          × ((check_configuration lib srv).0.made ≡ srv.made)
      same = unfold check_configuration in ground arith

  pub handle_connection-IsSound :
      (c : Conn) (inc : Incoming Connect) (srv : Server lib)
      → IsSound lib srv
      → IsSound lib (handle_connection lib c inc srv).0
  unfolding handle_connection
  handle_connection-IsSound c inc srv w =
      if_both (λ (p : Server lib × Outcome Answer). IsSound lib p.0)
        (not (check_configuration lib srv).1) w' (of inc)
    where
      w' : IsSound lib (check_configuration lib srv).0
      w' = Fewer-IsSound lib srv (check_configuration lib srv).0 (check_configuration-Fewer srv) w

      of :
          (inc : Incoming Connect)
          → IsSound lib
              (elim inc as (λ _. Server lib × Outcome Answer) [
                | unreadable ↦ ((check_configuration lib srv).0, done (closing unread_connect c))
                | bad_code n ↦ (
                  (check_configuration lib srv).0,
                  done (
                      if (write_connack lib n c).1
                      then record {
                        error = none;
                        service = none;
                        conn = (write_connack lib n c).0;
                        is_open = true;
                      }
                      else closing not_written (write_connack lib n c).0),
                )
                | request req ↦
                    with_request lib c (kept_alive lib req) (check_configuration lib srv).0
              ]).0
      of unreadable = w'
      of (bad_code n) = w'
      of (request req) =
          with_request-IsSound c (kept_alive lib req) (check_configuration lib srv).0 w'
