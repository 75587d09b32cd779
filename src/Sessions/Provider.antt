-- ===== src/Sessions/Provider.antt =====
-- `memProvider` of sessions/memprovider.go, and `Register`, `Unregister` and the `Manager` of
-- sessions/sessions.go. A session is any type here.
use xmqtt.Prelude.{ℕ, Bytes, Option, none, some, List, [], if◌then◌else◌}
use xmqtt.Prelude.{Outcome, done, panicked, find_key, put_key, delete_key, find_key-put_key}
use xmqtt.Prelude.{find_key-delete_key, length, bytes_eq, ◌≡◌, refl}

module _ (S : Type 0) where
  -- The field `st`; a session is created from its id.
  abbrev pub Store : Type 0
  Store = List (Bytes × S)

  module _ (make : Bytes → S) where
    pub new : Bytes → Store → Store × S
    new id st = (put_key id (make id) st, make id)

  pub get : Bytes → Store → Option S
  get id st = find_key id st

  pub del : Bytes → Store → Store
  del id st = delete_key id st

  pub count : Store → ℕ
  count st = length st

  pub close : Store → Store
  close st = []

-- `Register` panics on a nil provider and on a name that is taken.
module _ (P : Type 0) where
  pub register : Bytes → Option P → List (Bytes × P) → Outcome (List (Bytes × P))
  register name none m = panicked
  register name (some p) m = elim (find_key name m) [
    | some q ↦ panicked
    | none ↦ done (put_key name p m)
  ]

  pub unregister : Bytes → List (Bytes × P) → List (Bytes × P)
  unregister name m = delete_key name m

  -- The provider of the manager, or the error "unknown provider".
  pub new_manager : Bytes → List (Bytes × P) → Option P
  new_manager name m = find_key name m

module _ (S : Type 0) (make : Bytes → S) where
  -- A session that is created is found under its id, one that is deleted is not, and neither changes
  -- what is found under any other id.
  pub get_law :
      (id k : Bytes) (st : Store S)
      → (get S k (new S make id st).0 ≡ (if bytes_eq k id then some (make id) else get S k st))
        × (get S k (del S id st) ≡ (if bytes_eq k id then none else get S k st))
  unfolding get new del
  get_law id k st = (find_key-put_key k id (make id) st, find_key-delete_key k id st)

  pub new_made : (id : Bytes) (st : Store S) → (new S make id st).1 ≡ make id
  unfolding new
  new_made id st = refl

  pub get-close : (k : Bytes) (st : Store S) → get S k (close S st) ≡ none
  unfolding get close find_key
  get-close k st = refl
