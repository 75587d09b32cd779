-- ===== src/Sessions/Manager.antt =====
-- `SessionsProvider` and `Manager` of sessions/sessions.go, over any provider, and the one of
-- sessions/memprovider.go.
use xmqtt.Prelude.{ℕ, Bytes, Bool, true, Option, none, some, [], ◌≡◌, refl, ap, if◌then◌else◌, ◌==◌}
use xmqtt.Prelude.{length, bytes_eq}
use xmqtt.Sessions.Provider as Mem

-- The methods of a provider, and what the server relies on: a session is made from its id, it is found
-- under that id until it is deleted or the provider is closed, and no method changes what is found
-- under another id. A method that returns an error gives `none` or `false`.
pub record SessionsProvider (S : Type 0) (make : Bytes → S) : Type 1 where
  pub State : Type 0
  pub new : Bytes → State → State × Option S
  pub get : Bytes → State → Option S
  pub del : Bytes → State → State
  pub save : Bytes → State → State × Bool
  pub count : State → ℕ
  pub close : State → State × Bool
  pub made : (id : Bytes) (st : State) → (new id st).1 ≡ some (make id)
  pub after_new :
      (k id : Bytes) (st : State)
      → get k (new id st).0 ≡ (if bytes_eq k id then some (make id) else get k st)
  pub after_del :
      (k id : Bytes) (st : State) → get k (del id st) ≡ (if bytes_eq k id then none else get k st)
  pub after_save : (k id : Bytes) (st : State) → get k (save id st).0 ≡ get k st
  pub after_close : (k : Bytes) (st : State) → get k (close st).0 ≡ none

abbrev pub mem_provider : (S : Type 0) (make : Bytes → S) → SessionsProvider S make
mem_provider S make = record {
  State = Mem.Store S;
  new = λ id st. let (st', s) = Mem.new S make id st in (st', some s);
  get = λ id st. Mem.get S id st;
  del = λ id st. Mem.del S id st;
  save = λ id st. (st, true);
  count = λ st. Mem.count S st;
  close = λ st. (Mem.close S st, true);
  made = λ id st. ap some (Mem.new_made S make id st);
  after_new = λ k id st. (Mem.get_law S make id k st).0;
  after_del = λ k id st. (Mem.get_law S make id k st).1;
  after_save = λ k id st. refl;
  after_close = λ k st. Mem.get-close S make k st;
}

-- A `Manager` holds a provider, and its methods call the one of the same name.
module _ {S : Type 0} {make : Bytes → S} (p : SessionsProvider S make) where
  open p use {State}

  -- `sessionId`: 15 random bytes in base64, or the empty id where there are none to be had.
  abbrev pub session_id : (Bytes → Bytes) → Option Bytes → Bytes
  session_id base64 none = []
  session_id base64 (some b) = base64 b

  -- The id that `New` uses.
  abbrev pub named : (Bytes → Bytes) → Option Bytes → Bytes → Bytes
  named base64 random id = if length id == 0 then session_id base64 random else id

  unfoldable pub new : (Bytes → Bytes) → Option Bytes → Bytes → State → State × Option S
  new base64 random id st = p.new (named base64 random id) st

  unfoldable pub get : Bytes → State → Option S
  get id st = p.get id st

  unfoldable pub del : Bytes → State → State
  del id st = p.del id st

  unfoldable pub save : Bytes → State → State × Bool
  save id st = p.save id st

  unfoldable pub count : State → ℕ
  count st = p.count st

  unfoldable pub close : State → State × Bool
  close st = p.close st
