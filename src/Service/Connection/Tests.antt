-- ===== src/Service/Connection/Tests.antt =====
-- The notification of watchers at concrete calls.
use xmqtt.Prelude.{[], ◌∷◌, ◌≡◌, ◌==◌, not, ◌&&◌}
use xmqtt.Service.Connection.{get_notify_chan, calls, update, watch, new_manager, shutdown, is_in}
use xmqtt.Service.Connection.{asks_other, get_notify_chan-calls}

-- Watched while connecting, and then ready.
get_notify_chan-calls_example :
    let (m, c) = get_notify_chan (calls (update 1 ∷ watch ∷ []) new_manager) in
    is_in c (calls (update 1 ∷ update 2 ∷ []) m).closed
    ≡ (not (m.state == shutdown) && asks_other m.state (update 1 ∷ update 2 ∷ []))
get_notify_chan-calls_example =
    get_notify_chan-calls (update 1 ∷ watch ∷ []) (update 1 ∷ update 2 ∷ [])
