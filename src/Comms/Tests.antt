-- ===== src/Comms/Tests.antt =====
-- comms/bus.go: the theorems at concrete calls.
use mathlib.Core.List.{Sublistᴰ}
use rogojin.Prelude.{pos, ℕ, ◌≡◌, ◌≤◌, List, [], ◌∷◌, ◌++◌, none, false, length}
use rogojin.Comms.{Call, new_bus, with_buffer, emit, on, take, hang_up, blank, run}
use rogojin.Comms.Delivery.{replay, run-replay}
use rogojin.Comms.Delivery.Order.{sent, run-IsInOrder}

abbrev two_topics : List (Call ℕ)
two_topics =
    on "orders"
    ∷ on "mail"
    ∷ emit "orders" 7
    ∷ emit "mail" 8
    ∷ emit "orders" 9
    ∷ take 0
    ∷ hang_up 0
    ∷ emit "orders" 10
    ∷ []

run-replay_example :
    (run two_topics (new_bus (pos 1))).feeds 0 ≡ replay 0 (with_buffer (pos 1)) two_topics 0 blank
run-replay_example = run-replay (pos 1) two_topics 0

run-IsInOrder_example :
    Sublistᴰ
      (((run two_topics (new_bus (pos 1))).feeds 0).ch.taken
        ++ ((run two_topics (new_bus (pos 1))).feeds 0).ch.queue)
      (sent 0 two_topics 0 none)
    × (length ((run two_topics (new_bus (pos 1))).feeds 0).ch.queue ≤ with_buffer (pos 1))
    × (((run two_topics (new_bus (pos 1))).feeds 0).ch.panicked ≡ false)
run-IsInOrder_example = run-IsInOrder (pos 1) two_topics 0
