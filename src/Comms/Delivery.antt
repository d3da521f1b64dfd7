-- ===== src/Comms/Delivery.antt =====
-- comms/bus.go: proofs about what one subscriber sees over any sequence of calls.
pub mod Order
use mathlib.Core.List.{Sublistᴰ, append_assoc}
use mathlib.Core.List.Sublistᴰ
use rogojin.Prelude.{
  ℤ, ℕ, zero, suc, ◌+◌, ◌≤◌, ◌<◌, ◌≡◌, refl, sym, String, List, [], ◌∷◌, ◌++◌, Option, none, some,
  Bool, true, false, if◌then◌else◌, ite, ltb, ℕ_discrete, str_dec, arith, Bool-cases, inl, inr,
  length, length-append, List-cases, ap,
}
use rogojin.Prelude.Channels.{Chan, update, make_chan, take_chan, close_chan, try_send}
use rogojin.Comms.{
  Subscription, Bus, Call, new_bus, with_buffer, emit, on, take, hang_up, blank, step, run,
}
use rogojin.Comms.Wiring.{
  IsWired, feed_step, next_handle, offer, step-feeds, step-fresh, step-buffer, step-IsWired,
  new_bus-IsWired,
}

module _ {P : Type 0} where
  -- The calls replayed on one subscription alone, with no bus and no other subscriber: `h` is its
  -- handle and `n` the next one that Subscribe gives out.
  abbrev pub replay : ℕ → ℕ → List (Call P) → ℕ → Subscription P → Subscription P
  replay h buffer [] n s = s
  replay h buffer (c ∷ cs) n s = replay h buffer cs (next_handle c n) (feed_step h buffer n c s)

  run-replay_from :
      (cs : List (Call P)) (b : Bus P)
      → IsWired b
      → (h : ℕ) → (run cs b).feeds h ≡ replay h b.buffer cs b.fresh (b.feeds h)
  unfolding run
  run-replay_from [] b v h = refl
  run-replay_from (c ∷ cs) b v h =
      rw
        (
          run-replay_from cs (step c b) (step-IsWired c b v) h,
          step-buffer c b,
          step-fresh c b,
          step-feeds c b v h,
        )
        refl

  -- After any calls on a new bus, each subscription is what it would be were it alone: a queue of
  -- the capacity asked for, which loses what does not fit, and neither the other subscribers nor
  -- the other topics affect it.
  pub run-replay :
      (size : ℤ) (cs : List (Call P)) (h : ℕ)
      → (run cs (new_bus size)).feeds h ≡ replay h (with_buffer size) cs 0 blank
  unfolding new_bus
  run-replay size cs h = run-replay_from cs (new_bus size) (new_bus-IsWired size) h
