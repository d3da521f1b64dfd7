-- ===== src/Comms.antt =====
-- comms/bus.go and comms/topic.go: the in-memory bus. A subscription is a handle into the store
-- `feeds`; the sets of subscriptions in `subs` hold handles, as the code's hold pointers.
pub mod Wiring
pub mod Delivery
mod Tests
use rogojin.Prelude.{
  ℕ, ◌+◌, String, List, [], ◌∷◌, Option, none, some, Bool, true, false, if◌then◌else◌, ite, ltb,
  ℕ_discrete, ℤ, pos, negsuc,
}
use rogojin.Prelude.Map.{Map, lookup, insert, delete}
use rogojin.Prelude.Handles.{remove}
use rogojin.Prelude.Channels.{Chan, update, make_chan, take_chan, close_chan, try_send}

-- `once` is whether the sync.Once of Close has run.
pub record Subscription (P : Type 0) : Type 0 where
  topic : String
  ch : Chan P
  once : Bool

pub record Bus (P : Type 0) : Type 0 where
  subs : Map (List ℕ)
  buffer : ℕ
  feeds : ℕ → Subscription P
  fresh : ℕ

abbrev pub default_buffer : ℕ
default_buffer = 16

-- WithBuffer: the capacity, where values below 1 are raised to 1.
unfoldable pub with_buffer : ℤ → ℕ
with_buffer (pos n) = if ltb n 1 then 1 else n
with_buffer (negsuc n) = 1

-- `subs[topic]`, where a nil set is the empty one.
unfoldable pub members : Option (List ℕ) → List ℕ
members none = []
members (some is) = is

-- The set stored under the topic, where an empty one is pruned.
unfoldable pub store_members : String → List ℕ → Map (List ℕ) → Map (List ℕ)
store_members t [] subs = delete t subs
store_members t (i ∷ is) subs = insert t (i ∷ is) subs

abbrev count_drop : Bool → ℕ → ℕ
count_drop true n = n
count_drop false n = n + 1

-- A typed topic's Emit and On are Publish and Subscribe under its name.
pub data Call (P : Type 0) : Type 0 where
  emit : String → P → Call P
  on : String → Call P
  take : ℕ → Call P
  hang_up : ℕ → Call P

module _ {P : Type 0} where
  -- What a handle that was never given out points to: nothing is attached to it.
  abbrev pub blank : Subscription P
  blank = record {
    topic = "";
    ch = record { cap = 0; queue = []; taken = []; closed = true; panicked = false };
    once = true;
  }

  -- NewBus with WithBuffer.
  unfoldable pub new_bus : ℤ → Bus P
  new_bus n = record { subs = []; buffer = with_buffer n; feeds = λ _. blank; fresh = 0 }

  -- The loop of Publish under the lock: each subscriber is sent the payload or counted as a drop.
  unfoldable pub publish_each : P → List ℕ → (ℕ → Subscription P) → ℕ → ℕ × (ℕ → Subscription P)
  publish_each p [] feeds dropped = (dropped, feeds)
  publish_each p (i ∷ is) feeds dropped =
      let (ch, sent) = try_send p (feeds i).ch in
      publish_each p is (update feeds i (record (feeds i) { ch = ch })) (count_drop sent dropped)

  -- Publish: how often the drop handler is called, and the bus after it.
  unfoldable pub publish : String → P → Bus P → ℕ × Bus P
  unfolding publish_each
  publish t p b =
      let (dropped, feeds) = publish_each p (members (lookup t b.subs)) b.feeds 0 in
      (dropped, record b { feeds = feeds })

  -- Subscribe: the new handle, and the bus after it.
  unfoldable pub subscribe : String → Bus P → ℕ × Bus P
  subscribe t b = (
    b.fresh,
    record b {
      subs = insert t (b.fresh ∷ members (lookup t b.subs)) b.subs;
      feeds = update b.feeds b.fresh (record { topic = t; ch = make_chan b.buffer; once = false });
      fresh = b.fresh + 1;
    },
  )

  -- A receive from the handle's channel `C()`.
  unfoldable pub receive : ℕ → Bus P → Bus P
  receive i b = record b {
    feeds = update b.feeds i (record (b.feeds i) { ch = take_chan (b.feeds i).ch });
  }

  -- What Close runs once.
  unfoldable pub detach : ℕ → Bus P → Bus P
  detach i b =
      let t = (b.feeds i).topic in
      record b {
        subs = store_members t (remove i (members (lookup t b.subs))) b.subs;
        feeds =
            update b.feeds i (record (b.feeds i) { ch = close_chan (b.feeds i).ch; once = true });
      }

  -- Close of a subscription.
  unfoldable pub close : ℕ → Bus P → Bus P
  unfolding detach
  close i b = if (b.feeds i).once then b else detach i b

  unfoldable pub step : Call P → Bus P → Bus P
  unfolding publish subscribe receive close
  step (emit t p) b = (publish t p b).1
  step (on t) b = (subscribe t b).1
  step (take i) b = receive i b
  step (hang_up i) b = close i b

  unfoldable pub run : List (Call P) → Bus P → Bus P
  unfolding step
  run [] b = b
  run (c ∷ cs) b = run cs (step c b)
