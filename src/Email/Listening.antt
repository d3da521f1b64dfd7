-- ===== src/Email/Listening.antt =====
-- email/manager.go: Listen, the Close of a subscription, and the Close of the manager.
use rogojin.Prelude.{
  ℕ, zero, suc, ◌+◌, String, List, [], ◌∷◌, map, Option, none, some, ite, str_dec, true, false,
  if◌then◌else◌, ℤ, pos, negsuc,
}
use rogojin.Prelude.Map.{lookup, insert, delete}
use rogojin.Prelude.Handles.{remove}
use rogojin.Prelude.Channels.{update, make_chan, close_chan}
use rogojin.Email.Types.{
  Email, Inbox, Env, Result, ok, err, email_not_found, no_inbox, task_required, buffer_too_small,
  manager_closed,
}
use rogojin.Email.State.{Subscription, Listener, Manager, retire, retire_each}

-- `backfill` is the date of WithBackfill, none for its zero value.
pub record ListenConfig : Type 0 where
  pub from : String
  pub buffer : ℤ
  pub backfill : Option ℕ

abbrev pub default_config : ListenConfig
default_config = record { from = ""; buffer = pos 64; backfill = none }

-- FromSender
unfoldable pub from_sender : {W E : Type 0} → Env W E → String → ListenConfig → ListenConfig
from_sender env a c = record c { from = env.lower a }

-- WithBackfill
unfoldable pub with_backfill : ℕ → ListenConfig → ListenConfig
with_backfill since c = record c { backfill = some since }

-- WithBuffer
unfoldable pub with_buffer : ℤ → ListenConfig → ListenConfig
with_buffer n c = record c { buffer = n }

-- A buffer of at least 1.
abbrev pub buffer_of : ℤ → Option ℕ
buffer_of (pos zero) = none
buffer_of (pos (suc n)) = some (suc n)
buffer_of (negsuc n) = none

-- newListener
unfoldable pub new_listener : Email → Listener
new_listener e = record { email_id = e.id; email = e; subs = []; stop = make_chan 0 }

abbrev pub new_subscription : String → String → String → ℕ → Subscription
new_subscription id task from n = record {
  email_id = id;
  task_id = task;
  from = from;
  ch = make_chan n;
  dropped = 0;
  is_closed = false;
}

module _ {W : Type 0} where
  -- A new listener, registered for the inbox.
  unfoldable pub establish : String → Email → Manager W → Manager W
  unfolding new_listener
  establish id e m = record m {
    listeners = insert id m.next_line m.listeners;
    lines = update m.lines m.next_line (new_listener e);
    next_line = m.next_line + 1;
  }

  -- The listener of the inbox, established on first use.
  unfoldable pub line_for : String → Email → Manager W → ℕ × Manager W
  unfolding establish
  line_for id e m = elim (lookup id m.listeners) [
    | some l ↦ (l, m)
    | none ↦ (m.next_line, establish id e m)
  ]

  -- `l.subs[s] = struct{}{}` for a new subscription.
  unfoldable pub attach : ℕ → Subscription → Manager W → Manager W
  attach l s m = record m {
    feeds = update m.feeds m.next_feed s;
    lines = update m.lines l (record (m.lines l) { subs = m.next_feed ∷ (m.lines l).subs });
    next_feed = m.next_feed + 1;
  }

  abbrev pub listen_inbox :
      {E : Type 0}
      → String
      → String
      → String
      → ℕ
      → Email
      → Option Inbox
      → Manager W
      → Result E ℕ × Manager W
  listen_inbox task id from n e none m = (err (no_inbox id), m)
  listen_inbox task id from n e (some i) m =
      let (l, m') = line_for id e m in
      (ok m'.next_feed, attach l (new_subscription id task from n) m')

  -- Listen: the new subscription's handle. The goroutine of a new listener and the one of the
  -- backfill take their own steps.
  unfoldable pub listen :
      {E : Type 0} → String → String → ListenConfig → Manager W → Result E ℕ × Manager W
  unfolding line_for attach
  listen task id cfg m =
      ite (str_dec task "") (err task_required, m)
        (elim (buffer_of cfg.buffer) [
          | none ↦ (err buffer_too_small, m)
          | some n ↦ if m.is_closed then (err manager_closed, m) else elim (lookup id m.inventory) [
            | none ↦ (err (email_not_found id), m)
            | some e ↦ listen_inbox task id cfg.from n e e.inbox m
          ]
        ])

  -- The listener with the subscriptions that are left: with none, it is stopped and forgotten.
  unfoldable pub leave : String → ℕ → List ℕ → Manager W → Manager W
  leave id l (i ∷ is) m = record m {
    lines = update m.lines l (record (m.lines l) { subs = i ∷ is });
  }
  leave id l [] m = record m {
    lines = update m.lines l (record (m.lines l) { subs = []; stop = close_chan (m.lines l).stop });
    listeners = delete id m.listeners;
  }

  unfoldable pub detach : ℕ → Manager W → Manager W
  unfolding leave
  detach i m = elim (lookup (m.feeds i).email_id m.listeners) [
    | none ↦ m
    | some l ↦ leave (m.feeds i).email_id l (remove i (m.lines l).subs) m
  ]

  abbrev pub retire_one : ℕ → Manager W → Manager W
  retire_one i m = record m { feeds = update m.feeds i (retire (m.feeds i)) }

  -- Close of a subscription.
  unfoldable pub close : ℕ → Manager W → Manager W
  close i m = retire_one i (detach i m)

  -- One listener in the loop of the manager's Close.
  unfoldable pub close_line : String → ℕ → Manager W → Manager W
  close_line id l m = record m {
    feeds = retire_each (m.lines l).subs m.feeds;
    lines = update m.lines l (record (m.lines l) { subs = []; stop = close_chan (m.lines l).stop });
    listeners = delete id m.listeners;
  }

  -- The loop, where an entry that is gone is not visited.
  unfoldable pub close_lines : List String → Manager W → Manager W
  unfolding close_line
  close_lines [] m = m
  close_lines (id ∷ ids) m = elim (lookup id m.listeners) [
    | none ↦ close_lines ids m
    | some l ↦ close_lines ids (close_line id l m)
  ]

  abbrev pub shut : Manager W → Manager W
  shut m = if m.is_closed then m else record m { is_closed = true; closing = close_chan m.closing }

  -- Close of the manager, before it waits for the goroutines.
  unfoldable pub close_manager : Manager W → Manager W
  unfolding close_lines
  close_manager m = close_lines (map (λ entry. entry.0) m.listeners) (shut m)
