-- ===== src/Email/Cursors.antt =====
-- email/listener.go: proofs about the cursor of an inbox and the waits between sessions.
pub mod Rows
pub mod Untouched
pub mod Monotone
use rogojin.Prelude.{ℕ, ◌≤◌, ◌<◌, ◌≡◌, ◌⊎◌, Option, none, some, Bool, true, false}
use rogojin.Prelude.Map.{lookup, insert}
use rogojin.Email.Types.{Email, Inbox, Error, Env, service}
use rogojin.Email.State.{Manager}
use rogojin.Email.Serving.{cursor}

-- Where the cursor goes: to the UID in a reset or if it is ahead, and else it stays.
abbrev pub Goes : Bool → ℕ → ℕ → ℕ → Type 0
Goes reset last uid n =
    ((reset ≡ true) × (n ≡ uid))
    ⊎ ((reset ≡ false) × (last < uid) × (n ≡ uid))
    ⊎ ((reset ≡ false) × (uid ≤ last) × (n ≡ last))

module _ {W E : Type 0} (env : Env W E) where
  abbrev pub with_cursor : Email → Inbox → ℕ → ℕ → W → Email
  with_cursor e i validity n w = record e {
    inbox = some (record i { uid_validity = validity; last_uid = n });
    updated_at = env.now w;
  }

  -- The three ends of an advance of the cursor.
  pub data Advanced (l validity uid : ℕ) (reset : Bool) (m : Manager W) (w : W)
      : Option (Error E) × Manager W × W → Type 0 where
    lost : cursor l m ≡ none → Advanced l validity uid reset m w (none, m, w)
    unsaved :
        {x : E} {w' : W} {e : Email} {i : Inbox} {n : ℕ}
        → lookup (m.lines l).email_id m.inventory ≡ some e
        → e.inbox ≡ some i
        → Goes reset i.last_uid uid n
        → env.repo.save (with_cursor e i validity n w) w ≡ (some x, w')
        → Advanced l validity uid reset m w (some (service "persist cursor" x), m, w')
    stored :
        {w' : W} {e : Email} {i : Inbox} {n : ℕ}
        → lookup (m.lines l).email_id m.inventory ≡ some e
        → e.inbox ≡ some i
        → Goes reset i.last_uid uid n
        → env.repo.save (with_cursor e i validity n w) w ≡ (none, w')
        → Advanced l validity uid reset m w (
          none,
          record m {
            inventory = insert (m.lines l).email_id (with_cursor e i validity n w) m.inventory;
          },
          w',
        )
