-- ===== src/Email/Wiring.antt =====
-- email: how listeners and subscriptions hang together, and the lemmas that steps share.
pub mod Feeds
pub mod Lines
pub mod Closing
pub mod Shutdown
pub mod Rows
pub mod Listeners
use rogojin.Prelude.{
  ℕ, zero, suc, ◌+◌, ◌≤◌, ◌<◌, ◌≡◌, ◌≢◌, refl, sym, subst, String, List, [], ◌∷◌, Option, none,
  some, Bool, true, false, if◌then◌else◌, ite, ℕ_discrete, str_dec, arith, Bool-cases, inl, inr,
  length, Option-cases,
}
use rogojin.Prelude.Map.{Map, lookup, insert, delete, lookup-insert, lookup-delete}
use rogojin.Prelude.Handles.{occurs}
use rogojin.Prelude.Channels.{Chan, update, try_send, close_chan}
use rogojin.Email.Types.{Email, Message, Env}
use rogojin.Email.State.{
  Subscription, Listener, Manager, is_line, owns, retire, retire_each, guard_deletes,
}
use rogojin.Email.Delivery.{offer, dropped_one, matches}

-- How often the listener `l` holds the subscription: once if it is open and `l` serves its inbox.
abbrev pub attachment : Map ℕ → ℕ → Subscription → ℕ
attachment listeners l s =
    if s.is_closed then 0 else if is_line (lookup s.email_id listeners) l then 1 else 0

-- The listener `l` is the one that serves the inbox `id`.
pub record Serves {W : Type 0} (m : Manager W) (id : String) (l : ℕ) : Type 0 where
  pub named : (m.lines l).email_id ≡ id
  pub given : l < m.next_line
  pub running : (m.lines l).stop.closed ≡ false
  pub known : (e : Email) × (lookup id m.inventory ≡ some e)

pub record IsCalm (s : Subscription) : Type 0 where
  pub shut : s.ch.closed ≡ s.is_closed
  pub calm : s.ch.panicked ≡ false

pub record IsLinked {W : Type 0} (m : Manager W) : Type 0 where
  pub attached : (l i : ℕ) → occurs i (m.lines l).subs ≡ attachment m.listeners l (m.feeds i)
  pub served :
      (i : ℕ) → (m.feeds i).is_closed ≡ false → lookup (m.feeds i).email_id m.listeners ≢ none
  pub registered : (id : String) (l : ℕ) → lookup id m.listeners ≡ some l → Serves m id l
  pub keyed : (id : String) (e : Email) → lookup id m.inventory ≡ some e → e.id ≡ id
  pub feeds_calm : (i : ℕ) → IsCalm (m.feeds i)
  pub lines_calm : (l : ℕ) → (m.lines l).stop.panicked ≡ false
  pub unused : (i : ℕ) → m.next_feed ≤ i → (m.feeds i).is_closed ≡ true
  pub ended : m.is_closed ≡ true → (id : String) → lookup id m.listeners ≡ none
  pub closing_calm : (m.closing.closed ≡ m.is_closed) × (m.closing.panicked ≡ false)

-- A registered listener has subscriptions.
abbrev pub IsBusy : {W : Type 0} → Manager W → Type 0
IsBusy m = (id : String) (l : ℕ) → lookup id m.listeners ≡ some l → (m.lines l).subs ≢ []

pub record IsWired {W : Type 0} (m : Manager W) : Type 0 where
  pub linked : IsLinked m
  pub busy : IsBusy m

-- A change of a subscription that neither attaches nor detaches it.
pub record Keeps (s s' : Subscription) : Type 0 where
  pub same_email : s'.email_id ≡ s.email_id
  pub same_closed : s'.is_closed ≡ s.is_closed
  pub calm_after : IsCalm s'

module _ {W : Type 0} where
  feeds-IsLinked :
      (m : Manager W) (feeds : ℕ → Subscription)
      → ((i : ℕ) → Keeps (m.feeds i) (feeds i))
      → IsLinked m
      → IsLinked (record m { feeds = feeds })
  feeds-IsLinked m feeds kept v = record {
    attached = λ l i. rw ((kept i).same_closed, (kept i).same_email) (v.attached l i);
    served = λ i. rw ((kept i).same_closed, (kept i).same_email) (v.served i);
    registered = λ id l e.
        let r = v.registered id l e in
        record { named = r.named; given = r.given; running = r.running; known = r.known };
    keyed = v.keyed;
    feeds_calm = λ i. (kept i).calm_after;
    lines_calm = v.lines_calm;
    unused = λ i late. rw ((kept i).same_closed) (v.unused i late);
    ended = v.ended;
    closing_calm = v.closing_calm;
  }

  inventory-IsLinked :
      (m : Manager W) (inventory : Map Email)
      → ((id : String) (l : ℕ)
          → lookup id m.listeners ≡ some l
          → (e : Email) × (lookup id inventory ≡ some e))
      → ((id : String) (e : Email) → lookup id inventory ≡ some e → e.id ≡ id)
      → IsLinked m
      → IsLinked (record m { inventory = inventory })
  inventory-IsLinked m inventory known keyed v = record {
    attached = v.attached;
    served = v.served;
    registered = λ id l e.
        let r = v.registered id l e in
        record { named = r.named; given = r.given; running = r.running; known = known id l e };
    keyed = keyed;
    feeds_calm = v.feeds_calm;
    lines_calm = v.lines_calm;
    unused = v.unused;
    ended = v.ended;
    closing_calm = v.closing_calm;
  }

  pub feeds-IsWired :
      (m : Manager W) (feeds : ℕ → Subscription)
      → ((i : ℕ) → Keeps (m.feeds i) (feeds i))
      → IsWired m
      → IsWired (record m { feeds = feeds })
  feeds-IsWired m feeds kept v = record {
    linked = feeds-IsLinked m feeds kept v.linked;
    busy = v.busy;
  }

  pub inventory-IsWired :
      (m : Manager W) (inventory : Map Email)
      → ((id : String) (l : ℕ)
          → lookup id m.listeners ≡ some l
          → (e : Email) × (lookup id inventory ≡ some e))
      → ((id : String) (e : Email) → lookup id inventory ≡ some e → e.id ≡ id)
      → IsWired m
      → IsWired (record m { inventory = inventory })
  inventory-IsWired m inventory known keyed v = record {
    linked = inventory-IsLinked m inventory known keyed v.linked;
    busy = v.busy;
  }

  pub guard-IsWired :
      (g : String → W → List String × List String) (m : Manager W)
      → IsWired m
      → IsWired (guard_deletes g m)
  unfolding guard_deletes
  guard-IsWired g m v = record {
    linked = record {
      attached = v.linked.attached;
      served = v.linked.served;
      registered = λ id l e.
          let r = v.linked.registered id l e in
          record { named = r.named; given = r.given; running = r.running; known = r.known };
      keyed = v.linked.keyed;
      feeds_calm = v.linked.feeds_calm;
      lines_calm = v.linked.lines_calm;
      unused = v.linked.unused;
      ended = v.linked.ended;
      closing_calm = v.linked.closing_calm;
    };
    busy = v.busy;
  }

pub Keeps-refl : (s : Subscription) → IsCalm s → Keeps s s
Keeps-refl s calm = record { same_email = refl; same_closed = refl; calm_after = calm }

pub update-Keeps :
    (feeds : ℕ → Subscription) (i : ℕ) (s : Subscription)
    → ((j : ℕ) → IsCalm (feeds j))
    → Keeps (feeds i) s
    → (j : ℕ) → Keeps (feeds j) (update feeds i s j)
update-Keeps feeds i s calm kept j = pick j (ℕ_discrete i j)
  where
    pick : (j : ℕ) (d : Dec (i ≡ j)) → Keeps (feeds j) (ite d s (feeds j))
    pick j (yes same) = subst (λ (k : ℕ). Keeps (feeds k) s) same kept
    pick j (no other) = Keeps-refl (feeds j) (calm j)

pub retire_each-at :
    (is : List ℕ) (feeds : ℕ → Subscription) (j : ℕ)
    → retire_each is feeds j ≡ ite (ℕ_discrete (occurs j is) 0) (feeds j) (retire (feeds j))
unfolding retire_each occurs retire
retire_each-at [] feeds j = ground arith
retire_each-at (i ∷ is) feeds j = elim (ℕ_discrete i j) [
  | yes same ↦ rw (same, retire_each-at is) ground arith
  | no other ↦ rw (retire_each-at is) ground arith
]
