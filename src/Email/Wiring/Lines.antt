-- ===== src/Email/Wiring/Lines.antt =====
-- email/manager.go: proofs about Listen and the two kinds of Close.
use rogojin.Prelude.{
  ℕ, ◌≡◌, ◌≢◌, refl, sym, String, [], ◌∷◌, Option, none, some, false, Bool-cases, inl, inr,
  Option-cases, ite, ite-both, ℕ_discrete, str_dec, arith,
}
use rogojin.Prelude.Map.{lookup, lookup-insert, lookup-insert_self}
use rogojin.Prelude.Handles.{occurs}
use rogojin.Prelude.Channels.{make_chan}
use rogojin.Email.Types.{Email, Inbox, Result}
use rogojin.Email.State.{Subscription, Manager}
use rogojin.Email.Listening.{
  new_listener, establish, line_for, attach, new_subscription, listen_inbox, listen, ListenConfig,
  buffer_of,
}
use rogojin.Email.Wiring.{IsCalm, Serves, IsLinked, IsWired, IsBusy, attachment}

module _ {W : Type 0} where
  module _ (m : Manager W) (id : String) (l : ℕ) (s : Subscription) (v : IsLinked m)
      (serving : lookup id m.listeners ≡ some l) (email : s.email_id ≡ id)
      (live : s.is_closed ≡ false) (calm : IsCalm s) where
    attached_after :
        (k i : ℕ)
        → occurs i ((attach l s m).lines k).subs ≡ attachment m.listeners k ((attach l s m).feeds i)
    unfolding attach occurs
    attached_after k i = ground (
      arith,
      v.attached k i,
      v.attached l i,
      v.unused m.next_feed (omega arith),
      email,
      serving,
      live,
    )

    attach-IsLinked : IsLinked (attach l s m)
    unfolding attach
    attach-IsLinked = record {
      attached = attached_after;
      served = λ i open_. ground (arith, v.served i, serving, email);
      registered = λ id k e.
          let r = v.registered id k e in
          record {
            named = ground (arith, r.named);
            given = r.given;
            running = ground (arith, r.running);
            known = r.known;
          };
      keyed = v.keyed;
      feeds_calm = λ i. record {
        shut = ground (arith, (v.feeds_calm i).shut, calm.shut);
        calm = ground (arith, (v.feeds_calm i).calm, calm.calm);
      };
      lines_calm = λ k. ground (arith, v.lines_calm k);
      unused = λ i late. ground (arith, v.unused i (omega arith));
      ended = v.ended;
      closing_calm = v.closing_calm;
    }

    attach-IsWired :
        ((id' : String) (k : ℕ) → lookup id' m.listeners ≡ some k → k ≢ l → (m.lines k).subs ≢ [])
        → IsWired (attach l s m)
    unfolding attach
    attach-IsWired others = record { linked = attach-IsLinked; busy = busy_after }
      where
        pick :
            (k : ℕ) (d : Dec (l ≡ k))
            → (k ≢ l → (m.lines k).subs ≢ [])
            → (ite d
                (record (m.lines l) { subs = m.next_feed ∷ (m.lines l).subs })
                (m.lines k)).subs
              ≢ []
        pick k (yes same) busy e = cc
        pick k (no other) busy e = busy (λ p. other (sym p)) e

        busy_after : IsBusy (attach l s m)
        busy_after id' k e = pick k (ℕ_discrete l k) (others id' k e)

  module _ (m : Manager W) (id : String) (e : Email) (held : lookup id m.inventory ≡ some e)
      (open_ : m.is_closed ≡ false) (v : IsLinked m) (idle : lookup id m.listeners ≡ none) where
    establish-attached :
        (k i : ℕ)
        → occurs i ((establish id e m).lines k).subs
          ≡ attachment (establish id e m).listeners k (m.feeds i)
    unfolding establish new_listener make_chan occurs
    establish-attached k i = elim (Option-cases (lookup (m.feeds i).email_id m.listeners)) [
      | inl none_there ↦ ground (
        arith,
        v.attached k i,
        v.served i,
        none_there,
        lookup-insert id (m.feeds i).email_id m.next_line m.listeners,
      )
      | inr (j, there) ↦ ground (
        arith,
        v.attached k i,
        v.served i,
        idle,
        there,
        (v.registered (m.feeds i).email_id j there).given,
        lookup-insert id (m.feeds i).email_id m.next_line m.listeners,
      )
    ]

    establish-Serves :
        (j : String) (k : ℕ)
        → lookup j (establish id e m).listeners ≡ some k
        → Serves (establish id e m) j k
    unfolding establish new_listener make_chan
    establish-Serves j k at = elim (str_dec id j) [
      | yes same ↦
          let k_is : m.next_line ≡ k =
            ground (arith, at, lookup-insert id j m.next_line m.listeners) in
          record {
            named = ground (arith, v.keyed id e held);
            given = omega arith;
            running = ground arith;
            known = (e, rw (sym same) held);
          }
      | no other ↦
          let before : lookup j m.listeners ≡ some k =
            ground (arith, at, lookup-insert id j m.next_line m.listeners) in
          let r = v.registered j k before in
          record {
            named = ground (arith, r.named, r.given);
            given = omega (arith, r.given);
            running = ground (arith, r.running, r.given);
            known = r.known;
          }
    ]

    establish-IsLinked : IsLinked (establish id e m)
    unfolding establish new_listener make_chan
    establish-IsLinked = record {
      attached = establish-attached;
      served = λ i live.
          ground
            (arith, v.served i live, lookup-insert id (m.feeds i).email_id m.next_line m.listeners);
      registered = establish-Serves;
      keyed = v.keyed;
      feeds_calm = v.feeds_calm;
      lines_calm = λ k. ground (arith, v.lines_calm k);
      unused = v.unused;
      ended = λ shut. absurd (cc (shut, open_));
      closing_calm = v.closing_calm;
    }

  establish-busy :
      (m : Manager W) (id : String) (e : Email)
      → IsBusy m
      → (j : String) (k : ℕ) → lookup j (establish id e m).listeners ≡ some k
      → k ≢ m.next_line
      → ((establish id e m).lines k).subs ≢ []
  unfolding establish
  establish-busy m id e busy j k at old none_left =
      busy j k (ground (arith, at, old, lookup-insert id j m.next_line m.listeners))
        (ground (arith, old, none_left))

  listen_inbox-IsWired :
      (E : Type 0) (task id from : String) (n : ℕ) (e : Email) (inbox : Option Inbox)
      (m : Manager W)
      → lookup id m.inventory ≡ some e
      → m.is_closed ≡ false
      → IsWired m
      → IsWired (listen_inbox {E = E} task id from n e inbox m).1
  unfolding line_for make_chan
  listen_inbox-IsWired E task id from n e none m held open_ v = v
  listen_inbox-IsWired E task id from n e (some i) m held open_ v =
      elim (Option-cases (lookup id m.listeners)) [
        | inr (l, serving) ↦
            rw (serving, line_for)
              (attach-IsWired m id l (new_subscription id task from n) v.linked serving refl refl
                fresh_calm (λ j k at other. v.busy j k at))
        | inl idle ↦
            rw (idle, line_for)
              (attach-IsWired (establish id e m) id m.next_line (new_subscription id task from n)
                (establish-IsLinked m id e held open_ v.linked idle)
                (lookup-insert_self id m.next_line m.listeners) refl refl fresh_calm
                (establish-busy m id e v.busy))
      ]
    where
      fresh_calm : IsCalm (new_subscription id task from n)
      fresh_calm = record { shut = refl; calm = refl }

  pub listen-IsWired :
      (E : Type 0) (task id : String) (cfg : ListenConfig) (m : Manager W)
      → IsWired m
      → IsWired (listen {E = E} task id cfg m).1
  unfolding listen
  listen-IsWired E task id cfg m v =
      ite-both (λ (r : Result E ℕ × Manager W). IsWired r.1) (str_dec task "") _ _ v
        (elim (Option-cases (buffer_of cfg.buffer)) [
          | inl small ↦ rw small v
          | inr (n, sized) ↦ elim (Bool-cases m.is_closed) [
            | inl shut ↦ simp (sized, shut) v
            | inr open_ ↦ elim (Option-cases (lookup id m.inventory)) [
              | inl unknown ↦ rw (sized, open_, unknown) v
              | inr (e, held) ↦
                  rw (sized, open_, held)
                    (listen_inbox-IsWired E task id cfg.from n e e.inbox m held open_ v)
            ]
          ]
        ])
