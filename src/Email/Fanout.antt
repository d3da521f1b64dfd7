-- ===== src/Email/Fanout.antt =====
-- email/manager.go: proofs about what the fan-out of a listener delivers to each subscription.
pub mod Counts
use mathlib.Core.List.{Sublistᴰ, append_assoc}
use rogojin.Prelude.{
  ℕ, zero, suc, ◌+◌, ◌%◌, ◌^◌, ◌≤◌, ◌<◌, ◌≡◌, ◌≢◌, ◌⊎◌, refl, sym, ap, subst, String, List, [], ◌∷◌,
  ◌++◌, Option, none, some, Bool, true, false, not, ◌||◌, if◌then◌else◌, ite, ltb, ℕ_discrete,
  str_dec, Bool-cases, inl, inr, arith, length, length-append,
}
use rogojin.Prelude.Map.{Map, lookup}
use rogojin.Prelude.Handles.{occurs}
use rogojin.Prelude.Channels.{Chan, update, try_send}
use rogojin.Email.Types.{Message, Env}
use rogojin.Email.State.{Subscription, Manager, is_line, owns}
use rogojin.Email.Delivery.{
  Drop, matches, dropped_one, offer, note_drop, offer_each, fan_each, fanout,
}
use rogojin.Email.Wiring.{IsCalm, IsWired, attachment}

-- The highest UID, at least `n`.
pub highest : ℕ → List Message → ℕ
highest n [] = n
highest n (msg ∷ msgs) = highest (if ltb n msg.uid then msg.uid else n) msgs

-- The message as the inbox `id` delivers it.
abbrev pub stamped : String → Message → Message
stamped id msg = record msg { email_id = id }

is_line-some : (o : Option ℕ) (l : ℕ) → is_line o l ≡ true → o ≡ some l
is_line-some none l e = absurd (cc e)
is_line-some (some k) l e = ground (arith, e)

module _ {W E : Type 0} (env : Env W E) where
  -- The messages offered to one subscription alone, in their order.
  unfoldable pub offer_all : String → List Message → Subscription → Subscription
  offer_all id [] s = s
  offer_all id (msg ∷ msgs) s = offer_all id msgs (offer env s (stamped id msg)).0

  -- The messages that an open subscription's filter admits.
  unfoldable pub admitted : String → List Message → Subscription → List Message
  admitted id [] s = []
  admitted id (msg ∷ msgs) s =
      if s.is_closed || not (matches env s (stamped id msg))
      then admitted id msgs s
      else stamped id msg ∷ admitted id msgs s

  abbrev offer_times : ℕ → Message → Subscription → Subscription
  offer_times zero msg s = s
  offer_times (suc k) msg s = offer_times k msg (offer env s msg).0

  offer_each-at :
      (msg : Message) (is : List ℕ) (feeds : ℕ → Subscription) (drops : List Drop) (j : ℕ)
      → (offer_each env msg is feeds drops).0 j ≡ offer_times (occurs j is) msg (feeds j)
  unfolding offer_each occurs
  offer_each-at msg [] feeds drops j = refl
  offer_each-at msg (i ∷ is) feeds drops j =
      let s = (offer env (feeds i) msg).0 in
      elim (ℕ_discrete i j) [
        | yes same ↦ rw (offer_each-at msg is (update feeds i s)) ground (arith, same)
        | no other ↦ rw (offer_each-at msg is (update feeds i s)) ground arith
      ]

  fan_each-attached :
      (id : String) (is : List ℕ) (msgs : List Message) (feeds : ℕ → Subscription)
      (drops : List Drop) (n j : ℕ)
      → occurs j is ≡ 1
      → (fan_each env id is msgs feeds drops n).0 j ≡ offer_all id msgs (feeds j)
  unfolding fan_each offer_all
  fan_each-attached id is [] feeds drops n j once = refl
  fan_each-attached id is (msg ∷ msgs) feeds drops n j once =
      rw
        (
          fan_each-attached id is msgs (offer_each env (stamped id msg) is feeds drops).0
              (offer_each env (stamped id msg) is feeds drops).1
              (if ltb n msg.uid then msg.uid else n) j once,
          offer_each-at (stamped id msg) is feeds drops j,
          once,
        )
        refl

  fan_each-apart :
      (id : String) (is : List ℕ) (msgs : List Message) (feeds : ℕ → Subscription)
      (drops : List Drop) (n j : ℕ)
      → occurs j is ≡ 0
      → (fan_each env id is msgs feeds drops n).0 j ≡ feeds j
  unfolding fan_each
  fan_each-apart id is [] feeds drops n j apart = refl
  fan_each-apart id is (msg ∷ msgs) feeds drops n j apart =
      rw
        (
          fan_each-apart id is msgs (offer_each env (stamped id msg) is feeds drops).0
              (offer_each env (stamped id msg) is feeds drops).1
              (if ltb n msg.uid then msg.uid else n) j apart,
          offer_each-at (stamped id msg) is feeds drops j,
          apart,
        )
        refl

  fan_each-highest :
      (id : String) (is : List ℕ) (msgs : List Message) (feeds : ℕ → Subscription)
      (drops : List Drop) (n : ℕ)
      → (fan_each env id is msgs feeds drops n).2 ≡ highest n msgs
  unfolding fan_each highest
  fan_each-highest id is [] feeds drops n = refl
  fan_each-highest id is (msg ∷ msgs) feeds drops n = fan_each-highest id is msgs _ _ _

  -- What the fan-out makes of one subscription.
  abbrev pub delivered : ℕ → List Message → Manager W → Subscription → Subscription
  delivered l msgs m s =
      if s.is_closed
      then s
      else ite (str_dec (m.lines l).email_id s.email_id) (offer_all (m.lines l).email_id msgs s) s

  owner-occurs :
      (l j : ℕ) (m : Manager W)
      → IsWired m
      → owns l m ≡ true
      → occurs j (m.lines l).subs ≡ (
          if (m.feeds j).is_closed
          then 0
          else ite (str_dec (m.lines l).email_id (m.feeds j).email_id) 1 0)
  unfolding owns
  owner-occurs l j m v own =
      elim (Bool-cases (is_line (lookup (m.feeds j).email_id m.listeners) l)) [
        | inl here ↦
            let r =
              v.linked.registered (m.feeds j).email_id l
                (is_line-some (lookup (m.feeds j).email_id m.listeners) l here) in
            ground (arith, v.linked.attached l j, r.named, here)
        | inr other ↦ ground (arith, v.linked.attached l j, own, other)
      ]

  fan_each-delivered :
      (l j : ℕ) (msgs : List Message) (m : Manager W)
      → IsWired m
      → owns l m ≡ true
      → (fan_each env (m.lines l).email_id (m.lines l).subs msgs m.feeds [] 0).0 j
        ≡ delivered l msgs m (m.feeds j)
  fan_each-delivered l j msgs m v own = elim (Bool-cases (m.feeds j).is_closed) [
    | inl gone ↦ rw (apart (ground (arith, count, gone))) ground (arith, gone)
    | inr open_ ↦ elim (str_dec (m.lines l).email_id (m.feeds j).email_id) [
      | yes same ↦ rw (once (ground (arith, count, open_, same))) ground (arith, open_, same)
      | no other ↦ rw (apart (ground (arith, count, open_, other))) ground (arith, open_, other)
    ]
  ]
    where
      count : occurs j (m.lines l).subs ≡ (
          if (m.feeds j).is_closed
          then 0
          else ite (str_dec (m.lines l).email_id (m.feeds j).email_id) 1 0)
      count = owner-occurs l j m v own

      apart :
          occurs j (m.lines l).subs ≡ 0
          → (fan_each env (m.lines l).email_id (m.lines l).subs msgs m.feeds [] 0).0 j ≡ m.feeds j
      apart = fan_each-apart (m.lines l).email_id (m.lines l).subs msgs m.feeds [] 0 j

      once :
          occurs j (m.lines l).subs ≡ 1
          → (fan_each env (m.lines l).email_id (m.lines l).subs msgs m.feeds [] 0).0 j
            ≡ offer_all (m.lines l).email_id msgs (m.feeds j)
      once = fan_each-attached (m.lines l).email_id (m.lines l).subs msgs m.feeds [] 0 j

  -- In a wired manager, the fan-out of a listener that lost its inbox delivers nothing and reports
  -- no UID. The one of the inbox's own listener offers all messages, in their order, to each open
  -- subscription to the inbox, changes no other subscription, and reports the highest UID.
  pub fanout-delivers :
      (l : ℕ) (msgs : List Message) (m : Manager W)
      → IsWired m
      → ((owns l m ≡ false) × (fanout env l msgs m ≡ (none, [], m)))
        ⊎ ((owns l m ≡ true)
            × ((fanout env l msgs m).0 ≡ some (highest 0 msgs))
            × ((j : ℕ) → (fanout env l msgs m).2.feeds j ≡ delivered l msgs m (m.feeds j)))
  unfolding fanout
  fanout-delivers l msgs m v = elim (Bool-cases (owns l m)) [
    | inr lost ↦ inl (lost, rw lost refl)
    | inl own ↦ inr (
      own,
      rw (own, fan_each-highest (m.lines l).email_id (m.lines l).subs msgs m.feeds [] 0) refl,
      λ j. rw own (fan_each-delivered l j msgs m v own),
    )
  ]
