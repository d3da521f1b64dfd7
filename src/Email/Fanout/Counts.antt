-- ===== src/Email/Fanout/Counts.antt =====
-- email/manager.go: proofs about how many of the offered messages are queued and how many dropped.
use mathlib.Core.List.{append_assoc, append-nil}
use rogojin.Prelude.{
  ◌+◌, ◌%◌, ◌^◌, ◌≤◌, ◌<◌, ◌≡◌, refl, sym, String, List, [], ◌∷◌, ◌++◌, Bool, true, false, not,
  ◌||◌, Bool-cases, inl, inr, arith, dec_lt, length, length-append,
}
use rogojin.Prelude.Channels.{try_send}
use rogojin.Email.Types.{Message, Env}
use rogojin.Email.State.{Subscription}
use rogojin.Email.Delivery.{matches, offer}
use rogojin.Email.Fanout.{stamped, offer_all, admitted}
use rogojin.Email.Wiring.{IsCalm}

module _ {W E : Type 0} (env : Env W E) where
  abbrev refuses : Subscription → Message → Bool
  refuses s msg = s.is_closed || not (matches env s msg)

  offer-refused :
      (s : Subscription) (msg : Message) → refuses s msg ≡ true → (offer env s msg).0 ≡ s
  unfolding offer
  offer-refused s msg e = rw e refl

  -- A message that is neither refused nor dropped is queued last.
  queued : Subscription → Message → Subscription
  queued s msg = record s { ch = record s.ch { queue = s.ch.queue ++ msg ∷ [] } }

  offer-queued :
      (s : Subscription) (msg : Message)
      → IsCalm s
      → refuses s msg ≡ false
      → length s.ch.queue < s.ch.cap
      → (offer env s msg).0 ≡ queued s msg
  unfolding offer try_send queued
  offer-queued s msg c e room = ground (arith, c.shut, e, room)

  offer-dropped :
      (s : Subscription) (msg : Message)
      → IsCalm s
      → refuses s msg ≡ false
      → s.ch.cap ≤ length s.ch.queue
      → (offer env s msg).0 ≡ record s { dropped = (s.dropped + 1) % 2 ^ 64 }
  unfolding offer try_send
  offer-dropped s msg c e full = ground (arith, c.shut, e, full)

  admitted-same :
      (id : String) (msgs : List Message) (s s' : Subscription)
      → s'.is_closed ≡ s.is_closed
      → s'.from ≡ s.from
      → admitted env id msgs s' ≡ admitted env id msgs s
  unfolding admitted matches
  admitted-same id [] s s' closed from = refl
  admitted-same id (msg ∷ msgs) s s' closed from =
      rw (admitted-same id msgs s s' closed from, closed, from) refl

  admitted-nil : (id : String) (s : Subscription) → admitted env id [] s ≡ []
  unfolding admitted
  admitted-nil id s = refl

  admitted-refused :
      (id : String) (msg : Message) (msgs : List Message) (s : Subscription)
      → refuses s (stamped id msg) ≡ true
      → admitted env id (msg ∷ msgs) s ≡ admitted env id msgs s
  unfolding admitted
  admitted-refused id msg msgs s e = rw e refl

  admitted-more :
      (id : String) (msg : Message) (msgs : List Message) (s s' : Subscription)
      → refuses s (stamped id msg) ≡ false
      → s'.is_closed ≡ s.is_closed
      → s'.from ≡ s.from
      → admitted env id (msg ∷ msgs) s ≡ stamped id msg ∷ admitted env id msgs s'
  unfolding admitted
  admitted-more id msg msgs s s' e closed from = rw (e, admitted-same id msgs s s' closed from) refl

  more_by_one :
      (id : String) (msg : Message) (msgs : List Message) (s s' : Subscription)
      → refuses s (stamped id msg) ≡ false
      → s'.is_closed ≡ s.is_closed
      → s'.from ≡ s.from
      → length (admitted env id (msg ∷ msgs) s) ≡ length (admitted env id msgs s') + 1
  more_by_one id msg msgs s s' e closed from =
      rw (admitted-more id msg msgs s s' e closed from) omega arith

  -- A subscription whose buffer has room for all the messages that its filter admits queues them
  -- all, in their order, behind what it has queued, and drops none.
  pub offer_all-queues :
      (id : String) (msgs : List Message) (s : Subscription)
      → IsCalm s
      → length s.ch.queue + length (admitted env id msgs s) ≤ s.ch.cap
      → offer_all env id msgs s
        ≡ record s { ch = record s.ch { queue = s.ch.queue ++ admitted env id msgs s } }
  unfolding offer_all queued
  offer_all-queues id [] s c room = rw (admitted-nil id s, append-nil s.ch.queue) refl
  offer_all-queues id (msg ∷ msgs) s c room = elim (Bool-cases (refuses s (stamped id msg))) [
    | inl e ↦
        rw (offer-refused s (stamped id msg) e, admitted-refused id msg msgs s e)
          (offer_all-queues id msgs s c (rw (sym (admitted-refused id msg msgs s e)) room))
    | inr e ↦
        let s' = queued s (stamped id msg) in
        let more = admitted-more id msg msgs s s' e refl refl in
        let size = more_by_one id msg msgs s s' e refl refl in
        rw
          (
            offer-queued s (stamped id msg) c e (omega (arith, size, room)),
            offer_all-queues id msgs s' (record { shut = c.shut; calm = c.calm })
                (omega (arith, size, room, length-append s.ch.queue (stamped id msg ∷ []))),
            more,
            append_assoc s.ch.queue (stamped id msg ∷ []) (admitted env id msgs s'),
          )
          refl
  ]

  offer_all-offer :
      (id : String) (msg : Message) (msgs : List Message) (s s' : Subscription)
      → (offer env s (stamped id msg)).0 ≡ s'
      → offer_all env id (msg ∷ msgs) s ≡ offer_all env id msgs s'
  unfolding offer_all
  offer_all-offer id msg msgs s s' e = rw e refl

  -- Each message that the filter admits is queued or counted as dropped, where the count does not
  -- wrap, and the queue never outgrows the buffer.
  pub offer_all-counts :
      (id : String) (msgs : List Message) (s : Subscription)
      → IsCalm s
      → length s.ch.queue ≤ s.ch.cap
      → s.dropped + length (admitted env id msgs s) < 2 ^ 64
      → (length (offer_all env id msgs s).ch.queue + (offer_all env id msgs s).dropped
          ≡ length s.ch.queue + s.dropped + length (admitted env id msgs s))
        × (length (offer_all env id msgs s).ch.queue ≤ s.ch.cap)
  unfolding offer_all queued
  offer_all-counts id [] s c fits few = (rw (admitted-nil id s) omega arith, fits)
  offer_all-counts id (msg ∷ msgs) s c fits few = elim (Bool-cases (refuses s (stamped id msg))) [
    | inl e ↦
        rw
          (
            offer_all-offer id msg msgs s s (offer-refused s (stamped id msg) e),
            admitted-refused id msg msgs s e,
          )
          (offer_all-counts id msgs s c fits (rw (sym (admitted-refused id msg msgs s e)) few))
    | inr e ↦ elim (dec_lt (length s.ch.queue) s.ch.cap) [
      | yes room ↦
          let s' = queued s (stamped id msg) in
          let size = more_by_one id msg msgs s s' e refl refl in
          let grown = length-append s.ch.queue (stamped id msg ∷ []) in
          let (sum, within) =
            offer_all-counts id msgs s' (record { shut = c.shut; calm = c.calm })
              (omega (arith, grown, room)) (omega (arith, size, few)) in
          rw (offer_all-offer id msg msgs s s' (offer-queued s (stamped id msg) c e room))
            (omega (arith, sum, size, grown), within)
      | no full ↦
          let s' : Subscription = record s { dropped = (s.dropped + 1) % 2 ^ 64 } in
          let size = more_by_one id msg msgs s s' e refl refl in
          let kept : (s.dropped + 1) % 2 ^ 64 ≡ s.dropped + 1 = omega (arith, size, few) in
          let (sum, within) =
            offer_all-counts id msgs s' (record { shut = c.shut; calm = c.calm }) fits
              (omega (arith, size, few, kept)) in
          rw
            (offer_all-offer id msg msgs s s'
              (offer-dropped s (stamped id msg) c e (omega (arith, full))))
            (omega (arith, sum, size, kept), within)
    ]
  ]
