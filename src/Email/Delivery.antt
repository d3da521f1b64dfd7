-- ===== src/Email/Delivery.antt =====
-- email/manager.go: what delivers a message to a subscription, the fan-out of a listener and the
-- backfill of one subscription.
use rogojin.Prelude.{
  ℕ, ◌+◌, ◌%◌, ◌^◌, String, List, [], ◌∷◌, ◌++◌, Option, none, some, ite, str_dec, Bool, true,
  false, if◌then◌else◌, ltb, ◌||◌, not,
}
use rogojin.Prelude.Channels.{update, try_send}
use rogojin.Email.Types.{Message, Env}
use rogojin.Email.State.{Subscription, Manager, owns}

pub record Drop : Type 0 where
  pub email_id : String
  pub task_id : String
  pub total : ℕ

module _ {W E : Type 0} (env : Env W E) where
  -- matches: whether the sender filter admits the message.
  unfoldable pub matches : Subscription → Message → Bool
  matches s msg =
      ite (str_dec s.from "") true (ite (str_dec s.from (env.lower msg.from)) true false)

  abbrev pub dropped_one : Subscription → Subscription × Option Drop
  dropped_one s =
      let n = (s.dropped + 1) % 2 ^ 64 in
      (
        record s { dropped = n },
        some (record { email_id = s.email_id; task_id = s.task_id; total = n }),
      )

  -- offer: the send does not block, and a full buffer is a drop.
  unfoldable pub offer : Subscription → Message → Subscription × Option Drop
  unfolding matches
  offer s msg =
      if s.is_closed || not (matches s msg)
      then (s, none)
      else let (ch, sent) = try_send msg s.ch in
        if sent then (record s { ch = ch }, none) else dropped_one (record s { ch = ch })

  abbrev pub note_drop : List Drop → Option Drop → List Drop
  note_drop drops none = drops
  note_drop drops (some d) = drops ++ d ∷ []

  -- One message to every subscription of the set.
  unfoldable pub offer_each :
      Message → List ℕ → (ℕ → Subscription) → List Drop → (ℕ → Subscription) × List Drop
  offer_each msg [] feeds drops = (feeds, drops)
  offer_each msg (i ∷ is) feeds drops =
      let (s, d) = offer (feeds i) msg in offer_each msg is (update feeds i s) (note_drop drops d)

  -- The loop of fanout, with the highest UID.
  unfoldable pub fan_each :
      String
      → List ℕ
      → List Message
      → (ℕ → Subscription)
      → List Drop
      → ℕ
      → (ℕ → Subscription) × List Drop × ℕ
  unfolding offer_each
  fan_each id is [] feeds drops max_uid = (feeds, drops, max_uid)
  fan_each id is (msg ∷ msgs) feeds drops max_uid =
      let (feeds', drops') = offer_each (record msg { email_id = id }) is feeds drops in
      fan_each id is msgs feeds' drops' (if ltb max_uid msg.uid then msg.uid else max_uid)

  -- fanout: the highest UID, none if the listener is not its inbox's any more; the drops that are
  -- reported; and the manager.
  unfoldable pub fanout : ℕ → List Message → Manager W → Option ℕ × List Drop × Manager W
  unfolding fan_each
  fanout l msgs m =
      if owns l m
      then (let (feeds, drops, max_uid) =
            fan_each (m.lines l).email_id (m.lines l).subs msgs m.feeds [] 0 in
          (some max_uid, drops, record m { feeds = feeds }))
      else (none, [], m)

  -- The loop of backfill over the messages it fetched.
  unfoldable pub backfill_each :
      String → ℕ → List Message → (ℕ → Subscription) → List Drop → (ℕ → Subscription) × List Drop
  backfill_each id i [] feeds drops = (feeds, drops)
  backfill_each id i (msg ∷ msgs) feeds drops =
      let (s, d) = offer (feeds i) (record msg { email_id = id }) in
      backfill_each id i msgs (update feeds i s) (note_drop drops d)

  -- backfill, from the fetched messages on.
  unfoldable pub backfill : String → ℕ → List Message → Manager W → List Drop × Manager W
  unfolding backfill_each
  backfill id i msgs m =
      let (feeds, drops) = backfill_each id i msgs m.feeds [] in (drops, record m { feeds = feeds })
