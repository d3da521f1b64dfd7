-- ===== src/Email/Wiring/Feeds.antt =====
-- email/manager.go: proofs about the steps that deliver to subscriptions or receive from them.
use rogojin.Prelude.{ℕ, refl, String, List, [], ◌∷◌, Bool-cases, inl, inr, arith}
use rogojin.Prelude.Channels.{update, try_send, take_chan}
use rogojin.Email.Types.{Message, Env}
use rogojin.Email.State.{Subscription, Manager, owns}
use rogojin.Email.Delivery.{
  Drop, offer, offer_each, fan_each, fanout, backfill_each, backfill, note_drop,
}
use rogojin.Email.System.{receive}
use rogojin.Email.Wiring.{IsCalm, IsWired, Keeps, Keeps-refl, update-Keeps, feeds-IsWired}

-- All subscriptions are kept.
abbrev AllKeep : (feeds feeds' : ℕ → Subscription) → Type 0
AllKeep feeds feeds' = (j : ℕ) → Keeps (feeds j) (feeds' j)

AllKeep-trans : (f g h : ℕ → Subscription) → AllKeep f g → AllKeep g h → AllKeep f h
AllKeep-trans f g h first then_ j = record {
  same_email = rw ((then_ j).same_email) ((first j).same_email);
  same_closed = rw ((then_ j).same_closed) ((first j).same_closed);
  calm_after = (then_ j).calm_after;
}

module _ {W E : Type 0} (env : Env W E) where
  offer-Keeps : (s : Subscription) (msg : Message) → IsCalm s → Keeps s (offer env s msg).0
  unfolding offer try_send
  offer-Keeps s msg v = record {
    same_email = ground (arith, v.shut, v.calm);
    same_closed = ground (arith, v.shut, v.calm);
    calm_after = record {
      shut = ground (arith, v.shut, v.calm);
      calm = ground (arith, v.shut, v.calm);
    };
  }

  offer_each-AllKeep :
      (msg : Message) (is : List ℕ) (feeds : ℕ → Subscription) (drops : List Drop)
      → ((j : ℕ) → IsCalm (feeds j))
      → AllKeep feeds (offer_each env msg is feeds drops).0
  unfolding offer_each
  offer_each-AllKeep msg [] feeds drops calm j = Keeps-refl (feeds j) (calm j)
  offer_each-AllKeep msg (i ∷ is) feeds drops calm j =
      let one =
        update-Keeps feeds i (offer env (feeds i) msg).0 calm
          (offer-Keeps (feeds i) msg (calm i)) in
      AllKeep-trans feeds _ _ one
        (offer_each-AllKeep msg is (update feeds i (offer env (feeds i) msg).0)
          (note_drop env drops (offer env (feeds i) msg).1) (λ k. (one k).calm_after))
        j

  fan_each-AllKeep :
      (id : String) (is : List ℕ) (msgs : List Message) (feeds : ℕ → Subscription)
      (drops : List Drop) (n : ℕ)
      → ((j : ℕ) → IsCalm (feeds j))
      → AllKeep feeds (fan_each env id is msgs feeds drops n).0
  unfolding fan_each
  fan_each-AllKeep id is [] feeds drops n calm j = Keeps-refl (feeds j) (calm j)
  fan_each-AllKeep id is (msg ∷ msgs) feeds drops n calm j =
      let one = offer_each-AllKeep (record msg { email_id = id }) is feeds drops calm in
      AllKeep-trans feeds _ _ one (fan_each-AllKeep id is msgs _ _ _ (λ k. (one k).calm_after)) j

  backfill_each-AllKeep :
      (id : String) (i : ℕ) (msgs : List Message) (feeds : ℕ → Subscription) (drops : List Drop)
      → ((j : ℕ) → IsCalm (feeds j))
      → AllKeep feeds (backfill_each env id i msgs feeds drops).0
  unfolding backfill_each
  backfill_each-AllKeep id i [] feeds drops calm j = Keeps-refl (feeds j) (calm j)
  backfill_each-AllKeep id i (msg ∷ msgs) feeds drops calm j =
      let m = record msg { email_id = id } in
      let one =
        update-Keeps feeds i (offer env (feeds i) m).0 calm (offer-Keeps (feeds i) m (calm i)) in
      AllKeep-trans feeds _ _ one (backfill_each-AllKeep id i msgs _ _ (λ k. (one k).calm_after)) j

  pub fanout-IsWired :
      (l : ℕ) (msgs : List Message) (m : Manager W) → IsWired m → IsWired (fanout env l msgs m).2
  unfolding fanout
  fanout-IsWired l msgs m v = elim (Bool-cases (owns l m)) [
    | inl own ↦ rw own (
        feeds-IsWired m _
          (fan_each-AllKeep (m.lines l).email_id (m.lines l).subs msgs m.feeds [] 0
            v.linked.feeds_calm)
          v)
    | inr lost ↦ rw lost v
  ]

  pub backfill-IsWired :
      (id : String) (i : ℕ) (msgs : List Message) (m : Manager W)
      → IsWired m
      → IsWired (backfill env id i msgs m).1
  unfolding backfill
  backfill-IsWired id i msgs m v =
      feeds-IsWired m _ (backfill_each-AllKeep id i msgs m.feeds [] v.linked.feeds_calm) v

module _ {W : Type 0} where
  pub receive-IsWired : (i : ℕ) (m : Manager W) → IsWired m → IsWired (receive i m)
  unfolding receive take_chan
  receive-IsWired i m v =
      feeds-IsWired m _
        (update-Keeps m.feeds i _ v.linked.feeds_calm (taken (m.feeds i) (v.linked.feeds_calm i))) v
    where
      taken : (s : Subscription) → IsCalm s → Keeps s (record s { ch = take_chan s.ch })
      taken s c = record {
        same_email = refl;
        same_closed = refl;
        calm_after = record { shut = ground (arith, c.shut); calm = ground (arith, c.calm) };
      }
