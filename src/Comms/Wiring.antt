-- ===== src/Comms/Wiring.antt =====
-- comms/bus.go: which subscriptions a topic's set holds, and what a call does to one of them.
use rogojin.Prelude.{
  ℤ, ℕ, zero, suc, ◌+◌, ◌≤◌, ◌≡◌, refl, sym, String, List, [], ◌∷◌, true, false, if◌then◌else◌, ite,
  ℕ_discrete, str_dec, arith,
}
use rogojin.Prelude.Map.{Map, lookup, insert, lookup-insert, lookup-delete}
use rogojin.Prelude.Handles.{remove, occurs, occurs-remove}
use rogojin.Prelude.Channels.{update, make_chan, take_chan, close_chan, try_send}
use rogojin.Comms.{
  Subscription, Bus, Call, new_bus, emit, on, take, hang_up, blank, members, store_members,
  publish_each, publish, subscribe, receive, detach, close, step,
}

members-store_members :
    (u t : String) (is : List ℕ) (m : Map (List ℕ))
    → members (lookup t (store_members u is m)) ≡ ite (str_dec u t) is (members (lookup t m))
unfolding store_members members
members-store_members u t [] m = ground (arith, lookup-delete u t m)
members-store_members u t (i ∷ is) m = ground (arith, lookup-insert u t (i ∷ is) m)

module _ {P : Type 0} where
  abbrev pub offer : P → Subscription P → Subscription P
  offer p s = record s { ch = (try_send p s.ch).0 }

  abbrev offer_times : ℕ → P → Subscription P → Subscription P
  offer_times zero p s = s
  offer_times (suc k) p s = offer_times k p (offer p s)

  publish_each-at :
      (p : P) (is : List ℕ) (feeds : ℕ → Subscription P) (n j : ℕ)
      → (publish_each p is feeds n).1 j ≡ offer_times (occurs j is) p (feeds j)
  unfolding publish_each occurs
  publish_each-at p [] feeds n j = refl
  publish_each-at p (i ∷ is) feeds n j = elim (ℕ_discrete i j) [
    | yes same ↦ rw (same, publish_each-at p is (update feeds j (offer p (feeds j)))) ground arith
    | no other ↦ rw (publish_each-at p is (update feeds i (offer p (feeds i)))) ground arith
  ]

  abbrev pub registered : String → Subscription P → ℕ
  registered t s = if s.once then 0 else ite (str_dec s.topic t) 1 0

  -- Each topic's set holds its attached subscriptions once, and no handle is attached before it
  -- is given out.
  pub record IsWired (b : Bus P) : Type 0 where
    wired : (j : ℕ) (t : String) → occurs j (members (lookup t b.subs)) ≡ registered t (b.feeds j)
    unused : (j : ℕ) → b.fresh ≤ j → b.feeds j ≡ blank

  -- What a call does to the subscription `s` of the handle `h`, where `n` is the next handle.
  abbrev pub feed_step : ℕ → ℕ → ℕ → Call P → Subscription P → Subscription P
  feed_step h buffer n (emit t p) s = if s.once then s else ite (str_dec s.topic t) (offer p s) s
  feed_step h buffer n (on t) s =
      ite (ℕ_discrete n h) (record { topic = t; ch = make_chan buffer; once = false }) s
  feed_step h buffer n (take i) s = ite (ℕ_discrete i h) (record s { ch = take_chan s.ch }) s
  feed_step h buffer n (hang_up i) s =
      ite (ℕ_discrete i h) (if s.once then s else record s { ch = close_chan s.ch; once = true }) s

  pub step-feeds :
      (c : Call P) (b : Bus P)
      → IsWired b
      → (h : ℕ) → (step c b).feeds h ≡ feed_step h b.buffer b.fresh c (b.feeds h)
  unfolding step publish subscribe receive detach close
  step-feeds (emit t p) b v h =
      ground (arith, publish_each-at p (members (lookup t b.subs)) b.feeds 0 h, v.wired h t)
  step-feeds (on t) b v h = ground arith
  step-feeds (take i) b v h = ground arith
  step-feeds (hang_up i) b v h = ground arith

  abbrev pub next_handle : Call P → ℕ → ℕ
  next_handle (emit t p) n = n
  next_handle (on t) n = n + 1
  next_handle (take i) n = n
  next_handle (hang_up i) n = n

  pub step-fresh : (c : Call P) (b : Bus P) → (step c b).fresh ≡ next_handle c b.fresh
  unfolding step publish subscribe receive detach close
  step-fresh (emit t p) b = refl
  step-fresh (on t) b = refl
  step-fresh (take i) b = refl
  step-fresh (hang_up i) b = ground arith

  pub step-buffer : (c : Call P) (b : Bus P) → (step c b).buffer ≡ b.buffer
  unfolding step publish subscribe receive detach close
  step-buffer (emit t p) b = refl
  step-buffer (on t) b = refl
  step-buffer (take i) b = refl
  step-buffer (hang_up i) b = ground arith

  -- The sets after a call.
  abbrev subs_step : Call P → Bus P → Map (List ℕ)
  subs_step (emit t p) b = b.subs
  subs_step (on t) b = insert t (b.fresh ∷ members (lookup t b.subs)) b.subs
  subs_step (take i) b = b.subs
  subs_step (hang_up i) b =
      if (b.feeds i).once
      then b.subs
      else store_members (b.feeds i).topic (remove i (members (lookup (b.feeds i).topic b.subs)))
          b.subs

  step-subs : (c : Call P) (b : Bus P) → (step c b).subs ≡ subs_step c b
  unfolding step publish subscribe receive detach close
  step-subs (emit t p) b = refl
  step-subs (on t) b = refl
  step-subs (take i) b = refl
  step-subs (hang_up i) b = ground arith

  wired_step :
      (c : Call P) (b : Bus P)
      → IsWired b
      → (j : ℕ) (t : String)
      → occurs j (members (lookup t (subs_step c b)))
        ≡ registered t (feed_step j b.buffer b.fresh c (b.feeds j))
  unfolding occurs members
  wired_step (emit u p) b v j t = ground (arith, v.wired j t)
  wired_step (on u) b v j t = ground (
    arith,
    lookup-insert u t (b.fresh ∷ members (lookup u b.subs)) b.subs,
    v.wired j t,
    v.wired j u,
    v.unused j,
  )
  wired_step (take i) b v j t = ground (arith, v.wired j t)
  wired_step (hang_up i) b v j t =
      let u = (b.feeds i).topic in
      let is = remove i (members (lookup u b.subs)) in
      ground (
        arith,
        members-store_members u t is b.subs,
        occurs-remove j i (members (lookup u b.subs)),
        v.wired j t,
        v.wired j u,
      )

  unused_step :
      (c : Call P) (b : Bus P)
      → IsWired b
      → (j : ℕ) → next_handle c b.fresh ≤ j
      → feed_step j b.buffer b.fresh c (b.feeds j) ≡ blank
  unfolding take_chan
  unused_step (emit t p) b v j later = rw (v.unused j later) refl
  unused_step (on t) b v j later = elim (ℕ_discrete b.fresh j) [
    | yes same ↦ absurd (omega arith)
    | no other ↦ ground (arith, v.unused j (omega arith))
  ]
  unused_step (take i) b v j later = rw (v.unused j later) ground arith
  unused_step (hang_up i) b v j later = rw (v.unused j later) ground arith

  pub step-IsWired : (c : Call P) (b : Bus P) → IsWired b → IsWired (step c b)
  step-IsWired c b v = record {
    wired = λ j t. rw (step-subs c b, step-feeds c b v j) (wired_step c b v j t);
    unused =
        λ j later. rw (step-feeds c b v j) (unused_step c b v j (rw (sym (step-fresh c b)) later));
  }

  pub new_bus-IsWired : (n : ℤ) → IsWired (new_bus {P = P} n)
  unfolding new_bus occurs members lookup
  new_bus-IsWired n = record { wired = λ j t. refl; unused = λ j later. refl }
