-- ===== src/Comms/Delivery/Order.antt =====
-- comms/bus.go: proofs about the order and the number of the payloads a subscriber gets.
use mathlib.Core.List.{Sublistᴰ, append_assoc}
use mathlib.Core.List.Sublistᴰ
use rogojin.Prelude.{
  ℤ, ℕ, ◌+◌, ◌≤◌, ◌≡◌, refl, sym, String, List, [], ◌∷◌, ◌++◌, Option, none, some, Bool, true,
  false, if◌then◌else◌, ite, ltb, ℕ_discrete, str_dec, arith, Bool-cases, inl, inr, length,
  length-append, List-cases, ap,
}
use rogojin.Prelude.Channels.{Chan, make_chan, take_chan, close_chan, try_send}
use rogojin.Comms.{Subscription, Call, new_bus, with_buffer, emit, on, take, hang_up, blank, run}
use rogojin.Comms.Wiring.{feed_step, next_handle, offer}
use rogojin.Comms.Delivery.{replay, run-replay}

module _ {A : Type 0} where
  Sublistᴰ-skip : {xs ys : List A} (zs : List A) → Sublistᴰ xs ys → Sublistᴰ xs (ys ++ zs)
  Sublistᴰ-skip [] Sublistᴰ.slnil = Sublistᴰ.slnil
  Sublistᴰ-skip (z ∷ zs) Sublistᴰ.slnil = Sublistᴰ.cons (Sublistᴰ-skip zs Sublistᴰ.slnil)
  Sublistᴰ-skip zs (Sublistᴰ.cons s) = Sublistᴰ.cons (Sublistᴰ-skip zs s)
  Sublistᴰ-skip zs (Sublistᴰ.cons-cons e s) = Sublistᴰ.cons-cons e (Sublistᴰ-skip zs s)

  Sublistᴰ-snoc : {xs ys : List A} (z : A) → Sublistᴰ xs ys → Sublistᴰ (xs ++ z ∷ []) (ys ++ z ∷ [])
  Sublistᴰ-snoc z Sublistᴰ.slnil = Sublistᴰ.cons-cons refl Sublistᴰ.slnil
  Sublistᴰ-snoc z (Sublistᴰ.cons s) = Sublistᴰ.cons (Sublistᴰ-snoc z s)
  Sublistᴰ-snoc z (Sublistᴰ.cons-cons e s) = Sublistᴰ.cons-cons e (Sublistᴰ-snoc z s)

module _ {P : Type 0} where
  -- What is published to the subscription of the handle `h`, by the calls alone: `at` is the
  -- topic it is attached to.
  abbrev sent_step : Call P → Option String → List P
  sent_step (emit t p) (some u) = ite (str_dec u t) (p ∷ []) []
  sent_step (emit t p) none = []
  sent_step (on t) at = []
  sent_step (take i) at = []
  sent_step (hang_up i) at = []

  abbrev attach_step : ℕ → ℕ → Call P → Option String → Option String
  attach_step h n (emit t p) at = at
  attach_step h n (on t) at = ite (ℕ_discrete n h) (some t) at
  attach_step h n (take i) at = at
  attach_step h n (hang_up i) at = ite (ℕ_discrete i h) none at

  abbrev pub sent : ℕ → List (Call P) → ℕ → Option String → List P
  sent h [] n at = []
  sent h (c ∷ cs) n at = sent_step c at ++ sent h cs (next_handle c n) (attach_step h n c at)

  abbrev attached : Subscription P → Option String
  attached s = if s.once then none else some s.topic

  record IsInOrder (h buffer n : ℕ) (xs : List P) (s : Subscription P) : Type 0 where
    kept : Sublistᴰ (s.ch.taken ++ s.ch.queue) xs
    fits : length s.ch.queue ≤ buffer
    sized : s.once ≡ false → s.ch.cap ≡ buffer
    shut : s.ch.closed ≡ s.once
    calm : s.ch.panicked ≡ false
    unused : n ≤ h → s ≡ blank

  offer-kept :
      (p : P) (xs : List P) (c : Chan P)
      → Sublistᴰ (c.taken ++ c.queue) xs
      → Sublistᴰ ((try_send p c).0.taken ++ (try_send p c).0.queue) (xs ++ p ∷ [])
  unfolding try_send
  offer-kept p xs c kept = elim (Bool-cases c.closed) [
    | inl shut ↦ rw shut (Sublistᴰ-skip (p ∷ []) kept)
    | inr open_ ↦ elim (Bool-cases (ltb (length c.queue) c.cap)) [
      | inl room ↦
          rw (open_, room, sym (append_assoc c.taken c.queue (p ∷ []))) (Sublistᴰ-snoc p kept)
      | inr full ↦ rw (open_, full) (Sublistᴰ-skip (p ∷ []) kept)
    ]
  ]

  widen :
      {h buffer n m : ℕ} {xs : List P} {s : Subscription P} (zs : List P)
      → n ≤ m
      → IsInOrder h buffer n xs s
      → IsInOrder h buffer m (xs ++ zs) s
  widen zs later v = record {
    kept = Sublistᴰ-skip zs v.kept;
    fits = v.fits;
    sized = v.sized;
    shut = v.shut;
    calm = v.calm;
    unused = λ early. v.unused (omega arith);
  }

  offer-IsInOrder :
      (h buffer n : ℕ) (xs : List P) (p : P) (s : Subscription P)
      → s.once ≡ false
      → IsInOrder h buffer n xs s
      → IsInOrder h buffer n (xs ++ p ∷ []) (offer p s)
  unfolding try_send
  offer-IsInOrder h buffer n xs p s live v = record {
    kept = offer-kept p xs s.ch v.kept;
    fits = ground (arith, v.fits, v.sized live, length-append s.ch.queue (p ∷ []));
    sized = ground (arith, v.sized);
    shut = ground (arith, v.shut);
    calm = ground (arith, v.shut, v.calm);
    unused = λ early. absurd (cc (v.unused early, live));
  }

  take-IsInOrder :
      (h buffer n : ℕ) (xs : List P) (s : Subscription P)
      → IsInOrder h buffer n xs s
      → IsInOrder h buffer n xs (record s { ch = take_chan s.ch })
  unfolding take_chan
  take-IsInOrder h buffer n xs s v = elim (List-cases s.ch.queue) [
    | inl e ↦ simp e v
    | inr (x, rest, e) ↦ record {
      kept = rw (e, append_assoc s.ch.taken (x ∷ []) rest, sym e) v.kept;
      fits = rw e (omega (arith, ap length e, v.fits));
      sized = rw e v.sized;
      shut = rw e v.shut;
      calm = rw e v.calm;
      unused = λ early. absurd (cc (ap (λ (r : Subscription P). r.ch.queue) (v.unused early), e));
    }
  ]

  close-IsInOrder :
      (h buffer n : ℕ) (xs : List P) (s : Subscription P)
      → s.once ≡ false
      → IsInOrder h buffer n xs s
      → IsInOrder h buffer n xs (record s { ch = close_chan s.ch; once = true })
  unfolding close_chan
  close-IsInOrder h buffer n xs s live v = record {
    kept = ground (arith, v.kept);
    fits = ground (arith, v.fits);
    sized = λ e. absurd (cc e);
    shut = ground (arith, v.shut);
    calm = ground (arith, v.shut, v.calm);
    unused = λ early. absurd (cc (v.unused early, live));
  }

  emit-IsInOrder :
      (h buffer n : ℕ) (xs : List P) (t : String) (p : P) (s : Subscription P) (b : Bool)
      → s.once ≡ b
      → {Q : Type 0} (d : Dec Q) → IsInOrder h buffer n xs s
      → IsInOrder h buffer n
          (xs ++ (if b then [] else ite d (p ∷ []) []))
          (if b then s else ite d (offer p s) s)
  emit-IsInOrder h buffer n xs t p s true e d v = widen [] (omega arith) v
  emit-IsInOrder h buffer n xs t p s false e (yes same) v = offer-IsInOrder h buffer n xs p s e v
  emit-IsInOrder h buffer n xs t p s false e (no other) v = widen [] (omega arith) v

  -- A change of the subscription that only one handle's calls make.
  own-IsInOrder :
      {h buffer n m : ℕ} {xs : List P} {s s' : Subscription P} {Q : Type 0} (d : Dec Q)
      → n ≤ m
      → IsInOrder h buffer n xs s
      → (Q → IsInOrder h buffer m (xs ++ []) s')
      → IsInOrder h buffer m (xs ++ []) (ite d s' s)
  own-IsInOrder (yes mine) later v changed = changed mine
  own-IsInOrder (no other) later v changed = widen [] later v

  fresh-IsInOrder :
      (h buffer n : ℕ) (xs : List P) (t : String) (s : Subscription P)
      → n ≡ h
      → IsInOrder h buffer n xs s
      → IsInOrder h buffer (n + 1) xs (record { topic = t; ch = make_chan buffer; once = false })
  unfolding make_chan
  fresh-IsInOrder h buffer n xs t s mine v = record {
    kept = Sublistᴰ.nil-sublist xs;
    fits = omega arith;
    sized = λ e. refl;
    shut = refl;
    calm = refl;
    unused = λ early. absurd (omega arith);
  }

  sent_step-emit :
      (t : String) (p : P) (s : Subscription P)
      → sent_step (emit t p) (attached s)
        ≡ (if s.once then [] else ite (str_dec s.topic t) (p ∷ []) [])
  sent_step-emit t p s = ground arith

  step-IsInOrder :
      (h buffer n : ℕ) (xs : List P) (c : Call P) (s : Subscription P)
      → IsInOrder h buffer n xs s
      → IsInOrder h buffer
          (next_handle c n)
          (xs ++ sent_step c (attached s))
          (feed_step h buffer n c s)
  step-IsInOrder h buffer n xs (emit t p) s v =
      rw (sent_step-emit t p s)
        (emit-IsInOrder h buffer n xs t p s s.once refl (str_dec s.topic t) v)
  step-IsInOrder h buffer n xs (on t) s v =
      own-IsInOrder (ℕ_discrete n h) (omega arith) v
        (λ mine. widen [] (omega arith) (fresh-IsInOrder h buffer n xs t s mine v))
  step-IsInOrder h buffer n xs (take i) s v =
      own-IsInOrder (ℕ_discrete i h) (omega arith) v
        (λ mine. widen [] (omega arith) (take-IsInOrder h buffer n xs s v))
  step-IsInOrder h buffer n xs (hang_up i) s v = elim (Bool-cases s.once) [
    | inl gone ↦
        simp gone
          (own-IsInOrder (ℕ_discrete i h) (omega arith) v (λ mine. widen [] (omega arith) v))
    | inr live ↦ simp live (
        own-IsInOrder (ℕ_discrete i h) (omega arith) v
          (λ mine. widen [] (omega arith) (close-IsInOrder h buffer n xs s live v)))
  ]

  step-attached :
      (h buffer n : ℕ) (c : Call P) (s : Subscription P)
      → attached (feed_step h buffer n c s) ≡ attach_step h n c (attached s)
  step-attached h buffer n (emit t p) s = ground arith
  step-attached h buffer n (on t) s = ground arith
  step-attached h buffer n (take i) s = ground arith
  step-attached h buffer n (hang_up i) s = ground arith

  replay-IsInOrder :
      (h buffer : ℕ) (cs : List (Call P)) (n : ℕ) (xs : List P) (s : Subscription P)
      → IsInOrder h buffer n xs s
      → (m : ℕ) × IsInOrder h buffer m (xs ++ sent h cs n (attached s)) (replay h buffer cs n s)
  replay-IsInOrder h buffer [] n xs s v = (n, widen [] (omega arith) v)
  replay-IsInOrder h buffer (c ∷ cs) n xs s v =
      let (m, after) =
        replay-IsInOrder h buffer cs (next_handle c n) (xs ++ sent_step c (attached s))
          (feed_step h buffer n c s) (step-IsInOrder h buffer n xs c s v) in
      (
        m,
        rw
            (
              sym (step-attached h buffer n c s),
              sym (
                  append_assoc xs (sent_step c (attached s))
                    (sent h cs (next_handle c n) (attached (feed_step h buffer n c s)))),
            )
            after,
      )

  blank-IsInOrder : (h buffer : ℕ) → IsInOrder h buffer 0 [] blank
  blank-IsInOrder h buffer = record {
    kept = Sublistᴰ.slnil;
    fits = omega arith;
    sized = λ e. absurd (cc e);
    shut = refl;
    calm = refl;
    unused = λ early. refl;
  }

  -- After any calls on a new bus, what a subscriber has received and has still queued is, in the
  -- order of publication, part of what was published on its topic between its Subscribe and its
  -- Close; at most the bus's buffer is queued, and its channel never had a send after the close
  -- or a second close.
  pub run-IsInOrder :
      (size : ℤ) (cs : List (Call P)) (h : ℕ)
      → Sublistᴰ
          (((run cs (new_bus size)).feeds h).ch.taken ++ ((run cs (new_bus size)).feeds h).ch.queue)
          (sent h cs 0 none)
        × (length ((run cs (new_bus size)).feeds h).ch.queue ≤ with_buffer size)
        × (((run cs (new_bus size)).feeds h).ch.panicked ≡ false)
  run-IsInOrder size cs h =
      let (m, v) =
        replay-IsInOrder h (with_buffer size) cs 0 [] blank
          (blank-IsInOrder h (with_buffer size)) in
      rw (run-replay size cs h) (v.kept, v.fits, v.calm)
