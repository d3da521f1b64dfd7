-- ===== src/Email/Wiring/Closing.antt =====
-- email/manager.go: proofs about the Close of a subscription.
use rogojin.Prelude.{
  ℕ, ◌≡◌, ◌≢◌, refl, sym, ap, String, List, [], ◌∷◌, none, some, inl, inr, List-cases, Option-cases,
  ite, ℕ_discrete, arith,
}
use rogojin.Prelude.Map.{lookup, delete, lookup-delete}
use rogojin.Prelude.Handles.{remove, occurs, occurs-remove}
use rogojin.Prelude.Channels.{update, close_chan}
use rogojin.Email.State.{Subscription, Manager, retire}
use rogojin.Email.Listening.{leave, detach, close, retire_one}
use rogojin.Email.Wiring.{IsCalm, Serves, IsWired, feeds-IsWired, update-Keeps}

retire-IsCalm : (s : Subscription) → IsCalm s → IsCalm (retire s)
unfolding retire close_chan
retire-IsCalm s c = record {
  shut = ground (arith, c.shut, c.calm);
  calm = ground (arith, c.shut, c.calm);
}

module _ {W : Type 0} where
  -- The manager where the listener `l` has the subscriptions `subs` left and the subscription `i`
  -- is retired.
  abbrev left : ℕ → ℕ → List ℕ → Manager W → Manager W
  left l i subs m = record m {
    lines = update m.lines l (record (m.lines l) { subs = subs });
    feeds = update m.feeds i (retire (m.feeds i));
  }

  left-IsWired :
      (m : Manager W) (l i : ℕ) (subs : List ℕ)
      → lookup (m.feeds i).email_id m.listeners ≡ some l
      → subs ≡ remove i (m.lines l).subs
      → subs ≢ []
      → IsWired m
      → IsWired (left l i subs m)
  unfolding retire
  left-IsWired m l i subs serving rest more v = record {
    linked = record {
      attached = λ k j.
          ground (arith, v.linked.attached k j, serving, rest, occurs-remove j i (m.lines l).subs);
      served = λ j live. ground (arith, v.linked.served j, live);
      registered = λ id k e.
          let r = v.linked.registered id k e in
          record {
            named = ground (arith, r.named);
            given = r.given;
            running = ground (arith, r.running);
            known = r.known;
          };
      keyed = v.linked.keyed;
      feeds_calm = λ j.
          let c = retire-IsCalm (m.feeds i) (v.linked.feeds_calm i) in
          record {
            shut = ground (arith, c.shut, (v.linked.feeds_calm j).shut);
            calm = ground (arith, c.calm, (v.linked.feeds_calm j).calm);
          };
      lines_calm = λ k. ground (arith, v.linked.lines_calm k);
      unused = λ j late. ground (arith, v.linked.unused j late);
      ended = v.linked.ended;
      closing_calm = v.linked.closing_calm;
    };
    busy = λ id k e. ground (arith, more, v.busy id k e);
  }

  -- The manager where the inbox `id` of the listener `l` is not listened to any more.
  abbrev hung_up : String → ℕ → (ℕ → Subscription) → Manager W → Manager W
  hung_up id l feeds m = record m {
    lines = update m.lines l (record (m.lines l) { subs = []; stop = close_chan (m.lines l).stop });
    listeners = delete id m.listeners;
    feeds = feeds;
  }

  pub hung_up-IsWired :
      (m : Manager W) (id : String) (l : ℕ) (feeds : ℕ → Subscription)
      → lookup id m.listeners ≡ some l
      → ((j : ℕ)
          → feeds j
            ≡ ite (ℕ_discrete (occurs j (m.lines l).subs) 0) (m.feeds j) (retire (m.feeds j)))
      → IsWired m
      → IsWired (hung_up id l feeds m)
  unfolding retire close_chan occurs
  hung_up-IsWired m id l feeds serving retired v = record {
    linked = record {
      attached = λ k j. ground (
        arith,
        v.linked.attached k j,
        v.linked.attached l j,
        retired j,
        serving,
        lookup-delete id (m.feeds j).email_id m.listeners,
      );
      served = λ j live. ground (
        arith,
        v.linked.served j,
        v.linked.attached l j,
        retired j,
        serving,
        live,
        lookup-delete id (m.feeds j).email_id m.listeners,
      );
      registered = other_Serves;
      keyed = v.linked.keyed;
      feeds_calm = λ j.
          let c = retire-IsCalm (m.feeds j) (v.linked.feeds_calm j) in
          record {
            shut = ground (arith, retired j, c.shut, (v.linked.feeds_calm j).shut);
            calm = ground (arith, retired j, c.calm, (v.linked.feeds_calm j).calm);
          };
      lines_calm =
          λ k. ground (arith, v.linked.lines_calm k, (v.linked.registered id l serving).running);
      unused = λ j late. ground (arith, retired j, v.linked.unused j late);
      ended = λ shut j. ground (arith, lookup-delete id j m.listeners, v.linked.ended shut j);
      closing_calm = v.linked.closing_calm;
    };
    busy = λ id' k e. ground (
      arith,
      e,
      lookup-delete id id' m.listeners,
      v.busy id' k,
      (v.linked.registered id l serving).named,
      (other_Serves id' k e).named,
    );
  }
    where
      other_Serves :
          (id' : String) (k : ℕ)
          → lookup id' (delete id m.listeners) ≡ some k
          → Serves (hung_up id l feeds m) id' k
      other_Serves id' k e =
          let before : lookup id' m.listeners ≡ some k =
            ground (arith, e, lookup-delete id id' m.listeners) in
          let apart : id ≢ id' = ground (arith, e, lookup-delete id id' m.listeners) in
          let r = v.linked.registered id' k before in
          let r' = v.linked.registered id l serving in
          let lines_apart : l ≢ k = ground (arith, r.named, r'.named, apart) in
          record {
            named = ground (arith, r.named, lines_apart);
            given = r.given;
            running = ground (arith, r.running, lines_apart);
            known = r.known;
          }

  detach-retired :
      (m : Manager W) (i l j : ℕ)
      → lookup (m.feeds i).email_id m.listeners ≡ some l
      → remove i (m.lines l).subs ≡ []
      → IsWired m
      → update m.feeds i (retire (m.feeds i)) j
        ≡ ite (ℕ_discrete (occurs j (m.lines l).subs) 0) (m.feeds j) (retire (m.feeds j))
  unfolding retire occurs
  detach-retired m i l j serving last v = ground (
    arith,
    v.linked.attached l i,
    serving,
    ap (occurs j) last,
    occurs-remove j i (m.lines l).subs,
  )

  retire_one-IsWired :
      (i : ℕ) (m : Manager W)
      → lookup (m.feeds i).email_id m.listeners ≡ none
      → IsWired m
      → IsWired (retire_one i m)
  unfolding retire
  retire_one-IsWired i m gone v =
      feeds-IsWired m _
        (update-Keeps m.feeds i (retire (m.feeds i)) v.linked.feeds_calm record {
          same_email = ground arith;
          same_closed = ground (arith, v.linked.served i, gone);
          calm_after = retire-IsCalm (m.feeds i) (v.linked.feeds_calm i);
        })
        v

  detach-gone :
      (m : Manager W) (i : ℕ) → lookup (m.feeds i).email_id m.listeners ≡ none → detach i m ≡ m
  unfolding detach
  detach-gone m i gone = rw (gone, detach) refl

  detach-leave :
      (m : Manager W) (i l : ℕ) (subs : List ℕ)
      → lookup (m.feeds i).email_id m.listeners ≡ some l
      → remove i (m.lines l).subs ≡ subs
      → detach i m ≡ leave (m.feeds i).email_id l subs m
  unfolding detach
  detach-leave m i l subs serving rest = rw (serving, rest, detach) refl

  pub close-IsWired : (i : ℕ) (m : Manager W) → IsWired m → IsWired (close i m)
  unfolding close leave
  close-IsWired i m v = elim (Option-cases (lookup (m.feeds i).email_id m.listeners)) [
    | inl gone ↦ rw (detach-gone m i gone) (retire_one-IsWired i m gone v)
    | inr (l, serving) ↦ elim (List-cases (remove i (m.lines l).subs)) [
      | inl last ↦ rw (detach-leave m i l [] serving last) (
          hung_up-IsWired m (m.feeds i).email_id l _ serving
            (λ j. detach-retired m i l j serving last v) v)
      | inr (k, ks, more) ↦
          rw (detach-leave m i l (k ∷ ks) serving more)
            (left-IsWired m l i (k ∷ ks) serving (sym more) (λ e. cc) v)
    ]
  ]
