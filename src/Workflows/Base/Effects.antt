-- ===== src/Workflows/Base/Effects.antt =====
-- workflows/base.go: proofs about the effect log.
use rogojin.Prelude.{
  ◌≡◌, refl, subst, sym, ◌∙◌, ap, String, List, [], ◌∷◌, Option, none, some, ◌⊎◌, inl, inr,
  Option-cases, str_dec, arith,
}
use rogojin.Prelude.Map.{lookup, insert, lookup-insert}
use rogojin.Workflows.Base.{
  Json, Base, Done, value, refused, unsaved, checkpoint_now, record_result, run_effect, do_once,
  Effect,
}

-- The result that a Done carries, if it carries one.
abbrev pub result_of : {T : Type 0} → Done T → Option T
result_of (value v) = some v
result_of (unsaved v e) = some v
result_of (refused r) = none

-- The effects map is private to the package, so an effect changes it by calls of Do and Once only,
-- and they take no entry away.
abbrev pub KeepsLog : {J W D T : Type 0} → Effect J W D T → Type 0
KeepsLog {J} {W} {D} effect =
    (b : Base J W D) (w : W) (k : String) (blob : J)
    → lookup k b.effects ≡ some blob
    → lookup k (effect b w).2.effects ≡ some blob

abbrev pub AllKeepLog : {J W D T : Type 0} → List (String × Effect J W D T) → Type 0
AllKeepLog [] = Unit {0}
AllKeepLog ((key, effect) ∷ rest) = KeepsLog effect × AllKeepLog rest

module _ {J W D T : Type 0} (json : Json J T) where
  -- Calls of Do one after another, each of the same result type.
  unfoldable pub do_all : List (String × Effect J W D T) → Base J W D → W → Base J W D × W
  unfolding do_once
  do_all [] b w = (b, w)
  do_all ((key, effect) ∷ rest) b w =
      let (_, b', w') = do_once json key effect b w in do_all rest b' w'

  -- The base and the world after one call and then others.
  abbrev pub after :
      String → Effect J W D T → List (String × Effect J W D T) → Base J W D → W → Base J W D × W
  after key effect calls b w = let (_, b', w') = do_once json key effect b w in do_all calls b' w'

  -- The log has a document under the key that decodes to the result.
  abbrev pub IsRecorded : String → T → Base J W D → Type 0
  IsRecorded key v b =
      (blob : J) × (lookup key b.effects ≡ some blob) × (json.unmarshal blob ≡ some v)

  record_result-effects :
      (key : String) (v : T) (blob : J) (b : Base J W D) (w : W)
      → ((record_result json key v blob b w).1.effects ≡ insert key blob b.effects)
        × (result_of (record_result json key v blob b w).0 ≡ some v)
  record_result-effects key v blob b w =
      elim (Option-cases (checkpoint_now (record b { effects = insert key blob b.effects }) w).0) [
        | inl saved ↦ rw (saved, record_result) (refl, refl)
        | inr (e, lost) ↦ rw (lost, record_result) (refl, refl)
      ]

  -- Do leaves the base as the effect does, or records the document of the result there.
  run_effect-effects :
      (key : String) (effect : Effect J W D T) (b : Base J W D) (w : W)
      → ((result_of (run_effect json key effect b w).0 ≡ none)
          × ((run_effect json key effect b w).1 ≡ (effect b w).2))
        ⊎ ((v : T) × (blob : J) × (json.marshal v ≡ some blob)
            × (result_of (run_effect json key effect b w).0 ≡ some v)
            × ((run_effect json key effect b w).1.effects ≡ insert key blob (effect b w).2.effects))
  unfolding run_effect
  run_effect-effects key effect b w = elim (Option-cases (effect b w).0) [
    | inr (e, lost) ↦ inl (rw (lost, run_effect) (refl, refl))
    | inl fine ↦ elim (Option-cases (json.marshal (effect b w).1)) [
      | inl opaque ↦ inl (rw (fine, opaque, run_effect) (refl, refl))
      | inr (blob, text) ↦
          let (logged, result) =
            record_result-effects key (effect b w).1 blob (effect b w).2 (effect b w).3 in
          inr (
            (effect b w).1,
            blob,
            text,
            rw (fine, text, run_effect) result,
            rw (fine, text, run_effect) logged,
          )
    ]
  ]

  -- A recorded result is returned, and the effect is not run: neither base nor world changes.
  do_once-replay :
      (key : String) (v : T) (effect : Effect J W D T) (b : Base J W D) (w : W)
      → IsRecorded key v b
      → do_once json key effect b w ≡ (value v, b, w)
  unfolding do_once
  do_once-replay key v effect b w (blob, here, decoded) = rw (here, decoded, do_once) refl

  module _
      (round_trip : (v : T) (blob : J)
        → json.marshal v ≡ some blob
        → json.unmarshal blob ≡ some v) where
    do_once-IsRecorded :
        (key : String) (v : T) (effect : Effect J W D T) (b : Base J W D) (w : W)
        → result_of (do_once json key effect b w).0 ≡ some v
        → IsRecorded key v (do_once json key effect b w).1
    unfolding do_once
    do_once-IsRecorded key v effect b w e = elim (Option-cases (lookup key b.effects)) [
      | inr (blob, here) ↦ elim (Option-cases (json.unmarshal blob)) [
        | inl garbled ↦ absurd (cc (rw (here, garbled, do_once) at e))
        | inr (u, decoded) ↦
            let same : u ≡ v = cc (rw (here, decoded, do_once) at e) in
            rw (here, decoded, do_once) (blob, here, decoded ∙ ap some same)
      ]
      | inl new ↦ elim (run_effect-effects key effect b w) [
        | inl (nothing, _) ↦ absurd (cc (nothing, rw (new, do_once) at e))
        | inr (u, blob, text, result, logged) ↦
            let same : u ≡ v = cc (result, rw (new, do_once) at e) in
            rw (new, do_once)
              (
                blob,
                ap (lookup key) logged
                    ∙ ground (arith, lookup-insert key key blob (effect b w).2.effects),
                round_trip u blob text ∙ ap some same,
              )
      ]
    ]

    -- No call of Do takes a record away.
    do_once-keeps :
        (key k : String) (v : T) (effect : Effect J W D T) (b : Base J W D) (w : W)
        → KeepsLog effect
        → IsRecorded k v b
        → IsRecorded k v (do_once json key effect b w).1
    unfolding do_once
    do_once-keeps key k v effect b w keeps (kept, there, decoded) = elim (str_dec key k) [
      | yes same ↦
          let here : lookup key b.effects ≡ some kept = ap (λ j. lookup j b.effects) same ∙ there in
          rw (here, decoded, do_once) (kept, there, decoded)
      | no ne ↦ elim (Option-cases (lookup key b.effects)) [
        | inr (blob, here) ↦ elim (Option-cases (json.unmarshal blob)) [
          | inl garbled ↦ rw (here, garbled, do_once) (kept, there, decoded)
          | inr (u, other) ↦ rw (here, other, do_once) (kept, there, decoded)
        ]
        | inl new ↦
            rw (new, do_once)
              (elim (run_effect-effects key effect b w) [
                | inl (_, same) ↦
                    subst (IsRecorded k v) (sym same) (kept, keeps b w k kept there, decoded)
                | inr (u, blob, _, _, logged) ↦ (
                  kept,
                  ap (lookup k) logged
                      ∙ ground (
                        arith,
                        ne,
                        keeps b w k kept there,
                        lookup-insert key k blob (effect b w).2.effects,
                      ),
                  decoded,
                )
              ])
      ]
    ]

    do_all-keeps :
        (calls : List (String × Effect J W D T)) (k : String) (v : T) (b : Base J W D) (w : W)
        → AllKeepLog calls
        → IsRecorded k v b
        → IsRecorded k v (do_all calls b w).0
    unfolding do_all
    do_all-keeps [] k v b w keep kept = kept
    do_all-keeps ((key, effect) ∷ rest) k v b w (one, others) kept =
        do_all-keeps rest k v _ _ others (do_once-keeps key k v effect b w one kept)

    -- If results decode as they were encoded: once Do has returned a result under a key, then after
    -- any further calls of Do, on whatever keys, with whatever failures, and with effects that change
    -- anything but take no entry off the log, Do under that key returns the same result and changes
    -- neither the base nor the world, so no effect is run.
    pub do_once-at_most_once :
        (key : String) (v : T) (effect again : Effect J W D T)
        (calls : List (String × Effect J W D T)) (b : Base J W D) (w : W)
        → AllKeepLog calls
        → result_of (do_once json key effect b w).0 ≡ some v
        → do_once json key again (after key effect calls b w).0 (after key effect calls b w).1
          ≡ (value v, (after key effect calls b w).0, (after key effect calls b w).1)
    do_once-at_most_once key v effect again calls b w keep e =
        do_once-replay key v again _ _
          (do_all-keeps calls key v _ _ keep (do_once-IsRecorded key v effect b w e))

  -- Where Do returns no result, it records nothing: the base is as it was if the key has an entry,
  -- and else what the effect has left.
  pub do_once-refused :
      (key : String) (effect : Effect J W D T) (b : Base J W D) (w : W)
      → result_of (do_once json key effect b w).0 ≡ none
      → (do_once json key effect b w).1
        ≡ elim (lookup key b.effects) [ none ↦ (effect b w).2 | some blob ↦ b ]
  unfolding do_once
  do_once-refused key effect b w e = elim (Option-cases (lookup key b.effects)) [
    | inr (blob, here) ↦ elim (Option-cases (json.unmarshal blob)) [
      | inl garbled ↦ rw (here, garbled, do_once) refl
      | inr (u, decoded) ↦ rw (here, decoded, do_once) refl
    ]
    | inl new ↦ elim (run_effect-effects key effect b w) [
      | inl (_, same) ↦ rw (new, do_once) same
      | inr (u, blob, _, result, _) ↦ absurd (cc (result, rw (new, do_once) at e))
    ]
  ]
