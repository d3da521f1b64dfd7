-- ===== src/Workflows/Module/Recovery.antt =====
-- workflows/module.go: proofs about NewInstance and RestoreInstance.
use rogojin.Prelude.{◌≡◌, refl, sym, ap, ◌∙◌, [], Option, some, ◌⊎◌, inl, inr, Option-cases}
use rogojin.Workflows.Base.{Deps, Base, Envelope, bind_base, snapshot}
use rogojin.Workflows.Base.Snapshots.{AreCodecs, IsRegistered, Restores, restore-snapshot}
use rogojin.Workflows.Module.{
  Module, ModuleError, Built, built, unbuilt, assert_input, build_new, new_instance, decode_input,
  restore_base, restore_instance,
}

Built-cases :
    {A : Type 0} (r : Built A) → ((e : ModuleError) × (r ≡ unbuilt e)) ⊎ ((a : A) × (r ≡ built a))
Built-cases (built a) = inr (a, refl)
Built-cases (unbuilt e) = inl (e, refl)

module _ {J W D A In I : Type 0} (m : Module J W D A In I)
    (base_put : (i : I) (b c : Base J W D)
      → m.base_of i ≡ some c
      → m.base_of (m.put_base b i) ≡ some b) where
  -- A fresh instance's base holds the document of its input.
  new_instance-input :
      (a : Option A) (deps : Deps J W) (i : I) (b : Base J W D)
      → new_instance m a deps ≡ built i
      → m.base_of i ≡ some b
      → (input : In) × (raw : J) × (assert_input m a ≡ built input)
        × (m.input_json.marshal input ≡ some raw)
        × (b.input ≡ some raw)
  unfolding new_instance bind_base
  new_instance-input a deps i b made here = elim (Built-cases (assert_input m a)) [
    | inl (e, bad) ↦ absurd (cc (rw (bad, new_instance) at made))
    | inr (input, typed) ↦ elim (Option-cases (m.input_json.marshal input)) [
      | inl opaque ↦ absurd (cc (rw (typed, opaque, build_new, new_instance) at made))
      | inr (raw, text) ↦ elim (Option-cases (m.build input deps)) [
        | inl failed ↦ absurd (cc (rw (typed, text, failed, build_new, new_instance) at made))
        | inr (i₀, fresh) ↦ elim (Option-cases (m.base_of i₀)) [
          | inl bare ↦ absurd (cc (rw (typed, text, fresh, bare, build_new, new_instance) at made))
          | inr (c, found) ↦
              let same : m.put_base (bind_base deps (some raw) c) i₀ ≡ i =
                cc (rw (typed, text, fresh, found, build_new, new_instance) at made) in
              let bound : some (bind_base deps (some raw) c) ≡ some b =
                sym (base_put i₀ (bind_base deps (some raw) c) c found)
                ∙ ap m.base_of same
                ∙ here in
              (input, raw, typed, text, input_of (bind_base deps (some raw) c) b bound)
        ]
      ]
    ]
  ]
    where
      input_of : (x y : Base J W D) → some x ≡ some y → y.input ≡ x.input
      input_of x y e = let same : x ≡ y = cc e in sym (ap (λ (z : Base J W D). z.input) same)

  module _ (encode : Envelope J → Option J) (decode : J → Option (Envelope J))
      (durable_json : D → Option J) (merge : J → D → Option D) where
    -- Take an instance that NewInstance made, whose base b the run has then changed (but for its
    -- input), and a snapshot of b. Suppose that a base that is put into an instance is read back; that
    -- envelopes and inputs decode to what was encoded, and durable state too when it is decoded into
    -- the fresh value that a constructor registers; and that the build function makes an instance of
    -- the same input again, with a base, an empty effect log and, exactly if b has durable state, that
    -- fresh value registered. Then RestoreInstance succeeds, and its instance has the base b, with its
    -- effect log, input and durable state, under the new deps.
    pub restore_instance-recovers :
        (a : Option A) (deps deps' : Deps J W) (i i' : I) (b₀ b c : Base J W D) (blob : J)
        (fresh : D)
        → AreCodecs encode decode durable_json merge fresh
        → ((x : In) (raw : J)
            → m.input_json.marshal x ≡ some raw
            → m.input_json.unmarshal raw ≡ some x)
        → new_instance m a deps ≡ built i
        → m.base_of i ≡ some b₀
        → b.input ≡ b₀.input
        → ((input : In) → assert_input m a ≡ built input → m.build input deps' ≡ some i')
        → m.base_of i' ≡ some c
        → c.effects ≡ []
        → IsRegistered fresh b c
        → snapshot encode durable_json b ≡ some blob
        → (j : I) × (restore_instance m decode merge deps' blob ≡ built j)
          × (m.base_of j ≡ some (record b { deps = deps' }))
    unfolding restore_instance decode_input Restores
    restore_instance-recovers a deps deps' i i' b₀ b c blob fresh codecs inputs made here kept again
          rebuilt bare registered written =
        let (input, raw, typed, text, recorded) = new_instance-input a deps i b₀ made here in
        let (env, decoded, same_input, restored) =
          restore-snapshot encode decode durable_json merge b c deps' blob fresh codecs bare
            registered written in
        let raw_here : env.input ≡ some raw = same_input ∙ kept ∙ recorded in
        let read_back : decode_input m env.input ≡ built input =
          ap (decode_input m) raw_here ∙ rw (inputs input raw text, decode_input) refl in
        (
          m.put_base (record b { deps = deps' }) i',
          rw
              (
                decoded,
                read_back,
                again input typed,
                rebuilt,
                restored,
                restore_base,
                restore_instance,
              )
              refl,
          base_put i' (record b { deps = deps' }) c rebuilt,
        )
