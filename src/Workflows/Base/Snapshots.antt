-- ===== src/Workflows/Base/Snapshots.antt =====
-- workflows/base.go: proofs about Snapshot and restore.
use rogojin.Prelude.{
  ◌≡◌, refl, sym, ap, ◌∙◌, [], ◌∷◌, Option, none, some, ◌⊎◌, inl, inr, Option-cases,
}
use rogojin.Prelude.Map.{Map}
use rogojin.Workflows.Base.{
  Deps, Base, Envelope, bind_base, restore, snapshot, omit_empty, restore_effects, restore_durable,
}

module _ {J W D : Type 0} where
  -- The constructor registers durable state for the rebuilt instance if it did for the first, as the
  -- value `fresh`.
  abbrev pub IsRegistered : D → Base J W D → Base J W D → Type 0
  IsRegistered fresh b c =
      ((b.durable ≡ none) × (c.durable ≡ none))
      ⊎ ((d : D) × (b.durable ≡ some d) × (c.durable ≡ some fresh))

module _ {J D : Type 0} (encode : Envelope J → Option J) (decode : J → Option (Envelope J))
    (durable_json : D → Option J) (merge : J → D → Option D) (fresh : D) where
  -- Documents decode to what was encoded, durable state into a fresh value.
  pub record AreCodecs : Type 0 where
    pub envelope : (env : Envelope J) (blob : J) → encode env ≡ some blob → decode blob ≡ some env
    pub state : (d : D) (blob : J) → durable_json d ≡ some blob → merge blob fresh ≡ some d

module _ {J W D : Type 0} (encode : Envelope J → Option J) (decode : J → Option (Envelope J))
    (durable_json : D → Option J) (merge : J → D → Option D) where
  restore_effects-omit_empty :
      (es : Map J) (c : Base J W D)
      → c.effects ≡ []
      → restore_effects (omit_empty es) c ≡ record c { effects = es }
  restore_effects-omit_empty [] c bare = ap (λ es. record c { effects = es }) bare
  restore_effects-omit_empty (e ∷ es) c bare = refl

  restore_durable-none :
      (registered : Option D) (x : Base J W D) → restore_durable merge registered none x ≡ some x
  restore_durable-none none x = refl
  restore_durable-none (some d) x = refl

  restore_durable-some :
      (registered : Option D) (d d₀ : D) (doc : J) (x : Base J W D)
      → registered ≡ some d₀
      → merge doc d₀ ≡ some d
      → restore_durable merge registered (some doc) x ≡ some (record x { durable = some d })
  restore_durable-some none d d₀ doc x there merged = absurd (cc there)
  restore_durable-some (some d₁) d d₀ doc x there merged =
      let same : d₁ ≡ d₀ = cc there in rw (same, merged, restore_durable) refl

  -- What restore makes of the envelope that Snapshot wrote.
  unfoldable pub Restores : Base J W D → Base J W D → Deps J W → J → Type 0
  Restores b c deps blob =
      (env : Envelope J) × (decode blob ≡ some env)
      × (env.input ≡ b.input)
      × (restore merge env (bind_base deps env.input c) ≡ some (record b { deps = deps }))

  pub restore-snapshot :
      (b c : Base J W D) (deps : Deps J W) (blob : J) (fresh : D)
      → AreCodecs encode decode durable_json merge fresh
      → c.effects ≡ []
      → IsRegistered fresh b c
      → snapshot encode durable_json b ≡ some blob
      → Restores b c deps blob
  unfolding Restores snapshot restore bind_base
  restore-snapshot b c deps blob fresh codecs bare (inl (none_b, none_c)) written =
      let env : Envelope J = record {
        input = b.input;
        effects = omit_empty b.effects;
        durable = none;
      } in
      let c' : Base J W D = record c { deps = deps; input = b.input } in
      (
        env,
        codecs.envelope env blob (rw (none_b, snapshot) at written),
        refl,
        restore_durable-none c.durable (restore_effects (omit_empty b.effects) c')
            ∙ ap some (restore_effects-omit_empty b.effects c' bare)
            ∙ ap (λ d. some (record b { deps = deps; durable = d })) (none_c ∙ sym none_b),
      )
  restore-snapshot b c deps blob fresh codecs bare (inr (d, some_b, some_c)) written =
      elim (Option-cases (durable_json d)) [
        | inl opaque ↦ absurd (cc (rw (some_b, opaque, snapshot) at written))
        | inr (doc, text) ↦
            let env : Envelope J = record {
              input = b.input;
              effects = omit_empty b.effects;
              durable = some doc;
            } in
            let c' : Base J W D = record c { deps = deps; input = b.input } in
            (
              env,
              codecs.envelope env blob (rw (some_b, text, snapshot) at written),
              refl,
              ap (restore_durable merge c.durable (some doc))
                    (restore_effects-omit_empty b.effects c' bare)
                  ∙ restore_durable-some c.durable d fresh doc
                      (record b { deps = deps; durable = c.durable }) some_c
                      (codecs.state d doc text)
                  ∙ ap (λ o. some (record b { deps = deps; durable = o })) (sym some_b),
            )
      ]
