-- ===== src/Workflows/Base.antt =====
-- workflows/base.go. J is a JSON document; W is the world outside the instance, which effects and
-- checkpoints change; an effect may change the base too. A json.RawMessage that is nil or empty is `none`.
pub mod Effects
pub mod Snapshots
use rogojin.Prelude.{◌≡◌, refl, String, List, [], ◌∷◌, Option, none, some}
use rogojin.Prelude.Map.{Map, lookup, insert}

-- encoding/json on one type of values.
pub record Json (J T : Type 0) : Type 0 where
  pub marshal : T → Option J
  pub unmarshal : J → Option T

pub record Placement : Type 0 where
  pub group_id : String
  pub resource_id : String

-- The ports of a task. The checkpoint reads the instance through a pointer: it is given the effect
-- log as it stands.
pub record Deps (J W : Type 0) : Type 0 where
  pub task_id : String
  pub assignments : Map Placement
  pub checkpoint : Option (Map J → W → Option String × W)

-- D is the instance's durable state, behind the pointer that Persist registers.
pub record Base (J W D : Type 0) : Type 0 where
  pub deps : Deps J W
  pub input : Option J
  pub effects : Map J
  pub durable : Option D

pub record Envelope (J : Type 0) : Type 0 where
  pub input : Option J
  pub effects : Option (Map J)
  pub durable : Option J

-- The errors of Do, Snapshot and restore.
pub data Refusal : Type 0 where
  effect_failed : String → Refusal
  not_decoded not_marshaled : Refusal
  not_restored : Refusal

-- What Do returns: a value, an error, or, when the checkpoint failed, both.
pub data Done (T : Type 0) : Type 0 where
  value : T → Done T
  refused : Refusal → Done T
  unsaved : T → String → Done T

-- `omitempty` on the effect log.
abbrev pub omit_empty : {J : Type 0} → Map J → Option (Map J)
omit_empty [] = none
omit_empty (e ∷ es) = some (e ∷ es)

module _ {J W D : Type 0} where
  unfoldable pub new_base : Deps J W → Base J W D
  new_base deps = record { deps = deps; input = none; effects = []; durable = none }

  unfoldable pub bind_base : Deps J W → Option J → Base J W D → Base J W D
  bind_base deps input b = record b { deps = deps; input = input }

  -- A kind with no placement reads as the zero Assignment.
  unfoldable pub assignment : String → Base J W D → Placement
  assignment kind b = elim (lookup kind b.deps.assignments) [
    | none ↦ record { group_id = ""; resource_id = "" }
    | some p ↦ p
  ]

  unfoldable pub checkpoint_now : Base J W D → W → Option String × W
  checkpoint_now b w = elim b.deps.checkpoint [ none ↦ (none, w) | some save ↦ save b.effects w ]

  unfoldable pub persist : D → Base J W D → Base J W D
  persist d b = record b { durable = some d }

  -- Snapshot; the envelope is encoded by `encode`, and the durable state by `durable_json`.
  unfoldable pub snapshot : (Envelope J → Option J) → (D → Option J) → Base J W D → Option J
  snapshot encode durable_json b = elim b.durable [
    | none ↦ encode (record { input = b.input; effects = omit_empty b.effects; durable = none })
    | some d ↦ elim (durable_json d) [
      | none ↦ none
      | some blob ↦
          encode (record { input = b.input; effects = omit_empty b.effects; durable = some blob })
    ]
  ]

  abbrev pub restore_effects : Option (Map J) → Base J W D → Base J W D
  restore_effects none b = b
  restore_effects (some es) b = record b { effects = es }

  -- `json.Unmarshal(env.Durable, b.durable)` writes over the registered state: `merge`.
  abbrev pub restore_durable :
      (J → D → Option D) → Option D → Option J → Base J W D → Option (Base J W D)
  restore_durable merge (some d) (some blob) b = elim (merge blob d) [
    | none ↦ none
    | some d' ↦ some (record b { durable = some d' })
  ]
  restore_durable merge _ _ b = some b

  unfoldable pub restore : (J → D → Option D) → Envelope J → Base J W D → Option (Base J W D)
  restore merge env b = restore_durable merge b.durable env.durable (restore_effects env.effects b)

-- An effect: an error or a result, and the instance's base and the world after it. It is a closure,
-- which may call Do in turn or change durable state.
abbrev pub Effect : Type 0 → Type 0 → Type 0 → Type 0 → Type 0
Effect J W D T = Base J W D → W → Option String × T × Base J W D × W

module _ {J W D T : Type 0} (json : Json J T) where
  -- The effect has run: its result is recorded, and the log is checkpointed.
  abbrev pub record_result : String → T → J → Base J W D → W → Done T × Base J W D × W
  record_result key v blob b w =
      let b' : Base J W D = record b { effects = insert key blob b.effects } in
      let (failure, w') = checkpoint_now b' w in
      elim failure [ none ↦ (value v, b', w') | some e ↦ (unsaved v e, b', w') ]

  unfoldable pub run_effect : String → Effect J W D T → Base J W D → W → Done T × Base J W D × W
  unfolding checkpoint_now
  run_effect key effect b w =
      let (failure, v, b₁, w₁) = effect b w in
      elim failure [
        | some e ↦ (refused (effect_failed e), b₁, w₁)
        | none ↦ elim (json.marshal v) [
          | none ↦ (refused not_marshaled, b₁, w₁)
          | some blob ↦ record_result key v blob b₁ w₁
        ]
      ]

  -- Do: a recorded result is returned without running the effect.
  unfoldable pub do_once : String → Effect J W D T → Base J W D → W → Done T × Base J W D × W
  unfolding run_effect
  do_once key effect b w = elim (lookup key b.effects) [
    | some cached ↦ elim (json.unmarshal cached) [
      | none ↦ (refused not_decoded, b, w)
      | some v ↦ (value v, b, w)
    ]
    | none ↦ run_effect key effect b w
  ]

-- Base.Once: Do for an effect with no result.
unfoldable pub once :
    {J W D : Type 0}
    → Json J (Unit {0})
    → String
    → (Base J W D → W → Option String × Base J W D × W)
    → Base J W D
    → W
    → Done (Unit {0}) × Base J W D × W
unfolding do_once
once json key effect b w =
    do_once json key (λ c v. let (failure, c', v') = effect c v in (failure, tt, c', v')) b w
