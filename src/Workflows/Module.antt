-- ===== src/Workflows/Module.antt =====
-- workflows/module.go. An input is any value, of a type A, or nil; `cast` is the type assertion to
-- In. An instance of type I embeds a Base or does not: `base_of` is the interface assertion and
-- `put_base` a write through the pointer it yields.
pub mod Recovery
use rogojin.Prelude.{String, Option, none, some, ◌≡◌, refl, ◌⊎◌, inl, inr, Option-cases}
use rogojin.Workflows.Base.{Json, Deps, Base, Envelope, bind_base, restore}

pub record Module (J W D A In I : Type 0) : Type 0 where
  pub zero_input : In
  pub cast : A → Option In
  pub input_json : Json J In
  pub build : In → Deps J W → Option I
  pub validate : Option (In → Option String)
  pub base_of : I → Option (Base J W D)
  pub put_base : Base J W D → I → I

-- The errors of a module; `build_failed` stands for what the build function returns.
pub data ModuleError : Type 0 where
  wrong_input input_not_marshaled build_failed no_base : ModuleError
  snapshot_not_decoded input_not_decoded durable_not_restored : ModuleError
  invalid_input : String → ModuleError

pub data Built (A : Type 0) : Type 0 where
  built : A → Built A
  unbuilt : ModuleError → Built A

module _ {J W D A In I : Type 0} (m : Module J W D A In I) where
  unfoldable pub assert_input : Option A → Built In
  assert_input none = built m.zero_input
  assert_input (some a) = elim (m.cast a) [ none ↦ unbuilt wrong_input | some input ↦ built input ]

  -- ValidateInput; nil is success.
  unfoldable pub validate_input : Option A → Option ModuleError
  unfolding assert_input
  validate_input a = elim (assert_input a) [
    | unbuilt e ↦ some e
    | built input ↦ elim m.validate [
      | none ↦ none
      | some check ↦ elim (check input) [ none ↦ none | some e ↦ some (invalid_input e) ]
    ]
  ]

  -- NewInstance after its input is typed.
  abbrev pub build_new : In → Deps J W → Built I
  build_new input deps = elim (m.input_json.marshal input) [
    | none ↦ unbuilt input_not_marshaled
    | some raw ↦ elim (m.build input deps) [
      | none ↦ unbuilt build_failed
      | some i ↦ elim (m.base_of i) [
        | none ↦ unbuilt no_base
        | some b ↦ built (m.put_base (bind_base deps (some raw) b) i)
      ]
    ]
  ]

  unfoldable pub new_instance : Option A → Deps J W → Built I
  unfolding assert_input bind_base
  new_instance a deps = elim (assert_input a) [
    | unbuilt e ↦ unbuilt e
    | built input ↦ build_new input deps
  ]

  -- The recorded input; none is the zero input.
  unfoldable pub decode_input : Option J → Built In
  decode_input none = built m.zero_input
  decode_input (some raw) = elim (m.input_json.unmarshal raw) [
    | none ↦ unbuilt input_not_decoded
    | some input ↦ built input
  ]

  abbrev pub restore_base : (J → D → Option D) → Deps J W → Envelope J → I → Built I
  restore_base merge deps env i = elim (m.base_of i) [
    | none ↦ unbuilt no_base
    | some b ↦ elim (restore merge env (bind_base deps env.input b)) [
      | none ↦ unbuilt durable_not_restored
      | some b' ↦ built (m.put_base b' i)
    ]
  ]

  -- RestoreInstance; `decode` reads an envelope, and `merge` writes a document over durable state.
  unfoldable pub restore_instance :
      (J → Option (Envelope J)) → (J → D → Option D) → Deps J W → J → Built I
  unfolding decode_input restore bind_base
  restore_instance decode merge deps blob = elim (decode blob) [
    | none ↦ unbuilt snapshot_not_decoded
    | some env ↦ elim (decode_input env.input) [
      | unbuilt e ↦ unbuilt e
      | built input ↦ elim (m.build input deps) [
        | none ↦ unbuilt build_failed
        | some i ↦ restore_base merge deps env i
      ]
    ]
  ]
