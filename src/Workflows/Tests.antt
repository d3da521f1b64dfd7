-- ===== src/Workflows/Tests.antt =====
-- Runs of the workflows package on small instances.
use rogojin.Prelude.{
  ℕ, ◌+◌, ◌*◌, ◌<◌, ◌≤◌, ◌≡◌, refl, ap, sym, ◌∙◌, inr, String, List, [], ◌∷◌, ◌++◌, Option, none,
  some, ite, str_dec, pos, if◌then◌else◌, ◌==◌, arith,
}
use rogojin.Prelude.Map.{Map, lookup}
use rogojin.Workflows.Policy.{
  Ran, next, failed, plain, Clock, Handler, retry, allowed, exp_backoff, as_permanent,
}
use rogojin.Workflows.Policy.Retrying.{retry-runs, retry-Succeeds, exp_backoff-bounds}
use rogojin.Workflows.Graph.{StateDef, on, new_graph, handler_of, handler_of-last}
use rogojin.Workflows.Base.{Json, Effect, Deps, Base, Envelope, value, bind_base, do_once, snapshot}
use rogojin.Workflows.Base.Effects.{after, do_once-at_most_once, do_once-refused}
use rogojin.Workflows.Base.Snapshots.{AreCodecs}
use rogojin.Workflows.Module.{Module, built, new_instance, restore_instance, assert_input}
use rogojin.Workflows.Module.Recovery.{restore_instance-recovers}

abbrev steady : Clock ℕ (Unit {0})
steady = record { done = λ w. none; wait = λ d w. (none, w) }

abbrev flaky : Handler ℕ (Unit {0})
flaky w = if w == 0 then (failed (plain tt), w + 1) else (next none, w + 1)

abbrev broken : Handler ℕ (Unit {0})
broken w = (failed (plain tt), w + 1)

retry-runs_example :
    (r : Ran (Unit {0})) × (w : ℕ) × (retry steady (pos 3) (λ n. pos n) broken 4 ≡ some (r, w))
    × (4 < w)
    × (w ≤ 4 + allowed (pos 3))
retry-runs_example =
    retry-runs steady (pos 3) (λ n. pos n) broken (λ w. w) (λ w. refl) (λ d w. refl) 4

retry-Succeeds_example : retry steady (pos 3) (λ n. pos n) flaky 0 ≡ some (next none, 2)
unfolding as_permanent
retry-Succeeds_example =
    retry-Succeeds steady (pos 3) (λ n. pos n) flaky 1 0 none 2 (omega arith)
      (plain tt, refl, refl, refl, refl, (refl, refl))

exp_backoff-bounds_example :
    (d : ℕ) × (exp_backoff (λ n. pos (n * 100)) (pos 250) 3 ≡ pos d) × (0 < d) × (d ≤ 250)
exp_backoff-bounds_example = exp_backoff-bounds (λ n. pos (n * 100)) 250 3 (omega arith)

abbrev first_defs : List (StateDef ℕ)
first_defs = on "pay" 1 [] ∷ on "ship" 2 [] ∷ []

handler_of-last_example :
    handler_of (new_graph "pay" (first_defs ++ on "pay" 3 ([] ++ (λ n. n * 2) ∷ []) ∷ [])) "pay"
    ≡ ite
        (str_dec "pay" "pay")
        (some ((on "pay" 3 []).handler * 2))
        (handler_of (new_graph "pay" first_defs) "pay")
handler_of-last_example = handler_of-last "pay" first_defs "pay" 3 [] (λ n. n * 2) "pay"

data Doc : Type 0 where
  num : ℕ → Doc
  null : Doc
  just : Doc → Doc
  entry : String → Doc → Doc → Doc
  object : Doc → Doc → Doc → Doc

abbrev num_json : Json Doc ℕ
num_json = record {
  marshal = λ n. some (num n);
  unmarshal = λ j. elim j [ num n ↦ some n | _ ↦ none ];
}

num_round_trip : (n : ℕ) (j : Doc) → num_json.marshal n ≡ some j → num_json.unmarshal j ≡ some n
num_round_trip n j e = let same : num n ≡ j = cc e in ap num_json.unmarshal (sym same)

abbrev the_deps : Deps Doc ℕ
the_deps = record { task_id = "t"; assignments = []; checkpoint = some (λ es w. (none, w)) }

abbrev blank : Base Doc ℕ (Unit {0})
blank = record { deps = the_deps; input = none; effects = []; durable = none }

abbrev charge : Effect Doc ℕ (Unit {0}) ℕ
charge b w = (none, 7, b, w + 1)

abbrev decline : Effect Doc ℕ (Unit {0}) ℕ
decline b w = (some "declined", 0, b, w + 1)

do_once-at_most_once_example :
    do_once num_json "pay" charge
      (after num_json "pay" charge (("ship", charge) ∷ []) blank 0).0
      (after num_json "pay" charge (("ship", charge) ∷ []) blank 0).1
    ≡ (
      value 7,
      (after num_json "pay" charge (("ship", charge) ∷ []) blank 0).0,
      (after num_json "pay" charge (("ship", charge) ∷ []) blank 0).1,
    )
unfolding do_once lookup
do_once-at_most_once_example =
    do_once-at_most_once num_json num_round_trip "pay" 7 charge charge (("ship", charge) ∷ []) blank
      0 ((λ b w k blob e. e), tt) refl

do_once-refused_example :
    (do_once num_json "pay" decline blank 0).1
    ≡ elim (lookup "pay" blank.effects) [ none ↦ (decline blank 0).2 | some blob ↦ blank ]
unfolding do_once lookup
do_once-refused_example = do_once-refused num_json "pay" decline blank 0 refl

abbrev to_option : Option Doc → Doc
to_option none = null
to_option (some d) = just d

abbrev from_option : Doc → Option Doc
from_option (just d) = some d
from_option _ = none

abbrev to_entries : Map Doc → Doc
to_entries [] = null
to_entries ((k, d) ∷ rest) = entry k d (to_entries rest)

abbrev from_entries : Doc → Map Doc
from_entries (entry k d rest) = (k, d) ∷ from_entries rest
from_entries _ = []

from_entries-to_entries : (m : Map Doc) → from_entries (to_entries m) ≡ m
from_entries-to_entries [] = refl
from_entries-to_entries ((k, d) ∷ rest) = ap (◌∷◌ (k, d)) (from_entries-to_entries rest)

from_option-to_option : (o : Option Doc) → from_option (to_option o) ≡ o
from_option-to_option none = refl
from_option-to_option (some d) = refl

abbrev to_effects : Option (Map Doc) → Doc
to_effects none = null
to_effects (some m) = just (to_entries m)

abbrev from_effects : Doc → Option (Map Doc)
from_effects (just d) = some (from_entries d)
from_effects _ = none

from_effects-to_effects : (o : Option (Map Doc)) → from_effects (to_effects o) ≡ o
from_effects-to_effects none = refl
from_effects-to_effects (some m) = ap some (from_entries-to_entries m)

abbrev encode : Envelope Doc → Option Doc
encode env = some (object (to_option env.input) (to_effects env.effects) (to_option env.durable))

abbrev decode : Doc → Option (Envelope Doc)
decode (object i es d) =
    some (record { input = from_option i; effects = from_effects es; durable = from_option d })
decode _ = none

-- Durable state is a number, and a document is added to the number that is there.
abbrev merge_num : Doc → ℕ → Option ℕ
merge_num (num n) d = some (n + d)
merge_num _ d = none

codecs : AreCodecs encode decode (λ d. some (num d)) merge_num 0
codecs = record {
  envelope = λ env blob e.
      let same : object (to_option env.input) (to_effects env.effects) (to_option env.durable)
          ≡ blob =
        cc e in
      ap decode (sym same)
      ∙ rw
          (
            from_option-to_option env.input,
            from_effects-to_effects env.effects,
            from_option-to_option env.durable,
          )
          refl;
  state = λ d blob e.
      let same : num d ≡ blob = cc e in ap (λ j. merge_num j 0) (sym same) ∙ ap some (omega arith);
}

abbrev empty_state : Base Doc ℕ ℕ
empty_state = record { deps = the_deps; input = none; effects = []; durable = some 0 }

abbrev counter : Module Doc ℕ ℕ ℕ ℕ (Base Doc ℕ ℕ)
counter = record {
  zero_input = 0;
  cast = λ a. some a;
  input_json = num_json;
  build = λ input deps. some empty_state;
  validate = none;
  base_of = λ i. some i;
  put_base = λ b i. b;
}

-- The run has paid, and counted to three.
abbrev paid : Base Doc ℕ ℕ
paid = record empty_state { input = some (num 5); effects = ("pay", num 7) ∷ []; durable = some 3 }

abbrev paid_blob : Doc
paid_blob = object (just (num 5)) (just (entry "pay" (num 7) null)) (just (num 3))

restore_instance-recovers_example :
    (j : Base Doc ℕ ℕ) × (restore_instance counter decode merge_num the_deps paid_blob ≡ built j)
    × (some j ≡ some (record paid { deps = the_deps }))
unfolding new_instance assert_input bind_base snapshot
restore_instance-recovers_example =
    restore_instance-recovers counter (λ i b c e. refl) encode decode (λ d. some (num d)) merge_num
      (some 5) the_deps the_deps (record empty_state { input = some (num 5) }) empty_state
      (record empty_state { input = some (num 5) }) paid empty_state paid_blob 0 codecs
      num_round_trip refl refl refl (λ input e. refl) refl refl (inr (3, refl, refl)) refl
