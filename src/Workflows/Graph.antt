-- ===== src/Workflows/Graph.antt =====
-- workflows/workflows.go: the state graph and a task's statuses.
use rogojin.Prelude.{
  ◌≡◌, refl, String, List, [], ◌∷◌, ◌++◌, Option, some, ite, Bool, true, false, str_dec,
}
use rogojin.Prelude.Map.{Map, lookup, insert, lookup-insert}

-- The zero status is the one of a task that has not started.
pub data Status : Type 0 where
  not_started running suspended killed failed done : Status

-- Status.Terminal
unfoldable pub terminal : Status → Bool
terminal killed = true
terminal done = true
terminal _ = false

pub record StateDef (H : Type 0) : Type 0 where
  pub name : String
  pub handler : H

pub record StateGraph (H : Type 0) : Type 0 where
  pub initial_state : String
  pub states : Map H

module _ {H : Type 0} where
  abbrev pub wrap : H → List (H → H) → H
  wrap h [] = h
  wrap h (opt ∷ opts) = wrap (opt h) opts

  -- On: each option wraps the handler produced so far.
  unfoldable pub on : String → H → List (H → H) → StateDef H
  on name h opts = record { name = name; handler = wrap h opts }

  abbrev pub add_states : List (StateDef H) → Map H → Map H
  add_states [] states = states
  add_states (def ∷ defs) states = add_states defs (insert def.name def.handler states)

  -- NewGraph
  unfoldable pub new_graph : String → List (StateDef H) → StateGraph H
  new_graph initial defs = record { initial_state = initial; states = add_states defs [] }

  -- Graph.Handler, nil if the state is not in the graph.
  unfoldable pub handler_of : StateGraph H → String → Option H
  handler_of g s = lookup s g.states

  wrap-append :
      (h : H) (opts : List (H → H)) (o : H → H) → wrap h (opts ++ o ∷ []) ≡ o (wrap h opts)
  wrap-append h [] o = refl
  wrap-append h (opt ∷ opts) o = wrap-append (opt h) opts o

  add_states-append :
      (defs : List (StateDef H)) (d : StateDef H) (states : Map H)
      → add_states (defs ++ d ∷ []) states ≡ insert d.name d.handler (add_states defs states)
  add_states-append [] d states = refl
  add_states-append (def ∷ defs) d states =
      add_states-append defs d (insert def.name def.handler states)

  -- In a graph whose last definition is made by On with a last option o, that definition decides
  -- its state, with o outermost, and leaves the handlers of the other states as they were.
  pub handler_of-last :
      (initial : String) (defs : List (StateDef H)) (name : String) (h : H) (opts : List (H → H))
      (o : H → H) (s : String)
      → handler_of (new_graph initial (defs ++ on name h (opts ++ o ∷ []) ∷ [])) s
        ≡ ite
            (str_dec name s)
            (some (o ((on name h opts).handler)))
            (handler_of (new_graph initial defs) s)
  unfolding handler_of new_graph on
  handler_of-last initial defs name h opts o s =
      rw (add_states-append defs (on name h (opts ++ o ∷ [])) [], wrap-append h opts o)
        (lookup-insert name s (o (wrap h opts)) (add_states defs []))
