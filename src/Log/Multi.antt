-- ===== src/Log/Multi.antt =====
-- `MultiLogger` of crates/tttt-log/src/multi.rs. A sink is its state with what `log_event` and
-- `flush` do to it, a trait object's methods.
use tttt.Base.{◌≡◌, refl, Option, none, some, List, [], ◌∷◌, ◌++◌, map, Result, ok, err}

module _ (E S : Type 0) where
  -- An operation of the trait on the state of a sink.
  abbrev pub Operation : Type 0
  Operation = S → Result E (Unit {0}) × S

  unfoldable pub add_sink : S → List S → List S
  add_sink sink sinks = sinks ++ sink ∷ []

  -- `if let Err(e) = … { last_error = Some(e); }`
  abbrev note_error : Result E (Unit {0}) → Option E → Option E
  note_error (ok _) last = last
  note_error (err e) last = some e

  unfoldable pub for_each_sink : Operation → List S → Option E → Option E × List S
  for_each_sink op [] last = (last, [])
  for_each_sink op (sink ∷ sinks) last =
      let (result, sink') = op sink in
      let (last', sinks') = for_each_sink op sinks (note_error result last) in
      (last', sink' ∷ sinks')

  abbrev pub outcome : Option E → Result E (Unit {0})
  outcome none = ok tt
  outcome (some e) = err e

  -- `log_event` and `flush` of the dispatcher.
  unfoldable pub dispatch : Operation → List S → Result E (Unit {0}) × List S
  dispatch op sinks = let (last, sinks') = for_each_sink op sinks none in (outcome last, sinks')

  -- The error of the last sink that fails.
  abbrev pub last_failure : Operation → List S → Option E → Option E
  last_failure op [] last = last
  last_failure op (sink ∷ sinks) last = last_failure op sinks (note_error (op sink).0 last)

  for_each_sink_lem :
      (op : Operation) (sinks : List S) (last : Option E)
      → for_each_sink op sinks last ≡ (last_failure op sinks last, map (λ s. (op s).1) sinks)
  unfolding for_each_sink
  for_each_sink_lem op [] last = refl
  for_each_sink_lem op (sink ∷ sinks) last =
      rw (for_each_sink_lem op sinks (note_error (op sink).0 last))

  -- The operation reaches every sink, whichever fail; the result is the error of the last sink
  -- that failed, and success if none did.
  pub dispatch_all :
      (op : Operation) (sinks : List S)
      → dispatch op sinks ≡ (outcome (last_failure op sinks none), map (λ s. (op s).1) sinks)
  unfolding dispatch
  dispatch_all op sinks = rw (for_each_sink_lem op sinks none)
