-- ===== src/Tests/Lookups.antt =====
-- A request with two parameters of the same name.
use fcgi.Prelude.{◌≡◌, ◌⊎◌, [], ◌∷◌, map}
use fcgi.Outcome.{threw, cannot_get_parameter}
use fcgi.Basics.{responder}
use fcgi.Connection.{Connection}
use fcgi.NamesValues.Pairs.{Lacks}
use fcgi.NamesValues.RoundTrip.{stored}
use fcgi.Server.{parameter}
use fcgi.Server.Lookup.{IsFound, parameter-IsFound}
use fcgi.Tests.Sessions.{of_role, silent}

abbrev asked : Connection
asked = record (of_role responder silent) {
  parameters = map stored ((64 ∷ [], []) ∷ (65 ∷ [], 66 ∷ []) ∷ (65 ∷ [], 67 ∷ []) ∷ []);
}

parameter-IsFound_example :
    ((parameter (65 ∷ []) asked ≡ threw cannot_get_parameter asked)
      × Lacks (65 ∷ []) asked.parameters)
    ⊎ IsFound (65 ∷ []) asked
parameter-IsFound_example = parameter-IsFound (65 ∷ []) asked
