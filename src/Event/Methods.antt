-- ===== src/Event/Methods.antt =====
-- event.py: the method in the type of an event for a request.
use cactus_runner.Prelude.{String, List, [], ◌∷◌}
use cactus_runner.Prelude.Strings.{split}

abbrev first_part : List String → String
first_part [] = ""
first_part (part ∷ _) = part

-- listener.event.type.split("-")[0]
unfoldable pub expected_method : String → String
expected_method type = first_part (split b'-' type)
