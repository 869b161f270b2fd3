-- ===== src/Main/Loop.antt =====
-- How the loop of `main` in src/main.c goes on and ends.
use cileserver.Base.{ℕ, Bool, true, false, ◌||◌, List, [], ◌∷◌, ◌==◌, if◌then◌else◌}
use cileserver.Main.{Happening, signal, server_event}
use cileserver.Server.Slots.{Server, Event}

-- A signal that ends the program.
abbrev pub ends : ℕ → Bool
ends sig = sig == 2 || sig == 15

-- The events of the server before the first such signal, and whether there is one.
abbrev pub before_end : List Happening → List Event
before_end [] = []
before_end (signal sig ∷ hs) = if ends sig then [] else before_end hs
before_end (server_event e ∷ hs) = e ∷ before_end hs

abbrev pub is_ended : List Happening → Bool
is_ended [] = false
is_ended (signal sig ∷ hs) = if ends sig then true else is_ended hs
is_ended (server_event e ∷ hs) = is_ended hs
