-- ===== src/Net/FdEvent/Tests.antt =====
-- Runs of the container of events, and its theorems at concrete inputs.
use tiny_rpc.Prelude.{ℕ, ◌≡◌, refl, List, [], ◌∷◌}
use tiny_rpc.Net.FdEvent.{FdEvent, fd_event}
use tiny_rpc.Net.FdEvent.Container.{new_events, fd_event_container, IsIndexedFrom}

abbrev four : List (FdEvent ℕ)
four = fd_event 0 ∷ fd_event 1 ∷ fd_event 2 ∷ fd_event 3 ∷ []

first_four : fd_event_container 4 ≡ four
unfolding fd_event_container new_events
first_four = refl

four-IsIndexed : IsIndexedFrom 0 four
unfolding fd_event
four-IsIndexed = (refl, (refl, (refl, (refl, tt))))
