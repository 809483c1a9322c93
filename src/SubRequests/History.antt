-- ===== src/SubRequests/History.antt =====
-- Sequences of calls of the service, by any viewers, and what holds of the requests throughout.
pub mod Sound
pub mod Takers
use air_cover.Base.{ℤ, String, List, [], ◌∷◌}
use air_cover.Errors.{Exec}
use air_cover.Domain.{CurrentUser}
use air_cover.SubRequests.Ports.{CreateInput, Service}
use air_cover.SubRequests.Service.{create, delete}
use air_cover.SubRequests.Actions.{apply_action}

-- The calls of the service that may write requests.
pub data Call : Type 0 where
  creates : CurrentUser → CreateInput → Call
  deletes : CurrentUser → ℤ → Call
  acts : CurrentUser → ℤ → String → Call

module _ {W : Type 0} (s : Service W) where
  abbrev pub call : Call → Exec W (Unit {0})
  call (creates viewer input) = create s viewer input
  call (deletes viewer id) = delete s viewer id
  call (acts viewer id action) = apply_action s viewer id action

  -- The calls in turn, whatever each returns.
  abbrev pub run : List Call → W → W
  run [] w = w
  run (c ∷ calls) w = run calls (call c w).1
