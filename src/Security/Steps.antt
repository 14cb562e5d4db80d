-- ===== src/Security/Steps.antt =====
-- What can happen while the panel is open, in any order.
use winkd.Prelude.{true, List, [], ◌∷◌, ◌++◌, Str, ◌≡◌}
use winkd.Security.{Panel, ServerRequest, Answer, Body}
use winkd.Security.Controls.{
  World, Control, is_enabled, click, reply, type_confirm, type_disable, type_regen, clear_flash,
}

pub data Event : Type 0 where
  clicks : Control → Event
  replies : ServerRequest → Event
  types clears : Event

-- One event. A reply belongs to a request that waits, whichever comes first; a timer of a flash
-- that is over may fire at any time.
pub data Step : Event → World → World → Type 0 where
  clicked :
      (c : Control) (w : World) → is_enabled c w.panel ≡ true → Step (Event.clicks c) w (click c w)
  replied :
      (r : ServerRequest) (a : Answer (Body r)) (before after : List ServerRequest) (p : Panel)
      → Step
          (Event.replies r)
          (record { panel = p; waiting = before ++ r ∷ after })
          (record { panel = reply r a p; waiting = before ++ after })
  typed_confirm :
      (s : Str) (w : World) → Step Event.types w (record w { panel = type_confirm s w.panel })
  typed_disable :
      (s : Str) (w : World) → Step Event.types w (record w { panel = type_disable s w.panel })
  typed_regen :
      (s : Str) (w : World) → Step Event.types w (record w { panel = type_regen s w.panel })
  cleared : (w : World) → Step Event.clears w (record w { panel = clear_flash w.panel })

pub data Steps : List Event → World → World → Type 0 where
  stays : (w : World) → Steps [] w w
  goes :
      (e : Event) (es : List Event) (u v w : World) → Step e u v → Steps es v w → Steps (e ∷ es) u w
