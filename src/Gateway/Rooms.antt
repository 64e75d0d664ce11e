-- ===== src/Gateway/Rooms.antt =====
-- The room names of websocket/events.types.ts.
use Prim.Native.Char.{code}
use mathlib.Core.Path.{subst}
use agrocylo_pip.Prelude.{String, ap, arith, refl, ℕ, ◌≡◌, ◌≢◌}
use agrocylo_pip.Prelude.Text.{Lacks, Lacks-concat, concat, concat_cancel}

unfoldable pub campaign_room : String → String
campaign_room campaign_id = concat "campaign:" campaign_id

abbrev pub activity_room : String
activity_room = "activity"

unfoldable pub notifications_room : String → String
notifications_room subject = concat "notifications:" subject

abbrev pub notifications_read_scope : String
notifications_read_scope = "notifications:read"

abbrev first_code : String → ℕ
first_code String.[] = 0
first_code (String.◌∷◌ c s) = code c

-- Whatever a client calls its campaign, its room is no private room, and the room of one subject is
-- not that of another.
pub campaign_room-ne-notifications_room :
    (id sub : String) → campaign_room id ≢ notifications_room sub
unfolding campaign_room notifications_room
campaign_room-ne-notifications_room id sub h = absurd (omega (arith, ap first_code h))

pub activity_room-ne-notifications_room : (sub : String) → activity_room ≢ notifications_room sub
unfolding notifications_room
activity_room-ne-notifications_room sub h = absurd (omega (arith, ap first_code h))

pub campaign_room-ne-activity_room : (id : String) → campaign_room id ≢ activity_room
unfolding campaign_room
campaign_room-ne-activity_room id h = absurd (omega (arith, ap first_code h))

pub notifications_room_injective :
    (sub sub' : String) → notifications_room sub ≡ notifications_room sub' → sub ≡ sub'
unfolding notifications_room
notifications_room_injective sub sub' h = concat_cancel "notifications:" sub sub' h

-- The room of a socket's own id, which has no colon, is no private room.
pub plain-ne-notifications_room : (id sub : String) → Lacks b':' id → id ≢ notifications_room sub
unfolding notifications_room
plain-ne-notifications_room id sub plain h =
    Lacks-concat b':' ":" "notifications" sub (subst (Lacks b':') h plain) refl
