-- ===== src/Gateway/Membership.antt =====
-- What the calls of Socket.IO keep of a claim about who is in a room of notifications.
use agrocylo_pip.Prelude.{String, arith, eq_iff, inl, inr, true, ◌≡◌, ◌≢◌, ◌⊎◌}
use agrocylo_pip.Prelude.Text.{Lacks}
use agrocylo_pip.Gateway.Rooms.{
  notifications_room, notifications_room_injective, plain-ne-notifications_room,
}
use agrocylo_pip.Gateway.Io.{Io}
use mathlib.Core.Path.{subst}

module _ (io : Io) where
  join_cases :
      (k q : String) (s : io.State) (j r : String)
      → io.is_in (io.join k q s) j r ≡ true
      → (io.is_in s j r ≡ true) ⊎ ((k ≡ j) × (q ≡ r))
  join_cases k q s j r e = ground (arith, io.is_in-join k q s j r, eq_iff k j, eq_iff q r)

  connect_cases :
      (k : String) (s : io.State) (j r : String)
      → io.is_in (io.connect k s) j r ≡ true
      → (io.is_in s j r ≡ true) ⊎ (k ≡ r)
  connect_cases k s j r e = ground (arith, io.is_in-connect k s j r, eq_iff k j, eq_iff k r)

  leave_cases :
      (k q : String) (s : io.State) (j r : String)
      → io.is_in (io.leave k q s) j r ≡ true
      → io.is_in s j r ≡ true
  leave_cases k q s j r e = ground (arith, io.is_in-leave k q s j r)

  disconnect_cases :
      (k : String) (s : io.State) (j r : String)
      → io.is_in (io.disconnect k s) j r ≡ true
      → io.is_in s j r ≡ true
  disconnect_cases k s j r e = ground (arith, io.is_in-disconnect k s j r)

  -- Who is in a subject's room is entitled to it.
  abbrev pub IsPrivate : (String → String → Type 0) → io.State → Type 0
  IsPrivate Entitled rooms =
      (k sub : String) → io.is_in rooms k (notifications_room sub) ≡ true → Entitled k sub

  module _ (Entitled : String → String → Type 0) (rooms : io.State)
      (h : IsPrivate Entitled rooms) where
    pub connect-IsPrivate : (k : String) → Lacks b':' k → IsPrivate Entitled (io.connect k rooms)
    connect-IsPrivate k plain j sub e = elim (connect_cases k rooms j (notifications_room sub) e) [
      | inl before ↦ h j sub before
      | inr own ↦ absurd (plain-ne-notifications_room k sub plain own)
    ]

    -- Joining a room that is private to no one
    pub join-IsPrivate :
        (k r : String)
        → ((sub : String) → r ≢ notifications_room sub)
        → IsPrivate Entitled (io.join k r rooms)
    join-IsPrivate k r open_ j sub e = elim (join_cases k r rooms j (notifications_room sub) e) [
      | inl before ↦ h j sub before
      | inr (_, same) ↦ absurd (open_ sub same)
    ]

    pub join-IsPrivate_entitled :
        (k sub : String)
        → Entitled k sub
        → IsPrivate Entitled (io.join k (notifications_room sub) rooms)
    join-IsPrivate_entitled k sub entitled j sub' e =
        elim (join_cases k (notifications_room sub) rooms j (notifications_room sub') e) [
          | inl before ↦ h j sub' before
          | inr (own, same) ↦
              subst (λ i. Entitled i sub') own
                (subst (Entitled k) (notifications_room_injective sub sub' same) entitled)
        ]

    pub leave-IsPrivate : (k r : String) → IsPrivate Entitled (io.leave k r rooms)
    leave-IsPrivate k r j sub e = h j sub (leave_cases k r rooms j _ e)

    pub disconnect-IsPrivate : (k : String) → IsPrivate Entitled (io.disconnect k rooms)
    disconnect-IsPrivate k j sub e = h j sub (disconnect_cases k rooms j _ e)
