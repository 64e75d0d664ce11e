-- ===== src/Client/Toasts/Tests.antt =====
-- Two toasts, of which one is dismissed, and a third after its timer has gone off.
use agrocylo_pip.Prelude.{List, [], length, none, refl, some, ◌∷◌, ◌≡◌}
use agrocylo_pip.Prelude.Decimal.{print_ℕ}
use agrocylo_pip.Client.Toasts.{dismiss, fire, no_toasts, push, set}
use agrocylo_pip.Client.Toasts.Leave.{
  Action, act_all, dismisses, fails, fire_all, fires, succeeds, toasts_leave,
}

abbrev three_toasts : List Action
three_toasts =
    succeeds 10 "Campaign created" none
    ∷ fails 20 "Could not fund campaign" (some "boom")
    ∷ dismisses "toast-1-10"
    ∷ fires "toast-2-20"
    ∷ succeeds 30 "Refund claimed" none
    ∷ []

toasts_leave_example :
    (fire_all (act_all three_toasts no_toasts).timers (act_all three_toasts no_toasts)).toasts ≡ []
toasts_leave_example = toasts_leave three_toasts

one_is_left :
    let s = act_all three_toasts no_toasts in (length s.toasts ≡ 1) × (s.timers ≡ "toast-3-30" ∷ [])
unfolding push dismiss fire print_ℕ set
one_is_left = (refl, refl)
