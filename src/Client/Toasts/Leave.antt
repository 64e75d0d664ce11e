-- ===== src/Client/Toasts/Leave.antt =====
-- Toasts do not stay.
use agrocylo_pip.Prelude.{
  Bool-cases, List, Option, String, [], ap, arith, eq_iff, false, inl, inr, ltb, none, refl, some,
  str_eq, suc, sym, true, ℕ, ◌++◌, ◌||◌, ◌∙◌, ◌∷◌, ◌≡◌,
}
use agrocylo_pip.Prelude.Text.{has, has-append}
use agrocylo_pip.Client.Toasts.{
  ToastItem, ToastOptions, Toasts, clear, delete, dismiss, duration_of, error, fire, no_toasts,
  options_of, push, push_error, push_success, remove, set, success,
}

-- What happens to the toasts: all but a toast that is to be kept
pub data Action : Type 0 where
  succeeds : (now : ℕ) (title : String) (description : Option String) → Action
  fails : (now : ℕ) (title : String) (description : Option String) → Action
  pushes : (now ms : ℕ) (options : ToastOptions) → Action
  dismisses : String → Action
  clears : Action
  fires : String → Action

abbrev pub act : Action → Toasts → Toasts
act (succeeds now title description) s = push_success now title description s
act (fails now title description) s = push_error now title description s
act (pushes now ms options) s = push now (record options { duration_ms = some (suc ms) }) s
act (dismisses id) s = dismiss id s
act clears s = clear s
act (fires id) s = fire id s

abbrev pub act_all : List Action → Toasts → Toasts
act_all [] s = s
act_all (a ∷ as_) s = act_all as_ (act a s)

-- Each toast has a timer.
abbrev Timed : List ToastItem → List String → Type 0
Timed [] ks = Unit {0}
Timed (t ∷ ts) ks = (has ks t.id ≡ true) × Timed ts ks

-- A text that another equals, and a third does not
str_eq_other : (l id k : String) → str_eq l id ≡ true → str_eq k id ≡ false → str_eq l k ≡ false
str_eq_other l id k same other = elim (Bool-cases (str_eq l k)) [
  | inr away ↦ away
  | inl e ↦
      let k_is_id : k ≡ id = sym ((eq_iff l k).0 e) ∙ (eq_iff l id).0 same in
      cc (other, (eq_iff k id).1 k_is_id)
]

has-delete :
    (id k : String) (ks : List String) → str_eq k id ≡ false → has (delete id ks) k ≡ has ks k
unfolding has
has-delete id k [] h = refl
has-delete id k (l ∷ ks) h = elim (Bool-cases (str_eq l id)) [
  | inr other ↦ rw other (ap (λ b. str_eq l k || b) (has-delete id k ks h))
  | inl same ↦ rw (same, str_eq_other l id k same h) (has-delete id k ks h)
]

has-set : (id k : String) (ks : List String) → has ks k ≡ true → has (set id ks) k ≡ true
unfolding set
has-set id k ks h = elim (Bool-cases (has ks id)) [
  | inl kept ↦ rw kept h
  | inr new ↦ rw new (has-append ks (id ∷ []) k ∙ ap (λ b. b || has (id ∷ []) k) h)
]

has-set_self : (id : String) (ks : List String) → has (set id ks) id ≡ true
unfolding set has
has-set_self id ks = elim (Bool-cases (has ks id)) [
  | inl kept ↦ rw kept kept
  | inr new ↦ rw new (
      has-append ks (id ∷ []) id
      ∙ ap (λ b. b || has (id ∷ []) id) new
      ∙ ap (λ b. b || false) ((eq_iff id id).1 refl))
]

Timed-set :
    (id : String) (ts : List ToastItem) (ks : List String) → Timed ts ks → Timed ts (set id ks)
Timed-set id [] ks h = tt
Timed-set id (t ∷ ts) ks (timed, later) = (has-set id t.id ks timed, Timed-set id ts ks later)

Timed-snoc :
    (t : ToastItem) (ts : List ToastItem) (ks : List String)
    → has ks t.id ≡ true
    → Timed ts ks
    → Timed (ts ++ t ∷ []) ks
Timed-snoc t [] ks new h = (new, tt)
Timed-snoc t (u ∷ ts) ks new (timed, later) = (timed, Timed-snoc t ts ks new later)

Timed-remove :
    (id : String) (ts : List ToastItem) (ks : List String)
    → Timed ts ks
    → Timed (remove id ts) (delete id ks)
Timed-remove id [] ks h = tt
Timed-remove id (t ∷ ts) ks (timed, later) = elim (Bool-cases (str_eq t.id id)) [
  | inl gone ↦ rw gone (Timed-remove id ts ks later)
  | inr stays ↦ rw stays (has-delete id t.id ks stays ∙ timed, Timed-remove id ts ks later)
]

abbrev IsTimed : Toasts → Type 0
IsTimed s = Timed s.toasts s.timers

push-IsTimed :
    (now ms : ℕ) (options : ToastOptions) (s : Toasts)
    → duration_of options.duration_ms ≡ suc ms
    → IsTimed s
    → IsTimed (push now options s)
unfolding push
push-IsTimed now ms options s lasts h =
    let on : ltb 0 (duration_of options.duration_ms) ≡ true = rw lasts (ground arith) in
    rw on (Timed-snoc _ s.toasts _ (has-set_self _ s.timers) (Timed-set _ s.toasts s.timers h))

dismiss-IsTimed : (id : String) (s : Toasts) → IsTimed s → IsTimed (dismiss id s)
unfolding dismiss
dismiss-IsTimed id s h = Timed-remove id s.toasts s.timers h

act-IsTimed : (a : Action) (s : Toasts) → IsTimed s → IsTimed (act a s)
unfolding fire clear
act-IsTimed (succeeds now title description) s h =
    push-IsTimed now 4999 (options_of success none title description) s refl h
act-IsTimed (fails now title description) s h =
    push-IsTimed now 6999 (options_of error (some 7000) title description) s refl h
act-IsTimed (pushes now ms options) s h =
    push-IsTimed now ms (record options { duration_ms = some (suc ms) }) s refl h
act-IsTimed (dismisses id) s h = dismiss-IsTimed id s h
act-IsTimed clears s h = tt
act-IsTimed (fires id) s h = elim (Bool-cases (has s.timers id)) [
  | inl running ↦ rw running (dismiss-IsTimed id s h)
  | inr stopped ↦ rw stopped h
]

act_all-IsTimed : (actions : List Action) (s : Toasts) → IsTimed s → IsTimed (act_all actions s)
act_all-IsTimed [] s h = h
act_all-IsTimed (a ∷ actions) s h = act_all-IsTimed actions (act a s) (act-IsTimed a s h)

abbrev pub fire_all : List String → Toasts → Toasts
fire_all [] s = s
fire_all (k ∷ ks) s = fire_all ks (fire k s)

-- A toast that is removed by an id needs no other.
Timed-removed :
    (k : String) (ts : List ToastItem) (ks : List String)
    → Timed ts (k ∷ ks)
    → Timed (remove k ts) ks
unfolding has
Timed-removed k [] ks h = tt
Timed-removed k (t ∷ ts) ks (timed, later) = elim (Bool-cases (str_eq t.id k)) [
  | inl gone ↦ rw gone (Timed-removed k ts ks later)
  | inr stays ↦
      let away : str_eq k t.id ≡ false = str_eq_other k k t.id ((eq_iff k k).1 refl) stays in
      rw stays (rw away at timed, Timed-removed k ts ks later)
]

-- An id without a timer is no toast's.
Timed-skipped :
    (k : String) (ts : List ToastItem) (ks timers : List String)
    → has timers k ≡ false
    → Timed ts timers
    → Timed ts (k ∷ ks)
    → Timed ts ks
unfolding has
Timed-skipped k [] ks timers stopped running h = tt
Timed-skipped k (t ∷ ts) ks timers stopped (runs, running) (timed, later) =
    elim (Bool-cases (str_eq k t.id)) [
      | inr away ↦ (rw away at timed, Timed-skipped k ts ks timers stopped running later)
      | inl same ↦ cc (ap (has timers) ((eq_iff k t.id).0 same), stopped, runs)
    ]

fire_running : (k : String) (s : Toasts) → has s.timers k ≡ true → fire k s ≡ dismiss k s
unfolding fire
fire_running k s h = rw h refl

fire_stopped : (k : String) (s : Toasts) → has s.timers k ≡ false → fire k s ≡ s
unfolding fire
fire_stopped k s h = rw h refl

fire_all_lem :
    (ks : List String) (s : Toasts) → IsTimed s → Timed s.toasts ks → (fire_all ks s).toasts ≡ []
unfolding dismiss has
fire_all_lem [] s h timed = none_left s.toasts timed
  where
    none_left : (ts : List ToastItem) → Timed ts [] → ts ≡ []
    none_left [] h = refl
    none_left (t ∷ ts) (timed, later) = cc timed
fire_all_lem (k ∷ ks) s h timed = elim (Bool-cases (has s.timers k)) [
  | inl running ↦
      ap (λ u. (fire_all ks u).toasts) (fire_running k s running)
      ∙ fire_all_lem ks (dismiss k s) (dismiss-IsTimed k s h) (Timed-removed k s.toasts ks timed)
  | inr stopped ↦
      ap (λ u. (fire_all ks u).toasts) (fire_stopped k s stopped)
      ∙ fire_all_lem ks s h (Timed-skipped k s.toasts ks s.timers stopped h timed)
]

-- After any toasts of successes and failures and any others that are not to stay until they are
-- dismissed, in any order with dismissals and timers that go off, no toast is shown any more once every
-- timer that then runs has gone off.
pub toasts_leave :
    (actions : List Action)
    → (fire_all (act_all actions no_toasts).timers (act_all actions no_toasts)).toasts ≡ []
toasts_leave actions =
    let timed : IsTimed (act_all actions no_toasts) = act_all-IsTimed actions no_toasts tt in
    fire_all_lem (act_all actions no_toasts).timers (act_all actions no_toasts) timed timed
