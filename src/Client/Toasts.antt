-- ===== src/Client/Toasts.antt =====
-- context/ToastContext.tsx: the toasts that are shown, and the timers that take them away. A timer is
-- known by the id that it is kept under; it fires only while it is kept, as it is cancelled otherwise.
pub mod Leave
pub mod Tests
use agrocylo_pip.Prelude.{
  List, Option, String, [], if◌then◌else◌, ltb, none, some, str_eq, ℕ, ◌++◌, ◌+◌, ◌-◌, ◌∷◌,
}
use agrocylo_pip.Prelude.Decimal.{print_ℕ}
use agrocylo_pip.Prelude.Text.{concat, has}

pub data ToastTone : Type 0 where
  info : ToastTone
  success : ToastTone
  error : ToastTone

pub record ToastItem : Type 0 where
  pub id : String
  pub title : String
  pub description : Option String
  pub tone : ToastTone

pub record ToastOptions : Type 0 where
  pub title : Option String
  pub description : Option String
  pub tone : Option ToastTone
  pub duration_ms : Option ℕ

-- `toastSeq`, `toasts` and the keys of `timersRef`
pub record Toasts : Type 0 where
  pub toast_seq : ℕ
  pub toasts : List ToastItem
  pub timers : List String

abbrev pub no_toasts : Toasts
no_toasts = record { toast_seq = 0; toasts = []; timers = [] }

abbrev default_duration_ms : ℕ
default_duration_ms = 5000

-- `nextId` at a time
abbrev next_id : (seq now : ℕ) → String
next_id seq now = concat "toast-" (concat (print_ℕ seq) (concat "-" (print_ℕ now)))

abbrev pub delete : String → List String → List String
delete id [] = []
delete id (k ∷ ks) = let rest = delete id ks in if str_eq k id then rest else k ∷ rest

abbrev pub remove : String → List ToastItem → List ToastItem
remove id [] = []
remove id (t ∷ ts) = let rest = remove id ts in if str_eq t.id id then rest else t ∷ rest

unfoldable pub dismiss : String → Toasts → Toasts
dismiss id s = record s { toasts = remove id s.toasts; timers = delete id s.timers }

abbrev tone_of : Option ToastTone → ToastTone
tone_of none = info
tone_of (some t) = t

abbrev default_title : ToastTone → String
default_title error = "Something went wrong"
default_title t = "Notice"

abbrev title_of : Option String → ToastTone → String
title_of none tone = default_title tone
title_of (some t) tone = t

abbrev pub duration_of : Option ℕ → ℕ
duration_of none = default_duration_ms
duration_of (some ms) = ms

-- `timersRef.current.set(id, timer)`
unfoldable pub set : String → List String → List String
unfolding has
set id ks = if has ks id then ks else ks ++ id ∷ []

-- `push` at a time
unfoldable pub push : (now : ℕ) → ToastOptions → Toasts → Toasts
unfolding set
push now options s =
    let id = next_id (s.toast_seq + 1) now in
    let item : ToastItem = record {
      id = id;
      title = title_of options.title (tone_of options.tone);
      description = options.description;
      tone = tone_of options.tone;
    } in
    record {
      toast_seq = s.toast_seq + 1;
      toasts = s.toasts ++ item ∷ [];
      timers = if ltb 0 (duration_of options.duration_ms) then set id s.timers else s.timers;
    }

abbrev pub options_of : ToastTone → Option ℕ → (title : String) → Option String → ToastOptions
options_of tone ms title description = record {
  title = some title;
  description = description;
  tone = some tone;
  duration_ms = ms;
}

-- `success` and `error`
abbrev pub push_success : (now : ℕ) (title : String) → Option String → Toasts → Toasts
push_success now title description s = push now (options_of success none title description) s

abbrev pub push_error : (now : ℕ) (title : String) → Option String → Toasts → Toasts
push_error now title description s = push now (options_of error (some 7000) title description) s

unfoldable pub clear : Toasts → Toasts
clear s = record s { toasts = []; timers = [] }

-- A timer goes off.
unfoldable pub fire : String → Toasts → Toasts
unfolding dismiss has
fire id s = if has s.timers id then dismiss id s else s
