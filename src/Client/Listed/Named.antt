-- ===== src/Client/Listed/Named.antt =====
-- The ids that the events name, once each.
use agrocylo_pip.Prelude.Int.{ℤ}
use mathlib.Core.Option.{some-injective}
use agrocylo_pip.Client.Admin.{Campaign}
use agrocylo_pip.Prelude.{
  Bool, Bool-cases, List, Option, String, [], ap, arith, eq_iff, false, inl, inr, none, not, refl,
  some, str_eq, sym, true, ◌&&◌, ◌++◌, ◌||◌, ◌∙◌, ◌∷◌, ◌≡◌,
}
use agrocylo_pip.Prelude.Text.{has, has-append, is_blank}
use agrocylo_pip.Client.Events.{EscrowEvent}
use agrocylo_pip.Client.Listed.{CampaignOverview, Reader, add_id, add_ids, read_at}

-- Whether an event names an id
abbrev pub is_named : List EscrowEvent → String → Bool
is_named [] k = false
is_named (e ∷ es) k = (not (is_blank e.campaign_id) && str_eq e.campaign_id k) || is_named es k

has-one : (id k : String) → has (id ∷ []) k ≡ str_eq id k
unfolding has
has-one id k = ground arith

has-snoc : (ids : List String) (id k : String) → has (ids ++ id ∷ []) k ≡ has ids k || str_eq id k
has-snoc ids id k = has-append ids (id ∷ []) k ∙ ap (λ b. has ids k || b) (has-one id k)

has-twice :
    (ids : List String) (id k : String) → has ids id ≡ true → has ids k || str_eq id k ≡ has ids k
has-twice ids id k h = elim (Bool-cases (str_eq id k)) [
  | inr away ↦ rw away (ground arith)
  | inl same ↦
      let there : has ids k ≡ true = ap (has ids) (sym ((eq_iff id k).0 same)) ∙ h in
      rw there (ground arith)
]

has-add_id :
    (ids : List String) (id k : String)
    → has (add_id ids id) k ≡ has ids k || (not (is_blank id) && str_eq id k)
unfolding add_id
has-add_id ids id k = elim (Bool-cases (is_blank id)) [
  | inl blank ↦ rw blank (ground arith)
  | inr filled ↦ elim (Bool-cases (has ids id)) [
    | inl there ↦ rw (filled, there) (sym (has-twice ids id k there))
    | inr new ↦ rw (filled, new) (has-snoc ids id k)
  ]
]

pub has-add_ids :
    (ids : List String) (es : List EscrowEvent) (k : String)
    → has (add_ids ids es) k ≡ has ids k || is_named es k
unfolding add_ids
has-add_ids ids [] k = ground arith
has-add_ids ids (e ∷ es) k =
    has-add_ids (add_id ids e.campaign_id) es k
    ∙ ap (λ b. b || is_named es k) (has-add_id ids e.campaign_id k)
    ∙ ground arith

-- No id twice
abbrev pub AreUnique : List String → Type 0
AreUnique [] = Unit {0}
AreUnique (id ∷ ids) = (has ids id ≡ false) × AreUnique ids

str_eq_sym : (k id : String) → str_eq k id ≡ false → str_eq id k ≡ false
str_eq_sym k id h = elim (Bool-cases (str_eq id k)) [
  | inr away ↦ away
  | inl same ↦ cc (h, (eq_iff k id).1 (sym ((eq_iff id k).0 same)))
]

AreUnique-snoc :
    (ids : List String) (id : String)
    → has ids id ≡ false
    → AreUnique ids
    → AreUnique (ids ++ id ∷ [])
unfolding has
AreUnique-snoc [] id new h = (refl, tt)
AreUnique-snoc (k ∷ ids) id new (first, later) =
    let away : str_eq k id ≡ false = ground arith in
    let back : str_eq id k ≡ false = str_eq_sym k id away in
    (has-snoc ids id k ∙ rw (first, back) refl, AreUnique-snoc ids id (ground arith) later)

add_id-AreUnique : (ids : List String) (id : String) → AreUnique ids → AreUnique (add_id ids id)
unfolding add_id
add_id-AreUnique ids id h = elim (Bool-cases (is_blank id || has ids id)) [
  | inl skipped ↦ rw skipped h
  | inr new ↦ rw new (AreUnique-snoc ids id (ground arith) h)
]

pub add_ids-AreUnique :
    (ids : List String) (es : List EscrowEvent) → AreUnique ids → AreUnique (add_ids ids es)
unfolding add_ids
add_ids-AreUnique ids [] h = h
add_ids-AreUnique ids (e ∷ es) h =
    add_ids-AreUnique (add_id ids e.campaign_id) es (add_id-AreUnique ids e.campaign_id h)

pub read_at-id :
    (reader : Reader) (id : String) (z : Option ℤ) (o : CampaignOverview)
    → read_at reader id z ≡ some o
    → o.id ≡ id
read_at-id reader id none o h = cc h
read_at-id reader id (some n) o h = answered (reader n) h
  where
    answered :
        (c : Option Campaign)
        → elim c [ none ↦ none | some c' ↦ some (record { id = id; campaign = c' }) ] ≡ some o
        → o.id ≡ id
    answered none h = cc h
    answered (some c) h = ap (λ (p : CampaignOverview). p.id) (sym (some-injective _ _ h))
