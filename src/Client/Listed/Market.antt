-- ===== src/Client/Listed/Market.antt =====
-- The lists of campaigns: what is in them, once each, in which order.
use agrocylo_pip.Prelude.Text.{has}
use agrocylo_pip.Prelude.BigInt.{big_int}
use agrocylo_pip.Client.Listed.Named.{AreUnique, read_at-id}
use mathlib.Core.Option.{some-injective}
use agrocylo_pip.Prelude.{
  All, Bool-cases, IsListed, List, Option, String, [], ap, arith, eq_iff, false, inl, inr, none,
  refl, some, str_eq, sym, true, ◌↔◌, ◌∙◌, ◌∷◌, ◌≡◌, ◌≢◌, ◌⊎◌,
}
use agrocylo_pip.Prelude.Int.{ltb_ℤ}
use agrocylo_pip.Client.Listed.{
  CampaignOverview, Reader, cons_some, insert, latest_first, overview_of, overviews, rank,
}

-- No later campaign has a larger number, and none has the same id.
abbrev pub IsAbove : CampaignOverview → CampaignOverview → Type 0
IsAbove o p = ltb_ℤ (rank o) (rank p) ≡ false

abbrev pub AreSorted : List CampaignOverview → Type 0
AreSorted [] = Unit {0}
AreSorted (o ∷ os) = All (IsAbove o) os × AreSorted os

abbrev pub AreDistinct : List CampaignOverview → Type 0
AreDistinct [] = Unit {0}
AreDistinct (o ∷ os) = All (λ p. p.id ≢ o.id) os × AreDistinct os

All-insert :
    (P : CampaignOverview → Type 0) (o : CampaignOverview) (os : List CampaignOverview)
    → P o
    → All P os
    → All P (insert o os)
unfolding insert
All-insert P o [] new h = (new, tt)
All-insert P o (p ∷ ps) new (first, later) = elim (Bool-cases (ltb_ℤ (rank o) (rank p))) [
  | inl below ↦ rw below (first, All-insert P o ps new later)
  | inr above ↦ rw above (new, (first, later))
]

pub IsAbove-All :
    (o p : CampaignOverview) (ps : List CampaignOverview)
    → IsAbove o p
    → All (IsAbove p) ps
    → All (IsAbove o) ps
IsAbove-All o p [] h hs = tt
IsAbove-All o p (q ∷ ps) h (first, later) = (grind arith, IsAbove-All o p ps h later)

pub insert-AreSorted :
    (o : CampaignOverview) (os : List CampaignOverview) → AreSorted os → AreSorted (insert o os)
unfolding insert
insert-AreSorted o [] h = (tt, tt)
insert-AreSorted o (p ∷ ps) (first, later) = elim (Bool-cases (ltb_ℤ (rank o) (rank p))) [
  | inl below ↦
      rw below (All-insert (IsAbove p) o ps (grind arith) first, insert-AreSorted o ps later)
  | inr above ↦ rw above ((above, IsAbove-All o p ps above first), (first, later))
]

pub latest_first-AreSorted : (os : List CampaignOverview) → AreSorted (latest_first os)
unfolding latest_first
latest_first-AreSorted [] = tt
latest_first-AreSorted (o ∷ os) = insert-AreSorted o (latest_first os) (latest_first-AreSorted os)

All-latest_first :
    (P : CampaignOverview → Type 0) (os : List CampaignOverview)
    → All P os
    → All P (latest_first os)
unfolding latest_first
All-latest_first P [] h = tt
All-latest_first P (o ∷ os) (first, later) =
    All-insert P o (latest_first os) first (All-latest_first P os later)

insert-AreDistinct :
    (o : CampaignOverview) (os : List CampaignOverview)
    → All (λ p. p.id ≢ o.id) os
    → AreDistinct os
    → AreDistinct (insert o os)
unfolding insert
insert-AreDistinct o [] new h = (tt, tt)
insert-AreDistinct o (p ∷ ps) (differs, new) (first, later) =
    elim (Bool-cases (ltb_ℤ (rank o) (rank p))) [
      | inl below ↦ rw below (
        All-insert (λ q. q.id ≢ p.id) o ps (λ e. differs (sym e)) first,
        insert-AreDistinct o ps new later,
      )
      | inr above ↦ rw above ((differs, new), (first, later))
    ]

pub latest_first-AreDistinct :
    (os : List CampaignOverview) → AreDistinct os → AreDistinct (latest_first os)
unfolding latest_first
latest_first-AreDistinct [] h = tt
latest_first-AreDistinct (o ∷ os) (first, later) =
    insert-AreDistinct o (latest_first os) (All-latest_first (λ p. p.id ≢ o.id) os first)
      (latest_first-AreDistinct os later)

-- Who is in a list does not depend on its order.
either_later : {A B C D : Type 0} → C ↔ (A ⊎ D) → (B ⊎ C) ↔ (A ⊎ (B ⊎ D))
either_later {A} {B} {C} {D} h = (there, back)
  where
    there : B ⊎ C → A ⊎ (B ⊎ D)
    there (inl b) = inr (inl b)
    there (inr c) = elim (h.0 c) [ inl a ↦ inl a | inr d ↦ inr (inr d) ]

    back : A ⊎ (B ⊎ D) → B ⊎ C
    back (inl a) = inr (h.1 (inl a))
    back (inr (inl b)) = inl b
    back (inr (inr d)) = inr (h.1 (inr d))

insert_iff :
    (a o : CampaignOverview) (os : List CampaignOverview)
    → IsListed a (insert o os) ↔ ((o ≡ a) ⊎ IsListed a os)
unfolding insert
insert_iff a o [] = (λ h. h, λ h. h)
insert_iff a o (p ∷ ps) = elim (Bool-cases (ltb_ℤ (rank o) (rank p))) [
  | inr above ↦ rw above (λ h. h, λ h. h)
  | inl below ↦ rw below (either_later (insert_iff a o ps))
]

pub latest_first_iff :
    (a : CampaignOverview) (os : List CampaignOverview)
    → IsListed a (latest_first os) ↔ IsListed a os
unfolding latest_first
latest_first_iff a [] = (λ h. h, λ h. h)
latest_first_iff a (o ∷ os) =
    let h = insert_iff a o (latest_first os) in
    let rest = latest_first_iff a os in
    (
      λ l. elim (h.0 l) [ inl e ↦ inl e | inr m ↦ inr (rest.0 m) ],
      λ l. h.1 (elim l [ inl e ↦ inl e | inr m ↦ inr (rest.1 m) ]),
    )

-- What was read
cons_some_iff :
    (a : CampaignOverview) (v : Option CampaignOverview) (os : List CampaignOverview)
    → IsListed a (cons_some v os) ↔ ((v ≡ some a) ⊎ IsListed a os)
cons_some_iff a none os = (λ l. inr l, λ l. elim l [ inl e ↦ cc e | inr m ↦ m ])
cons_some_iff a (some o) os = (
  λ l. elim l [ inl e ↦ inl (ap some e) | inr m ↦ inr m ],
  λ l. elim l [ inl e ↦ inl (some-injective _ _ e) | inr m ↦ inr m ],
)

-- What an id stands for
abbrev pub IsRead : Reader → List String → CampaignOverview → Type 0
IsRead reader ids o = (has ids o.id ≡ true) × (overview_of reader o.id ≡ some o)

pub overviews_sound :
    (reader : Reader) (ids : List String) (o : CampaignOverview)
    → IsListed o (overviews reader ids)
    → IsRead reader ids o
unfolding has
overviews_sound reader [] o l = absurd l
overviews_sound reader (id ∷ ids) o l =
    elim ((cons_some_iff o (overview_of reader id) (overviews reader ids)).0 l) [
      | inl e ↦
          let same : o.id ≡ id = read_at-id reader id (big_int id) o e in
          let here : str_eq id o.id ≡ true = (eq_iff id o.id).1 (sym same) in
          (rw here refl, ap (overview_of reader) same ∙ e)
      | inr m ↦
          let (there, read) = overviews_sound reader ids o m in (rw there (ground arith), read)
    ]

pub overviews_complete :
    (reader : Reader) (ids : List String) (o : CampaignOverview)
    → has ids o.id ≡ true
    → overview_of reader o.id ≡ some o
    → IsListed o (overviews reader ids)
unfolding has
overviews_complete reader [] o there read = cc there
overviews_complete reader (id ∷ ids) o there read = elim (Bool-cases (str_eq id o.id)) [
  | inl same ↦
      (cons_some_iff o (overview_of reader id) (overviews reader ids)).1
        (inl (ap (overview_of reader) ((eq_iff id o.id).0 same) ∙ read))
  | inr away ↦
      (cons_some_iff o (overview_of reader id) (overviews reader ids)).1
        (inr (overviews_complete reader ids o (rw away at there) read))
]

All-cons_some :
    (P : CampaignOverview → Type 0) (v : Option CampaignOverview) (os : List CampaignOverview)
    → ((o : CampaignOverview) → v ≡ some o → P o)
    → All P os
    → All P (cons_some v os)
All-cons_some P none os new h = h
All-cons_some P (some o) os new h = (new o refl, h)

overviews-differ :
    (reader : Reader) (ids : List String) (k : String)
    → has ids k ≡ false
    → All (λ p. p.id ≢ k) (overviews reader ids)
unfolding has
overviews-differ reader [] k h = tt
overviews-differ reader (id ∷ ids) k h =
    let away : str_eq id k ≡ false = ground arith in
    All-cons_some (λ p. p.id ≢ k) (overview_of reader id) (overviews reader ids)
      (λ o e same.
        let here : id ≡ k = sym (read_at-id reader id (big_int id) o e) ∙ same in
        cc (away, (eq_iff id k).1 here))
      (overviews-differ reader ids k (ground arith))

pub overviews-AreDistinct :
    (reader : Reader) (ids : List String) → AreUnique ids → AreDistinct (overviews reader ids)
overviews-AreDistinct reader [] h = tt
overviews-AreDistinct reader (id ∷ ids) (new, later) =
    cons_distinct (overview_of reader id) (overviews reader ids)
      (λ o e. rw (read_at-id reader id (big_int id) o e) (overviews-differ reader ids id new))
      (overviews-AreDistinct reader ids later)
  where
    cons_distinct :
        (v : Option CampaignOverview) (os : List CampaignOverview)
        → ((o : CampaignOverview) → v ≡ some o → All (λ p. p.id ≢ o.id) os)
        → AreDistinct os
        → AreDistinct (cons_some v os)
    cons_distinct none os fresh h = h
    cons_distinct (some o) os fresh h = (fresh o refl, h)
