-- ===== src/Api/Campaigns/Order.antt =====
-- The order of `findMany`, and when it is determined.
use mathlib.Core.Path.{ap₂, subst}
use agrocylo_pip.Prelude.{
  All, Bool, IsListed, List, [], ap, arith, inl, inr, refl, some, sym, true, ◌∙◌, ◌∷◌, ◌≡◌, ◌≢◌,
}
use agrocylo_pip.Prelude.Int.{eq_of_parts, ◌≤ℤ◌}
use agrocylo_pip.Store.Tables.{Campaign, Table}

-- `orderBy: { createdAt: 'desc' }`, each row once
abbrev pub IsOrdered : List Campaign → Type 0
IsOrdered [] = Unit
IsOrdered (c ∷ cs) =
    All (λ (d : Campaign). (d.created_at ≤ℤ c.created_at) × (d.id ≢ c.id)) cs × IsOrdered cs

-- The selected rows of a table, in the order that is asked for
pub record Enumerates (t : Table Campaign) (selected : Campaign → Bool) (rows : List Campaign)
    : Type 0 where
  pub sound : All (λ (c : Campaign). (t c.id ≡ some c) × (selected c ≡ true)) rows
  pub complete : (c : Campaign) → t c.id ≡ some c → selected c ≡ true → IsListed c rows
  pub ordered : IsOrdered rows

-- No two campaigns of the table were created at the same time.
abbrev pub AreDistinct : Table Campaign → Type 0
AreDistinct t =
    (c d : Campaign) → t c.id ≡ some c → t d.id ≡ some d → c.created_at ≡ d.created_at → c ≡ d

abbrev IsStrict : List Campaign → Type 0
IsStrict [] = Unit
IsStrict (c ∷ cs) =
    All (λ (d : Campaign). (d.created_at ≤ℤ c.created_at) × (d.created_at ≢ c.created_at)) cs
    × IsStrict cs

All-IsListed : {A : Type 0} (P : A → Type 0) (a : A) (xs : List A) → All P xs → IsListed a xs → P a
All-IsListed P a (x ∷ xs) (p, ps) (inl same) = subst P same p
All-IsListed P a (x ∷ xs) (p, ps) (inr l) = All-IsListed P a xs ps l
All-IsListed P a [] h l = absurd l

-- Two strictly falling lists of the same elements are one list.
module _ (x y : Campaign) (xs ys : List Campaign) (strict_x : IsStrict (x ∷ xs))
    (strict_y : IsStrict (y ∷ ys)) where
  same_head : IsListed x (y ∷ ys) → IsListed y (x ∷ xs) → x ≡ y
  same_head (inl e) l = sym e
  same_head (inr l) (inl e) = e
  same_head (inr l) (inr m) =
      let (below, differs) = All-IsListed _ x ys strict_y.0 l in
      let (above, _) = All-IsListed _ y xs strict_x.0 m in
      absurd (differs (eq_of_parts x.created_at y.created_at (omega arith)))

  in_tail : (c : Campaign) → x ≡ y → IsListed c xs → IsListed c (y ∷ ys) → IsListed c ys
  in_tail c same l (inr m) = m
  in_tail c same l (inl e) =
      absurd (
        (All-IsListed _ c xs strict_x.0 l).1 (ap (λ (d : Campaign). d.created_at) (sym (same ∙ e))))

strict_unique :
    (xs ys : List Campaign)
    → IsStrict xs
    → IsStrict ys
    → ((c : Campaign) → IsListed c xs → IsListed c ys)
    → ((c : Campaign) → IsListed c ys → IsListed c xs)
    → xs ≡ ys
strict_unique [] [] _ _ to from = refl
strict_unique [] (y ∷ ys) _ _ to from = absurd (from y (inl refl))
strict_unique (x ∷ xs) [] _ _ to from = absurd (to x (inl refl))
strict_unique (x ∷ xs) (y ∷ ys) sx sy to from =
    let head = same_head x y xs ys sx sy (to x (inl refl)) (from y (inl refl)) in
    ap₂ ◌∷◌ head (
      strict_unique xs ys sx.1 sy.1 (λ c l. in_tail x y xs ys sx sy c head l (to c (inr l)))
        (λ c l. in_tail y x ys xs sy sx c (sym head) l (from c (inr l))))

-- Where no two were created at once, the order is determined.
module _ (t : Table Campaign) (distinct : AreDistinct t) (selected : Campaign → Bool) where
  abbrev IsSound : Campaign → Type 0
  IsSound c = (t c.id ≡ some c) × (selected c ≡ true)

  strict_below :
      (c : Campaign) (ds : List Campaign)
      → IsSound c
      → All IsSound ds
      → All (λ (d : Campaign). (d.created_at ≤ℤ c.created_at) × (d.id ≢ c.id)) ds
      → All (λ (d : Campaign). (d.created_at ≤ℤ c.created_at) × (d.created_at ≢ c.created_at)) ds
  strict_below c [] sc _ _ = tt
  strict_below c (d ∷ ds) sc (sd, sds) ((below, differs), rest) = (
    (below, λ e. differs (ap (λ (b : Campaign). b.id) (distinct d c sd.0 sc.0 e))),
    strict_below c ds sc sds rest,
  )

  ordered-IsStrict : (cs : List Campaign) → All IsSound cs → IsOrdered cs → IsStrict cs
  ordered-IsStrict [] _ _ = tt
  ordered-IsStrict (c ∷ cs) (sc, scs) (below, ordered) =
      (strict_below c cs sc scs below, ordered-IsStrict cs scs ordered)

  pub enumeration_unique :
      (xs ys : List Campaign) → Enumerates t selected xs → Enumerates t selected ys → xs ≡ ys
  enumeration_unique xs ys ex ey =
      strict_unique xs ys (ordered-IsStrict xs ex.sound ex.ordered)
        (ordered-IsStrict ys ey.sound ey.ordered)
        (λ c l.
          let (row, chosen) = All-IsListed IsSound c xs ex.sound l in ey.complete c row chosen)
        (λ c l.
          let (row, chosen) = All-IsListed IsSound c ys ey.sound l in ex.complete c row chosen)
