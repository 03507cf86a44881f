-- ===== src/Control/Service/Pages/Complete.antt =====
-- engine/control/service.ts, listProjects and snapshots: the pages of a list make up the list.
use forge_ai.Prelude.{
  ℕ, zero, suc, ◌-◌, ◌≤◌, ◌<◌, ◌≡◌, refl, sym, ap, ◌∙◌, arith, inl, inr, Bool, true, false, Option,
  none, some, List, [], ◌∷◌, ◌++◌, ltb, ◌==◌, ◌||◌, keep, length, take, drop, All, map, includes,
  distinct, Bool-cases, or_false,
}
use forge_ai.Control.Service.Pages.{place, in_order, is_after, id_at, page}

module _ {A : Type 0} (id : A → ℕ) where
  -- Identifiers that go up.
  abbrev pub Sorted : List A → Type 0
  Sorted [] = Unit
  Sorted (x ∷ xs) = All (λ y. id x < id y) xs × Sorted xs

  All-trans : (a b : ℕ) (xs : List A) → a < b → All (λ y. b < id y) xs → All (λ y. a < id y) xs
  All-trans a b [] h t = tt
  All-trans a b (x ∷ xs) h (p, ps) = (omega arith, All-trans a b xs h ps)

  place-All : (P : A → Type 0) (x : A) (ys : List A) → P x → All P ys → All P (place id x ys)
  place-All P x [] p h = (p, tt)
  place-All P x (y ∷ ys) p (q, qs) = elim (Bool-cases (ltb (id y) (id x))) [
    | inl e ↦ rw e (q, place-All P x ys p qs)
    | inr e ↦ rw e (p, (q, qs))
  ]

  lt_test : (a b : ℕ) → ltb a b ≡ true → a < b
  lt_test a b e = ground (arith, e)

  gt_test : (a b : ℕ) → ltb a b ≡ false → (a == b) ≡ false → b < a
  gt_test a b e d = ground (arith, e, d)

  place-Sorted :
      (x : A) (ys : List A)
      → Sorted ys
      → includes (map id ys) (id x) ≡ false
      → Sorted (place id x ys)
  place-Sorted x [] s h = (tt, tt)
  place-Sorted x (y ∷ ys) (p, ps) h =
      let (other, others) = or_false (id y == id x) (includes (map id ys) (id x)) h in
      elim (Bool-cases (ltb (id y) (id x))) [
        | inl e ↦ rw e (
          place-All (λ z. id y < id z) x ys (lt_test (id y) (id x) e) p,
          place-Sorted x ys ps others,
        )
        | inr e ↦
            let up = gt_test (id y) (id x) e other in
            rw e ((up, All-trans (id x) (id y) ys up p), (p, ps))
      ]

  includes-place :
      (x : A) (ys : List A) (a : ℕ)
      → includes (map id (place id x ys)) a ≡ (id x == a || includes (map id ys) a)
  includes-place x [] a = refl
  includes-place x (y ∷ ys) a = elim (Bool-cases (ltb (id y) (id x))) [
    | inl e ↦
        rw e (rw (includes-place x ys a) (swap (id y == a) (id x == a) (includes (map id ys) a)))
    | inr e ↦ rw e refl
  ]
    where
      swap : (b c d : Bool) → (b || (c || d)) ≡ (c || (b || d))
      swap b c d = ground arith

  includes-in_order :
      (xs : List A) (a : ℕ) → includes (map id (in_order id xs)) a ≡ includes (map id xs) a
  includes-in_order [] a = refl
  includes-in_order (x ∷ xs) a =
      includes-place x (in_order id xs) a ∙ ap (λ b. id x == a || b) (includes-in_order xs a)

  distinct_split :
      (a : ℕ) (xs : List ℕ)
      → distinct (a ∷ xs) ≡ true
      → (includes xs a ≡ false) × (distinct xs ≡ true)
  distinct_split a xs h = ground (arith, h)

  pub in_order-Sorted : (xs : List A) → distinct (map id xs) ≡ true → Sorted (in_order id xs)
  in_order-Sorted [] h = tt
  in_order-Sorted (x ∷ xs) h =
      let (fresh, rest) = distinct_split (id x) (map id xs) h in
      place-Sorted x (in_order id xs) (in_order-Sorted xs rest)
        (includes-in_order xs (id x) ∙ fresh)

  keep-All : (P : A → Type 0) (p : A → Bool) (xs : List A) → All P xs → All P (keep p xs)
  keep-All P p [] h = tt
  keep-All P p (x ∷ xs) (h, hs) = elim (Bool-cases (p x)) [
    | inl e ↦ rw e (h, keep-All P p xs hs)
    | inr e ↦ rw e (keep-All P p xs hs)
  ]

  keep-Sorted : (p : A → Bool) (xs : List A) → Sorted xs → Sorted (keep p xs)
  keep-Sorted p [] s = tt
  keep-Sorted p (x ∷ xs) (h, s) = elim (Bool-cases (p x)) [
    | inl e ↦ rw e (keep-All (λ y. id x < id y) p xs h, keep-Sorted p xs s)
    | inr e ↦ rw e (keep-Sorted p xs s)
  ]

  -- What the rows at the end of a page have in common with the list.
  id_at-All :
      (P : A → Type 0) (n c : ℕ) (xs : List A)
      → All P xs
      → id_at id n xs ≡ some c
      → (x : A) × P x × (id x ≡ c)
  id_at-All P n c [] h e = absurd (ground (arith, e))
  id_at-All P zero c (x ∷ xs) (h, hs) e = (x, h, ground (arith, e))
  id_at-All P (suc n) c (x ∷ xs) (h, hs) e = id_at-All P n c xs hs e

  below_id_at : (a n c : ℕ) (xs : List A) → All (λ y. a < id y) xs → id_at id n xs ≡ some c → a < c
  below_id_at a n c xs h e =
      let (x, p, q) = id_at-All (λ y. a < id y) n c xs h e in omega (arith, p, q)

  keep-above : (c : ℕ) (xs : List A) → All (λ y. c < id y) xs → keep (is_after id (some c)) xs ≡ xs
  keep-above c [] h = refl
  keep-above c (x ∷ xs) (p, ps) = rw (above c (id x) p) (ap (λ ys. x ∷ ys) (keep-above c xs ps))
    where
      above : (a b : ℕ) → a < b → ltb a b ≡ true
      above a b h = ground arith

  not_above : (a b : ℕ) → b ≤ a → ltb a b ≡ false
  not_above a b h = ground arith

  -- The rows behind the last one of a page.
  keep-drop :
      (n c : ℕ) (xs : List A)
      → Sorted xs
      → id_at id n xs ≡ some c
      → keep (is_after id (some c)) xs ≡ drop (suc n) xs
  keep-drop n c [] s e = absurd (ground (arith, e))
  keep-drop zero c (x ∷ xs) (h, s) e =
      let same = some_eq (id x) c e in
      rw (not_above c (id x) (omega (arith, same))) (keep-above c xs (subst_below same))
    where
      some_eq : (a b : ℕ) → ◌≡◌ {A = Option ℕ} (some a) (some b) → a ≡ b
      some_eq a b q = cc

      subst_below : id x ≡ c → All (λ y. c < id y) xs
      subst_below q = rw (sym q) h
  keep-drop (suc n) c (x ∷ xs) (h, s) e =
      rw (not_above c (id x) (omega (arith, below_id_at (id x) n c xs h e))) (keep-drop n c xs s e)

  -- A cursor behind another one asks for less.
  keep-later :
      (cursor : Option ℕ) (c : ℕ) (xs : List A)
      → ((x : A) → ltb c (id x) ≡ true → is_after id cursor x ≡ true)
      → keep (is_after id (some c)) (keep (is_after id cursor) xs) ≡ keep (is_after id (some c)) xs
  keep-later cursor c [] h = refl
  keep-later cursor c (x ∷ xs) h = elim (Bool-cases (ltb c (id x))) [
    | inl e ↦ rw (h x e) (rw e (ap (λ ys. x ∷ ys) (keep-later cursor c xs h)))
    | inr e ↦ elim (Bool-cases (is_after id cursor x)) [
      | inl d ↦ rw d (rw e (keep-later cursor c xs h))
      | inr d ↦ rw d (rw e (keep-later cursor c xs h))
    ]
  ]

  keep-passes : (p : A → Bool) (xs : List A) → All (λ x. p x ≡ true) (keep p xs)
  keep-passes p [] = tt
  keep-passes p (x ∷ xs) = elim (Bool-cases (p x)) [
    | inl e ↦ rw e (e, keep-passes p xs)
    | inr e ↦ rw e (keep-passes p xs)
  ]

  -- The rows that a cursor asks for; no cursor ends the list.
  abbrev pub asked : Option ℕ → List A → List A
  asked none xs = []
  asked (some c) xs = keep (is_after id (some c)) xs

  short_page :
      (n : ℕ) (xs : List A)
      → ltb n (length (take (suc n) xs)) ≡ false
      → take n (take (suc n) xs) ≡ xs
  short_page n [] h = no_rows n
    where
      no_rows : (m : ℕ) → take {A = A} m (take (suc m) []) ≡ []
      no_rows zero = refl
      no_rows (suc m) = refl
  short_page zero (x ∷ xs) h = absurd (ground (arith, h))
  short_page (suc n) (x ∷ xs) h =
      ap (λ ys. x ∷ ys) (short_page n xs (fewer n (length (take (suc n) xs)) h))
    where
      fewer : (a b : ℕ) → ltb (suc a) (suc b) ≡ false → ltb a b ≡ false
      fewer a b q = ground (arith, q)

  take-take : (n : ℕ) (xs : List A) → take n (take (suc n) xs) ≡ take n xs
  take-take zero xs = refl
  take-take (suc n) [] = refl
  take-take (suc n) (x ∷ xs) = ap (λ ys. x ∷ ys) (take-take n xs)

  -- A page that is not the last one ends at a row of the list.
  full_page :
      (n : ℕ) (xs : List A)
      → ltb (suc n) (length (take (suc (suc n)) xs)) ≡ true
      → (c : ℕ) × (id_at id n (take (suc (suc n)) xs) ≡ some c) × (id_at id n xs ≡ some c)
  full_page n [] h = absurd (ground (arith, h))
  full_page zero (x ∷ xs) h = (id x, refl, refl)
  full_page (suc n) (x ∷ xs) h = full_page n xs (fewer (suc n) (length (take (suc (suc n)) xs)) h)
    where
      fewer : (a b : ℕ) → ltb (suc a) (suc b) ≡ true → ltb a b ≡ true
      fewer a b q = ground (arith, q)

  take-drop : (n : ℕ) (xs : List A) → take n xs ++ drop n xs ≡ xs
  take-drop zero xs = refl
  take-drop (suc n) [] = refl
  take-drop (suc n) (x ∷ xs) = ap (λ ys. x ∷ ys) (take-drop n xs)

  after_cursor :
      (cursor : Option ℕ) (c : ℕ) (y : A)
      → is_after id cursor y ≡ true
      → id y ≡ c
      → (x : A) → ltb c (id x) ≡ true
      → is_after id cursor x ≡ true
  after_cursor none c y h q x e = refl
  after_cursor (some a) c y h q x e = ground (arith, h, q, e)

  append_nil : (xs : List A) → xs ++ [] ≡ xs
  append_nil [] = refl
  append_nil (x ∷ xs) = ap (λ ys. x ∷ ys) (append_nil xs)

  pred : (n : ℕ) → suc n - 1 ≡ n
  pred n = omega arith

  -- A page of one row or more, of a table whose identifiers are distinct, followed by the rows that
  -- its next cursor asks for, is what was asked for: no row is skipped or repeated
  -- between two pages, and a page without a next cursor is the last one.
  pub page-asked :
      (cursor : Option ℕ) (limit : ℕ) (table : List A)
      → 1 ≤ limit
      → distinct (map id table) ≡ true
      → let p = page id cursor limit table in
        p.items ++ asked p.next_cursor (in_order id table)
        ≡ keep (is_after id cursor) (in_order id table)
  unfolding page
  page-asked cursor zero table h d = absurd (omega arith)
  page-asked cursor (suc n) table h d =
      let ys = in_order id table in
      let zs = keep (is_after id cursor) ys in
      elim (Bool-cases (ltb (suc n) (length (take (suc (suc n)) zs)))) [
        | inl e ↦
            let (c, row, last) = full_page n zs e in
            let (y, passes, same) =
              id_at-All (λ x. is_after id cursor x ≡ true) n c zs
                (keep-passes (is_after id cursor) ys) last in
            rw e (
              rw (pred n, row)
                (ap (λ ts. ts ++ keep (is_after id (some c)) ys) (take-take (suc n) zs)
                  ∙ ap (λ ts. take (suc n) zs ++ ts)
                      (sym (keep-later cursor c ys (after_cursor cursor c y passes same))
                        ∙ keep-drop n c zs
                            (keep-Sorted (is_after id cursor) ys (in_order-Sorted table d)) last)
                  ∙ take-drop (suc n) zs))
        | inr e ↦ rw e (append_nil (take (suc n) (take (suc (suc n)) zs)) ∙ short_page (suc n) zs e)
      ]
