-- ===== src/Storage/Ascending.antt =====
-- crates/h3s-storage/src/sqlite.rs: the rows of a batch of `changes` rise strictly in revision.
use hedronetes_h3s.Prelude.{
  ℕ, zero, suc, ◌≤◌, ◌<◌, ◌==◌, ◌&&◌, String, List, [], ◌∷◌, Bool, refl, ap, ◌⊎◌, inl, inr, arith,
  ltb, ltb→lt, In, here, there, In-uncons, length, sort, keep, keep→In, sort→In, IsSorted,
  and-eq-true,
}
use hedronetes_h3s.Apart.{Apart, Apart-sort}
use hedronetes_h3s.Storage.Table.{Row, in_prefix}
use hedronetes_h3s.Storage.Log.{IsLog, IsLog-In, keep-IsLog}
use hedronetes_h3s.Storage.Read.{take, revision_lt}
use hedronetes_h3s.Storage.Replay.{advance, changed-IsPending}

-- Revisions rise strictly, from above `c` on.
abbrev pub Ascending {ℓ} : {A : Type ℓ} → (A → ℕ) → ℕ → List A → Type 0
Ascending revision c [] = Unit
Ascending revision c (x ∷ xs) = (c < revision x) × Ascending revision (revision x) xs

abbrev same_number : Row → Row → Bool
same_number a b = a.revision == b.revision

IsLog→Apart : (n : ℕ) (rows : List Row) → IsLog n rows → Apart same_number rows
IsLog→Apart n [] h = tt
IsLog→Apart n (x ∷ xs) h =
    (λ y m. let b = IsLog-In x.revision xs y h.1 m in ground arith, IsLog→Apart x.revision xs h.1)

ascends :
    (c : ℕ) (zs : List Row)
    → IsSorted revision_lt zs
    → Apart same_number zs
    → ((z : Row) → In z zs → c < z.revision)
    → Ascending (λ z. z.revision) c zs
ascends c [] s p h = tt
ascends c (z ∷ zs) s p h = (
  h z (here refl),
  ascends z.revision zs s.1 p.1 (λ y m. let a = s.0 y m in let b = p.0 y m in ground arith),
)

-- The rows that `changes` selects rise strictly above the cursor.
pub selected-Ascending :
    (n : ℕ) (rows : List Row) (prefix : String) (c : ℕ)
    → IsLog n rows
    → Ascending
        (λ z. z.revision)
        c
        (sort revision_lt (keep (λ x. ltb c x.revision && in_prefix prefix x) rows))
selected-Ascending n rows prefix c log =
    let test : Row → Bool = λ x. ltb c x.revision && in_prefix prefix x in
    let kept = keep test rows in
    ascends c (sort revision_lt kept) (changed-IsPending rows prefix c).sorted
      (Apart-sort same_number (λ a b. ground arith) revision_lt kept
        (IsLog→Apart n kept (keep-IsLog test n rows log)))
      (λ z m.
        let (i, t) = keep→In test rows z (sort→In revision_lt kept z m) in
        ltb→lt c z.revision (and-eq-true (ltb c z.revision) (in_prefix prefix z) t).0)

pub take-Ascending :
    (count c : ℕ) (zs : List Row)
    → Ascending (λ z. z.revision) c zs
    → Ascending (λ z. z.revision) c (take count zs)
take-Ascending zero c zs h = tt
take-Ascending (suc count) c [] h = tt
take-Ascending (suc count) c (z ∷ zs) h = (h.0, take-Ascending count z.revision zs h.1)

pub take→In : (count : ℕ) (zs : List Row) (x : Row) → In x (take count zs) → In x zs
take→In zero zs x m = elim m [ ]
take→In (suc count) [] x m = m
take→In (suc count) (z ∷ zs) x m = elim (In-uncons m) [
  | inl p ↦ here p
  | inr q ↦ there (take→In count zs x q)
]

-- A row that is left for later stands above the cursor.
pub taken_or_later :
    (count c : ℕ) (zs : List Row) (x : Row)
    → Ascending (λ z. z.revision) c zs
    → In x zs
    → In x (take count zs)
      ⊎ ((advance c (take count zs) < x.revision) × (count ≤ length (take count zs)))
taken_or_later zero c (z ∷ zs) x h (here e) =
    let q = ap (λ (r : Row). r.revision) e in let a = h.0 in inr (omega (arith, q, a), omega arith)
taken_or_later zero c (z ∷ zs) x h (there m) =
    let a = h.0 in
    elim (taken_or_later zero z.revision zs x h.1 m) [
      | inl k ↦ elim k [ ]
      | inr (k, l) ↦ inr (omega (arith, k, a), omega arith)
    ]
taken_or_later (suc count) c (z ∷ zs) x h (here e) = inl (here e)
taken_or_later (suc count) c (z ∷ zs) x h (there m) =
    elim (taken_or_later count z.revision zs x h.1 m) [
      | inl k ↦ inl (there k)
      | inr (k, l) ↦ inr (k, omega (arith, l))
    ]
taken_or_later count c [] x h m = elim m [ ]

-- The rows of a batch stand at or below the cursor after it.
pub at_most-advance :
    (c : ℕ) (zs : List Row) (x : Row)
    → Ascending (λ z. z.revision) c zs
    → In x zs
    → (c < x.revision) × (x.revision ≤ advance c zs)
at_most-advance c [] x h m = elim m [ ]
at_most-advance c (z ∷ zs) x h (here e) =
    let q = ap (λ (r : Row). r.revision) e in
    let a = h.0 in let b = above z.revision zs h.1 in (omega (arith, q, a), omega (arith, q, b))
  where
    above : (c : ℕ) (zs : List Row) → Ascending (λ z. z.revision) c zs → c ≤ advance c zs
    above c [] h = omega arith
    above c (z ∷ zs) h = let a = h.0 in let b = above z.revision zs h.1 in omega (arith, a, b)
at_most-advance c (z ∷ zs) x h (there m) =
    let a = h.0 in let (b, d) = at_most-advance z.revision zs x h.1 m in (omega (arith, a, b), d)
