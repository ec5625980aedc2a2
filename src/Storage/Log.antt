-- ===== src/Storage/Log.antt =====
-- crates/h3s-storage/src/sqlite.rs: what holds of the tables between two calls, and the queries on
-- a version log that is in order.
use hedronetes_h3s.Prelude.{
  ℕ, suc, ◌≤◌, ◌<◌, List, [], ◌∷◌, Bool, true, ◌≡◌, refl, sym, ap, ◌∙◌, some, inl, inr, arith, In,
  In-uncons, find, find→In, keep, Bool-cases, Option-cases,
}
use hedronetes_h3s.Storage.Table.{Row, Db, newer, newest, i64_limit}

-- Revisions fall strictly from the newest row to the oldest, and all are below `n`.
abbrev pub IsLog : ℕ → List Row → Type 0
IsLog n [] = Unit
IsLog n (x ∷ xs) = (x.revision < n) × IsLog x.revision xs

pub record IsStore (db : Db) : Type 0 where
  pub log : IsLog (suc db.revision) db.versions
  pub floor : db.compacted ≤ db.revision
  pub bounded : db.revision ≤ i64_limit
  pub kinds : (x : Row) → In x db.versions → x.kind ≤ 2

pub IsLog-In : (n : ℕ) (xs : List Row) (x : Row) → IsLog n xs → In x xs → x.revision < n
IsLog-In n [] x h m = elim m [ ]
IsLog-In n (y ∷ ys) x h m = elim (In-uncons m) [
  | inl p ↦ let e : y.revision ≡ x.revision = ap (λ (r : Row). r.revision) p in omega arith
  | inr q ↦ omega (arith, IsLog-In y.revision ys x h.1 q)
]

pub IsLog-le : (m n : ℕ) (xs : List Row) → m ≤ n → IsLog m xs → IsLog n xs
IsLog-le m n [] h l = tt
IsLog-le m n (x ∷ xs) h l = (omega arith, l.1)

-- A row that is dropped leaves a gap.
pub keep-IsLog : (test : Row → Bool) (n : ℕ) (xs : List Row) → IsLog n xs → IsLog n (keep test xs)
keep-IsLog test n [] h = tt
keep-IsLog test n (x ∷ xs) h = elim (Bool-cases (test x)) [
  | inl e ↦ rw e (h.0, keep-IsLog test x.revision xs h.1)
  | inr e ↦ rw e (keep-IsLog test n xs (IsLog-le x.revision n xs (omega arith) h.1))
]

newer-find :
    (test : Row → Bool) (x : Row) (xs : List Row)
    → IsLog x.revision xs
    → newer (some x) (find test xs) ≡ some x
newer-find test x xs h = elim (Option-cases (find test xs)) [
  | inl e ↦ rw e
  | inr (m, e) ↦ let b = IsLog-In x.revision xs m h (find→In test xs m e).0 in rw e (ground arith)
]

-- In such a log the newest row that meets a test is the first one.
pub newest-eq-find :
    (test : Row → Bool) (n : ℕ) (xs : List Row) → IsLog n xs → newest test xs ≡ find test xs
unfolding newest
newest-eq-find test n [] h = refl
newest-eq-find test n (x ∷ xs) h =
    let ih = newest-eq-find test x.revision xs h.1 in
    elim (Bool-cases (test x)) [ inl e ↦ rw (e, ih) (newer-find test x xs h.1) | inr e ↦ rw e ih ]

-- A revision names one row.
pub IsLog-unique :
    (n : ℕ) (xs : List Row) (x y : Row)
    → IsLog n xs
    → In x xs
    → In y xs
    → x.revision ≡ y.revision
    → x ≡ y
IsLog-unique n [] x y h mx my e = elim mx [ ]
IsLog-unique n (z ∷ zs) x y h mx my e = elim (In-uncons mx) [
  | inl p ↦ elim (In-uncons my) [
    | inl q ↦ sym p ∙ q
    | inr q ↦
        let d : z.revision ≡ x.revision = ap (λ (r : Row). r.revision) p in
        absurd (omega (arith, IsLog-In z.revision zs y h.1 q))
  ]
  | inr p ↦ elim (In-uncons my) [
    | inl q ↦
        let d : z.revision ≡ y.revision = ap (λ (r : Row). r.revision) q in
        absurd (omega (arith, IsLog-In z.revision zs x h.1 p))
    | inr q ↦ IsLog-unique z.revision zs x y h.1 p q e
  ]
]

-- Where the newest matching row is found, no matching row is newer.
pub find-max :
    (test : Row → Bool) (n : ℕ) (xs : List Row) (m x : Row)
    → IsLog n xs
    → find test xs ≡ some m
    → In x xs
    → test x ≡ true
    → x.revision ≤ m.revision
find-max test n [] m x h e mem t = elim mem [ ]
find-max test n (y ∷ ys) m x h e mem t = elim (Bool-cases (test y)) [
  | inl ty ↦
      let p : y ≡ m = ground arith in
      let q : y.revision ≡ m.revision = ap (λ (r : Row). r.revision) p in
      let b = IsLog-In (suc y.revision) (y ∷ ys) x (omega arith, h.1) mem in omega arith
  | inr ty ↦ elim (In-uncons mem) [
    | inl p ↦ let u : test y ≡ true = ap test p ∙ t in absurd (ground arith)
    | inr q ↦ find-max test y.revision ys m x h.1 (rw ty at e) q t
  ]
]
