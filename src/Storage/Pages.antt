-- ===== src/Storage/Pages.antt =====
-- crates/h3s-storage/src/sqlite.rs: cutting the sorted rows of a LIST into pages.
use hedronetes_h3s.Prelude.{
  ℕ, zero, suc, ◌≤◌, ◌<◌, List, [], ◌∷◌, false, ◌≡◌, refl, sym, ap, ◌∙◌, some, ◌⊎◌, inl, inr, arith,
  In, here, there, In-uncons, length, ok, Each, done, match, IsSorted, IsOrder, text_lt-IsOrder,
}
use hedronetes_h3s.Storage.Types.{StoredObject, SecretsSealer}
use hedronetes_h3s.Storage.Table.{Row}
use hedronetes_h3s.Storage.Read.{decode_row, take, last, pop, key_lt, last_key}

pub key_lt-IsOrder : IsOrder key_lt
key_lt-IsOrder = record {
  asym = λ a b. text_lt-IsOrder.asym a.key b.key;
  trans = λ a b c. text_lt-IsOrder.trans a.key b.key c.key;
}

-- The row of a page, or the last row of the page stands before it.
pub take-split :
    (count : ℕ) (xs : List Row) (x : Row)
    → IsSorted key_lt xs
    → In x xs
    → In x (take (suc count) xs)
      ⊎ ((l : Row) × (last (take (suc count) xs) ≡ some l) × (key_lt x l ≡ false))
take-split count [] x s m = elim m [ ]
take-split zero (y ∷ ys) x s m = elim (In-uncons m) [
  | inl p ↦ inl (here p)
  | inr q ↦ inr (y, refl, s.0 x q)
]
take-split (suc count) (y ∷ []) x s m = inl m
take-split (suc count) (y ∷ z ∷ zs) x s m = elim (In-uncons m) [
  | inl p ↦ inl (here p)
  | inr q ↦ elim (take-split count (z ∷ zs) x s.1 q) [ inl r ↦ inl (there r) | inr r ↦ inr r ]
]

pub take-length-le : (count : ℕ) (zs : List Row) → length (take count zs) ≤ count
take-length-le zero zs = omega arith
take-length-le (suc count) [] = omega arith
take-length-le (suc count) (z ∷ zs) = omega (arith, take-length-le count zs)

pub take→In : (count : ℕ) (zs : List Row) (x : Row) → In x (take count zs) → In x zs
take→In zero zs x m = elim m [ ]
take→In (suc count) [] x m = m
take→In (suc count) (z ∷ zs) x m = elim (In-uncons m) [
  | inl p ↦ here p
  | inr q ↦ there (take→In count zs x q)
]

pub last→In : (xs : List Row) (l : Row) → last xs ≡ some l → In l xs
last→In [] l e = absurd (cc)
last→In (x ∷ []) l e = here (ground arith)
last→In (x ∷ y ∷ ys) l e = there (last→In (y ∷ ys) l e)

-- A page that is not overfull has everything; an overfull one drops what `take limit` drops.
pub take-more :
    (count : ℕ) (xs : List Row) → length (take (suc count) xs) ≤ count → take (suc count) xs ≡ xs
take-more count [] h = refl
take-more zero (x ∷ xs) h = absurd (omega arith)
take-more (suc count) (x ∷ xs) h = ap (λ (t : List Row). x ∷ t) (take-more count xs (omega arith))

pub pop-take :
    (count : ℕ) (xs : List Row)
    → count < length (take (suc count) xs)
    → pop (take (suc count) xs) ≡ take count xs
pop-take count [] h = absurd (omega arith)
pop-take zero (x ∷ xs) h = refl
pop-take (suc count) (x ∷ []) h = absurd (omega arith)
pop-take (suc count) (x ∷ y ∷ ys) h =
    ap (λ (t : List Row). x ∷ t) (pop-take count (y ∷ ys) (omega arith))

pub take-IsSorted :
    (count : ℕ) (xs : List Row) → IsSorted key_lt xs → IsSorted key_lt (take count xs)
take-IsSorted zero xs s = tt
take-IsSorted (suc count) [] s = tt
take-IsSorted (suc count) (x ∷ xs) s =
    (λ y m. s.0 y (take→In count xs y m), take-IsSorted count xs s.1)

module _ (sealer : SecretsSealer) where
  pub Each-pop :
      {xs : List Row} {os : List StoredObject}
      → Each (decode_row sealer) xs os
      → Each (decode_row sealer) (pop xs) (pop os)
  Each-pop done = done
  Each-pop (match e done) = done
  Each-pop (match e (match f rest)) = match e (Each-pop (match f rest))

  pub Each-length :
      {xs : List Row} {os : List StoredObject}
      → Each (decode_row sealer) xs os
      → length os ≡ length xs
  Each-length done = refl
  Each-length (match e rest) = ap suc (Each-length rest)

  pub decode-key : (x : Row) (o : StoredObject) → decode_row sealer x ≡ ok o → o.key ≡ x.key
  unfolding decode_row
  decode-key x o e = ground arith

  pub Each-last :
      {xs : List Row} {os : List StoredObject} (l : Row)
      → Each (decode_row sealer) xs os
      → last xs ≡ some l
      → last_key (last os) ≡ some l.key
  Each-last l done h = absurd (cc)
  Each-last l (match {x = x} {y = o} e done) h =
      let q : x ≡ l = ground arith in ap some (decode-key x o e ∙ ap (λ (y : Row). y.key) q)
  Each-last l (match e (match f rest)) h = Each-last l (match f rest) h

  pub Each→In :
      {xs : List Row} {os : List StoredObject} (o : StoredObject)
      → Each (decode_row sealer) xs os
      → In o os
      → (x : Row) × In x xs × (decode_row sealer x ≡ ok o)
  Each→In o done m = elim m [ ]
  Each→In o (match {x = x} {y = y} e rest) m = elim (In-uncons m) [
    | inl p ↦ (x, here refl, e ∙ ap ok p)
    | inr q ↦ let (z, mz, ez) = Each→In o rest q in (z, there mz, ez)
  ]

  pub In→Each :
      {xs : List Row} {os : List StoredObject} (x : Row)
      → Each (decode_row sealer) xs os
      → In x xs
      → (o : StoredObject) × In o os × (decode_row sealer x ≡ ok o)
  In→Each x done m = elim m [ ]
  In→Each x (match {x = z} {y = o} e rest) m = elim (In-uncons m) [
    | inl p ↦ (o, here refl, ap (decode_row sealer) (sym p) ∙ e)
    | inr q ↦ let (y, my, ey) = In→Each x rest q in (y, there my, ey)
  ]
