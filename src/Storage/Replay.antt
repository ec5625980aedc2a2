-- ===== src/Storage/Replay.antt =====
-- crates/h3s-storage/src/sqlite.rs: the rows that `changes` reads, applied in order, lead from the
-- snapshot at the old cursor to the snapshot at the new one.
use hedronetes_h3s.Prelude.{
  ℕ, zero, suc, ◌≤◌, ◌<◌, String, List, [], ◌∷◌, Bool, true, false, ◌&&◌, ◌≡◌, refl, sym, ap, ◌∙◌,
  Option, none, some, ◌⊎◌, inl, inr, arith, if◌then◌else◌, str_eq, eq_iff, ltb, ltb→lt, lt→ltb,
  leb→le, In, here, there, In-uncons, find, find→In, find→none, keep, In→keep, keep→In, find-congr,
  sort, false≢true, IsSorted, IsOrder, In→sort, sort→In, sort-IsSorted, Bool-cases, Option-cases,
  codes, starts_with, and-eq-true,
}
use hedronetes_h3s.Storage.Table.{Row, until, live, in_prefix}
use hedronetes_h3s.Storage.Log.{IsLog, IsLog-unique, find-max}
use hedronetes_h3s.Storage.Read.{revision_lt, take}
use hedronetes_h3s.Storage.Snapshot.{snapshot, snapshot-eq-find}

-- What one change makes of a reader's view of the key `k`.
abbrev pub apply_row : String → Row → Option Row → Option Row
apply_row k x seen = if str_eq x.key k then live (some x) else seen

abbrev pub replay_rows : String → Option Row → List Row → Option Row
replay_rows k seen [] = seen
replay_rows k seen (x ∷ xs) = replay_rows k (apply_row k x seen) xs

-- The cursor after the rows of a batch.
abbrev pub advance : ℕ → List Row → ℕ
advance c [] = c
advance c (x ∷ xs) = advance x.revision xs

-- A key is watched if it starts with the prefix.
abbrev pub Watched : String → String → Type 0
Watched prefix k = starts_with (codes k) (codes prefix) ≡ true

pub revision_lt-IsOrder : IsOrder revision_lt
revision_lt-IsOrder = record { asym = λ a b h. ground arith; trans = λ a b c h k. ground arith }

module _ (n : ℕ) (rows : List Row) (log : IsLog n rows) (k : String) where
  -- No version of the key between two revisions: the reader sees the same at both.
  snapshot-gap :
      (c b : ℕ)
      → c ≤ b
      → ((x : Row) → In x rows → x.key ≡ k → c < x.revision → b < x.revision)
      → snapshot rows b k ≡ snapshot rows c k
  snapshot-gap c b h none_between =
      snapshot-eq-find n rows b k log
      ∙ ap live (find-congr (until k b) (until k c) rows same)
      ∙ sym (snapshot-eq-find n rows c k log)
    where
      same : (x : Row) → In x rows → until k b x ≡ until k c x
      same x m = elim (Bool-cases (str_eq x.key k)) [
        | inl e ↦ elim (Bool-cases (ltb c x.revision)) [
          | inl late ↦
              let far = none_between x m ((eq_iff x.key k).0 e) (ltb→lt c x.revision late) in
              ground arith
          | inr early ↦ ground arith
        ]
        | inr e ↦ rw e
      ]

  -- At the revision of one of its versions a key shows that version.
  snapshot-own : (y : Row) → In y rows → y.key ≡ k → snapshot rows y.revision k ≡ live (some y)
  snapshot-own y mem e =
      snapshot-eq-find n rows y.revision k log
      ∙ ap live (own (Option-cases (find (until k y.revision) rows)))
    where
      met : until k y.revision y ≡ true
      met = let s = (eq_iff y.key k).1 e in ground arith

      own :
          (find (until k y.revision) rows ≡ none)
            ⊎ ((m : Row) × (find (until k y.revision) rows ≡ some m))
          → find (until k y.revision) rows ≡ some y
      own (inl p) = absurd (false≢true (sym (find→none (until k y.revision) rows y p mem) ∙ met))
      own (inr (m, p)) =
          let (there_m, t) = find→In (until k y.revision) rows m p in
          let up = find-max (until k y.revision) n rows m y log p mem met in
          let down = leb→le m.revision y.revision (and-eq-true (str_eq m.key k) _ t).1 in
          p ∙ ap some (IsLog-unique n rows m y log there_m mem (omega arith))

  -- The next change after `c` that could touch the key takes the view at `c` to the view after it.
  snapshot-next :
      (c : ℕ) (y : Row)
      → In y rows
      → c ≤ y.revision
      → ((x : Row) → In x rows → x.key ≡ k → c < x.revision → y.revision ≤ x.revision)
      → snapshot rows y.revision k ≡ apply_row k y (snapshot rows c k)
  snapshot-next c y mem h first = elim (Bool-cases (str_eq y.key k)) [
    | inl e ↦ rw e (snapshot-own y mem ((eq_iff y.key k).0 e))
    | inr e ↦ rw e (snapshot-gap c y.revision h (λ x m p late. beyond x m p late e))
  ]
    where
      beyond :
          (x : Row)
          → In x rows
          → x.key ≡ k
          → c < x.revision
          → str_eq y.key k ≡ false
          → y.revision < x.revision
      beyond x m p late e = elim (Bool-cases (ltb y.revision x.revision)) [
        | inl t ↦ ltb→lt y.revision x.revision t
        | inr f ↦
            let le = first x m p late in
            let q = IsLog-unique n rows x y log m mem (ground arith) in
            let s = (eq_iff y.key k).1 (sym (ap (λ (r : Row). r.key) q) ∙ p) in
            absurd (ground arith)
      ]

-- What is left to apply when the cursor stands at `c`: sorted rows of the log, among them every
-- later row of the prefix.
pub record IsPending (rows : List Row) (prefix : String) (c : ℕ) (zs : List Row) : Type 0 where
  pub sorted : IsSorted revision_lt zs
  pub sound : (z : Row) → In z zs → In z rows × (c ≤ z.revision)
  pub complete : (x : Row) → In x rows → in_prefix prefix x ≡ true → c < x.revision → In x zs

pub changed-IsPending :
    (rows : List Row) (prefix : String) (c : ℕ)
    → IsPending rows prefix c
        (sort revision_lt (keep (λ x. ltb c x.revision && in_prefix prefix x) rows))
changed-IsPending rows prefix c = record {
  sorted = sort-IsSorted revision_lt revision_lt-IsOrder (keep test rows);
  sound = λ z m.
      let (here_z, t) = keep→In test rows z (sort→In revision_lt (keep test rows) z m) in
      (here_z, le_of_lt (ltb→lt c z.revision (and-eq-true (ltb c z.revision) _ t).0));
  complete =
      λ x m p late. In→sort revision_lt (keep test rows) x (In→keep test rows x m (both x p late));
}
  where
    test : Row → Bool
    test x = ltb c x.revision && in_prefix prefix x

    le_of_lt : {a b : ℕ} → a < b → a ≤ b
    le_of_lt h = omega arith

    both : (x : Row) → in_prefix prefix x ≡ true → c < x.revision → test x ≡ true
    both x p late = rw (lt→ltb c x.revision late, p)

pub IsPending-next :
    {rows : List Row} {prefix : String} {c : ℕ} (z : Row) (zs : List Row)
    → IsPending rows prefix c (z ∷ zs)
    → IsPending rows prefix z.revision zs
IsPending-next {rows} {prefix} {c} z zs h = record {
  sorted = h.sorted.1;
  sound = λ y m. ((h.sound y (there m)).0, no_earlier y (h.sorted.0 y m));
  complete =
      λ x m p late. later x late (h.complete x m p (lt_of_le (h.sound z (here refl)).1 late));
}
  where
    no_earlier : (y : Row) → revision_lt y z ≡ false → z.revision ≤ y.revision
    no_earlier y e = ground arith

    lt_of_le : {a b d : ℕ} → a ≤ b → b < d → a < d
    lt_of_le p q = omega arith

    later : (x : Row) → z.revision < x.revision → In x (z ∷ zs) → In x zs
    later x late m = elim (In-uncons m) [
      | inl e ↦
          let q : z.revision ≡ x.revision = ap (λ (r : Row). r.revision) e in absurd (omega arith)
      | inr q ↦ q
    ]

module _ (n : ℕ) (rows : List Row) (log : IsLog n rows) (prefix k : String)
    (watched : Watched prefix k) where
  watched-key : (x : Row) → x.key ≡ k → in_prefix prefix x ≡ true
  watched-key x e = ap (λ (j : String). starts_with (codes j) (codes prefix)) e ∙ watched

  -- The first rows that are pending, applied in order, lead to the snapshot at the last of them.
  pub replay_rows-take :
      (count : ℕ) (zs : List Row) (c : ℕ)
      → IsPending rows prefix c zs
      → replay_rows k (snapshot rows c k) (take count zs)
        ≡ snapshot rows (advance c (take count zs)) k
  replay_rows-take zero zs c h = refl
  replay_rows-take (suc count) [] c h = refl
  replay_rows-take (suc count) (z ∷ zs) c h =
      ap (λ (seen : Option Row). replay_rows k seen (take count zs)) (sym step)
      ∙ replay_rows-take count zs z.revision (IsPending-next z zs h)
    where
      not_later : (x : Row) → In x rows → x.key ≡ k → c < x.revision → z.revision ≤ x.revision
      not_later x m e late = elim (In-uncons (h.complete x m (watched-key x e) late)) [
        | inl q ↦ let r : z.revision ≡ x.revision = ap (λ (t : Row). t.revision) q in omega arith
        | inr q ↦ let t = h.sorted.0 x q in ground arith
      ]

      step : snapshot rows z.revision k ≡ apply_row k z (snapshot rows c k)
      step =
          snapshot-next n rows log k c z (h.sound z (here refl)).0 (h.sound z (here refl)).1
            not_later

  -- With nothing pending the view is that of any later revision.
  pub snapshot-drained :
      (c b : ℕ) → c ≤ b → IsPending rows prefix c [] → snapshot rows b k ≡ snapshot rows c k
  snapshot-drained c b h p =
      snapshot-gap n rows log k c b h
        (λ x m e late. elim (p.complete x m (watched-key x e) late) [ ])
