-- ===== src/Storage/Listing.antt =====
-- crates/h3s-storage/src/sqlite.rs: a page of `list` is a piece of the snapshot at its revision.
use hedronetes_h3s.Prelude.{
  ℕ, suc, String, List, true, false, ◌≡◌, sym, ap, ◌∙◌, subst, none, some, ◌⊎◌, inl, inr, arith,
  str_eq, eq_iff, ◌==◌, In, Bool-cases, Option-cases, sort, keep, find, find→In, In→keep, keep→In,
  In→sort, sort→In, IsSorted, sort-IsSorted, text_lt, text_eq_of_ties, codes, starts_with,
  and-eq-true, some-injective,
}
use hedronetes_h3s.Storage.Table.{Row, newest, until, live, is_current_at, in_prefix}
use hedronetes_h3s.Storage.Log.{IsLog, IsLog-unique, newest-eq-find}
use hedronetes_h3s.Storage.Read.{selected, take, last, key_lt}
use hedronetes_h3s.Storage.Snapshot.{snapshot, snapshot-eq-find}
use hedronetes_h3s.Storage.Replay.{Watched}
use hedronetes_h3s.Storage.Pages.{key_lt-IsOrder, take-split, take→In, last→In, take-IsSorted}

live-some : (m x : Row) → live (some m) ≡ some x → (m ≡ x) × ((m.kind == 2) ≡ false)
live-some m x h = ground arith

module _ (n : ℕ) (rows : List Row) (log : IsLog n rows) (r : ℕ) where
  -- A live current row is what the snapshot shows under its key.
  current-snapshot :
      (x : Row)
      → In x rows
      → is_current_at r rows x ≡ true
      → (x.kind == 2) ≡ false
      → snapshot rows r x.key ≡ some x
  unfolding is_current_at
  current-snapshot x mem cur alive =
      snapshot-eq-find n rows r x.key log ∙ shown_row (Option-cases (find (until x.key r) rows))
    where
      shown_row :
          (find (until x.key r) rows ≡ none) ⊎ ((m : Row) × (find (until x.key r) rows ≡ some m))
          → live (find (until x.key r) rows) ≡ some x
      shown_row (inl e) =
          let f = newest-eq-find (until x.key r) n rows log ∙ e in
          let g : is_current_at r rows x ≡ false = rw (f, is_current_at) in absurd (ground arith)
      shown_row (inr (m, e)) =
          let f = newest-eq-find (until x.key r) n rows log ∙ e in
          let g : (m.revision == x.revision) ≡ true = rw (f, is_current_at) at cur in
          let q =
            IsLog-unique n rows m x log (find→In (until x.key r) rows m e).0 mem (ground arith) in
          rw e (ap (λ (y : Row). live (some y)) q ∙ rw alive)

  snapshot-current :
      (k : String) (x : Row)
      → snapshot rows r k ≡ some x
      → In x rows × (x.key ≡ k) × (is_current_at r rows x ≡ true) × ((x.kind == 2) ≡ false)
  unfolding is_current_at
  snapshot-current k x e =
      found (Option-cases (find (until k r) rows)) (sym (snapshot-eq-find n rows r k log) ∙ e)
    where
      found :
          (find (until k r) rows ≡ none) ⊎ ((m : Row) × (find (until k r) rows ≡ some m))
          → live (find (until k r) rows) ≡ some x
          → In x rows × (x.key ≡ k) × (is_current_at r rows x ≡ true) × ((x.kind == 2) ≡ false)
      found (inl f) g = absurd (ground arith)
      found (inr (m, f)) g =
          let (q, alive) = live-some m x (rw f at g) in
          let (mem, met) = find→In (until k r) rows m f in
          let same = (eq_iff m.key k).0 (and-eq-true (str_eq m.key k) _ met).0 in
          let top : newest (until m.key r) rows ≡ some m =
            ap (λ (j : String). newest (until j r) rows) same
            ∙ newest-eq-find (until k r) n rows log
            ∙ f in
          subst
            (λ y.
              In y rows × (y.key ≡ k) × (is_current_at r rows y ≡ true) × ((y.kind == 2) ≡ false))
            q (mem, same, rw (top, is_current_at) (ground arith), alive)

-- The rows of a page before decoding.
pub record IsPage (rows : List Row) (prefix start : String) (r : ℕ) (shown_rows : List Row)
    : Type 0 where
  pub sound :
      (x : Row)
      → In x shown_rows
      → (snapshot rows r x.key ≡ some x)
        × (in_prefix prefix x ≡ true)
        × (text_lt start x.key ≡ true)
  pub sorted : IsSorted key_lt shown_rows
  pub complete :
      (k : String) (x : Row)
      → Watched prefix k
      → text_lt start k ≡ true
      → snapshot rows r k ≡ some x
      → In x shown_rows ⊎ ((l : Row) × (last shown_rows ≡ some l) × (text_lt l.key k ≡ true))

selected-parts :
    (prefix start : String) (r : ℕ) (rows : List Row) (x : Row)
    → selected prefix start r rows x ≡ true
    → (in_prefix prefix x ≡ true)
      × (text_lt start x.key ≡ true)
      × ((x.kind == 2) ≡ false)
      × (is_current_at r rows x ≡ true)
unfolding selected
selected-parts prefix start r rows x h = ground arith

selected-of :
    (prefix start : String) (r : ℕ) (rows : List Row) (x : Row)
    → in_prefix prefix x ≡ true
    → text_lt start x.key ≡ true
    → (x.kind == 2) ≡ false
    → is_current_at r rows x ≡ true
    → selected prefix start r rows x ≡ true
unfolding selected
selected-of prefix start r rows x a b c d = rw (a, b, c, d)

module _ (n : ℕ) (rows : List Row) (log : IsLog n rows) (prefix start : String) (r : ℕ) where
  abbrev pub sorted_rows : List Row
  sorted_rows = sort key_lt (keep (selected prefix start r rows) rows)

  pub sorted_rows_sound :
      (x : Row)
      → In x sorted_rows
      → In x rows
        × (snapshot rows r x.key ≡ some x)
        × (in_prefix prefix x ≡ true)
        × (text_lt start x.key ≡ true)
  sorted_rows_sound x m =
      let (mem, t) = keep→In (selected prefix start r rows) rows x (sort→In key_lt _ x m) in
      let (a, b, c, d) = selected-parts prefix start r rows x t in
      (mem, current-snapshot n rows log r x mem d c, a, b)

  pub sorted_rows_complete :
      (k : String) (x : Row)
      → Watched prefix k
      → text_lt start k ≡ true
      → snapshot rows r k ≡ some x
      → In x sorted_rows × (x.key ≡ k)
  sorted_rows_complete k x w b e =
      let (mem, same, cur, alive) = snapshot-current n rows log r k x e in
      let t =
        selected-of prefix start r rows x
          (ap (λ (j : String). starts_with (codes j) (codes prefix)) same ∙ w)
          (ap (λ (j : String). text_lt start j) same ∙ b) alive cur in
      (In→sort key_lt _ x (In→keep (selected prefix start r rows) rows x mem t), same)

  sorted_rows-IsSorted : IsSorted key_lt sorted_rows
  sorted_rows-IsSorted =
      sort-IsSorted key_lt key_lt-IsOrder (keep (selected prefix start r rows) rows)

  -- The first `suc limit` of them are a page.
  pub take-IsPage : (limit : ℕ) → IsPage rows prefix start r (take (suc limit) sorted_rows)
  take-IsPage limit = record {
    sound = λ x m.
        let (_, a, b, c) = sorted_rows_sound x (take→In (suc limit) sorted_rows x m) in (a, b, c);
    sorted = take-IsSorted (suc limit) sorted_rows sorted_rows-IsSorted;
    complete = λ k x w b e. beyond k x e (sorted_rows_complete k x w b e);
  }
    where
      beyond :
          (k : String) (x : Row)
          → snapshot rows r k ≡ some x
          → In x sorted_rows × (x.key ≡ k)
          → In x (take (suc limit) sorted_rows)
            ⊎ ((l : Row) × (last (take (suc limit) sorted_rows) ≡ some l)
                × (text_lt l.key k ≡ true))
      beyond k x e (m, same) = elim (take-split limit sorted_rows x sorted_rows-IsSorted m) [
        | inl p ↦ inl p
        | inr (l, at, not_before) ↦ elim (Bool-cases (text_lt l.key x.key)) [
          | inl lt ↦ inr (l, at, ap (text_lt l.key) (sym same) ∙ lt)
          | inr ge ↦
              let there_l = last→In (take (suc limit) sorted_rows) l at in
              let here_l = (sorted_rows_sound l (take→In (suc limit) sorted_rows l there_l)).1 in
              let tie = text_eq_of_ties x.key l.key not_before ge in
              let q : some x ≡ some l = sym e ∙ ap (snapshot rows r) (sym same ∙ tie) ∙ here_l in
              inl (
                subst (λ y. In y (take (suc limit) sorted_rows)) (some-injective l x (sym q))
                  there_l)
        ]
      ]
