-- ===== src/Tests/Tables.antt =====
-- A repository whose table is a list of rows with distinct keys.
use ts_gaurd_service.Base.{
  ◌≤◌, ◌≡◌, refl, ap, ◌∙◌, sym, Bool, true, false, not, ◌&&◌, ◌||◌, Option, none, some, List, [],
  ◌∷◌, String, if◌then◌else◌, ◌==◌, string_eq, any, count, select, map, arith, count-select,
  count_congr, bit, ◌+◌, eq_iff,
}
use ts_gaurd_service.Database.Repository.{Repository, Reliable}

module _ {Row : Type 0} (key : Row → String) where
  abbrev distinct : List Row → Bool
  distinct [] = true
  distinct (r ∷ rs) = not (any (λ x. key x == key r) rs) && distinct rs

  abbrev Rows : Type 0
  Rows = (rs : List Row) × (distinct rs ≡ true)

  abbrev checked : (rs : List Row) (b : Bool) → distinct rs ≡ b → Option Rows
  checked rs true e = some (rs, e)
  checked rs false e = none

  pub checked-rows :
      (rs : List Row) (b : Bool) (e : distinct rs ≡ b) (t : Rows)
      → checked rs b e ≡ some t
      → rs ≡ t.0
  checked-rows rs true e t h = ap (λ (o : Option Rows). elim o [ none ↦ rs | some u ↦ u.0 ]) h
  checked-rows rs false e t h = cc

  pub count-all : (q : Row → Bool) (rs : List Row) → count q (select (λ _. true) rs) ≡ count q rs
  count-all q rs = count-select q (λ _. true) rs ∙ count_congr _ _ (λ r. ground arith) rs

  count-absent :
      (k : String) (rs : List Row)
      → any (λ x. key x == k) rs ≡ false
      → count (λ x. key x == k) rs ≡ 0
  count-absent k [] h = refl
  count-absent k (r ∷ rs) h = ground (arith, count-absent k rs)

  pub count-distinct :
      (k : String) (rs : List Row) → distinct rs ≡ true → count (λ x. key x == k) rs ≤ 1
  count-distinct k [] h = omega arith
  count-distinct k (r ∷ rs) h = ground (
    arith,
    count-distinct k rs,
    count-absent k rs,
    (eq_iff (key r) k).0,
    ap (λ j. any (λ x. key x == j) rs) {x = key r} {y = k},
  )

  pub count-map :
      (p q : Row → Bool) (f : Row → Row) (rs : List Row)
      → count q (map (λ r. if p r then f r else r) rs) ≡ count (λ r. q (if p r then f r else r)) rs
  count-map p q f [] = refl
  count-map p q f (r ∷ rs) = ground (arith, count-map p q f rs)

  abbrev pub list_repository : Repository Row key
  list_repository = record {
    Table = Rows;
    find = λ p t. select p t.0;
    update =
        λ p f t. let rs = map (λ r. if p r then f r else r) t.0 in checked rs (distinct rs) refl;
    insert = λ r t. checked (r ∷ t.0) (distinct (r ∷ t.0)) refl;
    count-find = λ q p t. count-select q p t.0 ∙ sym (count-all (λ r. q r && p r) t.0);
    count-update = λ p f t t' e q.
        count-all q t'.0
        ∙ ap (count q) (sym (checked-rows _ _ refl t' e))
        ∙ count-map p q f t.0
        ∙ sym (count-all (λ r. q (if p r then f r else r)) t.0);
    count-insert = λ r t t' e q.
        count-all q t'.0
        ∙ ap (count q) (sym (checked-rows (r ∷ t.0) _ refl t' e))
        ∙ ap (λ n. bit (q r) + n) (sym (count-all q t.0));
    key-unique = λ k t. rw (count-all (λ r. key r == k) t.0) (count-distinct k t.0 t.1);
  }

  module _ (g : Row → Row) (keeps : (r : Row) → key (g r) ≡ key r) where
    any-map :
        (k : String) (rs : List Row) → any (λ x. key x == k) (map g rs) ≡ any (λ x. key x == k) rs
    any-map k [] = refl
    any-map k (r ∷ rs) = rw (keeps r) (ap (λ b. key r == k || b) (any-map k rs))

    distinct-map : (rs : List Row) → distinct (map g rs) ≡ distinct rs
    distinct-map [] = refl
    distinct-map (r ∷ rs) = rw (keeps r) (ground (arith, any-map (key r) rs, distinct-map rs))

  done :
      (rs : List Row) (b : Bool) (e : distinct rs ≡ b)
      → b ≡ true
      → (t : Rows) × (checked rs b e ≡ some t)
  done rs true e h = ((rs, e), refl)
  done rs false e h = cc

  pub list_repository-Reliable : Reliable list_repository
  list_repository-Reliable p f keeps t =
      let g = λ (r : Row). if p r then f r else r in
      let same = λ (r : Row). cases_keep (p r) (keeps r) in
      done (map g t.0) (distinct (map g t.0)) refl (distinct-map g same t.0 ∙ t.1)
    where
      cases_keep : {r : Row} (b : Bool) → key (f r) ≡ key r → key (if b then f r else r) ≡ key r
      cases_keep true h = h
      cases_keep false h = refl
