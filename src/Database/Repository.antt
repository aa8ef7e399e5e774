-- ===== src/Database/Repository.antt =====
-- A repository of TypeORM, which is not part of this repository: a parameter of the model. Its
-- laws state what the queries that the service makes are documented to do. They speak of the rows
-- by counting, since the store is free to return rows in any order.
use ts_gaurd_service.Base.{
  ◌≤◌, ◌≡◌, refl, Bool, true, ◌&&◌, Option, some, List, [], ◌∷◌, ap, arith, eq_refl, count_and_le,
  count-not_and, first, not, String, if◌then◌else◌, ◌==◌, string_eq, count,
}

-- `key` is the primary column. A write that yields `none` has failed, and changed nothing.
pub record Repository (Row : Type 0) (key : Row → String) : Type 1 where
  pub Table : Type 0
  pub find : (Row → Bool) → Table → List Row
  pub update : (Row → Bool) → (Row → Row) → Table → Option Table
  pub insert : Row → Table → Option Table
  pub count-find :
      (q p : Row → Bool) (t : Table)
      → count q (find p t) ≡ count (λ r. q r && p r) (find (λ _. true) t)
  pub count-update :
      (p : Row → Bool) (f : Row → Row) (t t' : Table)
      → update p f t ≡ some t'
      → (q : Row → Bool)
      → count q (find (λ _. true) t') ≡ count (λ r. q (if p r then f r else r)) (find (λ _. true) t)
  pub count-insert :
      (r : Row) (t t' : Table)
      → insert r t ≡ some t'
      → (q : Row → Bool) → count q (find (λ _. true) t') ≡ count q (r ∷ find (λ _. true) t)
  pub key-unique : (k : String) (t : Table) → count (λ r. key r == k) (find (λ _. true) t) ≤ 1

-- All rows of a table.
abbrev pub rows :
    {Row : Type 0} {key : Row → String} (repo : Repository Row key) → repo.Table → List Row
rows repo t = repo.find (λ _. true) t

-- A table whose statements succeed, when they change no key.
abbrev pub Reliable : {Row : Type 0} {key : Row → String} → Repository Row key → Type 0
Reliable {Row} {key} repo =
    (p : Row → Bool) (f : Row → Row)
    → ((r : Row) → key (f r) ≡ key r)
    → (t : repo.Table) → (t' : repo.Table) × (repo.update p f t ≡ some t')

module _ {Row : Type 0} {key : Row → String} (repo : Repository Row key) (v : Row → Bool) where
  -- What an empty answer and an answer of one row say of the table.
  pub count-find_nil : (t : repo.Table) → repo.find v t ≡ [] → count v (rows repo t) ≡ 0
  count-find_nil t e = omega (arith, ap (count (λ _. true)) e, repo.count-find (λ _. true) v t)

  nil_of : (xs : List Row) → count (λ _. true) xs ≡ 0 → xs ≡ []
  nil_of [] e = refl
  nil_of (x ∷ xs) e = ground (arith, e)

  pub find_nil : (t : repo.Table) → count v (rows repo t) ≡ 0 → repo.find v t ≡ []
  find_nil t e = nil_of (repo.find v t) (omega (arith, e, repo.count-find (λ _. true) v t))

  pub count-find_one :
      (r : Row) (t : repo.Table) → repo.find v t ≡ r ∷ [] → count v (rows repo t) ≡ 1
  count-find_one r t e = omega (arith, ap (count (λ _. true)) e, repo.count-find (λ _. true) v t)

  -- The one row found is the one with its key, and every row with its key passes the test.
  pub found-one :
      (r : Row) (t : repo.Table)
      → repo.find v t ≡ r ∷ []
      → count (λ x. key x == key r && v x) (rows repo t) ≡ 1
  found-one r t e = ground (
    arith,
    eq_refl (key r),
    ap (count (λ x. key x == key r)) e,
    repo.count-find (λ x. key x == key r) v t,
  )

  pub found-all :
      (r : Row) (t : repo.Table)
      → repo.find v t ≡ r ∷ []
      → count (λ x. key x == key r && v x) (rows repo t) ≡ count (λ x. key x == key r) (rows repo t)
  found-all r t e = omega (
    arith,
    found-one r t e,
    repo.key-unique (key r) t,
    count_and_le (λ x. key x == key r) v (rows repo t),
  )

  -- What `findOne` returns passes the test.
  pub first-find : (r : Row) (t : repo.Table) → first (repo.find v t) ≡ some r → v r ≡ true
  first-find r t e = go (repo.find v t) refl e
    where
      go : (xs : List Row) → repo.find v t ≡ xs → first xs ≡ some r → v r ≡ true
      go [] f e = cc
      go (x ∷ xs) f e = ground (
        arith,
        ap (count (λ x. not (v x))) f,
        repo.count-find (λ x. not (v x)) v t,
        count-not_and v (rows repo t),
      )
