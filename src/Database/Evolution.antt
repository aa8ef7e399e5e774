-- ===== src/Database/Evolution.antt =====
-- How a table changes row by row: what writes by condition do, stated without an order of rows.
use ts_gaurd_service.Base.{
  ◌≡◌, refl, ◌∙◌, Bool, true, false, ◌&&◌, some, String, if◌then◌else◌, count, count-update_only,
}
use ts_gaurd_service.Database.Repository.{Repository, rows}

module _ {Row : Type 0} {key : Row → String} (repo : Repository Row key) where
  -- Each row of `t` became a related row of `t'`, and `t'` has no others.
  pub record Evolves (R : Row → Row → Type 0) (t t' : repo.Table) : Type 0 where
    pub change : Row → Row
    pub explains :
        (q : Row → Bool) → count q (rows repo t') ≡ count (λ r. q (change r)) (rows repo t)
    pub related : (r : Row) → R r (change r)

module _ {Row : Type 0} {key : Row → String} (repo : Repository Row key) (R : Row → Row → Type 0)
    (R_refl : (r : Row) → R r r) (t : repo.Table) where
  pub Evolves-refl : Evolves repo R t t
  Evolves-refl = record { change = λ r. r; explains = λ q. refl; related = R_refl }

  -- An update where all rows that meet its condition `p` pass `a`.
  pub update-Evolves :
      (t' : repo.Table) (p a : Row → Bool) (f : Row → Row)
      → repo.update p f t ≡ some t'
      → ((r : Row) → p r ≡ true → a r ≡ true → R r (f r))
      → count (λ r. p r && a r) (rows repo t) ≡ count p (rows repo t)
      → Evolves repo R t t'
  update-Evolves t' p a f e step all = record {
    change = λ r. if p r && a r then f r else r;
    explains = λ q. repo.count-update p f t t' e q ∙ count-update_only p a q f (rows repo t) all;
    related = λ r. one r (p r) (a r) (step r);
  }
    where
      one :
          (r : Row) (b c : Bool)
          → (b ≡ true → c ≡ true → R r (f r))
          → R r (if b && c then f r else r)
      one r true true h = h refl refl
      one r true false h = R_refl r
      one r false c h = R_refl r
