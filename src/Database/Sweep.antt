-- ===== src/Database/Sweep.antt =====
-- Loops that read rows by a condition and write each of them by its key: a row that is read no
-- longer meets the condition afterwards.
use ts_gaurd_service.Base.{
  ◌≤◌, ◌≡◌, refl, ap, Bool, true, false, not, ◌&&◌, some, List, [], ◌∷◌, String, ◌==◌, string_eq,
  any, count, if◌then◌else◌, count_mono, arith, Action, ok, for_each, Bool-cases, inl, inr, subst⁻¹,
  eq_refl, and_then,
}
use ts_gaurd_service.Database.Repository.{Repository, rows}

module _ {Row : Type 0} {key : Row → String} (repo : Repository Row key) {S : Type 0}
    (view : S → repo.Table) (body : Row → Action S (Unit {0})) (read act : Row → Bool) where
  abbrev has_key : List Row → Row → Bool
  has_key xs r = any (λ x. act x && key r == key x) xs

  -- The step on a row `x` succeeds, and its write `f` leaves no row to act on.
  pub record Clears (x : Row) (s : S) : Type 0 where
    pub write : Row → Row
    pub returns : (body x s).0 ≡ ok tt
    pub writes : repo.update (λ r. key r == key x) write (view s) ≡ some (view (body x s).1)
    pub clears : (r : Row) → (read (write r) && act (write r)) ≡ false

  pub Clears-of :
      (x : Row) (s t : S) (f : Row → Row)
      → body x s ≡ (ok tt, t)
      → repo.update (λ r. key r == key x) f (view s) ≡ some (view t)
      → ((r : Row) → (read (f r) && act (f r)) ≡ false)
      → Clears x s
  Clears-of x s t f e u c = record {
    write = f;
    returns = ap (λ r. r.0) e;
    writes =
        subst⁻¹ (λ (v : S). repo.update (λ r. key r == key x) f (view s) ≡ some (view v))
          (ap (λ r. r.1) e) u;
    clears = c;
  }

  for_each-step :
      (x : Row) (xs : List Row) (s : S)
      → (body x s).0 ≡ ok tt
      → (for_each (x ∷ xs) body s).1 ≡ (for_each xs body (body x s).1).1
  unfolding for_each
  for_each-step x xs s e = ap (λ r. (and_then (r, (body x s).1) λ _. for_each xs body).1) e

  abbrev pub is_open : Row → Bool
  is_open r = read r && act r

  abbrev is_left : List Row → Row → Bool
  is_left xs r = is_open r && not (has_key xs r)

  has_key-read : (xs : List Row) → count (λ r. act r && not (has_key xs r)) xs ≡ 0
  has_key-read [] = refl
  has_key-read (x ∷ xs) = ground (
    arith,
    eq_refl (key x),
    has_key-read xs,
    count_mono (λ r. act r && not (has_key (x ∷ xs) r)) (λ r. act r && not (has_key xs r))
        (λ r h. ground arith) xs,
  )

  module _ (acts : (x : Row) (s : S) → act x ≡ true → Clears x s)
      (skips : (x : Row) (s : S) → act x ≡ false → body x s ≡ (ok tt, s)) where
    abbrev Bound : List Row → S → S → Type 0
    Bound xs s t = count is_open (rows repo (view t)) ≤ count (is_left xs) (rows repo (view s))

    sweep-act :
        (x : Row) (xs : List Row) (s t : S)
        → act x ≡ true
        → Bound xs (body x s).1 t
        → Bound (x ∷ xs) s t
    sweep-act x xs s t e h =
        let c = acts x s e in
        omega (
          arith,
          h,
          repo.count-update _ _ _ _ c.writes (is_left xs),
          count_mono (λ r. is_left xs (if key r == key x then c.write r else r)) (is_left (x ∷ xs))
              (λ r h'. ground (arith, c.clears r)) (rows repo (view s)),
        )

    sweep-skip :
        (x : Row) (xs : List Row) (s t : S) → act x ≡ false → Bound xs s t → Bound (x ∷ xs) s t
    sweep-skip x xs s t e h = omega (
      arith,
      h,
      count_mono (is_left xs) (is_left (x ∷ xs)) (λ r h'. ground arith) (rows repo (view s)),
    )

    sweep : (xs : List Row) (s : S) → Bound xs s (for_each xs body s).1
    unfolding for_each
    sweep [] s = count_mono is_open (is_left []) (λ r h. ground arith) (rows repo (view s))
    sweep (x ∷ xs) s = elim (Bool-cases (act x)) [
      | inl e ↦
          subst⁻¹ (Bound (x ∷ xs) s) (for_each-step x xs s (acts x s e).returns)
            (sweep-act x xs s _ e (sweep xs (body x s).1))
      | inr e ↦ subst⁻¹ (Bound (x ∷ xs) s) (for_each-step x xs s (ap (λ r. r.0) (skips x s e))) (
          sweep-skip x xs s _ e (
            subst⁻¹ (λ u. Bound xs s (for_each xs body u).1) (ap (λ r. r.1) (skips x s e))
              (sweep xs s)))
    ]

    -- After the loop on the rows that were read, there is no row to act on.
    pub sweep-all :
        (s : S) → count is_open (rows repo (view (for_each (repo.find read (view s)) body s).1)) ≡ 0
    sweep-all s =
        let xs = repo.find read (view s) in
        omega (
          arith,
          sweep xs s,
          has_key-read xs,
          repo.count-find (λ r. act r && not (has_key xs r)) read (view s),
          count_mono (is_left xs) (λ r. (act r && not (has_key xs r)) && read r)
              (λ r h. ground arith) (rows repo (view s)),
        )
