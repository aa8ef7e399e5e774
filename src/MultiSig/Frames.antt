-- ===== src/MultiSig/Frames.antt =====
-- What keeps the predicates of a state: steps in sequence, and steps that change nothing of the
-- queue or of the outcomes.
use ts_gaurd_service.Base.{
  ◌≡◌, refl, Bool, true, false, Option, none, some, List, [], ◌∷◌, ◌++◌, String, if◌then◌else◌,
  ◌==◌, string_eq, ok, err, Result, Action, and_then, gets, lift, attempt, for_each, bind_cases,
  ◌>>=◌, ◌>>◌, Map, get, set, delete,
}

-- A step keeps what holds of the state, whether or not it raises.
pub record Keeps {S A : Type 0} (P : S → Type 0) (m : Action S A) : Type 0 where
  pub keeps : (s : S) → P s → P (m s).1

module _ {S : Type 0} {P : S → Type 0} where
  pub read-Keeps : {A : Type 0} {f : S → Result A} → Keeps P (λ s. (f s, s))
  read-Keeps = record { keeps = λ s p. p }

  pub >>=-Keeps :
      {A B : Type 0} {m : Action S A} {f : A → Action S B}
      → Keeps P m
      → ((a : A) → Keeps P (f a))
      → Keeps P (m >>= f)
  >>=-Keeps {m = m} {f = f} h k = record {
    keeps = λ s p. bind_cases P m f s (h.keeps s p) λ a. (k a).keeps (m s).1 (h.keeps s p);
  }

  -- The second step may rely on what was read.
  pub read-Keeps_of :
      {A B : Type 0} {f : S → Result A} {k : A → Action S B}
      → ((s : S) (a : A) → f s ≡ ok a → Keeps P (k a))
      → Keeps P ((λ s. (f s, s)) >>= k)
  read-Keeps_of {A} {B} {f} {k} h = record { keeps = λ s p. go s p (f s) (h s) }
    where
      go :
          (s : S)
          → P s
          → (r : Result A) → ((a : A) → r ≡ ok a → Keeps P (k a))
          → P (and_then (r, s) k).1
      go s p (ok a) l = (l a refl).keeps s p
      go s p (err e) l = p

  pub lift-Keeps :
      {A B : Type 0} (r : Result A) {k : A → Action S B}
      → ((a : A) → r ≡ ok a → Keeps P (k a))
      → Keeps P (lift r >>= k)
  lift-Keeps r h = read-Keeps_of λ _. h

  pub gets-Keeps :
      {A B : Type 0} (f : S → A) (k : A → Action S B)
      → ((s : S) → Keeps P (k (f s)))
      → Keeps P (gets f >>= k)
  gets-Keeps f k h = record { keeps = λ s. (h s).keeps s }

  pub >>-Keeps :
      {A B : Type 0} {m : Action S A} {k : Action S B} → Keeps P m → Keeps P k → Keeps P (m >> k)
  >>-Keeps h k = >>=-Keeps h λ _. k

  pub attempt-Keeps : {m : Action S (Unit {0})} → Keeps P m → Keeps P (attempt m)
  attempt-Keeps h = record { keeps = h.keeps }

  -- A step by what it reads of the state.
  pub at-Keeps :
      {A : Type 0} {f : S → Action S A} → ((s : S) → Keeps P (f s)) → Keeps P (λ s. f s s)
  at-Keeps h = record { keeps = λ s. (h s).keeps s }

  pub if-Keeps :
      {A : Type 0} (b : Bool) {m k : Action S A}
      → Keeps P m
      → Keeps P k
      → Keeps P (if b then m else k)
  if-Keeps true h k = h
  if-Keeps false h k = k

  pub for_each-Keeps :
      {A : Type 0} (xs : List A) {body : A → Action S (Unit {0})}
      → ((a : A) → Keeps P (body a))
      → Keeps P (for_each xs body)
  unfolding for_each
  for_each-Keeps [] h = read-Keeps
  for_each-Keeps (x ∷ xs) h = >>=-Keeps (h x) λ _. for_each-Keeps xs h

pub if_holds {ℓ} :
    {A : Type ℓ} (P : A → Type 0) (b : Bool) {x y : A} → P x → P y → P (if b then x else y)
if_holds P true p q = p
if_holds P false p q = q

pub if_holds_of {ℓ} :
    {A : Type ℓ} (P : A → Type 0) (b : Bool) {x y : A}
    → (b ≡ true → P x)
    → (b ≡ false → P y)
    → P (if b then x else y)
if_holds_of P true p q = p refl
if_holds_of P false p q = q refl

-- What holds of the state when nothing is read, and after the second step if there is one.
pub read_holds :
    {S A B : Type 0} (P : S → Type 0) (r : Result A) (k : A → Action S B) (s : S)
    → P s
    → ((a : A) → r ≡ ok a → P (k a s).1)
    → P (and_then (r, s) k).1
read_holds P (ok a) k s p q = q a refl
read_holds P (err e) k s p q = p

pub option_holds {ℓ} :
    {A B : Type ℓ} (P : B → Type 0) (o : Option A) {n : B} {f : A → B}
    → (o ≡ none → P n)
    → ((a : A) → o ≡ some a → P (f a))
    → P (elim o [ none ↦ n | some a ↦ f a ])
option_holds P none p q = p refl
option_holds P (some a) p q = q a refl

-- What holds of all the elements.
abbrev pub All {ℓ} : {A : Type ℓ} → (A → Type 0) → List A → Type 0
All P [] = Unit {0}
All P (x ∷ xs) = P x × All P xs

pub All-append :
    {A : Type 0} (P : A → Type 0) (xs ys : List A) → All P xs → All P ys → All P (xs ++ ys)
All-append P [] ys h k = k
All-append P (x ∷ xs) ys h k = (h.0, All-append P xs ys h.1 k)

module _ {V : Type 0} (P : V → Type 0) where
  abbrev pub AllIn : Map V → Type 0
  AllIn = All (λ e. P e.1)

  pub set-AllIn : (k : String) (v : V) (m : Map V) → AllIn m → P v → AllIn (set k v m)
  unfolding set
  set-AllIn k v [] h p = (p, tt)
  set-AllIn k v ((k', v') ∷ m) h p = if_holds AllIn (k' == k) (p, h.1) (h.0, set-AllIn k v m h.1 p)

  pub delete-AllIn : (k : String) (m : Map V) → AllIn m → AllIn (delete k m)
  unfolding delete
  delete-AllIn k [] h = tt
  delete-AllIn k ((k', v') ∷ m) h =
      if_holds AllIn (k' == k) (delete-AllIn k m h.1) (h.0, delete-AllIn k m h.1)

  -- Whether or not it is there, what is found has the property.
  abbrev pub IfSome : Option V → Type 0
  IfSome none = Unit {0}
  IfSome (some v) = P v

  pub get-AllIn : (k : String) (m : Map V) → AllIn m → IfSome (get k m)
  unfolding get
  get-AllIn k [] h = tt
  get-AllIn k ((k', v') ∷ m) h = if_holds IfSome (k' == k) h.0 (get-AllIn k m h.1)
