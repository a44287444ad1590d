-- ===== src/Prelude/Result.antt =====
-- Python's exceptions as values: the class of the exception and its message.
use mathlib.Core.Path.{◌≡◌, refl, subst}
use mathlib.Core.List.{List, [], ◌∷◌, ◌++◌}
use fabricperf.Prelude.Text.{Text}
use fabricperf.Prelude.Lists.{All, All-append}

pub data ErrorKind : Type 0 where
  value_error file_not_found_error os_error index_error key_error type_error import_error :
      ErrorKind
  name_error zero_division_error struct_error attribute_error : ErrorKind

pub data Result {ℓ} (A : Type ℓ) : Type ℓ where
  ok : A → Result A
  raise : ErrorKind → Text → Result A

infixl 5 ◌>>=◌
abbrev pub ◌>>=◌ {ℓ κ} : {S : Type ℓ} {T : Type κ} → Result S → (S → Result T) → Result T
raise kind message >>= next = raise kind message
ok s >>= next = next s

-- A sequence that succeeds has passed through a value of its first part.
pub bind-ok {ℓ κ} :
    {S : Type ℓ} {T : Type κ} (first : Result S) (next : S → Result T) {t : T}
    → (first >>= next) ≡ ok t
    → (s : S) × (first ≡ ok s) × (next s ≡ ok t)
bind-ok (raise kind message) next h = absurd (cc)
bind-ok (ok s) next h = (s, refl, h)

-- A loop whose rounds each append to one output list, and may raise.
abbrev pub collect {ℓ κ} :
    {A : Type ℓ} {B : Type κ} → (A → Result (List B)) → List A → Result (List B)
collect f [] = ok []
collect f (x ∷ xs) = f x >>= λ ys. collect f xs >>= λ zs. ok (ys ++ zs)

-- A loop that updates a state and may raise.
abbrev pub fold {ℓ κ} : {A : Type ℓ} {S : Type κ} → (S → A → Result S) → S → List A → Result S
fold f s [] = ok s
fold f s (x ∷ xs) = f s x >>= λ s'. fold f s' xs

pub ok_injective {ℓ} : {A : Type ℓ} {a b : A} → ok a ≡ ok b → a ≡ b
ok_injective h = cc h

-- What each round keeps, the loop keeps.
pub fold_keeps {ℓ κ μ} :
    {A : Type ℓ} {S : Type κ} (P : S → Type μ) (f : S → A → Result S)
    → ((s t : S) (x : A) → P s → f s x ≡ ok t → P t)
    → (s t : S) (xs : List A) → P s
    → fold f s xs ≡ ok t
    → P t
fold_keeps P f step s t [] p e = subst P (ok_injective e) p
fold_keeps P f step s t (x ∷ xs) p e =
    let (s', e₁, e₂) = bind-ok (f s x) (λ s'. fold f s' xs) e in
    fold_keeps P f step s' t xs (step s s' x p e₁) e₂

-- What holds of each element whose round does not raise holds of all elements of a loop that does not.
pub fold_rounds {ℓ κ μ} :
    {A : Type ℓ} {S : Type κ} (P : A → Type μ) (f : S → A → Result S)
    → ((s t : S) (x : A) → f s x ≡ ok t → P x)
    → (s t : S) (xs : List A) → fold f s xs ≡ ok t
    → All P xs
fold_rounds P f step s t [] e = tt
fold_rounds P f step s t (x ∷ xs) e =
    let (s', e₁, e₂) = bind-ok (f s x) (λ s'. fold f s' xs) e in
    (step s s' x e₁, fold_rounds P f step s' t xs e₂)

-- What each round's outputs have, the loop's outputs have.
pub collect_all {ℓ κ μ} :
    {A : Type ℓ} {B : Type κ} (P : B → Type μ) (f : A → Result (List B))
    → ((x : A) (ys : List B) → f x ≡ ok ys → All P ys)
    → (xs : List A) (ys : List B) → collect f xs ≡ ok ys
    → All P ys
collect_all P f each [] ys e = subst (All P) (ok_injective e) tt
collect_all P f each (x ∷ xs) ys e =
    let (here, e₁, e₂) = bind-ok (f x) _ e in
    let (rest, e₃, e₄) = bind-ok (collect f xs) _ e₂ in
    subst (All P) (ok_injective e₄)
      (All-append P here rest (each x here e₁) (collect_all P f each xs rest e₃))

-- The first round that raises ends the loop.
pub collect_raises {ℓ κ} :
    {A : Type ℓ} {B : Type κ} (f : A → Result (List B)) (before after : List A) (x : A)
    (done : List B) (kind : ErrorKind) (m : Text)
    → collect f before ≡ ok done
    → f x ≡ raise kind m
    → collect f (before ++ x ∷ after) ≡ raise kind m
collect_raises f [] after x done kind m h k = rw k refl
collect_raises f (b ∷ before) after x done kind m h k =
    let (here, e₁, e₂) = bind-ok (f b) _ h in
    let (rest, e₃, _) = bind-ok (collect f before) _ e₂ in
    rw (e₁, collect_raises f before after x rest kind m e₃ k) refl
