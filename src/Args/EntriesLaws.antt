-- ===== src/Args/EntriesLaws.antt =====
-- Reading arguments after writing them.
use memflow.Prelude.{
  ◌≡◌, refl, ap, sym, ◌∙◌, arith, some, none, [], ◌∷◌, true, false, ◌==◌, if◌then◌else◌, inl, inr,
  Bool-cases,
}
use mathlib.Core.Path.{subst}
use mathlib.Core.List.{Permᴰ}
use memflow.Args.Text.{Text}
use memflow.Args.Entries.{ArgEntry, Args, text_eq, insert, get}

pub text_eq_refl : (t : Text) → text_eq t t ≡ true
text_eq_refl [] = refl
text_eq_refl (x ∷ xs) = ground (arith, text_eq_refl xs)

pub text_eq_sound : (t u : Text) → text_eq t u ≡ true → t ≡ u
text_eq_sound [] [] e = refl
text_eq_sound [] (y ∷ ys) e = cc
text_eq_sound (x ∷ xs) [] e = cc
text_eq_sound (x ∷ xs) (y ∷ ys) e =
    let head : x ≡ y = ground (arith, e) in
    let tail : text_eq xs ys ≡ true = ground (arith, e) in
    ap (λ z. z ∷ xs) head ∙ ap (◌∷◌ y) (text_eq_sound xs ys tail)

pub text_eq-sym : (t u : Text) → text_eq t u ≡ text_eq u t
text_eq-sym [] [] = refl
text_eq-sym [] (y ∷ ys) = refl
text_eq-sym (x ∷ xs) [] = refl
text_eq-sym (x ∷ xs) (y ∷ ys) =
    let same : (x == y) ≡ (y == x) = ground arith in rw (same, text_eq-sym xs ys) refl

pub get-insert :
    (args : Args) (key value k : Text)
    → get (insert args key value) k ≡ (if text_eq key k then some value else get args k)
unfolding get insert
get-insert [] key value k = refl
get-insert (a ∷ args) key value k = elim (Bool-cases (text_eq a.key key)) [
  | inl e ↦
      let same : text_eq a.key k ≡ text_eq key k =
        ap (λ t. text_eq t k) (text_eq_sound a.key key e) in
      elim (Bool-cases (text_eq key k)) [
        | inl f ↦ rw (e, same, f) refl
        | inr f ↦ rw (e, same, f) refl
      ]
  | inr e ↦ elim (Bool-cases (text_eq a.key k)) [
    | inl f ↦
        let other : text_eq key k ≡ false =
          ap (text_eq key) (sym (text_eq_sound a.key k f)) ∙ text_eq-sym key a.key ∙ e in
        rw (e, f, other) refl
    | inr f ↦ rw (e, f) (get-insert args key value k)
  ]
]

-- No two entries have the same key.
unfoldable pub IsUnique : Args → Type 0
IsUnique [] = Unit
IsUnique (a ∷ args) = (get args a.key ≡ none) × IsUnique args

-- An insertion keeps the keys apart.
pub insert-IsUnique :
    (args : Args) (key value : Text) → IsUnique args → IsUnique (insert args key value)
unfolding IsUnique get insert
insert-IsUnique [] key value u = (refl, tt)
insert-IsUnique (a ∷ args) key value (h, u) = elim (Bool-cases (text_eq a.key key)) [
  | inl e ↦ rw e (h, u)
  | inr e ↦
      let other : text_eq key a.key ≡ false = text_eq-sym key a.key ∙ e in
      rw e (get-insert args key value a.key ∙ rw other h, insert-IsUnique args key value u)
]

not_none : {A : Type 0} (a : A) → ¬ (some a ≡ none)
not_none a e = cc

absent : (a b : ArgEntry) (args : Args) → get (b ∷ args) a.key ≡ none → text_eq b.key a.key ≡ false
unfolding get
absent a b args h = elim (Bool-cases (text_eq b.key a.key)) [
  | inl e ↦ absurd (not_none b.value (rw e at h))
  | inr e ↦ e
]

get-swap :
    (a b : ArgEntry) (args : Args) (k : Text)
    → text_eq b.key a.key ≡ false
    → get (a ∷ b ∷ args) k ≡ get (b ∷ a ∷ args) k
unfolding get
get-swap a b args k other = elim (Bool-cases (text_eq a.key k)) [
  | inl e ↦
      let f : text_eq b.key k ≡ false =
        ap (text_eq b.key) (sym (text_eq_sound a.key k e)) ∙ other in
      rw (e, f) refl
  | inr e ↦ rw e refl
]

-- Entries with distinct keys read the same in any order.
pub get-Perm :
    {xs ys : Args} → Permᴰ xs ys → IsUnique xs → ((k : Text) → get xs k ≡ get ys k) × IsUnique ys
unfolding get IsUnique
get-Perm Permᴰ.nil u = (λ k. refl, tt)
get-Perm (Permᴰ.cons {a = a} {l₁ = l₁} {l₂ = l₂} e p) (h, u) =
    let (same, v) = get-Perm p u in
    subst (λ b. ((k : Text) → get (a ∷ l₁) k ≡ get (b ∷ l₂) k) × IsUnique (b ∷ l₂)) e
      (λ k. rw (same k) refl, (sym (same a.key) ∙ h, v))
get-Perm (Permᴰ.swap {a = a} {b = b} {a' = c} {l = l} e f) (h, (g, u)) =
    let other = absent a b l h in
    let away : get l a.key ≡ none = rw other at h in
    let back : text_eq a.key b.key ≡ false = text_eq-sym a.key b.key ∙ other in
    subst (λ b'. ((k : Text) → get (a ∷ b ∷ l) k ≡ get (c ∷ b' ∷ l) k) × IsUnique (c ∷ b' ∷ l)) e
      (subst (λ a'. ((k : Text) → get (a ∷ b ∷ l) k ≡ get (a' ∷ a ∷ l) k) × IsUnique (a' ∷ a ∷ l)) f
        (λ k. get-swap a b l k other, (rw back g, (away, u))))
get-Perm (Permᴰ.trans p q) u =
    let (same, v) = get-Perm p u in let (same', w) = get-Perm q v in (λ k. same k ∙ same' k, w)
