-- ===== src/Shadow/BiMap.antt =====
-- The `bimap` crate's `BiMap<u32, u32>`, which the Shadow Table keeps its ids in: an interface with
-- the documented laws, and one value of it for the tests.
use wl_resprox.Prelude.{ℕ, ◌≡◌, refl, Bool, false, Option, none, some, if◌then◌else◌, ◌==◌, arith}

-- `o == Some(r)`.
abbrev pub is_some_of : ℕ → Option ℕ → Bool
is_some_of r none = false
is_some_of r (some x) = x == r

-- `insert` removes the pairs that hold either value before it adds the new pair.
pub record BiMap (B : Type 0) : Type 0 where
  pub empty : B
  pub insert : B → ℕ → ℕ → B
  pub get_by_left : B → ℕ → Option ℕ
  pub get_by_right : B → ℕ → Option ℕ
  pub remove_by_left : B → ℕ → B
  pub get_by_left-empty : (l : ℕ) → get_by_left empty l ≡ none
  pub get_by_left-insert :
      (b : B) (l r k : ℕ)
      → get_by_left (insert b l r) k ≡ (
          if k == l
          then some r
          else if is_some_of r (get_by_left b k)
          then none
          else get_by_left b k)
  pub get_by_left-remove :
      (b : B) (l k : ℕ)
      → get_by_left (remove_by_left b l) k ≡ (if k == l then none else get_by_left b k)
  pub left_to_right : (b : B) (l r : ℕ) → get_by_left b l ≡ some r → get_by_right b r ≡ some l
  pub right_to_left : (b : B) (l r : ℕ) → get_by_right b r ≡ some l → get_by_left b l ≡ some r

-- Two functions that invert each other.
abbrev pub Pairing : Type 0
Pairing =
    (left : ℕ → Option ℕ) × (right : ℕ → Option ℕ) × ((l r : ℕ)
      → left l ≡ some r
      → right r ≡ some l)
    × ((l r : ℕ) → right r ≡ some l → left l ≡ some r)

unfoldable pub put : (ℕ → Option ℕ) → ℕ → ℕ → ℕ → Option ℕ
put f l r k = if k == l then some r else if is_some_of r (f k) then none else f k

pub put_inverse :
    (f g : ℕ → Option ℕ) (a b : ℕ)
    → ((l r : ℕ) → f l ≡ some r → g r ≡ some l)
    → (l r : ℕ) → put f a b l ≡ some r
    → put g b a r ≡ some l
unfolding put
put_inverse f g a b inv l r h = ground (arith, inv l r)

unfoldable pub cut : (ℕ → Option ℕ) → ℕ → ℕ → Option ℕ
cut f l k = if k == l then none else f k

unfoldable pub cut_right : (ℕ → Option ℕ) → ℕ → ℕ → Option ℕ
cut_right g l r = if is_some_of l (g r) then none else g r

pub cut_inverse :
    (f g : ℕ → Option ℕ) (a l r : ℕ)
    → (f l ≡ some r → g r ≡ some l)
    → cut f a l ≡ some r
    → cut_right g a r ≡ some l
unfolding cut cut_right
cut_inverse f g a l r inv h = ground arith

pub cut_inverse_back :
    (f g : ℕ → Option ℕ) (a l r : ℕ)
    → (g r ≡ some l → f l ≡ some r)
    → cut_right g a r ≡ some l
    → cut f a l ≡ some r
unfolding cut cut_right
cut_inverse_back f g a l r inv h = ground arith

pub absent : {l r : ℕ} → none ≡ some r → none ≡ some l
absent h = cc

unfoldable pub pairing : BiMap Pairing
unfolding put cut cut_right
pairing = record {
  empty = ((λ l. none), (λ r. none), (λ l r h. absent h), (λ l r h. absent h));
  insert = λ b l r. (
    put b.0 l r,
    put b.1 r l,
    put_inverse b.0 b.1 l r b.2,
    λ x y h. put_inverse b.1 b.0 r l (λ p q. b.3 q p) y x h,
  );
  get_by_left = λ b. b.0;
  get_by_right = λ b. b.1;
  remove_by_left = λ b l. (
    cut b.0 l,
    cut_right b.1 l,
    (λ x y h. cut_inverse b.0 b.1 l x y (b.2 x y) h),
    (λ x y h. cut_inverse_back b.0 b.1 l x y (b.3 x y) h),
  );
  get_by_left-empty = λ l. refl;
  get_by_left-insert = λ b l r k. refl;
  get_by_left-remove = λ b l k. refl;
  left_to_right = λ b. b.2;
  right_to_left = λ b. b.3;
}
