-- ===== src/Common/Plain.antt =====
-- Texts without spaces, which `str.strip()` leaves as they are.
use mathlib.Core.List.{reverse, reverse_aux, reverse-reverse}
use fuck_wjx.Common.{ℕ, ◌≡◌, refl, Bool, true, not, ◌&&◌, [], ◌∷◌, ◌++◌, arith}
use fuck_wjx.Common.Text.{Text, is_space, lstrip, strip}

unfoldable pub none_of : (ℕ → Bool) → Text → Bool
none_of f [] = true
none_of f (c ∷ s) = not (f c) && none_of f s

none_of-reverse_aux :
    (f : ℕ → Bool) (s t : Text)
    → none_of f s ≡ true
    → none_of f t ≡ true
    → none_of f (reverse_aux s t) ≡ true
unfolding none_of
none_of-reverse_aux f [] t h k = k
none_of-reverse_aux f (c ∷ s) t h k = none_of-reverse_aux f s (c ∷ t) (ground arith) (ground arith)

pub none_of-reverse : (f : ℕ → Bool) (s : Text) → none_of f s ≡ true → none_of f (reverse s) ≡ true
none_of-reverse f s h = none_of-reverse_aux f s [] h (unfold none_of in refl)

pub none_of-append :
    (f : ℕ → Bool) (s t : Text)
    → none_of f s ≡ true
    → none_of f t ≡ true
    → none_of f (s ++ t) ≡ true
unfolding none_of
none_of-append f [] t h k = k
none_of-append f (c ∷ s) t h k = ground (arith, none_of-append f s t)

lstrip-none_of : (s : Text) → none_of is_space s ≡ true → lstrip s ≡ s
unfolding lstrip none_of
lstrip-none_of [] h = refl
lstrip-none_of (c ∷ s) h = ground arith

-- `strip` changes no text without a space.
pub strip-none_of : (s : Text) → none_of is_space s ≡ true → strip s ≡ s
unfolding strip
strip-none_of s h =
    let r = reverse s in
    rw (lstrip-none_of s h, lstrip-none_of r (none_of-reverse is_space s h)) (reverse-reverse s)
