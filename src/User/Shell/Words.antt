-- ===== src/User/Shell/Words.antt =====
-- user/src/bin/sh.rs: the fields of a command line, as a function on its text.
use alexos.Base.{ℕ, zero, suc, ◌+◌, ◌≡◌, refl, true, false, List, [], ◌∷◌, ◌==◌, if◌then◌else◌}

-- Bytes in front of the first field, and a byte in front of a text.
abbrev pub prepend : ℕ → List (List ℕ) → List (List ℕ)
prepend x [] = (x ∷ []) ∷ []
prepend x (w ∷ ws) = (x ∷ w) ∷ ws

abbrev pub attach : ℕ → List ℕ → List (List ℕ) → List (List ℕ)
attach x [] ws = (x ∷ []) ∷ ws
attach x (y ∷ _) ws = if y == 0x20 then (x ∷ []) ∷ ws else prepend x ws

-- The maximal runs of bytes other than a space.
unfoldable pub words : List ℕ → List (List ℕ)
words [] = []
words (x ∷ xs) = let rest = words xs in if x == 0x20 then rest else attach x xs rest

-- The text of `n` bytes at an offset.
unfoldable pub text : (ℕ → ℕ) → ℕ → ℕ → List ℕ
text line i zero = []
text line i (suc n) = line i ∷ text line (i + 1) n

pub words-space :
    (line : ℕ → ℕ) (i n : ℕ)
    → (line i == 0x20) ≡ true
    → words (text line i (suc n)) ≡ words (text line (i + 1) n)
unfolding words text
words-space line i n h = rw h refl

-- A field that ends at the next byte, and one that goes on.
pub words-last :
    (line : ℕ → ℕ) (i : ℕ)
    → (line i == 0x20) ≡ false
    → words (text line i 1) ≡ (line i ∷ []) ∷ words (text line (i + 1) 0)
unfolding words text
words-last line i h = rw h refl

pub words-ends :
    (line : ℕ → ℕ) (i n : ℕ)
    → (line i == 0x20) ≡ false
    → (line (i + 1) == 0x20) ≡ true
    → words (text line i (suc (suc n))) ≡ (line i ∷ []) ∷ words (text line (i + 1) (suc n))
unfolding words text
words-ends line i n h e = rw (h, e) refl

pub words-goes :
    (line : ℕ → ℕ) (i n : ℕ)
    → (line i == 0x20) ≡ false
    → (line (i + 1) == 0x20) ≡ false
    → words (text line i (suc (suc n))) ≡ prepend (line i) (words (text line (i + 1) (suc n)))
unfolding words text
words-goes line i n h e = rw (h, e) refl
