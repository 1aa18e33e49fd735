-- ===== src/Loader/Total.antt =====
-- kernel/src/loader.rs: the additions of the loader, which overflow checks guard.
use native.Mathlib.Nat.{pow-suc, one-le-pow}
use alexos.Base.{
  ℕ, zero, suc, ◌+◌, ◌*◌, ◌^◌, ◌≤◌, ◌<◌, ◌≡◌, ◌≢◌, refl, List, [], ◌∷◌, length, take, drop, arith,
  Option, none, some, Bool, ◌==◌, not, ◌||◌, get_or, true, false, ltb, leb,
}
use alexos.Base.Words.{word_mod, next_multiple_of}
use alexos.Loader.{
  Load, done, refused, panics, ◌>>=◌, Segment, Header, from_le_bytes, read_int, read_field,
  read_segment, check_segment, has_magic, read_header, load_entry, load_header, load_headers, load,
  check_format, kept, pt_load, refuse_if, et_exec, em_riscv, refuse_if, bad_segment, LoadError,
  truncated, bad_magic, wrong_format,
}
use alexos.Mm.Addr.{page_size}
use alexos.Loader.Segments.{>>=-done, IsSafe, read_segment-IsSafe}

-- Every element is a byte.
abbrev pub IsBytes : List ℕ → Type 0
IsBytes [] = Unit
IsBytes (b ∷ bs) = (b < 256) × IsBytes bs

IsBytes-drop : (n : ℕ) (bs : List ℕ) → IsBytes bs → IsBytes (drop n bs)
IsBytes-drop zero bs h = h
IsBytes-drop (suc n) [] h = h
IsBytes-drop (suc n) (b ∷ bs) h = IsBytes-drop n bs h.1

from_le_bytes-lt : (n : ℕ) (bs : List ℕ) → IsBytes bs → from_le_bytes (take n bs) < 256 ^ n
unfolding from_le_bytes
from_le_bytes-lt zero bs h = omega arith
from_le_bytes-lt (suc n) [] h = omega (arith, one-le-pow (suc n) 256)
from_le_bytes-lt (suc n) (b ∷ bs) h = omega (arith, pow-suc 256 n, from_le_bytes-lt n bs h.1)

read_int-bounds :
    (n : ℕ) (image : List ℕ) (off : ℕ) {v : ℕ}
    → IsBytes image
    → read_int n image off ≡ done v
    → (off + n ≤ length image) × (v < 256 ^ n)
unfolding read_int
read_int-bounds n image off bytes e =
    ground (arith, from_le_bytes-lt n (drop off image) (IsBytes-drop off image bytes))

read_int-ne-panics : (n : ℕ) (image : List ℕ) (off : ℕ) → read_int n image off ≢ panics
unfolding read_int
read_int-ne-panics n image off e = ground arith

>>=-ne-panics {ℓ κ} :
    {A : Type ℓ} {B : Type κ} (m : Load A) (f : A → Load B)
    → m ≢ panics
    → ((a : A) → m ≡ done a → f a ≢ panics)
    → (m >>= f) ≢ panics
>>=-ne-panics (done a) f p q = q a refl
>>=-ne-panics (refused e) f p q = λ h. cc
>>=-ne-panics panics f p q = absurd (p refl)

check_segment-ne-panics :
    (image : List ℕ) (flags offset vaddr filesz memsz : ℕ)
    → check_segment image flags offset vaddr filesz memsz ≢ panics
unfolding check_segment
check_segment-ne-panics image flags offset vaddr filesz memsz e = ground arith

read_field-ne-panics :
    (n : ℕ) (image : List ℕ) (ph off : ℕ) → ph + off < word_mod → read_field n image ph off ≢ panics
unfolding read_field
read_field-ne-panics n image ph off h =
    let fits : leb word_mod (ph + off) ≡ false = ground arith in
    rw fits (read_int-ne-panics n image (ph + off))

read_segment-ne-panics :
    (image : List ℕ) (ph : ℕ) → ph + 40 < word_mod → read_segment image ph ≢ panics
unfolding read_segment
read_segment-ne-panics image ph h =
    >>=-ne-panics _ _ (read_field-ne-panics 4 image ph 4 (omega arith)) λ flags _.
      >>=-ne-panics _ _ (read_field-ne-panics 8 image ph 8 (omega arith)) λ offset _.
        >>=-ne-panics _ _ (read_field-ne-panics 8 image ph 16 (omega arith)) λ vaddr _.
          >>=-ne-panics _ _ (read_field-ne-panics 8 image ph 32 (omega arith)) λ filesz _.
            >>=-ne-panics _ _ (read_field-ne-panics 8 image ph 40 (omega arith))
              λ memsz _. check_segment-ne-panics image flags offset vaddr filesz memsz

refuse_if-ne-panics : (b : Bool) (e : LoadError) → refuse_if b e ≢ panics
refuse_if-ne-panics true e = λ h. cc
refuse_if-ne-panics false e = λ h. cc

done-ne-panics {ℓ} : {A : Type ℓ} (a : A) → done a ≢ panics
done-ne-panics a e = cc

check_format-ne-panics : (image : List ℕ) → check_format image ≢ panics
unfolding check_format
check_format-ne-panics image =
    >>=-ne-panics _ _ (refuse_if-ne-panics (ltb (length image) 64) truncated) λ _ _.
      >>=-ne-panics _ _ (refuse_if-ne-panics (not (has_magic image)) bad_magic) λ _ _.
        >>=-ne-panics _ _
          (refuse_if-ne-panics (not (get_or image 4 0 == 2) || not (get_or image 5 0 == 1))
            wrong_format)
          λ _ _. >>=-ne-panics _ _ (read_int-ne-panics 2 image 16) λ e_type _.
            >>=-ne-panics _ _ (read_int-ne-panics 2 image 18) λ e_machine _.
              refuse_if-ne-panics (not (e_type == et_exec) || not (e_machine == em_riscv))
                wrong_format

read_header-ne-panics : (image : List ℕ) → read_header image ≢ panics
unfolding read_header
read_header-ne-panics image = >>=-ne-panics _ _ (check_format-ne-panics image) λ _ _.
    >>=-ne-panics _ _ (read_int-ne-panics 8 image 24) λ entry _.
      >>=-ne-panics _ _ (read_int-ne-panics 8 image 32) λ phoff _.
        >>=-ne-panics _ _ (read_int-ne-panics 2 image 54) λ phentsize _.
          >>=-ne-panics _ _ (read_int-ne-panics 2 image 56) λ phnum _. done-ne-panics _

read_header-bounds :
    (image : List ℕ) {h : Header}
    → IsBytes image
    → read_header image ≡ done h
    → (h.phoff < word_mod) × (h.phentsize < 2 ^ 16)
unfolding read_header
read_header-bounds image {h} bytes e =
    let (_, _, e₁) = >>=-done (check_format image) _ e in
    let (_, _, e₂) = >>=-done (read_int 8 image 24) _ e₁ in
    let (phoff, read_off, e₃) = >>=-done (read_int 8 image 32) _ e₂ in
    let (size, read_size, e₄) = >>=-done (read_int 2 image 54) _ e₃ in
    let (_, _, e₅) = >>=-done (read_int 2 image 56) _ e₄ in
    let off = (read_int-bounds 8 image 32 bytes read_off).1 in
    let small = (read_int-bounds 2 image 54 bytes read_size).1 in
    (rw (← header_eq (λ k. k.phoff) e₅) off, rw (← header_eq (λ k. k.phentsize) e₅) small)
  where
    header_eq : {a b : Header} (f : Header → ℕ) → done a ≡ done b → f a ≡ f b
    header_eq f p = cc

-- The address of header `i` is in the word; from the second header on the one before was read.
abbrev Within : List ℕ → Header → ℕ → Type 0
Within image h zero = h.phoff < word_mod
Within image h (suc i) = h.phoff + i * h.phentsize + 4 ≤ length image

Within-word :
    (image : List ℕ) (h : Header) (i : ℕ)
    → length image < 2 ^ 63
    → h.phentsize < 2 ^ 16
    → Within image h i
    → h.phoff + i * h.phentsize < word_mod
Within-word image h zero small size w = omega arith
Within-word image h (suc i) small size w = omega arith

kept-ne-panics {ℓ} :
    {W : Type ℓ} (r : Option W) (brk : ℕ) (s : Segment) → IsSafe s → kept r brk s ≢ panics
unfolding kept
kept-ne-panics none brk s safe = λ h. cc
kept-ne-panics (some w) brk s safe =
    let below = safe.in_user_half in
    let fits : leb word_mod (next_multiple_of s.end page_size) ≡ false = ground arith in
    rw fits (λ h. cc)

module _ {W : Type 0} (push : W → Segment → Option W) where
  load_entry-ne-panics :
      (image : List ℕ) (ph : ℕ) (b : Bool) (acc : W × ℕ)
      → ph + 40 < word_mod
      → load_entry push image ph b acc ≢ panics
  unfolding load_entry
  load_entry-ne-panics image ph false acc h = λ e. cc
  load_entry-ne-panics image ph true (w, brk) h =
      >>=-ne-panics _ _ (read_segment-ne-panics image ph h)
        λ s e. kept-ne-panics (push w s) brk s (read_segment-IsSafe image ph e)

  load_header-ne-panics :
      (image : List ℕ) (h : Header) (i : ℕ) (acc : W × ℕ)
      → IsBytes image
      → length image < 2 ^ 63
      → h.phoff + i * h.phentsize < word_mod
      → load_header push image h i acc ≢ panics
  unfolding load_header
  load_header-ne-panics image h i (w, brk) bytes short small =
      let ph = h.phoff + i * h.phentsize in
      let fits : leb word_mod ph ≡ false = ground arith in
      rw fits (
        >>=-ne-panics (read_int 4 image ph) _ (read_int-ne-panics 4 image ph) (λ p_type read.
          let inside = (read_int-bounds 4 image ph bytes read).0 in
          load_entry-ne-panics image ph (p_type == pt_load) (w, brk)
            (omega (arith, inside, short))))

  load_header-Within :
      (image : List ℕ) (h : Header) (i : ℕ) (acc : W × ℕ) {acc' : W × ℕ}
      → IsBytes image
      → h.phoff + i * h.phentsize < word_mod
      → load_header push image h i acc ≡ done acc'
      → Within image h (i + 1)
  unfolding load_header
  load_header-Within image h i (w, brk) bytes small e =
      let fits : leb word_mod (h.phoff + i * h.phentsize) ≡ false = ground arith in
      let e' = rw fits at e in
      let (v, read, _) = >>=-done (read_int 4 image (h.phoff + i * h.phentsize)) _ e' in
      let next : i + 1 ≡ suc i = omega arith in
      rw next (read_int-bounds 4 image (h.phoff + i * h.phentsize) bytes read).0

  load_headers-ne-panics :
      (count : ℕ) (image : List ℕ) (h : Header) (i : ℕ) (acc : W × ℕ)
      → IsBytes image
      → length image < 2 ^ 63
      → h.phentsize < 2 ^ 16
      → Within image h i
      → load_headers push count image h i acc ≢ panics
  unfolding load_headers
  load_headers-ne-panics zero image h i acc bytes small size w = λ e. cc
  load_headers-ne-panics (suc count) image h i acc bytes small size w =
      let inside = Within-word image h i small size w in
      >>=-ne-panics (load_header push image h i acc) _
        (load_header-ne-panics image h i acc bytes small inside)
        (λ acc' e.
          load_headers-ne-panics count image h (i + 1) acc' bytes small size
            (load_header-Within image h i acc bytes inside e))

  -- No image makes the loader panic: whatever its bytes are, given that they are fewer than 2^63, the
  -- unchecked additions to the offset of a program header and the rounding of a segment's end do not
  -- leave the word.
  pub load-ne-panics :
      (fresh : Option W) (image : List ℕ)
      → IsBytes image
      → length image < 2 ^ 63
      → load push fresh image ≢ panics
  unfolding load
  load-ne-panics none image bytes small =
      >>=-ne-panics (read_header image) _ (read_header-ne-panics image) λ h read. λ e. cc
  load-ne-panics (some w) image bytes small =
      >>=-ne-panics (read_header image) _ (read_header-ne-panics image) λ h read.
        let (off, size) = read_header-bounds image bytes read in
        >>=-ne-panics (load_headers push h.phnum image h 0 (w, 0)) _
          (load_headers-ne-panics h.phnum image h 0 (w, 0) bytes small size off)
          λ acc _.
            >>=-ne-panics _ _ (refuse_if-ne-panics (acc.1 == 0) bad_segment) λ _ _. done-ne-panics _
