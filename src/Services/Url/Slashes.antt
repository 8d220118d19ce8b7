-- ===== src/Services/Url/Slashes.antt =====
-- The slashes at the joint of a URL.
use Prim.Native.Char.{code}
use text.Mathlib.TextLemmas.{nil-append, cons-append, cons≢nil}
use dasher.Common.{ℕ, zero, suc, String, ◌<>◌, ◌≡◌, refl, arith, String-cases, inl, inr}
use dasher.Services.Url.{trim_left, trim_right, join_url}

-- `n` slashes.
abbrev pub slashes : ℕ → String
slashes zero = ""
slashes (suc n) = String.◌∷◌ "/" (slashes n)

abbrev pub StartsWithSlash : String → Type 0
StartsWithSlash String.[] = ⊥
StartsWithSlash (String.◌∷◌ c s) = code c ≡ b'/'

abbrev pub EndsWithSlash : String → Type 0
EndsWithSlash String.[] = ⊥
EndsWithSlash (String.◌∷◌ c String.[]) = code c ≡ b'/'
EndsWithSlash (String.◌∷◌ c (String.◌∷◌ d s)) = EndsWithSlash (String.◌∷◌ d s)

trim_left_of_not : (p : String) → ¬ StartsWithSlash p → trim_left p ≡ p
unfolding trim_left
trim_left_of_not String.[] h = refl
trim_left_of_not (String.◌∷◌ c p) h = ground (arith, h)

trim_left-slashes : (n : ℕ) (p : String) → ¬ StartsWithSlash p → trim_left (slashes n <> p) ≡ p
unfolding trim_left
trim_left-slashes zero p h = rw (nil-append p) (trim_left_of_not p h)
trim_left-slashes (suc n) p h = rw (cons-append _ (slashes n) p) (trim_left-slashes n p h)

trim_right-slashes : (m : ℕ) → trim_right (slashes m) ≡ ""
unfolding trim_right
trim_right-slashes zero = refl
trim_right-slashes (suc m) = rw (trim_right-slashes m) refl

trim_right-append : (b : String) (m : ℕ) → ¬ EndsWithSlash b → trim_right (b <> slashes m) ≡ b
unfolding trim_right
trim_right-append String.[] m h = rw (nil-append (slashes m)) (trim_right-slashes m)
trim_right-append (String.◌∷◌ c String.[]) m h =
    rw (cons-append c "" (slashes m), nil-append (slashes m), trim_right-slashes m)
      (ground (arith, h))
trim_right-append (String.◌∷◌ c (String.◌∷◌ d b)) m h =
    rw (cons-append c (String.◌∷◌ d b) (slashes m), trim_right-append (String.◌∷◌ d b) m h)
      (elim (String-cases (String.◌∷◌ d b) "") [
        | inl (empty, _) ↦ absurd (cons≢nil empty)
        | inr (_, other) ↦ rw other refl
      ])

-- A base URL and a path are joined by exactly one slash, however many end the one and start the
-- other: what stands before and behind these slashes is kept.
pub join_url-slashes :
    (b p : String) (m n : ℕ)
    → ¬ EndsWithSlash b
    → ¬ StartsWithSlash p
    → join_url (b <> slashes m) (slashes n <> p) ≡ b <> "/" <> p
unfolding join_url
join_url-slashes b p m n h k = rw (trim_right-append b m h, trim_left-slashes n p k) refl
