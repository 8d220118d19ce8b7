-- ===== src/Ident.antt =====
-- The identifiers that `^[A-Za-z_][A-Za-z0-9_]*$` matches: validIdentRe of
-- dasher/internal/config/config.go and ValidColumn of dasher/internal/lookup/bind.go.
use Prim.Native.Char.{code}
use dasher.Common.{
  ℕ, String, Bool, true, false, ◌&&◌, ◌||◌, leb, ◌==ℕ◌, ◌==◌, not, ◌≡◌, String-cases, inl, inr,
}

abbrev is_word_start : ℕ → Bool
is_word_start c = (leb b'A' c && leb c b'Z') || ((leb b'a' c && leb c b'z') || (c ==ℕ b'_'))

abbrev is_word : ℕ → Bool
is_word c = is_word_start c || (leb b'0' c && leb c b'9')

all_word : String → Bool
all_word String.[] = true
all_word (String.◌∷◌ c s) = is_word (code c) && all_word s

unfoldable pub match_ident : String → Bool
unfolding all_word
match_ident String.[] = false
match_ident (String.◌∷◌ c s) = is_word_start (code c) && all_word s

-- lookup.ValidColumn
unfoldable pub valid_column : String → Bool
unfolding match_ident
valid_column s = not (s == "") && match_ident s

-- The two packages accept the same columns.
pub valid_column-match_ident : (s : String) → valid_column s ≡ match_ident s
unfolding valid_column
valid_column-match_ident s = elim (String-cases s "") [
  | inl (empty, _) ↦ rw empty
  | inr (_, other) ↦ rw other
]
